-- ===== src/Integrations/Clickhouse/Ident.antt =====
-- `_db_ident` of app/modules/operations/service.py, which is `_ident` of
-- app/modules/assurance/service.py: the name of the database, quoted for a query.
use Prim.Native.Char.{Char, code}
use Prim.Native.String.{String, [], ◌∷◌, ◌++◌}
use ra_backend.Base.{Bool, ◌≡◌, refl, beq, if◌then◌else◌}

unfoldable pub is_tick : Char → Bool
is_tick c = beq (code c) b'`'

-- `s.replace("`", "``")`
unfoldable pub doubled : String → String
unfolding is_tick
doubled [] = []
doubled (c ∷ s) = let rest = doubled s in if is_tick c then c ∷ c ∷ rest else c ∷ rest

unfoldable pub db_ident : String → String
unfolding doubled
db_ident database = "`" ++ doubled database ++ "`"

test_db_ident : db_ident "ra`fms" ≡ "`ra``fms`"
unfolding db_ident doubled is_tick
test_db_ident = refl
