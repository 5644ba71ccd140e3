-- ===== src/Core/Middleware.antt =====
-- app/core/middleware.py, `client_ip`.
pub mod Dispatch
pub mod Laws
use ra_backend.Base.{◌≡◌, refl, String, Option, none, some, List, [], ◌∷◌, non_empty, if◌then◌else◌}
use ra_backend.Base.Text.{is_comma, pieces, strip}

-- `xs[0]` of a split, which is never empty
first : List String → String
first [] = ""
first (s ∷ r) = s

-- The `X-Forwarded-For` header, and the host of the peer.
unfoldable pub client_ip : Option String → Option String → Option String
unfolding is_comma pieces strip first
client_ip none host = host
client_ip (some forwarded) host =
    if non_empty forwarded then some (strip (first (pieces is_comma forwarded))) else host

test_client_ip : client_ip (some " 10.0.0.7 , 172.16.0.1") none ≡ some "10.0.0.7"
unfolding client_ip
test_client_ip = refl
