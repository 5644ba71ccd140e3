-- ===== src/Core/Redis.antt =====
-- app/core/redis.py: the cache. What redis-py and `json` do is a parameter.
use ra_backend.Base.{ℕ, ◌+◌, String, Bool, true, false, Option, none, some, truthy}
use ra_backend.Core.Config.{Settings}
use ra_backend.Core.World.{Outcome, returned, raised}
use ra_backend.Core.Exec.{ok, result}
use ra_backend.Integrations.Held.{Uses, give, call, ◌>>=◌, get_or_make}

-- The arguments of `aioredis.from_url`
pub record RedisArgs : Type 0 where
  pub url : String
  pub encoding : String
  pub decode_responses : Bool

-- `J` is the type of the values that are cached, which `loads` and `dumps` read and print.
pub record Driver (C J : Type 0) : Type 0 where
  pub from_url : RedisArgs → Outcome C
  pub get : C → String → Outcome (Option String)
  -- key, value and time to live in seconds
  pub set : C → String → String → ℕ → Outcome (Unit {0})
  pub aclose : C → Outcome (Unit {0})
  pub loads : String → Outcome J
  pub dumps : J → Outcome String

-- The default of `ttl_seconds`
abbrev pub default_ttl : ℕ
default_ttl = 30

abbrev redis_args : Settings → RedisArgs
redis_args s = record { url = s.redis_url; encoding = "utf-8"; decode_responses = true }

module _ {C J : Type 0} (st : Settings) (d : Driver C J) where
  unfoldable pub get_redis : Uses C C
  unfolding get_or_make
  get_redis = get_or_make (d.from_url (redis_args st))

  -- `await _redis.aclose(); _redis = None`: a client that fails to close is kept.
  abbrev closed_as : Outcome (Unit {0}) → Uses C (Unit {0})
  closed_as (returned u) s = (ok tt, record s { held = none; closed = s.closed + 1 })
  closed_as (raised e) s = (result (raised e), s)

  abbrev closing : Option C → Uses C (Unit {0})
  closing none s = (ok tt, s)
  closing (some c) s = closed_as (d.aclose c) s

  unfoldable pub close_redis : Uses C (Unit {0})
  close_redis s = closing s.held s

  abbrev loaded : Bool → String → Uses C (Option J)
  loaded false raw = give none
  loaded true raw = do j ← call (d.loads raw); give (some j)

  -- `json.loads(raw) if raw else None`
  abbrev loaded_if : Option String → Uses C (Option J)
  loaded_if none = give none
  loaded_if (some raw) = loaded (truthy (some raw)) raw

  unfoldable pub cache_get_json : String → Uses C (Option J)
  unfolding get_redis
  cache_get_json key = do redis ← get_redis; raw ← call (d.get redis key); loaded_if raw

  -- `get_redis().set(key, json.dumps(…), ex=…)`: the client is made before the value is printed.
  unfoldable pub cache_set_json : String → J → ℕ → Uses C (Unit {0})
  unfolding get_redis
  cache_set_json key value ttl_seconds = do
    redis ← get_redis
    printed ← call (d.dumps value)
    call (d.set redis key printed ttl_seconds)
