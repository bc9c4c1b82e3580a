-- ===== src/RedisSub/Connect.antt =====
-- The constructor of `RedisSubClient`: the address that it connects to.
use slurm_manager.Base.{◌≡◌, ℕ, Option, none, some, List, [], ◌∷◌, ◌++◌, arith}
use slurm_manager.Base.Text.{Text, codes, split_once, Free, split_once-append}
use slurm_manager.Base.Dict.{Dict}
use slurm_manager.Base.Result.{Result, ok, err, value_error, ◌>>=◌}
use slurm_manager.Base.Json.{Value}
use slurm_manager.RedisSub.{Client, new_client}

-- The argument `bootstrap`.
pub data Bootstrap : Type 0 where
  address : Text → Bootstrap
  addresses : List Text → Bootstrap

-- What the Redis class is constructed with.
pub record Connection : Type 0 where
  pub host : Text
  pub port : ℕ
  pub options : Dict Value

abbrev unpacked : Text × Option Text → Result (Text × Text)
unpacked (host, none) = err (value_error (codes "not enough values to unpack"))
unpacked (host, some port) = ok (host, port)

abbrev parsed_port : Option ℕ → Result ℕ
parsed_port none = err (value_error (codes "invalid literal for int()"))
parsed_port (some port) = ok port

-- `to_int` is `int` of a text; a port below zero has no value here, and Redis refuses it.
module _ (to_int : Text → Option ℕ) where
  -- `bootstrap.split(":", maxsplit=1)` with `int(port)`
  unfoldable pub parse_address : Text → Result (Text × ℕ)
  parse_address s = do
    parts ← unpacked (split_once b':' s)
    port ← parsed_port (to_int parts.1)
    ok (parts.0, port)

  unfoldable pub parse_bootstrap : Bootstrap → Result (Text × ℕ)
  unfolding parse_address
  parse_bootstrap (address s) = parse_address s
  parse_bootstrap (addresses []) = err (value_error (codes "bootstrap list must not be empty"))
  parse_bootstrap (addresses (s ∷ rest)) = parse_address s

  -- `__init__`: the connection, and the client that listens to nothing yet.
  unfoldable pub connect {ℓ} :
      {H : Type ℓ} → Bootstrap → Dict Value → Result (Connection × Client H)
  unfolding parse_bootstrap
  connect bootstrap options = do
    target ← parse_bootstrap bootstrap
    ok (record { host = target.0; port = target.1; options = options }, new_client)

  -- Where `int` reads a port back from its text and the host has no colon, parsing the host, a
  -- colon and the port gives that host and port.
  pub parse_address-format :
      (decimal : ℕ → Text) (host : Text) (port : ℕ)
      → to_int (decimal port) ≡ some port
      → Free b':' host
      → parse_address (host ++ (codes ":" ++ decimal port)) ≡ ok (host, port)
  unfolding parse_address
  parse_address-format decimal host port h free =
      ground (arith, split_once-append b':' host (decimal port) free)
