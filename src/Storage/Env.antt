-- ===== src/Storage/Env.antt =====
-- What Store relies on and the repository does not implement: how Postgres keeps a float in a
-- NUMERIC column and compares it in a CHECK, and the cipher of the event payloads.
use koto7_tuma.Prelude.{Bool, Option}
use koto7_tuma.Float.{Float64}
use koto7_tuma.Crypto.{Gcm}

-- `numeric_4_2` and `numeric_10_2` give what a column of that type keeps, `none` if it overflows.
pub record Pg : Type 0 where
  pub numeric_4_2 : Float64 → Option Float64
  pub numeric_10_2 : Float64 → Option Float64
  pub at_least_one : Float64 → Bool
  pub not_negative : Float64 → Bool
  pub at_most_hundred : Float64 → Bool

-- The fields of Store: the pool, and the encryptor, which may be nil.
pub record StoreEnv : Type 0 where
  pub pg : Pg
  pub payload_enc : Option Gcm
