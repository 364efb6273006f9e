-- ===== src/Api/Buckets.antt =====
-- The token buckets of internal/api/ratelimit.go. The map of buckets is a function, and the
-- arithmetic of float64 a parameter, with the seconds of a duration. `allow` holds the mutex.
use koto7_tuma.Prelude.{
  ℕ, ◌-◌, pos, Text, text_eq, is_empty, split, trim_space, List, [], ◌∷◌, ◌==◌, ◌&&◌, is_none,
  or_keep, Bool, true, false, Option, none, some, if◌then◌else◌,
}
use koto7_tuma.Float.{Float64, FloatOps}

pub record TokenBucket : Type 0 where
  pub tokens : Float64
  pub last : ℕ
  pub rate : Float64
  pub burst : Float64

abbrev pub Buckets : Type 0
Buckets = Text → Option TokenBucket

module _ (floats : FloatOps) (seconds : ℕ → Float64) where
  abbrev bucket_or_new : ℕ → ℕ → ℕ → Option TokenBucket → TokenBucket
  bucket_or_new now per_hour burst (some b) = b
  bucket_or_new now per_hour burst none = record {
    tokens = floats.of_int (pos burst);
    last = now;
    rate = floats.div (floats.of_int (pos per_hour)) (floats.of_int (pos 3600));
    burst = floats.of_int (pos burst);
  }

  -- The tokens that have come in since, at most the burst.
  unfoldable pub refill : ℕ → TokenBucket → TokenBucket
  refill now b =
      let tokens = floats.add b.tokens (floats.mul (seconds (now - b.last)) b.rate) in
      record b { tokens = if floats.lt b.burst tokens then b.burst else tokens; last = now }

  unfoldable pub take_token : TokenBucket → Bool × TokenBucket
  take_token b =
      if floats.lt b.tokens (floats.of_int (pos 1))
      then (false, b)
      else (true, record b { tokens = floats.sub b.tokens (floats.of_int (pos 1)) })

  abbrev set_bucket : Text → TokenBucket → Buckets → Buckets
  set_bucket key b buckets k = if text_eq k key then some b else buckets k

  unfoldable pub allow : ℕ → Text → ℕ → ℕ → Buckets → Bool × Buckets
  unfolding refill take_token
  allow now key per_hour burst buckets =
      let (allowed, b) = take_token (refill now (bucket_or_new now per_hour burst (buckets key))) in
      (allowed, set_bucket key b buckets)

-- clientIP: the first address of X-Forwarded-For, or the remote address without its port.
abbrev pub first_part : List Text → Text
first_part [] = []
first_part (part ∷ parts) = part

abbrev pub put_before : ℕ → Option Text → Option Text
put_before c none = none
put_before c (some s) = some (c ∷ s)

-- What stands before the last colon, `none` where there is none.
unfoldable pub before_last_colon : Text → Option Text
before_last_colon [] = none
before_last_colon (c ∷ s) =
    let rest = before_last_colon s in if is_none rest && c == 58 then some [] else put_before c rest

unfoldable pub client_ip : Text → Text → Text
unfolding before_last_colon
client_ip forwarded remote_addr =
    if is_empty forwarded
    then or_keep (before_last_colon remote_addr) remote_addr
    else trim_space (first_part (split 44 forwarded))
