-- ===== src/Api/Http.antt =====
-- How the handlers of internal/api answer: http.Error and writeJSON, the early returns that they
-- share, and the fields of Server that the console's handlers use.
use koto7_tuma.Prelude.{ℕ, Text, Bool, Option, none, some}
use koto7_tuma.Float.{Float64}
use koto7_tuma.Storage.Db.{Db, Res, ok, err, pure, ◌>>=◌, attempt}
use koto7_tuma.Notification.Settings.{Config}
use koto7_tuma.Api.Ingest.{ServerEnv}

-- writeJSON with a status and what the body is made of, or an error with its status.
pub data Answer (A : Type 0) : Type 0 where
  success : ℕ → A → Answer A
  refusal : ℕ → Answer A

-- What the handlers use of the server and of packages outside the repository: bcrypt's comparison
-- of a hash and a password, uuid.Parse, and the address that mail.ParseAddress finds.
pub record ConsoleEnv : Type 0 where
  pub server : ServerEnv
  pub config : Config
  pub public_base_url : Text
  pub session_cookie_name : Text
  pub session_ttl : ℕ
  pub password_matches : Text → Text → Bool
  pub parse_uuid : Text → Option ℕ
  pub parse_address : Text → Option Text
  pub replay_workflow_id : ℕ → ℕ → Text
  -- the constants 0, 2 and 100 of type float64, and the order of float64
  pub float_0 : Float64
  pub float_2 : Float64
  pub float_100 : Float64
  pub float_lt : Float64 → Float64 → Bool

module _ {A B : Type 0} where
  -- `if err != nil { http.Error(w, …, status); return }`
  abbrev pub unless_error : ℕ → (A → Db (Answer B)) → Res A → Db (Answer B)
  unless_error status next (err _) = pure (refusal status)
  unless_error status next (ok a) = next a

  -- `if err != nil || v == nil { http.Error(w, …, status); return }`
  abbrev pub unless_nil : ℕ → (A → Db (Answer B)) → Res (Option A) → Db (Answer B)
  unless_nil status next (err _) = pure (refusal status)
  unless_nil status next (ok none) = pure (refusal status)
  unless_nil status next (ok (some a)) = next a

  -- What uuid.Parse, r.Cookie or json.Decode gives, `none` for an error.
  abbrev pub unless_none : ℕ → (A → Db (Answer B)) → Option A → Db (Answer B)
  unless_none status next none = pure (refusal status)
  unless_none status next (some a) = next a

  unfoldable pub call_or : ℕ → Db A → (A → Db (Answer B)) → Db (Answer B)
  call_or status m next = do r ← attempt m; unless_error status next r

  unfoldable pub find_or : ℕ → Db (Option A) → (A → Db (Answer B)) → Db (Answer B)
  find_or status m next = do r ← attempt m; unless_nil status next r
