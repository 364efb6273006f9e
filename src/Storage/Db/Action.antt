-- ===== src/Storage/Db/Action.antt =====
-- Calls that leave the process as actions: SQL statements on the pool of internal/storage/store.go,
-- activities and workflow starts. Every call takes the next of the outcomes to come.
use koto7_tuma.Prelude.{ℕ, ◌+◌, List, [], ◌∷◌, ◌++◌, Option, none, some, Text}
use koto7_tuma.Storage.Rows.{Tables}

-- The errors that callers tell apart, and the rest: `failed_with` carries the text of an error
-- that the code makes itself.
pub data Err : Type 0 where
  db_error no_rows alert_rule_not_found too_many_alert_rules crypto_error : Err
  failed_with : Text → Err

pub data Res {ℓ} (A : Type ℓ) : Type ℓ where
  ok : A → Res A
  err : Err → Res A

-- How one call ends: it runs, it is refused and changes nothing, or it runs and its reply is
-- lost, so that the caller sees an error.
pub data Outcome : Type 0 where
  fine refused reply_lost : Outcome

-- A webhook that the worker has sent to a destination.
pub record Post : Type 0 where
  pub destination_url : Text
  pub delivery_id : ℕ
  pub provider_event_id : Text
  pub attempt : ℕ
  pub body : Text

-- A workflow that Temporal was asked to start.
pub record Start : Type 0 where
  pub workflow_id : Text
  pub event_id : ℕ

-- An alert that a channel has taken: an email or a Slack DM.
pub record Notice : Type 0 where
  pub channel : Text
  pub recipient : Text
  pub subject : Text
  pub body : Text

-- What lies outside the process: the database, the destinations, Temporal, the people who are
-- alerted and the clock.
-- `outcomes` tells how the calls to come will end, and past its end all is well. `next_id` supplies
-- gen_random_uuid() and uuid.New(), `now` is NOW() and time.Now().
pub record World : Type 0 where
  pub tables : Tables
  pub outcomes : List Outcome
  pub now : ℕ
  pub next_id : ℕ
  pub posts : List Post
  pub starts : List Start
  pub notices : List Notice

abbrev pub Db : Type 0 → Type 0
Db A = World → Res A × World

abbrev pub pure : {A : Type 0} → A → Db A
pure a w = (ok a, w)

abbrev pub fail : {A : Type 0} → Err → Db A
fail e w = (err e, w)

module _ {A B : Type 0} where
  abbrev pub continue : Res A → (A → Db B) → Db B
  continue (ok a) f w = f a w
  continue (err e) f w = (err e, w)

  infixl 10 ◌>>=◌
  unfoldable pub ◌>>=◌ : Db A → (A → Db B) → Db B
  ◌>>=◌ m f w = let (r, w') = m w in continue r f w'

module _ {B : Type 0} where
  infixl 10 ◌>>◌
  abbrev pub ◌>>◌ : Db (Unit {0}) → Db B → Db B
  m >> k = m >>= λ _. k

module _ {A : Type 0} where
  -- `x, err := m`, where the caller looks at `err` itself.
  unfoldable pub attempt : Db A → Db (Res A)
  attempt m w = let (r, w') = m w in (ok r, w')

  -- What the caller sees of a statement whose reply is lost.
  abbrev pub lose : Res A × World → Res A × World
  lose p = (err db_error, p.1)

  abbrev pub run_statement : List Outcome → Db A → Db A
  run_statement [] body w = body w
  run_statement (fine ∷ rest) body w = body (record w { outcomes = rest })
  run_statement (refused ∷ rest) body w = (err db_error, record w { outcomes = rest })
  run_statement (reply_lost ∷ rest) body w = lose (body (record w { outcomes = rest }))

  -- pool.QueryRow, pool.Query and pool.Exec, of a statement with the effect `body`.
  unfoldable pub statement : Db A → Db A
  statement body w = run_statement w.outcomes body w

-- An activity that Temporal runs once (MaximumAttempts 1), or a request to Temporal.
unfoldable pub remote : {A : Type 0} → Db A → Db A
unfolding statement
remote body = statement body

-- `if err != nil || v == nil`, where both lead to the error `e`
abbrev pub or_error : {A : Type 0} → Err → Res (Option A) → Db A
or_error e (ok (some a)) = pure a
or_error e (ok none) = fail e
or_error e (err _) = fail e

unfoldable pub require : {A : Type 0} → Err → Db (Option A) → Db A
require e m = do o ← attempt m; or_error e o

-- A statement that would break a constraint of the schema.
abbrev pub constraint_error : {A : Type 0} → Db A
constraint_error = fail db_error

-- `_ = m` and `if err := m; err != nil { log }`
unfoldable pub ignore_error : {A : Type 0} → Db A → Db Unit
ignore_error m w = (ok tt, (m w).1)

unfoldable pub get_now : Db ℕ
get_now w = (ok w.now, w)

-- uuid.New()
unfoldable pub fresh_id : Db ℕ
fresh_id w = (ok w.next_id, record w { next_id = w.next_id + 1 })

-- workflow.Sleep, whose error is ignored
unfoldable pub sleep : ℕ → Db Unit
sleep duration w = (ok tt, record w { now = w.now + duration })

unfoldable pub send_post : Post → Db Unit
send_post p w = (ok tt, record w { posts = w.posts ++ p ∷ [] })

-- client.ExecuteWorkflow, once the request has reached Temporal
unfoldable pub start_workflow : Start → Db Unit
start_workflow s w = (ok tt, record w { starts = w.starts ++ s ∷ [] })
