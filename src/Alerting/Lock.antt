-- ===== src/Alerting/Lock.antt =====
-- Run and holdEvaluation of internal/alerting/evaluator.go, and HoldAlertEvaluation of
-- internal/storage/store.go: the evaluators of all workers and the advisory lock that one session of
-- the database can hold.
pub mod One
use koto7_tuma.Prelude.{
  ℕ, ◌≡◌, Bool, true, false, List, [], ◌∷◌, ◌++◌, count_where, Option, none, some,
}

-- Where an evaluator is: in the loop of holdEvaluation, in the loop of Run with the database session
-- that owns the lock, in that loop after the session has ended, which Run does not notice, or
-- returned.
pub data Phase : Type 0 where
  asking evaluating orphaned stopped : Phase

abbrev pub is_owner : Phase → Bool
is_owner evaluating = true
is_owner asking = false
is_owner orphaned = false
is_owner stopped = false

abbrev pub is_orphaned : Phase → Bool
is_orphaned orphaned = true
is_orphaned asking = false
is_orphaned evaluating = false
is_orphaned stopped = false

abbrev pub is_evaluating : Phase → Bool
is_evaluating evaluating = true
is_evaluating orphaned = true
is_evaluating asking = false
is_evaluating stopped = false

-- pg_try_advisory_lock: the new state of the lock, `none` where another session owns it.
unfoldable pub try_lock : Bool → Option Bool
try_lock true = none
try_lock false = some true

-- pg_advisory_unlock by the session that owns the lock, or the end of that session
unfoldable pub unlock : Bool → Bool
unlock locked = false

pub record Evaluators : Type 0 where
  pub phases : List Phase
  pub locked : Bool

-- One step of one evaluator, which stands between the others, or of the database. An evaluator that
-- fails to take the lock, or whose call fails, asks again after a while, and a round of evaluation
-- changes no phase.
pub data Move : Evaluators → Evaluators → Type 0 where
  begin :
      (before after : List Phase) (locked locked' : Bool)
      → try_lock locked ≡ some locked'
      → Move
          (record { phases = before ++ asking ∷ after; locked = locked })
          (record { phases = before ++ evaluating ∷ after; locked = locked' })
  cancel :
      (before after : List Phase) (locked : Bool)
      → Move
          (record { phases = before ++ asking ∷ after; locked = locked })
          (record { phases = before ++ stopped ∷ after; locked = locked })
  finish :
      (before after : List Phase) (locked : Bool)
      → Move
          (record { phases = before ++ evaluating ∷ after; locked = locked })
          (record { phases = before ++ stopped ∷ after; locked = unlock locked })
  -- The session of an evaluator that owns the lock ends.
  lose :
      (before after : List Phase) (locked : Bool)
      → Move
          (record { phases = before ++ evaluating ∷ after; locked = locked })
          (record { phases = before ++ orphaned ∷ after; locked = unlock locked })
  -- The deferred unlock runs on a session that owns nothing.
  finish_orphaned :
      (before after : List Phase) (locked : Bool)
      → Move
          (record { phases = before ++ orphaned ∷ after; locked = locked })
          (record { phases = before ++ stopped ∷ after; locked = locked })
  -- The lock is taken and the reply is lost: the evaluator asks again.
  take_unseen :
      (before after : List Phase) (locked locked' : Bool)
      → try_lock locked ≡ some locked'
      → Move
          (record { phases = before ++ asking ∷ after; locked = locked })
          (record { phases = before ++ asking ∷ after; locked = locked' })
  -- The session of such a call ends, so that no evaluator owns the lock.
  lapse :
      (phases : List Phase) (locked : Bool)
      → count_where is_owner phases ≡ 0
      → Move
          (record { phases = phases; locked = locked })
          (record { phases = phases; locked = unlock locked })
  -- A worker starts.
  join :
      (phases : List Phase) (locked : Bool)
      → Move
          (record { phases = phases; locked = locked })
          (record { phases = asking ∷ phases; locked = locked })

pub data Reach : Evaluators → Type 0 where
  start : Reach (record { phases = []; locked = false })
  move : (e e' : Evaluators) → Reach e → Move e e' → Reach e'
