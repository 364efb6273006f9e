-- ===== src/Api/Issues.antt =====
-- The issues of the console, in internal/api/handlers.go: the list, one issue, and its replay.
pub mod Replays
use koto7_tuma.Prelude.{
  ℕ, suc, ◌+◌, Text, str, is_empty, Bool, Option, none, some, List, [], ◌∷◌, if◌then◌else◌,
}
use koto7_tuma.Storage.Rows.{Event, Issue}
use koto7_tuma.Storage.Issues.{get_issue}
use koto7_tuma.Storage.Listings.{list_issues}
use koto7_tuma.Storage.Events.{get_event}
use koto7_tuma.Storage.Db.{Db, Res, ok, err, pure, ◌>>=◌, attempt}
use koto7_tuma.Api.Ingest.{start_replay}
use koto7_tuma.Api.Http.{Answer, success, refusal, ConsoleEnv, unless_none, call_or, find_or}

abbrev pub status_or_open : Text → Text
status_or_open status = if is_empty status then str "open" else status

unfoldable pub handle_issues : Text → Db (Answer (List Issue))
handle_issues status =
    call_or 500 (list_issues (status_or_open status)) (λ is. pure (success 200 is))

-- The payload is empty where the event cannot be read.
abbrev pub payload_of : Res (Option Event) → Text
payload_of (err _) = []
payload_of (ok none) = []
payload_of (ok (some e)) = e.raw_payload

pub record IssueReply : Type 0 where
  pub issue : Issue
  pub payload : Text

abbrev pub show_issue : ConsoleEnv → Issue → Db (Answer IssueReply)
show_issue env issue = do
  event ← attempt (get_event env.server.store issue.event_id)
  pure (success 200 (record { issue = issue; payload = payload_of event }))

abbrev pub issue_by_id : ConsoleEnv → ℕ → Db (Answer IssueReply)
issue_by_id env id = find_or 404 (get_issue id) (show_issue env)

unfoldable pub handle_issue : ConsoleEnv → Text → Db (Answer IssueReply)
handle_issue env id = unless_none 400 (issue_by_id env) (env.parse_uuid id)

abbrev pub replay_found : ConsoleEnv → Issue → Db (Answer Unit)
replay_found env issue =
    call_or 500 (start_replay env.replay_workflow_id issue.event_id) (λ _. pure (success 200 tt))

unfoldable pub replay_by_id : ConsoleEnv → ℕ → Db (Answer Unit)
replay_by_id env id = find_or 404 (get_issue id) (replay_found env)

unfoldable pub replay_issue : ConsoleEnv → Text → Db (Answer Unit)
replay_issue env id = unless_none 400 (replay_by_id env) (env.parse_uuid id)

-- The loop of replayBulk goes on past an identifier that is none, an issue that is missing, and a
-- replay that does not start.
abbrev pub counted : {A : Type 0} → ℕ → Res (Answer A) → ℕ
counted started (ok (success _ _)) = suc started
counted started (ok (refusal _)) = started
counted started (err _) = started

unfoldable pub replay_all : ConsoleEnv → ℕ → List Text → Db ℕ
replay_all env started [] = pure started
replay_all env started (id ∷ ids) = do
  r ← attempt (unless_none 400 (replay_by_id env) (env.parse_uuid id))
  replay_all env (counted started r) ids

abbrev pub bulk_with : ConsoleEnv → List Text → Db (Answer ℕ)
bulk_with env ids = do started ← replay_all env 0 ids; pure (success 200 started)

unfoldable pub replay_bulk : ConsoleEnv → Option (List Text) → Db (Answer ℕ)
replay_bulk env body = unless_none 400 (bulk_with env) body
