-- ===== src/Api/Playground/Status.antt =====
-- playgroundStatus of internal/api/playground.go.
use koto7_tuma.Prelude.{ℕ, Text, str, Bool, Option, none, some, List, [], ltb, if◌then◌else◌}
use koto7_tuma.Storage.Rows.{Connection, Delivery, PlaygroundSession}
use koto7_tuma.Storage.Connections.{get_connection}
use koto7_tuma.Storage.Playground.{touch_playground_session}
use koto7_tuma.Storage.Listings.{
  inbound_url, list_deliveries_for_connection, open_issues_count_for_connection,
  delivered_count_24h_for_connection,
}
use koto7_tuma.Storage.Stats.{ConnectionStats, get_connection_stats}
use koto7_tuma.Storage.Db.{Db, Res, ok, err, pure, ◌>>=◌, ◌>>◌, attempt, ignore_error}
use koto7_tuma.Api.Http.{Answer, success, refusal}
use koto7_tuma.Api.Playground.{PlayEnv, session_from_request}

-- `v, _ := m`: the zero value where there is an error.
abbrev pub value_or : {A : Type 0} → A → Res A → A
value_or zero_value (err _) = zero_value
value_or zero_value (ok a) = a

pub record Status : Type 0 where
  pub status : Text
  pub delivered_24h : ℕ
  pub open_issues : ℕ
  pub inbound_url : Text
  pub fail_destination : Bool
  pub recent_deliveries : List Delivery

abbrev pub failed_of : Res ConnectionStats → ℕ
failed_of (err _) = 0
failed_of (ok st) = st.failed_24h

unfoldable pub status_word : ℕ → ℕ → Text
status_word open_issues failed_24h =
    if ltb 0 open_issues
    then str "failing"
    else if ltb 0 failed_24h
    then str "degraded"
    else str "delivering"

unfoldable pub status_of_connection : PlayEnv → PlaygroundSession → Connection → Db (Answer Status)
unfolding status_word inbound_url
status_of_connection env ps conn = do
  delivered ← attempt (delivered_count_24h_for_connection conn.id)
  opened ← attempt (open_issues_count_for_connection conn.id)
  stats ← attempt (get_connection_stats env.floats env.percentile conn.id)
  deliveries ← attempt (list_deliveries_for_connection conn.id 3)
  pure (
      success 200 (record {
        status = status_word (value_or 0 opened) (failed_of stats);
        delivered_24h = value_or 0 delivered;
        open_issues = value_or 0 opened;
        inbound_url = inbound_url env.console.public_base_url conn.inbound_path;
        fail_destination = ps.fail_destination;
        recent_deliveries = value_or [] deliveries;
      }))

abbrev pub found_status : PlayEnv → PlaygroundSession → Res (Option Connection) → Db (Answer Status)
found_status env ps (err _) = pure (refusal 404)
found_status env ps (ok none) = pure (refusal 404)
found_status env ps (ok (some conn)) = status_of_connection env ps conn

abbrev pub session_status : PlayEnv → Res PlaygroundSession → Db (Answer Status)
session_status env (err _) = pure (refusal 401)
session_status env (ok ps) = do
  ignore_error (touch_playground_session ps.id)
  conn ← attempt (get_connection ps.connection_id)
  found_status env ps conn

unfoldable pub playground_status : PlayEnv → Option Text → Db (Answer Status)
playground_status env cookie = do
  ps ← attempt (session_from_request env cookie)
  session_status env ps
