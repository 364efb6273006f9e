-- ===== src/Api/Playground/Controls.antt =====
-- The handlers of internal/api/playground.go that send, break, fix, replay and receive.
use koto7_tuma.Prelude.{
  ℕ, Text, str, text_eq, is_empty, decimal, Bool, true, false, Option, none, some, List, [], ◌∷◌,
  ◌++◌, ltb, take, if◌then◌else◌,
}
use koto7_tuma.Crypto.{decrypt_bytes}
use koto7_tuma.Storage.Rows.{Connection, Issue, PlaygroundSession}
use koto7_tuma.Storage.Connections.{get_connection, update_connection_source_type}
use koto7_tuma.Storage.Playground.{
  get_playground_session, touch_playground_session, set_playground_fail_destination,
}
use koto7_tuma.Storage.Listings.{get_latest_open_issue_for_connection}
use koto7_tuma.Storage.Events.{lift}
use koto7_tuma.Storage.Db.{pure, ◌>>◌, ignore_error}
use koto7_tuma.Playground.Hub.{LogEvent}
use koto7_tuma.Playground.Simulate.{SimulateRequest, SimulateResult, send_events, body_preview}
use koto7_tuma.Api.Ingest.{cache_delete, start_replay}
use koto7_tuma.Api.Http.{success, refusal}
use koto7_tuma.Api.Playground.{
  PlayEnv, PlayState, Play, refuse, call_else, when_allowed, publish_sim, publish_dest,
  session_from_request,
}

-- An arrow, in UTF-8
abbrev pub arrow : Text
arrow = 226 ∷ 134 ∷ 146 ∷ []

unfoldable pub sent_line : Connection → SimulateResult → Text
unfolding decimal
sent_line conn r =
    arrow
    ++ str " POST /e/"
    ++ conn.inbound_path
    ++ str " "
    ++ decimal r.status
    ++ str " "
    ++ r.body
    ++ str "  event="
    ++ r.event_id

unfoldable pub publish_results : ℕ → Connection → List SimulateResult → PlayState → PlayState
unfolding sent_line publish_sim
publish_results id conn [] st = st
publish_results id conn (r ∷ rs) st =
    publish_results id conn rs (publish_sim id (sent_line conn r) st)

abbrev pub answer_results :
    PlayState → ℕ → Connection → List SimulateResult → Play (List SimulateResult)
answer_results st id conn rs = pure (success 200 rs, publish_results id conn rs st)

-- The random bytes of the i-th event are `random i`.
unfoldable pub send_simulated :
    PlayEnv
    → PlayState
    → (ℕ → Text)
    → ℕ
    → Connection
    → SimulateRequest
    → Text
    → Play (List SimulateResult)
send_simulated env st random id conn req secret =
    call_else 500 st
      (send_events env.console.server.digests env.payloads env.client random env.internal_base
        conn.inbound_path secret req.provider req)
      (answer_results st id conn)

abbrev pub with_source :
    PlayEnv → PlayState → (ℕ → Text) → ℕ → Connection → SimulateRequest → Play (List SimulateResult)
with_source env st random id conn req =
    call_else 500 st (lift (decrypt_bytes env.console.server.encryptor conn.signing_secret_enc))
      (send_simulated env st random id conn req)

abbrev pub evicted : PlayState → Connection → PlayState
evicted st conn = record st { cache = cache_delete conn.inbound_path st.cache }

abbrev pub with_source_type : SimulateRequest → Connection → Connection
with_source_type req conn = record conn { source_type = req.provider }

-- The connection takes the source type of the provider.
unfoldable pub switch_source :
    PlayEnv → PlayState → (ℕ → Text) → ℕ → SimulateRequest → Connection → Play (List SimulateResult)
switch_source env st random id req conn =
    if text_eq conn.source_type req.provider
    then with_source env st random id conn req
    else call_else 500 st (update_connection_source_type conn.id req.provider)
        (λ _. with_source env (evicted st conn) random id (with_source_type req conn) req)

abbrev pub found_connection :
    PlayEnv
    → PlayState
    → (ℕ → Text)
    → ℕ
    → SimulateRequest
    → Option Connection
    → Play (List SimulateResult)
found_connection env st random id req none = refuse 404 st
found_connection env st random id req (some conn) = switch_source env st random id req conn

unfoldable pub clamped : SimulateRequest → SimulateRequest
clamped req =
    let provider = if is_empty req.provider then str "stripe" else req.provider in
    let count = if ltb req.count 1 then 1 else if ltb 5 req.count then 5 else req.count in
    record req { provider = provider; count = count }

-- A negative count is 0 here: both become 1.
abbrev pub simulate_body :
    PlayEnv
    → PlayState
    → (ℕ → Text)
    → PlaygroundSession
    → Option SimulateRequest
    → Play (List SimulateResult)
simulate_body env st random ps none = refuse 400 st
simulate_body env st random ps (some req) =
    call_else 404 st (get_connection ps.connection_id)
      (found_connection env st random ps.id (clamped req))

abbrev pub simulate_session :
    PlayEnv
    → PlayState
    → (ℕ → Text)
    → Option SimulateRequest
    → PlaygroundSession
    → Play (List SimulateResult)
simulate_session env st random body ps = do
  ignore_error (touch_playground_session ps.id)
  simulate_body env st random ps body

abbrev pub simulate_allowed :
    PlayEnv
    → Option Text
    → (ℕ → Text)
    → Option SimulateRequest
    → PlayState
    → Play (List SimulateResult)
simulate_allowed env cookie random body st =
    call_else 401 st (session_from_request env cookie) (simulate_session env st random body)

unfoldable pub simulate :
    PlayEnv
    → PlayState
    → Text
    → Option Text
    → (ℕ → Text)
    → Option SimulateRequest
    → Play (List SimulateResult)
simulate env st ip cookie random body =
    when_allowed env st (str "simulate:" ++ ip) 20 5 (simulate_allowed env cookie random body)

abbrev pub action_word : Bool → Text
action_word true = str "broken"
action_word false = str "fixed"

abbrev pub answer_action : PlayState → ℕ → Bool → Play Text
answer_action st id fail =
    pure
      (success 200 (action_word fail), publish_sim id (str "destination " ++ action_word fail) st)

abbrev pub set_fail_session : PlayState → Bool → PlaygroundSession → Play Text
set_fail_session st fail ps =
    call_else 500 st (set_playground_fail_destination ps.id fail) (λ _. answer_action st ps.id fail)

abbrev pub set_fail_allowed : PlayEnv → Option Text → Bool → PlayState → Play Text
set_fail_allowed env cookie fail st =
    call_else 401 st (session_from_request env cookie) (set_fail_session st fail)

-- playgroundBreak and playgroundFix are `set_fail` of true and of false.
unfoldable pub set_fail : PlayEnv → PlayState → Text → Option Text → Bool → Play Text
set_fail env st ip cookie fail =
    when_allowed env st (str "control:" ++ ip) 30 10 (set_fail_allowed env cookie fail)

abbrev pub answer_replay : PlayEnv → PlayState → ℕ → Issue → Play Text
answer_replay env st id issue =
    let issue_id = env.console.server.uuid_text issue.id in
    pure (success 200 issue_id, publish_sim id (arrow ++ str " replay issue " ++ issue_id) st)

abbrev pub replay_latest : PlayEnv → PlayState → ℕ → Option Issue → Play Text
replay_latest env st id none = refuse 409 st
replay_latest env st id (some issue) =
    call_else 500 st (start_replay env.console.replay_workflow_id issue.event_id)
      (λ _. answer_replay env st id issue)

unfoldable pub replay_session : PlayEnv → PlayState → PlaygroundSession → Play Text
replay_session env st ps =
    if ps.fail_destination
    then refuse 409 st
    else call_else 409 st (get_latest_open_issue_for_connection ps.connection_id)
        (replay_latest env st ps.id)

abbrev pub replay_allowed : PlayEnv → Option Text → PlayState → Play Text
replay_allowed env cookie st =
    call_else 401 st (session_from_request env cookie) (replay_session env st)

unfoldable pub replay : PlayEnv → PlayState → Text → Option Text → Play Text
replay env st ip cookie =
    when_allowed env st (str "control:" ++ ip) 30 10 (replay_allowed env cookie)

abbrev pub dest_event : Text → Text → Text → LogEvent
dest_event line delivery_id body = record {
  line = line;
  delivery_id = delivery_id;
  body_preview = body_preview body;
}

-- The time that the receiver takes is not modelled: both readings of the clock are the same.
unfoldable pub receive : PlayState → Text → Text → PlaygroundSession → Play Unit
receive st delivery_id body ps =
    if ps.fail_destination
    then pure (
      refusal 502,
      publish_dest ps.id (dest_event (str "POST /hook 502  fail_mode  0ms") delivery_id body) st,
    )
    else pure (
      success 200 tt,
      publish_dest ps.id (dest_event (str "POST /hook 200  0ms") delivery_id body) st,
    )

abbrev pub receive_found : PlayState → Text → Text → Option PlaygroundSession → Play Unit
receive_found st delivery_id body none = refuse 404 st
receive_found st delivery_id body (some ps) = receive st delivery_id body ps

abbrev pub receive_by_id : PlayState → Text → Text → Option ℕ → Play Unit
receive_by_id st delivery_id body none = refuse 404 st
receive_by_id st delivery_id body (some id) =
    call_else 404 st (get_playground_session id) (receive_found st delivery_id body)

-- The body is what io.LimitReader leaves of it.
unfoldable pub playground_receiver : PlayEnv → PlayState → Text → Text → Text → Play Unit
playground_receiver env st session_id delivery_id body =
    receive_by_id st delivery_id (take env.console.server.max_body_bytes body)
      (env.console.parse_uuid session_id)
