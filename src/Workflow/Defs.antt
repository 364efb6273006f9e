-- ===== src/Workflow/Defs.antt =====
-- internal/workflow/delivery.go. The metrics (Prometheus counters) are left out: nothing reads them.
-- So is the semaphore that an activity holds while it sends.
use koto7_tuma.Prelude.{
  ℕ, zero, suc, ◌+◌, ◌*◌, ◌%◌, ◌^◌, ℤ, pos_part, Text, str, Bool, true, false, ◌&&◌, Option, none,
  some, [], ◌++◌, ltb, leb, ◌-◌, if◌then◌else◌,
}
use koto7_tuma.Float.{Float64, FloatOps}
use koto7_tuma.Storage.Env.{StoreEnv}
use koto7_tuma.Storage.Rows.{Connection, Event, Delivery, delivered, failed, opened}
use koto7_tuma.Storage.Db.{
  Db, Err, failed_with, pure, ◌>>=◌, ◌>>◌, remote, require, ignore_error, get_now, fresh_id, sleep,
  send_post,
}
use koto7_tuma.Storage.Connections.{get_connection}
use koto7_tuma.Storage.Events.{get_event}
use koto7_tuma.Storage.Issues.{
  record_delivery, record_issue, resolve_issue_by_event_id, open_issues_count,
}

abbrev pub second : ℕ
second = 1_000_000_000

abbrev pub event_not_found : Err
event_not_found = failed_with (str "event not found")

abbrev pub connection_not_found : Err
connection_not_found = failed_with (str "connection not found")

pub record Meta : Type 0 where
  pub retry_attempts : ℤ
  pub retry_first_delay_s : ℤ
  pub retry_backoff_factor : Float64

unfoldable pub load_event_meta : StoreEnv → ℕ → Db Meta
load_event_meta env event_id = do
  event ← require event_not_found (get_event env event_id)
  conn ← require connection_not_found (get_connection event.connection_id)
  pure (record {
    retry_attempts = conn.retry_attempts;
    retry_first_delay_s = conn.retry_first_delay_s;
    retry_backoff_factor = conn.retry_backoff_factor;
  })

-- What comes of an attempt: the URL makes no request, no response comes back, or one does.
pub data HttpResult : Type 0 where
  bad_request transport_error : Text → HttpResult
  responded : ℕ → HttpResult

-- The destination: what it does at each attempt, how long that takes, and how Go writes a number.
pub record Destination : Type 0 where
  pub result : ℕ → HttpResult
  pub latency_ms : ℕ → ℕ
  pub itoa : ℕ → Text

pub record DeliverResult : Type 0 where
  pub success : Bool
  pub response_code : ℕ
  pub latency : ℕ
  pub error : Text
  pub delivery_id : ℕ

-- A failing attempt opens an issue at once. An error of RecordIssue does not end the retries.
unfoldable pub note_open_issue : Event → ℕ → Text → Db Unit
note_open_issue event attempt reason = do
  now ← get_now
  ignore_error (
      record_issue (record {
        id = 0;
        event_id = event.id;
        connection_id = event.connection_id;
        reason = reason;
        attempts_exhausted = attempt;
        first_failed_at = now;
        status = opened;
        resolved_at = none;
        resolved_by = none;
      }))

unfoldable pub is_success : ℕ → Bool
is_success code = leb 200 code && ltb code 300

-- `if success { return … }` before the issue is noted
unfoldable pub note_unless : Bool → Event → ℕ → Text → Db Unit
note_unless true event attempt reason = pure tt
note_unless false event attempt reason = note_open_issue event attempt reason

abbrev new_delivery : ℕ → ℕ → Bool → Option ℕ → ℕ → Delivery
new_delivery event_id attempt success code latency = record {
  id = 0;
  event_id = event_id;
  attempt_number = attempt;
  status = if success then delivered else failed;
  response_code = code;
  latency_ms = some latency;
  attempted_at = 0;
}

-- The second half of DeliverActivity, from the result of the request on.
unfoldable pub settle : Destination → ℕ → ℕ → Event → ℕ → HttpResult → Db DeliverResult
settle dest event_id attempt event delivery_id (bad_request message) = pure (record {
  success = false;
  response_code = 0;
  latency = 0;
  error = message;
  delivery_id = delivery_id;
})
settle dest event_id attempt event delivery_id (transport_error message) = do
  let latency = dest.latency_ms attempt
  ignore_error (record_delivery (new_delivery event_id attempt false none latency))
  note_open_issue event attempt (str "delivery failed: " ++ message)
  pure (record {
    success = false;
    response_code = 0;
    latency = latency;
    error = message;
    delivery_id = delivery_id;
  })
settle dest event_id attempt event delivery_id (responded code) = do
  let latency = dest.latency_ms attempt
  let success = is_success code
  let reason = str "destination returned " ++ dest.itoa code
  ignore_error (record_delivery (new_delivery event_id attempt success (some code) latency))
  note_unless success event attempt reason
  pure (record {
    success = success;
    response_code = code;
    latency = latency;
    error = if success then [] else reason;
    delivery_id = delivery_id;
  })

-- The request itself: none is sent to a URL that makes no request.
unfoldable pub send : Connection → Event → ℕ → ℕ → HttpResult → Db Unit
send conn event delivery_id attempt (bad_request _) = pure tt
send conn event delivery_id attempt _ = send_post (record {
  destination_url = conn.destination_url;
  delivery_id = delivery_id;
  provider_event_id = event.provider_event_id;
  attempt = attempt;
  body = event.raw_payload;
})

unfoldable pub deliver_activity : StoreEnv → Destination → ℕ → ℕ → Db DeliverResult
deliver_activity env dest event_id attempt = do
  event ← require event_not_found (get_event env event_id)
  conn ← require connection_not_found (get_connection event.connection_id)
  delivery_id ← fresh_id
  send conn event delivery_id attempt (dest.result attempt)
  settle dest event_id attempt event delivery_id (dest.result attempt)

unfoldable pub record_delivered : ℕ → Db Unit
record_delivered event_id = do resolve_issue_by_event_id event_id; ignore_error open_issues_count

unfoldable pub record_issue_activity : StoreEnv → ℕ → ℕ → Db Unit
record_issue_activity env event_id attempts = do
  event ← require event_not_found (get_event env event_id)
  now ← get_now
  record_issue (record {
    id = 0;
    event_id = event_id;
    connection_id = event.connection_id;
    reason = str "Delivery attempts exhausted";
    attempts_exhausted = attempts;
    first_failed_at = now;
    status = opened;
    resolved_at = none;
    resolved_by = none;
  })
  ignore_error open_issues_count

-- delay *= factor, attempt - 1 times
unfoldable pub scale : FloatOps → Float64 → Float64 → ℕ → Float64
scale ops factor delay zero = delay
scale ops factor delay (suc n) = scale ops factor (ops.mul delay factor) n

-- An int64 count of seconds as a Duration: the product wraps, and a negative one does not wait.
unfoldable pub duration : ℕ → ℕ
duration seconds =
    let product = seconds * second % 2 ^ 64 in if ltb product (2 ^ 63) then product else 0

unfoldable pub backoff : FloatOps → ℤ → Float64 → ℕ → ℕ
unfolding scale duration
backoff ops first_delay_s factor attempt =
    duration (ops.to_int (scale ops factor (ops.of_int first_delay_s) (attempt - 1)))

-- No wait follows the last attempt.
unfoldable pub pause : FloatOps → Meta → ℕ → ℕ → Db Unit
pause ops meta max_attempts attempt =
    if ltb attempt max_attempts
    then sleep (backoff ops meta.retry_first_delay_s meta.retry_backoff_factor attempt)
    else pure tt

-- The loop of DeliveryWorkflow with `left` rounds to go, and what follows it.
unfoldable pub run_attempts : FloatOps → StoreEnv → Destination → ℕ → Meta → ℕ → ℕ → ℕ → Db Unit
run_attempts ops env dest event_id meta max_attempts attempt zero =
    remote (record_issue_activity env event_id max_attempts)
run_attempts ops env dest event_id meta max_attempts attempt (suc left) = do
  result ← remote (deliver_activity env dest event_id attempt)
  if result.success
      then remote (record_delivered event_id)
      else pause ops meta max_attempts attempt
        >> run_attempts ops env dest event_id meta max_attempts (attempt + 1) left

unfoldable pub delivery_workflow : FloatOps → StoreEnv → Destination → ℕ → Db Unit
delivery_workflow ops env dest event_id = do
  meta ← remote (load_event_meta env event_id)
  let max_attempts = pos_part meta.retry_attempts
  run_attempts ops env dest event_id meta max_attempts 1 max_attempts
