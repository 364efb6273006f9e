-- ===== src/Storage/Issues.antt =====
-- The deliveries and the issues of internal/storage/store.go and playground.go.
use koto7_tuma.Prelude.{
  ℕ, ◌+◌, Text, str, has_prefix, Bool, true, false, not, ◌&&◌, ◌||◌, Option, none, some, [], ◌∷◌,
  ◌++◌, ltb, ◌==◌, max, find, is_none, count_where, update_where, if◌then◌else◌,
}
use koto7_tuma.Storage.Rows.{Delivery, Issue, IssueStatus, opened, resolved}
use koto7_tuma.Storage.Connections.{has_connection_id}
use koto7_tuma.Storage.Events.{has_event_id}
use koto7_tuma.Storage.Db.{World, Db, ok, constraint_error, statement}

unfoldable pub has_attempt : ℕ → ℕ → Delivery → Bool
has_attempt event attempt d = d.event_id == event && d.attempt_number == attempt

-- The event must exist, the attempt number be positive, and the pair of them new.
unfoldable pub insert_delivery : Delivery → Db Delivery
unfolding has_attempt has_event_id
insert_delivery d w =
    let row = record d { id = w.next_id; attempted_at = w.now } in
    if not (is_none (find (has_event_id d.event_id) w.tables.events))
      && ltb 0 d.attempt_number
      && is_none (find (has_attempt d.event_id d.attempt_number) w.tables.deliveries)
    then (
      ok row,
      record w {
        tables = record w.tables { deliveries = w.tables.deliveries ++ row ∷ [] };
        next_id = w.next_id + 1;
      },
    )
    else constraint_error w

unfoldable pub record_delivery : Delivery → Db Delivery
unfolding insert_delivery
record_delivery d = statement (insert_delivery d)

unfoldable pub is_of_event : ℕ → Issue → Bool
is_of_event event i = i.event_id == event

abbrev pub is_open_status : IssueStatus → Bool
is_open_status opened = true
is_open_status resolved = false

unfoldable pub is_open : Issue → Bool
is_open i = is_open_status i.status

-- LIKE 'Delivery attempts exhausted%'
unfoldable pub is_exhausted_reason : Text → Bool
is_exhausted_reason reason = has_prefix reason (str "Delivery attempts exhausted")

-- The CASE of RecordIssue: the closing reason does not hide why the attempts failed.
unfoldable pub merged_reason : Text → Text → Text
unfolding is_exhausted_reason
merged_reason old new =
    if is_exhausted_reason new && not (is_exhausted_reason old) then old else new

-- ON CONFLICT (event_id) DO UPDATE, of the row `old` by the new row `i`.
unfoldable pub merged_issue : Issue → Issue → Issue
unfolding merged_reason
merged_issue i old = record old {
  attempts_exhausted = max old.attempts_exhausted i.attempts_exhausted;
  reason = merged_reason old.reason i.reason;
  status = opened;
  resolved_at = none;
}

unfoldable pub upsert_issue : Issue → Option Issue → Db Unit
unfolding merged_issue is_of_event
upsert_issue i none w =
    let row = record i {
      id = w.next_id;
      status = opened;
      resolved_at = none;
      resolved_by = none;
    } in
    (
      ok tt,
      record w {
        tables = record w.tables { issues = w.tables.issues ++ row ∷ [] };
        next_id = w.next_id + 1;
      },
    )
upsert_issue i (some _) w = (
  ok tt,
  record w {
    tables = record w.tables {
      issues = update_where (is_of_event i.event_id) (merged_issue i) w.tables.issues;
    };
  },
)

-- The foreign keys to the event and the connection.
unfoldable pub lacks_parent : Issue → World → Bool
unfolding has_event_id has_connection_id
lacks_parent i w =
    is_none (find (has_event_id i.event_id) w.tables.events)
    || is_none (find (has_connection_id i.connection_id) w.tables.connections)

unfoldable pub write_issue : Issue → Db Unit
write_issue i w =
    if lacks_parent i w
    then constraint_error w
    else upsert_issue i (find (is_of_event i.event_id) w.tables.issues) w

unfoldable pub record_issue : Issue → Db Unit
unfolding write_issue
record_issue i = statement (write_issue i)

unfoldable pub is_open_of_event : ℕ → Issue → Bool
unfolding is_of_event is_open
is_open_of_event event i = is_of_event event i && is_open i

unfoldable pub resolve_issue_by_event_id : ℕ → Db Unit
unfolding is_open_of_event
resolve_issue_by_event_id event = statement λ w. (
  ok tt,
  record w {
    tables = record w.tables {
      issues =
          update_where (is_open_of_event event)
            (λ i. record i { status = resolved; resolved_at = some w.now }) w.tables.issues;
    };
  },
)

unfoldable pub has_issue_id : ℕ → Issue → Bool
has_issue_id id i = i.id == id

unfoldable pub resolve_issue : ℕ → ℕ → Db Unit
unfolding has_issue_id
resolve_issue id user = statement λ w. (
  ok tt,
  record w {
    tables = record w.tables {
      issues =
          update_where (has_issue_id id)
            (λ i. record i { status = resolved; resolved_at = some w.now; resolved_by = some user })
            w.tables.issues;
    };
  },
)

unfoldable pub open_issues_count : Db ℕ
unfolding is_open
open_issues_count = statement (λ w. (ok (count_where is_open w.tables.issues), w))

-- The issues' event and connection are never missing (foreign keys), so the joins drop no row.
unfoldable pub get_issue : ℕ → Db (Option Issue)
unfolding has_issue_id
get_issue id = statement (λ w. (ok (find (has_issue_id id) w.tables.issues), w))
