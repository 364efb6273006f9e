-- ===== src/Tests/Delivery.antt =====
-- The delivery workflow and the issues, on an event whose second attempt succeeds.
use koto7_tuma.Prelude.{
  ◌⊎◌, ◌≢◌, ◌≡◌, refl, ap, pos_part, ◌==◌, str, none, some, List, [], ◌∷◌, find, if◌then◌else◌,
}
use koto7_tuma.Storage.Rows.{Issue, opened}
use koto7_tuma.Storage.Db.{World, Outcome, ok, statement}
use koto7_tuma.Storage.Events.{has_event_id, scan_event, open_event_fields}
use koto7_tuma.Storage.Connections.{has_connection_id}
use koto7_tuma.Storage.Issues.{is_of_event, record_issue, write_issue, lacks_parent, upsert_issue}
use koto7_tuma.Storage.IssueLaws.{issue_of, IsRecorded, record_issue-issues}
use koto7_tuma.Workflow.Defs.{Meta, Destination, responded, load_event_meta, delivery_workflow}
use koto7_tuma.Workflow.Returns.{delivery_workflow-returns}
use koto7_tuma.Workflow.Attempts.{IsReadable}
use koto7_tuma.Workflow.Settles.{Settled, delivery_workflow-settles}
use koto7_tuma.Tests.Data.{floats, store, shop, order, tables, world}

-- It fails once, and then answers 200.
abbrev flaky : Destination
flaky = record {
  result = λ attempt. if attempt == 1 then responded 503 else responded 200;
  latency_ms = λ attempt. 10;
  itoa = λ n. n ∷ [];
}

readable : IsReadable store 7 order shop tables 50
unfolding scan_event open_event_fields find has_event_id has_connection_id
readable = record { event_row = refl; conn_row = refl }

abbrev delivered_world : World
delivered_world = (delivery_workflow floats store flaky 7 world).1

delivery_workflow-returns_example :
    ((delivery_workflow floats store flaky 7 world).0 ≡ ok tt)
    × IsReadable store 7 order shop delivered_world.tables delivered_world.next_id
delivery_workflow-returns_example =
    delivery_workflow-returns floats store flaky 7 order shop world refl readable

flaky_run : delivery_workflow floats store flaky 7 world ≡ (ok tt, delivered_world)
flaky_run =
    ap (λ r. (r, delivered_world))
      (delivery_workflow-returns floats store flaky 7 order shop world refl readable).0

delivery_workflow-settles_example :
    (o : List Outcome) × (meta : Meta) × ((load_event_meta store 7
        (record world { outcomes = o })).0
      ≡ ok meta)
    × Settled flaky 7 1
        (pos_part meta.retry_attempts)
        (pos_part meta.retry_attempts)
        delivered_world
delivery_workflow-settles_example = delivery_workflow-settles floats store flaky 7 world flaky_run

abbrev refusal : Issue
refusal = record {
  id = 0;
  event_id = 7;
  connection_id = 1;
  reason = str "destination returned 503";
  attempts_exhausted = 1;
  first_failed_at = 1000;
  status = opened;
  resolved_at = none;
  resolved_by = none;
}

abbrev refused_world : World
refused_world = (record_issue refusal world).1

refusal_run : record_issue refusal world ≡ (ok tt, refused_world)
unfolding record_issue write_issue statement lacks_parent upsert_issue find has_event_id
    has_connection_id is_of_event
refusal_run = refl

record_issue-issues_example :
    ((refusal.event_id ≡ refusal.event_id)
      × ((row : Issue) × (issue_of 7 refused_world ≡ some row)
          × IsRecorded refusal (issue_of 7 world) row))
    ⊎ ((refusal.event_id ≢ refusal.event_id) × (issue_of 7 refused_world ≡ issue_of 7 world))
record_issue-issues_example = record_issue-issues refusal world refusal.event_id refusal_run
