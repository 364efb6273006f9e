-- ===== src/Workflow/Returns.antt =====
-- Whether DeliveryWorkflow of internal/workflow/delivery.go returns, where every call goes well.
use koto7_tuma.Prelude.{ℕ, zero, suc, ◌+◌, ◌≡◌, refl, ap, Option, none, some, [], ltb, arith}
use koto7_tuma.Float.{FloatOps}
use koto7_tuma.Storage.Env.{StoreEnv}
use koto7_tuma.Storage.Rows.{Connection, Event, Issue}
use koto7_tuma.Storage.Db.{
  World, ok, pure, Works, IsCalm, Works-pure, Works-statement, Works-remote, Works-if, Works-bind,
  Works-require, Works-ignore_error, Works-sleep, statement-IsCalm, get_now-Works, sleep,
}
use koto7_tuma.Storage.Events.{scan_event}
use koto7_tuma.Storage.Issues.{
  record_issue, write_issue, upsert_issue, lacks_parent, resolve_issue_by_event_id,
  open_issues_count,
}
use koto7_tuma.Workflow.Defs.{
  Meta, Destination, load_event_meta, record_delivered, record_issue_activity, pause, backoff,
  run_attempts, delivery_workflow,
}
use koto7_tuma.Workflow.Attempts.{
  IsReadable, get_event-Works, get_connection-Works, write_issue-IsCalm, deliver_activity-Works,
  Readable,
}

module _ (env : StoreEnv) (id : ℕ) (event : Event) (conn : Connection) where
  found_row :
      (o : Option Event) → scan_event env o ≡ ok (some event) → (row : Event) × (o ≡ some row)
  unfolding scan_event
  found_row none h = absurd (ground arith)
  found_row (some row) h = (row, refl)

  upsert_issue-ok : (i : Issue) (o : Option Issue) (w : World) → (upsert_issue i o w).0 ≡ ok tt
  unfolding upsert_issue
  upsert_issue-ok i none w = refl
  upsert_issue-ok i (some _) w = refl

  record_issue-Works :
      (i : Issue)
      → i.event_id ≡ id
      → i.connection_id ≡ event.connection_id
      → Works (Readable env id event conn) (λ _. Unit) (record_issue i)
  unfolding record_issue write_issue lacks_parent
  record_issue-Works i he hc = Works-statement _ (record {
    at = λ w c.
        let (row, f) = found_row _ c.kept.event_row in
        (
          tt,
          simp (he, hc, f, c.kept.conn_row) (upsert_issue-ok i _ w),
          tt,
          unfold write_issue in (write_issue-IsCalm env id event conn) i w c,
        );
  })

  load_event_meta-Works :
      Works
        (Readable env id event conn)
        (λ m. m.retry_attempts ≡ conn.retry_attempts)
        (load_event_meta env id)
  unfolding load_event_meta
  load_event_meta-Works =
      Works-bind {Q = λ e. e ≡ event} _ _ (Works-require _ _ (get_event-Works env id event conn))
        λ e same. rw same (
          Works-bind {Q = λ c. c ≡ conn} _ _
            (Works-require _ _ (get_connection-Works env id event conn))
            λ c same'. Works-pure _ (ap (λ (x : Connection). x.retry_attempts) same'))

  open_issues_count-IsCalm :
      (w : World)
      → IsCalm (Readable env id event conn) w
      → IsCalm (Readable env id event conn) (open_issues_count w).1
  unfolding open_issues_count
  open_issues_count-IsCalm w c = statement-IsCalm _ w (λ v d. d) c

  record_issue_activity-Works :
      (n : ℕ) → Works (Readable env id event conn) (λ _. Unit) (record_issue_activity env id n)
  unfolding record_issue_activity
  record_issue_activity-Works n =
      Works-bind {Q = λ e. e ≡ event} _ _ (Works-require _ _ (get_event-Works env id event conn))
        λ e same. rw same (
          Works-bind {Q = λ _. Unit} _ _ get_now-Works λ now _.
            Works-bind {Q = λ _. Unit} _ _ (record_issue-Works _ refl refl)
              λ _ _. Works-ignore_error _ open_issues_count-IsCalm)

  record_delivered-Works : Works (Readable env id event conn) (λ _. Unit) (record_delivered id)
  unfolding record_delivered resolve_issue_by_event_id
  record_delivered-Works =
      Works-bind {Q = λ _. Unit} _ _
        (Works-statement _ (record {
          at = λ w c. (
            tt,
            refl,
            tt,
            record {
              calm = c.calm;
              kept = record { event_row = c.kept.event_row; conn_row = c.kept.conn_row };
            },
          );
        }))
        λ _ _. Works-ignore_error _ open_issues_count-IsCalm

  pause-Works :
      (ops : FloatOps) (meta : Meta) (most attempt : ℕ)
      → Works (Readable env id event conn) (λ _. Unit) (pause ops meta most attempt)
  unfolding pause
  pause-Works ops meta most attempt =
      Works-if (ltb attempt most)
        (sleep (backoff ops meta.retry_first_delay_s meta.retry_backoff_factor attempt)) (pure tt)
        (λ _. Works-sleep _) (λ _. Works-pure tt tt)

  run_attempts-Works :
      (ops : FloatOps) (dest : Destination) (meta : Meta) (most attempt left : ℕ)
      → Works
          (Readable env id event conn)
          (λ _. Unit)
          (run_attempts ops env dest id meta most attempt left)
  unfolding run_attempts
  run_attempts-Works ops dest meta most attempt zero =
      Works-remote _ (record_issue_activity-Works most)
  run_attempts-Works ops dest meta most attempt (suc left) =
      Works-bind {Q = λ _. Unit} _ _
        (Works-remote _ ((deliver_activity-Works env id event conn) dest attempt))
        λ r _.
          Works-if r.success _ _ (λ _. Works-remote _ record_delivered-Works)
            λ _.
              Works-bind {Q = λ _. Unit} _ _ (pause-Works ops meta most attempt)
                λ _ _. run_attempts-Works ops dest meta most (attempt + 1) left

  delivery_workflow-Works :
      (ops : FloatOps) (dest : Destination)
      → Works (Readable env id event conn) (λ _. Unit) (delivery_workflow ops env dest id)
  unfolding delivery_workflow
  delivery_workflow-Works ops dest =
      Works-bind _ _ (Works-remote _ load_event_meta-Works)
        λ meta _. run_attempts-Works ops dest meta _ 1 _

-- Where the event and its connection can be read and every call goes well, the workflow returns
-- without an error, whatever the destination answers, and they can still be read.
pub delivery_workflow-returns :
    (ops : FloatOps) (env : StoreEnv) (dest : Destination) (id : ℕ) (event : Event)
    (conn : Connection) (w : World)
    → w.outcomes ≡ []
    → IsReadable env id event conn w.tables w.next_id
    → ((delivery_workflow ops env dest id w).0 ≡ ok tt)
      × IsReadable env id event conn
          (delivery_workflow ops env dest id w).1.tables
          (delivery_workflow ops env dest id w).1.next_id
delivery_workflow-returns ops env dest id event conn w calm readable =
    let (_, returned, _, after) =
      (delivery_workflow-Works env id event conn ops dest).at w
        (record { calm = calm; kept = readable }) in
    (returned, after.kept)
