-- ===== src/Workflow/Attempts.antt =====
-- One attempt of DeliveryWorkflow in internal/workflow/delivery.go, where every call goes well.
use koto7_tuma.Prelude.{ℕ, ◌≡◌, refl, ap, Text, Bool, true, false, Option, none, some, find, arith}
use koto7_tuma.Storage.Env.{StoreEnv}
use koto7_tuma.Storage.Rows.{Connection, Event, Delivery, Issue, Tables}
use koto7_tuma.Storage.Db.{
  World, ok, Invariant, Works, IsCalm, Works-pure, Works-statement, Works-bind, Works-require,
  Works-ignore_error, Works-send_post, statement-IsCalm, get_now-Works, fresh_id,
}
use koto7_tuma.Storage.Connections.{has_connection_id, get_connection}
use koto7_tuma.Storage.Events.{has_event_id, scan_event, get_event}
use koto7_tuma.Storage.Issues.{
  is_of_event, record_delivery, insert_delivery, record_issue, write_issue, upsert_issue,
}
use koto7_tuma.Workflow.Defs.{
  HttpResult, bad_request, transport_error, responded, Destination, note_open_issue, note_unless,
  is_success, settle, send, deliver_activity,
}

-- The event of the workflow can be read, and so can its connection.
pub record IsReadable (env : StoreEnv) (id : ℕ) (event : Event) (conn : Connection) (t : Tables)
    (next_id : ℕ) : Type 0 where
  pub event_row : scan_event env (find (has_event_id id) t.events) ≡ ok (some event)
  pub conn_row : find (has_connection_id event.connection_id) t.connections ≡ some conn

module _ (env : StoreEnv) (id : ℕ) (event : Event) (conn : Connection) where
  abbrev pub Readable : Invariant
  Readable = IsReadable env id event conn

  pub get_event-Works :
      Works Readable (λ o. (e : Event) × (o ≡ some e) × (e ≡ event)) (get_event env id)
  unfolding get_event
  get_event-Works =
      Works-bind {Q = λ row. scan_event env row ≡ ok (some event)} _ _
        (Works-statement _ (record { at = λ w c. (_, refl, c.kept.event_row, c) }))
        (λ row q. record { at = λ w c. (some event, q, (event, refl, refl), c) })

  pub get_connection-Works :
      Works Readable
        (λ o. (c : Connection) × (o ≡ some c) × (c ≡ conn))
        (get_connection event.connection_id)
  unfolding get_connection
  get_connection-Works =
      Works-statement _
        (record { at = λ w c. (some conn, ap ok c.kept.conn_row, (conn, refl, refl), c) })

  pub insert_delivery-IsCalm :
      (d : Delivery) (w : World) → IsCalm Readable w → IsCalm Readable (insert_delivery d w).1
  unfolding insert_delivery
  insert_delivery-IsCalm d w c = ground arith

  pub upsert_issue-IsCalm :
      (i : Issue) (o : Option Issue) (w : World)
      → IsCalm Readable w
      → IsCalm Readable (upsert_issue i o w).1
  unfolding upsert_issue
  upsert_issue-IsCalm i none w c = ground arith
  upsert_issue-IsCalm i (some _) w c = ground arith

  pub write_issue-IsCalm :
      (i : Issue) (w : World) → IsCalm Readable w → IsCalm Readable (write_issue i w).1
  unfolding write_issue
  write_issue-IsCalm i w c =
      ground (arith, upsert_issue-IsCalm i (find (is_of_event i.event_id) w.tables.issues) w c)

  pub record_delivery-IsCalm :
      (d : Delivery) (w : World) → IsCalm Readable w → IsCalm Readable (record_delivery d w).1
  unfolding record_delivery
  record_delivery-IsCalm d w c = statement-IsCalm (insert_delivery d) w (insert_delivery-IsCalm d) c

  pub record_issue-IsCalm :
      (i : Issue) (w : World) → IsCalm Readable w → IsCalm Readable (record_issue i w).1
  unfolding record_issue
  record_issue-IsCalm i w c = statement-IsCalm (write_issue i) w (write_issue-IsCalm i) c

  pub fresh_id-Works : Works Readable (λ _. Unit) fresh_id
  unfolding fresh_id
  fresh_id-Works = record {
    at = λ w c. (
      w.next_id,
      refl,
      tt,
      record {
        calm = c.calm;
        kept = record { event_row = c.kept.event_row; conn_row = c.kept.conn_row };
      },
    );
  }

  pub note_open_issue-Works :
      (e : Event) (attempt : ℕ) (reason : Text)
      → Works Readable (λ _. Unit) (note_open_issue e attempt reason)
  unfolding note_open_issue
  note_open_issue-Works e attempt reason =
      Works-bind {Q = λ _. Unit} _ _ get_now-Works
        (λ now _. Works-ignore_error _ (record_issue-IsCalm _))

  pub note_unless-Works :
      (done : Bool) (e : Event) (attempt : ℕ) (reason : Text)
      → Works Readable (λ _. Unit) (note_unless done e attempt reason)
  unfolding note_unless
  note_unless-Works true e attempt reason = Works-pure tt tt
  note_unless-Works false e attempt reason = note_open_issue-Works e attempt reason

  pub send-Works :
      (e : Event) (delivery_id attempt : ℕ) (r : HttpResult)
      → Works Readable (λ _. Unit) (send conn e delivery_id attempt r)
  unfolding send
  send-Works e delivery_id attempt (bad_request _) = Works-pure tt tt
  send-Works e delivery_id attempt (transport_error _) = Works-send_post _
  send-Works e delivery_id attempt (responded _) = Works-send_post _

  pub settle-Works :
      (dest : Destination) (attempt : ℕ) (e : Event) (delivery_id : ℕ) (r : HttpResult)
      → Works Readable (λ _. Unit) (settle dest id attempt e delivery_id r)
  unfolding settle
  settle-Works dest attempt e delivery_id (bad_request message) = Works-pure _ tt
  settle-Works dest attempt e delivery_id (transport_error message) =
      Works-bind {Q = λ _. Unit} _ _ (Works-ignore_error _ (record_delivery-IsCalm _)) λ _ _.
        Works-bind {Q = λ _. Unit} _ _ (note_open_issue-Works e attempt _) λ _ _. Works-pure _ tt
  settle-Works dest attempt e delivery_id (responded code) =
      Works-bind {Q = λ _. Unit} _ _ (Works-ignore_error _ (record_delivery-IsCalm _)) λ _ _.
        Works-bind {Q = λ _. Unit} _ _ (note_unless-Works (is_success code) e attempt _)
          λ _ _. Works-pure _ tt

  -- The event and the connection of the workflow are what the two reads give.
  pub deliver_activity-Works :
      (dest : Destination) (attempt : ℕ)
      → Works Readable (λ _. Unit) (deliver_activity env dest id attempt)
  unfolding deliver_activity
  deliver_activity-Works dest attempt =
      Works-bind {Q = λ e. e ≡ event} _ _ (Works-require _ _ get_event-Works) λ e same. rw same (
        Works-bind {Q = λ c. c ≡ conn} _ _ (Works-require _ _ get_connection-Works) λ c same'.
          rw same' (
            Works-bind {Q = λ _. Unit} _ _ fresh_id-Works λ delivery_id _.
              Works-bind {Q = λ _. Unit} _ _
                (send-Works event delivery_id attempt (dest.result attempt))
                λ _ _. settle-Works dest attempt event delivery_id (dest.result attempt)))
