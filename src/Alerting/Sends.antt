-- ===== src/Alerting/Sends.antt =====
-- What a send of internal/alerting/evaluator.go does to the state.
use koto7_tuma.Prelude.{
  ℕ, ◌≤◌, ◌≡◌, refl, ap, sym, append_nil, Text, str, text_eq, is_empty, trim_space, Bool, true,
  false, not, Option, none, some, List, [], ◌∷◌, ◌++◌, length, arith, if◌then◌else◌,
}
use koto7_tuma.Notification.Template.{Outcome, done, error, Template, Request}
use koto7_tuma.Notification.Mail.{valid_slack_user_id}
use koto7_tuma.Storage.Rows.{AlertRule}
use koto7_tuma.Storage.Db.{World, Db, Res, ok, Notice, pure, ◌>>=◌}
use koto7_tuma.Float.{Float64}
use koto7_tuma.Alerting.Senders.{
  Evaluator, Transport, hand_over, send_email, post_dm, send_notification, alert_request, Reply,
  taken, not_taken, taken_unseen, log_notice, wrapped, send_rendered, email_by, dm_rendered, dm_by,
  dispatch,
}

-- What a send returns where `n` messages were taken: without an error it took one.
abbrev pub IsTold : ℕ → Option Text → Type 0
IsTold n none = n ≡ 1
IsTold n (some e) = n ≤ 1

-- The result `p` of a send in the state `w`: an error or none, with no change but that messages were
-- taken: one where there is no error, and one at most where there is one.
pub record IsSend (w : World) (p : Res (Option Text) × World) : Type 0 where
  pub error_of : Option Text
  pub sent : List Notice
  pub does : p ≡ (ok error_of, record w { notices = w.notices ++ sent })
  pub takes : IsTold (length sent) error_of

module _ (w : World) where
  refusal-IsSend : (e : Text) → IsSend w (pure (some e) w)
  refusal-IsSend e = record {
    error_of = some e;
    sent = [];
    does = ap (λ ns. (ok (some e), record w { notices = ns })) (sym (append_nil w.notices));
    takes = omega arith;
  }

  if-IsSend :
      (b : Bool) (m n : Db (Option Text))
      → IsSend w (m w)
      → IsSend w (n w)
      → IsSend w ((if b then m else n) w)
  if-IsSend true m n hm hn = hm
  if-IsSend false m n hm hn = hn

  log_notice-IsSend : (n : Notice) (reply : Reply) → IsSend w (log_notice n reply w)
  log_notice-IsSend n taken = record { error_of = none; sent = n ∷ []; does = refl; takes = refl }
  log_notice-IsSend n (not_taken e) = refusal-IsSend e
  log_notice-IsSend n (taken_unseen e) = record {
    error_of = some e;
    sent = n ∷ [];
    does = refl;
    takes = omega arith;
  }

  hand_over-IsSend :
      (channel : Text) (transport : Transport) (recipient subject body : Text)
      → IsSend w (hand_over channel transport recipient subject body w)
  unfolding hand_over
  hand_over-IsSend channel transport recipient subject body =
      log_notice-IsSend _ (transport w.now recipient subject body)

  wrapped-IsTold :
      (prefix : Text) (n : ℕ) (r : Option Text) → IsTold n r → IsTold n (wrapped prefix r)
  wrapped-IsTold prefix n none h = h
  wrapped-IsTold prefix n (some e) h = h

  wrapped-IsSend :
      (prefix : Text) (m : Db (Option Text))
      → IsSend w (m w)
      → IsSend w ((m >>= λ r. pure (wrapped prefix r)) w)
  unfolding ◌>>=◌
  wrapped-IsSend prefix m h = record {
    error_of = wrapped prefix h.error_of;
    sent = h.sent;
    does = rw h.does refl;
    takes = wrapped-IsTold prefix (length h.sent) h.error_of h.takes;
  }

  send_rendered-IsSend :
      (transport : Transport) (recipient : Text) (o : Outcome Template)
      → IsSend w (send_rendered transport recipient o w)
  send_rendered-IsSend transport recipient (error e) = refusal-IsSend _
  send_rendered-IsSend transport recipient (done t) =
      wrapped-IsSend _ _ (hand_over-IsSend _ transport recipient t.subject t.body)

  email_by-IsSend :
      (e : Evaluator) (t : Option Transport) (req : Request) → IsSend w (email_by e t req w)
  unfolding send_email
  email_by-IsSend e none req = refusal-IsSend _
  email_by-IsSend e (some t) req = send_rendered-IsSend t req.recipient _

  post_dm-IsSend :
      (token : Text) (t : Transport) (user text : Text) → IsSend w (post_dm token t user text w)
  unfolding post_dm
  post_dm-IsSend token t user text = if-IsSend (is_empty token) _ _ (refusal-IsSend _) (
      if-IsSend (not (valid_slack_user_id user)) _ _ (refusal-IsSend _) (
        if-IsSend (is_empty (trim_space text)) _ _ (refusal-IsSend _)
          (hand_over-IsSend _ t user _ _)))

  dm_rendered-IsSend :
      (client : Text × Transport) (user : Text) (o : Outcome Template)
      → IsSend w (dm_rendered client user o w)
  dm_rendered-IsSend client user (error e) = refusal-IsSend e
  dm_rendered-IsSend client user (done t) = post_dm-IsSend client.0 client.1 user _

  dm_by-IsSend :
      (e : Evaluator) (client : Option (Text × Transport)) (user : Text) (req : Request)
      → IsSend w (dm_by e client user req w)
  dm_by-IsSend e none user req = refusal-IsSend _
  dm_by-IsSend e (some client) user req = dm_rendered-IsSend client user _

  dispatch-IsSend :
      (e : Evaluator) (rule : AlertRule) (o : Outcome Request) → IsSend w (dispatch e rule o w)
  dispatch-IsSend e rule (error x) = refusal-IsSend x
  dispatch-IsSend e rule (done req) =
      if-IsSend (text_eq rule.notification_type (str "email")) _ _
        (email_by-IsSend e e.notifier req)
        (if-IsSend (text_eq rule.notification_type (str "slack_dm")) _ _
          (dm_by-IsSend e e.slack rule.notification_dest req) (refusal-IsSend _))

-- Sending the notification of a rule changes nothing but the messages that the channels have taken.
-- Without an error they have taken one more; with an error one more at most.
pub send_notification-IsSend :
    (e : Evaluator) (rule : AlertRule) (current : Float64) (w : World)
    → IsSend w (send_notification e rule current w)
unfolding send_notification
send_notification-IsSend e rule current w = dispatch-IsSend w e rule (alert_request e rule current)
