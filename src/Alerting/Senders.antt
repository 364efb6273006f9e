-- ===== src/Alerting/Senders.antt =====
-- Sending the notification of an alert rule: sendNotification of internal/alerting/evaluator.go,
-- Service.Send of internal/notification/service.go and PostDM of slack.go. The parts that the
-- evaluator is made from are the record Evaluator; a sender is nil where it is `none`. What the SMTP
-- server and Slack do with a message, at a time, is a parameter.
use koto7_tuma.Prelude.{
  ℕ, pos, Text, str, text_eq, is_empty, trim_space, not, Option, none, some, List, [], ◌∷◌, ◌++◌,
  if◌then◌else◌,
}
use koto7_tuma.Float.{Float64, FloatOps}
use koto7_tuma.Notification.Template.{
  Outcome, done, error, Template, NotificationType, Request, type_for_rule, render_request,
}
use koto7_tuma.Notification.Mail.{valid_slack_user_id, dm_text}
use koto7_tuma.Storage.Env.{Pg}
use koto7_tuma.Storage.Rows.{AlertRule}
use koto7_tuma.Storage.Db.{Db, ok, Notice, pure, ◌>>=◌}

-- A message is taken, or it is not and the send fails, or it is taken and the send fails all the
-- same: the Quit of smtp.go or the reading of the response of slack.go goes wrong after it.
pub data Reply : Type 0 where
  taken : Reply
  not_taken taken_unseen : Text → Reply

-- The reply to a message: the time, the recipient, the subject and the body.
abbrev pub Transport : Type 0
Transport = ℕ → Text → Text → Text → Reply

pub record Evaluator : Type 0 where
  pub pg : Pg
  pub floats : FloatOps
  pub percentile : List ℕ → Option Float64
  pub hours : ℕ → Float64
  pub quote : Text → Text
  pub notifier : Option Transport
  -- A client has a bot token, which may be empty.
  pub slack : Option (Text × Transport)

unfoldable pub format_metric : FloatOps → Text → Float64 → Text
format_metric floats unit v =
    if text_eq unit (str "COUNT")
    then floats.format_whole (floats.round v)
    else let ten = floats.of_int (pos 10) in
      floats.format_shortest (floats.div (floats.round (floats.mul v ten)) ten)

abbrev or_empty : Option Text → Text
or_empty none = []
or_empty (some t) = t

abbrev request_of : FloatOps → AlertRule → Float64 → Outcome NotificationType → Outcome Request
request_of floats rule current (error e) = error e
request_of floats rule current (done typ) = done (record {
  typ = typ;
  recipient = rule.notification_dest;
  custom_subject = or_empty rule.subject_template;
  custom_body = or_empty rule.body_template;
  vars =
      (str "resource_name", rule.name)
      ∷ (str "limit", format_metric floats rule.unit rule.threshold)
      ∷ (str "current_value", format_metric floats rule.unit current)
      ∷ [];
})

unfoldable pub alert_request : Evaluator → AlertRule → Float64 → Outcome Request
unfolding format_metric
alert_request e rule current =
    request_of e.floats rule current (type_for_rule e.quote rule.rule_type)

-- The message is handed to the transport; `none` is success.
abbrev pub log_notice : Notice → Reply → Db (Option Text)
log_notice n taken w = (ok none, record w { notices = w.notices ++ n ∷ [] })
log_notice n (not_taken e) w = (ok (some e), w)
log_notice n (taken_unseen e) w = (ok (some e), record w { notices = w.notices ++ n ∷ [] })

unfoldable pub hand_over : Text → Transport → Text → Text → Text → Db (Option Text)
hand_over channel transport recipient subject body w =
    log_notice (record { channel = channel; recipient = recipient; subject = subject; body = body })
      (transport w.now recipient subject body) w

abbrev pub wrapped : Text → Option Text → Option Text
wrapped prefix none = none
wrapped prefix (some e) = some (prefix ++ e)

-- Service.Send
abbrev pub send_rendered : Transport → Text → Outcome Template → Db (Option Text)
send_rendered transport recipient (error e) = pure (some (str "notification render: " ++ e))
send_rendered transport recipient (done t) = do
  r ← hand_over (str "email") transport recipient t.subject t.body
  pure (wrapped (str "notification send: ") r)

unfoldable pub send_email : (Text → Text) → Transport → Request → Db (Option Text)
unfolding hand_over
send_email quote transport req = send_rendered transport req.recipient (render_request quote req)

-- SlackClient.PostDM
unfoldable pub post_dm : Text → Transport → Text → Text → Db (Option Text)
unfolding hand_over
post_dm token transport user text =
    let t = trim_space text in
    if is_empty token
    then pure (some (str "slack bot token is not configured"))
    else if not (valid_slack_user_id user)
    then pure (some (str "invalid slack member id"))
    else if is_empty t
    then pure (some (str "slack message is empty"))
    else hand_over (str "slack_dm") transport user [] t

abbrev pub dm_rendered : Text × Transport → Text → Outcome Template → Db (Option Text)
dm_rendered client user (error e) = pure (some e)
dm_rendered client user (done t) = post_dm client.0 client.1 user (dm_text t.subject t.body)

abbrev pub email_by : Evaluator → Option Transport → Request → Db (Option Text)
email_by e none req = pure (some (str "email notifier is not configured"))
email_by e (some t) req = send_email e.quote t req

abbrev pub dm_by : Evaluator → Option (Text × Transport) → Text → Request → Db (Option Text)
dm_by e none user req = pure (some (str "slack is not configured"))
dm_by e (some client) user req = dm_rendered client user (render_request e.quote req)

abbrev pub dispatch : Evaluator → AlertRule → Outcome Request → Db (Option Text)
dispatch e rule (error x) = pure (some x)
dispatch e rule (done req) =
    if text_eq rule.notification_type (str "email")
    then email_by e e.notifier req
    else if text_eq rule.notification_type (str "slack_dm")
    then dm_by e e.slack rule.notification_dest req
    else pure (some (str "unknown notification_type: " ++ rule.notification_type))

-- The result is the error of the send, `none` where it returns nil.
unfoldable pub send_notification : Evaluator → AlertRule → Float64 → Db (Option Text)
unfolding alert_request send_email post_dm
send_notification e rule current = dispatch e rule (alert_request e rule current)
