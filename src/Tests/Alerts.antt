-- ===== src/Tests/Alerts.antt =====
-- Alert rules: a backlog of nine open issues over a threshold of five.
use koto7_tuma.Prelude.{
  ◌+◌, ◌≡◌, refl, ◌≤◌, str, text_eq, has_prefix, true, false, Option, none, some, find, length,
  arith,
}
use koto7_tuma.Storage.AlertRules.{has_rule_id}
use koto7_tuma.Storage.RuleLimit.{AtMostTen, create, write_of, rules-AtMostTen}
use koto7_tuma.Storage.Db.{World, ok, ◌>>=◌}
use koto7_tuma.Alerting.DeliveryError.{delivery_error_text}
use koto7_tuma.Alerting.Defs.{sample, is_breached, same_threshold, judge}
use koto7_tuma.Alerting.Senders.{
  Evaluator, Transport, taken, send_notification, alert_request, send_email, hand_over,
}
use koto7_tuma.Alerting.Sends.{IsSend, send_notification-IsSend}
use koto7_tuma.Alerting.Rows.{HasRow}
use koto7_tuma.Alerting.Once.{told, judge-tells, judge-stays_quiet, judge-rearms}
use koto7_tuma.Alerting.Shown.{delivery_error_text-length}
use koto7_tuma.Notification.Template.{
  render_request, render, render_custom, get_default_template, type_for_rule, substitute,
}
use koto7_tuma.Tests.Data.{floats, pg, backlog, world}

abbrev evaluator : Option Transport → Evaluator
evaluator notifier = record {
  pg = pg;
  floats = floats;
  percentile = λ latencies. none;
  hours = λ age. age;
  quote = λ text. text;
  notifier = notifier;
  slack = none;
}

-- A server that takes every message, and none at all.
abbrev working : Evaluator
working = evaluator (some (λ now recipient subject body. taken))

abbrev missing : Evaluator
missing = evaluator none

backlog_row : HasRow 3 backlog world
unfolding find has_rule_id
backlog_row = record { calm = refl; row = refl }

five_same : same_threshold floats 5 5 ≡ true
unfolding same_threshold
five_same = refl

nine_breaches : is_breached floats backlog 9 ≡ true
unfolding is_breached str text_eq
nine_breaches = refl

eight_breaches : is_breached floats (told backlog) 8 ≡ true
unfolding is_breached str text_eq
eight_breaches = refl

two_is_calm : is_breached floats backlog 2 ≡ false
unfolding is_breached str text_eq
two_is_calm = refl

sent : (send_notification working backlog 9 world).0 ≡ ok none
unfolding send_notification alert_request send_email hand_over render_request type_for_rule render
    str text_eq get_default_template ◌>>=◌ render_custom substitute has_prefix
sent = refl

send_notification-IsSend_example : IsSend world (send_notification working backlog 9 world)
send_notification-IsSend_example = send_notification-IsSend working backlog 9 world

judge-tells_example :
    (length (judge working backlog (sample 9) world).1.notices ≡ 0 + 1)
    × HasRow 3 (told backlog) (judge working backlog (sample 9) world).1
judge-tells_example = judge-tells working backlog 9 world backlog_row refl nine_breaches refl sent

abbrev after_first : World
after_first = (judge working backlog (sample 9) world).1

told_row : find (has_rule_id 3) after_first.tables.alert_rules ≡ some (told backlog)
told_row = (judge-tells working backlog 9 world backlog_row refl nine_breaches refl sent).1.row

judge-stays_quiet_example :
    judge working (told backlog) (sample 8) after_first ≡ (ok tt, after_first)
judge-stays_quiet_example =
    judge-stays_quiet working backlog (told backlog) 9 8 world backlog_row refl five_same
      nine_breaches refl sent told_row eight_breaches

judge-rearms_example :
    HasRow 3 (record backlog { firing_threshold = none }) (judge working backlog (sample 2) world).1
    × ((judge working backlog (sample 2) world).1.notices ≡ world.notices)
judge-rearms_example = judge-rearms working backlog 2 world backlog_row two_is_calm

rules-AtMostTen_example :
    AtMostTen
      (write_of pg (create backlog) world).tables
      (write_of pg (create backlog) world).next_id
rules-AtMostTen_example = rules-AtMostTen pg (create backlog) world (omega arith)

delivery_error_text-length_example :
    length (delivery_error_text (str "email") (str "smtp auth: 535")) ≤ 203
delivery_error_text-length_example = delivery_error_text-length (str "email") (str "smtp auth: 535")
