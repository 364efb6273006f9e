-- ===== src/Alerting/Defs.antt =====
-- internal/alerting/evaluator.go: one round over the alert rules.
use koto7_tuma.Prelude.{
  ℕ, ◌+◌, pos, Text, str, text_eq, Bool, false, not, Option, none, some, List, [], ◌∷◌, ◌==◌,
  if◌then◌else◌,
}
use koto7_tuma.Float.{Float64, FloatOps}
use koto7_tuma.Storage.Rows.{AlertRule, AlertNotification}
use koto7_tuma.Storage.AlertRules.{
  list_alert_rules, set_alert_rule_firing, set_alert_rule_delivery_error, record_alert_notification,
}
use koto7_tuma.Storage.Stats.{PlatformMetrics, get_platform_metrics, oldest_open_issue_age}
use koto7_tuma.Storage.Db.{Db, Res, ok, err, pure, attempt, ignore_error, ◌>>=◌, ◌>>◌}
use koto7_tuma.Alerting.DeliveryError.{delivery_error_text}
use koto7_tuma.Alerting.Senders.{Evaluator, send_notification}

-- What currentValue returns: a value, errNoSamples or another error.
pub data Reading : Type 0 where
  sample : Float64 → Reading
  no_samples unreadable : Reading

unfoldable pub is_breached : FloatOps → AlertRule → Float64 → Bool
is_breached floats rule current =
    if text_eq rule.rule_type (str "DELIVERY_SUCCESS")
    then floats.lt current rule.threshold
    else floats.lt rule.threshold current

unfoldable pub same_threshold : FloatOps → Float64 → Float64 → Bool
same_threshold floats a b = floats.lt (floats.abs (floats.sub a b)) floats.one_thousandth

unfoldable pub success_rate : FloatOps → ℕ → ℕ → Reading
success_rate floats delivered failed =
    if delivered + failed == 0
    then no_samples
    else sample (
        floats.mul
          (floats.div (floats.of_int (pos delivered)) (floats.of_int (pos (delivered + failed))))
          (floats.of_int (pos 100)))

abbrev reading_of_age : Res Float64 → Reading
reading_of_age (ok hours) = sample hours
reading_of_age (err _) = unreadable

unfoldable pub current_value : Evaluator → AlertRule → PlatformMetrics → Db Reading
unfolding success_rate
current_value e rule m =
    if text_eq rule.rule_type (str "OPEN_ISSUES")
    then pure (sample (e.floats.of_int (pos m.open_issues)))
    else if text_eq rule.rule_type (str "DELIVERY_SUCCESS")
    then pure (success_rate e.floats m.deliveries_delivered_24h m.deliveries_failed_24h)
    else if text_eq rule.rule_type (str "UNRESOLVED_TIME")
    then (do r ← attempt (oldest_open_issue_age e.floats e.hours); pure (reading_of_age r))
    else pure unreadable

abbrev pub clear_firing_of : Evaluator → ℕ → Option Float64 → Db Unit
clear_firing_of e id none = pure tt
clear_firing_of e id (some _) = ignore_error (set_alert_rule_firing e.pg id none)

unfoldable pub clear_firing : Evaluator → AlertRule → Db Unit
clear_firing e rule = clear_firing_of e rule.id rule.firing_threshold

abbrev pub clear_error_of : ℕ → Option Text → Db Unit
clear_error_of id none = pure tt
clear_error_of id (some _) = ignore_error (set_alert_rule_delivery_error id none)

unfoldable pub clear_delivery_error : AlertRule → Db Unit
clear_delivery_error rule = clear_error_of rule.id rule.delivery_error

abbrev pub is_text : Option Text → Text → Bool
is_text none t = false
is_text (some s) t = text_eq s t

unfoldable pub note_delivery_error : AlertRule → Text → Db Unit
note_delivery_error rule raw =
    let msg = delivery_error_text rule.notification_type raw in
    if is_text rule.delivery_error msg
    then pure tt
    else ignore_error (set_alert_rule_delivery_error rule.id (some msg))

abbrev pub notification_of : AlertRule → Float64 → AlertNotification
notification_of rule current = record {
  id = 0;
  alert_rule_id = rule.id;
  rule_name = rule.name;
  rule_type = rule.rule_type;
  threshold = rule.threshold;
  current_value = current;
  fired_at = 0;
}

-- What follows a send, by its error.
unfoldable pub after_send : Evaluator → AlertRule → Float64 → Option Text → Db Unit
after_send e rule current (some raw) = note_delivery_error rule raw
after_send e rule current none = do
  clear_delivery_error rule
  ignore_error (record_alert_notification e.pg (notification_of rule current))
  ignore_error (set_alert_rule_firing e.pg rule.id (some rule.threshold))

abbrev pub is_firing_at : FloatOps → Option Float64 → Float64 → Bool
is_firing_at floats none threshold = false
is_firing_at floats (some t) threshold = same_threshold floats t threshold

-- The rest of the loop's body, once the value is known.
unfoldable pub judge : Evaluator → AlertRule → Reading → Db Unit
unfolding is_breached same_threshold
judge e rule no_samples = pure tt
judge e rule unreadable = pure tt
judge e rule (sample current) =
    if not (is_breached e.floats rule current)
    then clear_firing e rule
    else if is_firing_at e.floats rule.firing_threshold rule.threshold
    then pure tt
    else (do sent ← send_notification e rule current; after_send e rule current sent)

-- The body of the loop.
unfoldable pub evaluate_rule : Evaluator → PlatformMetrics → AlertRule → Db Unit
evaluate_rule e m rule =
    if not rule.active
    then clear_firing e rule
    else (do value ← current_value e rule m; judge e rule value)

unfoldable pub evaluate_rules : Evaluator → PlatformMetrics → List AlertRule → Db Unit
evaluate_rules e m [] = pure tt
evaluate_rules e m (rule ∷ rules) = do evaluate_rule e m rule; evaluate_rules e m rules

unfoldable pub evaluate_once : Evaluator → Db Unit
evaluate_once e = do
  rules ← list_alert_rules
  m ← get_platform_metrics e.floats e.percentile
  evaluate_rules e m rules
