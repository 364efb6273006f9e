-- ===== src/Api/Rules.antt =====
-- internal/api/alert_rules.go: the handlers of the alert rules.
pub mod Laws
pub mod Refused
use koto7_tuma.Prelude.{
  ℕ, ◌+◌, ◌*◌, ◌-◌, ◌^◌, Text, str, text_eq, is_empty, Bool, true, false, not, ◌&&◌, ◌||◌, Option,
  none, some, List, [], ◌∷◌, ltb, leb, ◌==◌, length, count_where, digits_value, if◌then◌else◌,
}
use koto7_tuma.Float.{Float64}
use koto7_tuma.Storage.Rows.{AlertRule, AlertNotification}
use koto7_tuma.Storage.AlertRules.{
  RulePatch, list_alert_rules, create_alert_rule, get_alert_rule, update_alert_rule,
  delete_alert_rule, list_alert_notifications,
}
use koto7_tuma.Storage.SavedSettings.{get_notification_settings}
use koto7_tuma.Storage.Events.{lift}
use koto7_tuma.Storage.Db.{
  Db, Err, db_error, no_rows, alert_rule_not_found, too_many_alert_rules, crypto_error, failed_with,
  Res, ok, err, pure, ◌>>=◌, attempt,
}
use koto7_tuma.Notification.Mail.{valid_slack_user_id}
use koto7_tuma.Notification.Settings.{Effective, load}
use koto7_tuma.Api.Auth.{auth}
use koto7_tuma.Api.Http.{Answer, success, refusal, ConsoleEnv, unless_none, call_or, find_or}

-- validUnitsForType
unfoldable pub valid_unit_for_type : Text → Option Text
valid_unit_for_type rule_type =
    if text_eq rule_type (str "OPEN_ISSUES")
    then some (str "COUNT")
    else if text_eq rule_type (str "DELIVERY_SUCCESS")
    then some (str "PERCENT")
    else if text_eq rule_type (str "UNRESOLVED_TIME")
    then some (str "HOURS")
    else none

unfoldable pub has_blank : Text → Bool
has_blank [] = false
has_blank (c ∷ s) = (c == 32 || c == 13 || c == 10) || has_blank s

abbrev pub is_address : Text → Option Text → Bool
is_address s none = false
is_address s (some address) = text_eq address s

unfoldable pub valid_email : ConsoleEnv → Text → Bool
unfolding has_blank
valid_email env s = if is_empty s || has_blank s then false else is_address s (env.parse_address s)

unfoldable pub valid_destination : ConsoleEnv → Text → Text → Bool
unfolding valid_email
valid_destination env notif_type notif_dest =
    if text_eq notif_type (str "email")
    then valid_email env notif_dest
    else if text_eq notif_type (str "slack_dm")
    then valid_slack_user_id notif_dest
    else false

-- validateAlertRule, which gives a message for what it refuses.
unfoldable pub validate_unit : ConsoleEnv → Text → Text → Float64 → Text → Text → Option Text → Bool
unfolding valid_destination
validate_unit env rule_type unit threshold notif_type notif_dest none = false
validate_unit env rule_type unit threshold notif_type notif_dest (some expected) =
    if not (text_eq unit expected)
    then false
    else if env.float_lt threshold env.float_0
    then false
    else if text_eq rule_type (str "DELIVERY_SUCCESS") && env.float_lt env.float_100 threshold
    then false
    else valid_destination env notif_type notif_dest

unfoldable pub validate_alert_rule : ConsoleEnv → Text → Text → Float64 → Text → Text → Bool
unfolding validate_unit
validate_alert_rule env rule_type unit threshold notif_type notif_dest =
    validate_unit env rule_type unit threshold notif_type notif_dest (valid_unit_for_type rule_type)

pub record RuleList : Type 0 where
  pub alert_rules : List AlertRule
  pub active_count : ℕ
  pub total_count : ℕ

abbrev pub rule_list : List AlertRule → Db (Answer RuleList)
rule_list rules = pure (
    success 200 (record {
      alert_rules = rules;
      active_count = count_where (λ r. r.active) rules;
      total_count = length rules;
    }))

unfoldable pub list_rules : Db (Answer RuleList)
list_rules = call_or 500 list_alert_rules rule_list

pub record RuleRequest : Type 0 where
  pub name : Text
  pub rule_type : Text
  pub threshold : Float64
  pub unit : Text
  pub notification_type : Text
  pub notification_dest : Text
  pub subject_template : Option Text
  pub body_template : Option Text

-- New rules start active.
abbrev pub requested_rule : RuleRequest → AlertRule
requested_rule req = record {
  id = 0;
  name = req.name;
  rule_type = req.rule_type;
  threshold = req.threshold;
  unit = req.unit;
  active = true;
  notification_type = req.notification_type;
  notification_dest = req.notification_dest;
  subject_template = req.subject_template;
  body_template = req.body_template;
  firing_threshold = none;
  delivery_error = none;
  created_at = 0;
  updated_at = 0;
}

-- notificationSettings, of internal/api/admin_settings.go
unfoldable pub notification_settings : ConsoleEnv → Db Effective
notification_settings env = do
  row ← attempt get_notification_settings
  lift (load (some env.server.encryptor) env.config row)

abbrev pub created_answer : Res AlertRule → Db (Answer AlertRule)
created_answer (ok rule) = pure (success 201 rule)
created_answer (err too_many_alert_rules) = pure (refusal 400)
created_answer (err db_error) = pure (refusal 500)
created_answer (err no_rows) = pure (refusal 500)
created_answer (err alert_rule_not_found) = pure (refusal 500)
created_answer (err crypto_error) = pure (refusal 500)
created_answer (err (failed_with _)) = pure (refusal 500)

unfoldable pub store_rule : ConsoleEnv → RuleRequest → Db (Answer AlertRule)
store_rule env req = do
  r ← attempt (create_alert_rule env.server.store.pg (requested_rule req))
  created_answer r

-- A channel that is not set up takes no rule.
unfoldable pub with_channel : ConsoleEnv → RuleRequest → Effective → Db (Answer AlertRule)
with_channel env req eff =
    if text_eq req.notification_type (str "email") && not eff.view.email_enabled
    then pure (refusal 400)
    else if text_eq req.notification_type (str "slack_dm") && not eff.view.slack_enabled
    then pure (refusal 400)
    else store_rule env req

unfoldable pub is_valid_request : ConsoleEnv → RuleRequest → Bool
unfolding validate_alert_rule
is_valid_request env req =
    validate_alert_rule env req.rule_type req.unit req.threshold req.notification_type
      req.notification_dest

unfoldable pub create_rule_with : ConsoleEnv → RuleRequest → Db (Answer AlertRule)
create_rule_with env req =
    if is_empty req.name
    then pure (refusal 400)
    else if not (is_valid_request env req)
    then pure (refusal 400)
    else call_or 500 (notification_settings env) (with_channel env req)

unfoldable pub create_rule : ConsoleEnv → Option RuleRequest → Db (Answer AlertRule)
create_rule env body = unless_none 400 (create_rule_with env) body

-- `ErrAlertRuleNotFound` is 404, any other error 500.
abbrev pub error_status : Err → ℕ
error_status alert_rule_not_found = 404
error_status too_many_alert_rules = 500
error_status db_error = 500
error_status no_rows = 500
error_status crypto_error = 500
error_status (failed_with _) = 500

abbrev pub answer_with : {A : Type 0} → ℕ → Res A → Db (Answer A)
answer_with status (ok a) = pure (success status a)
answer_with status (err e) = pure (refusal (error_status e))

unfoldable pub store_patch : ConsoleEnv → ℕ → RulePatch → Db (Answer AlertRule)
store_patch env id p = do
  r ← attempt (update_alert_rule env.server.store.pg id p)
  answer_with 200 r

abbrev pub patch_existing : ConsoleEnv → ℕ → RulePatch → Float64 → AlertRule → Db (Answer AlertRule)
patch_existing env id p threshold existing =
    if text_eq existing.rule_type (str "DELIVERY_SUCCESS") && env.float_lt env.float_100 threshold
    then pure (refusal 400)
    else store_patch env id p

unfoldable pub found_or_404 :
    ConsoleEnv → ℕ → RulePatch → Float64 → Option AlertRule → Db (Answer AlertRule)
found_or_404 env id p threshold existing =
    unless_none 404 (patch_existing env id p threshold) existing

unfoldable pub patch_threshold : ConsoleEnv → ℕ → RulePatch → Option Float64 → Db (Answer AlertRule)
patch_threshold env id p none = store_patch env id p
patch_threshold env id p (some threshold) =
    if env.float_lt threshold env.float_0
    then pure (refusal 400)
    else call_or 500 (get_alert_rule id) (found_or_404 env id p threshold)

abbrev pub patch_rule_with : ConsoleEnv → Option RulePatch → ℕ → Db (Answer AlertRule)
patch_rule_with env body id = unless_none 400 (λ p. patch_threshold env id p p.threshold) body

unfoldable pub patch_rule : ConsoleEnv → Text → Option RulePatch → Db (Answer AlertRule)
patch_rule env id body = unless_none 400 (patch_rule_with env body) (env.parse_uuid id)

abbrev pub delete_rule_with : ℕ → Db (Answer Unit)
delete_rule_with id = do r ← attempt (delete_alert_rule id); answer_with 204 r

unfoldable pub delete_rule : ConsoleEnv → Text → Db (Answer Unit)
delete_rule env id = unless_none 400 delete_rule_with (env.parse_uuid id)

-- strconv.Atoi, for what is then positive: a sign `+` may stand in front.
abbrev pub unsigned : Text → Option ℕ
unsigned [] = none
unsigned (c ∷ s) = digits_value 0 (c ∷ s)

unfoldable pub atoi_positive : Text → Option ℕ
atoi_positive [] = none
atoi_positive (c ∷ s) = if c == 43 then unsigned s else unsigned (c ∷ s)

abbrev pub limit_or_default : Option ℕ → ℕ
limit_or_default none = 100
limit_or_default (some n) = if ltb 0 n && leb n 500 then n else 100

unfoldable pub limit_of_query : Text → ℕ
unfolding atoi_positive
limit_of_query q = limit_or_default (atoi_positive q)

unfoldable pub list_notifications : Text → Db (Answer (List AlertNotification))
list_notifications q =
    call_or 500 (list_alert_notifications (limit_of_query q)) (λ ns. pure (success 200 ns))

-- The requests on the alert rules, as internal/api/server.go routes them.
pub data RuleCall : Type 0 where
  listing : RuleCall
  creation : Option RuleRequest → RuleCall
  patching : Text → Option RulePatch → RuleCall
  deletion : Text → RuleCall
  notification_listing : Text → RuleCall

abbrev pub code_of : {A : Type 0} → Answer A → ℕ
code_of (success code _) = code
code_of (refusal code) = code

abbrev pub status_of : {A : Type 0} → Db (Answer A) → Db ℕ
status_of m = do a ← m; pure (code_of a)

-- The status that a request with a cookie is answered with.
unfoldable pub rule_call : ConsoleEnv → Option Text → RuleCall → Db ℕ
rule_call env cookie listing = status_of (auth env list_rules cookie)
rule_call env cookie (creation body) = status_of (auth env (create_rule env body) cookie)
rule_call env cookie (patching id body) = status_of (auth env (patch_rule env id body) cookie)
rule_call env cookie (deletion id) = status_of (auth env (delete_rule env id) cookie)
rule_call env cookie (notification_listing q) = status_of (auth env (list_notifications q) cookie)
