-- ===== src/Storage/AlertRules.antt =====
-- The alert rules and notifications of internal/storage/store.go, with the constraints of
-- migrations/000004 and 000006 that its statements can break.
use koto7_tuma.Prelude.{
  ℕ, ◌+◌, Text, str, text_eq, Bool, not, ◌&&◌, ◌||◌, Option, none, some, List, [], ◌∷◌, ◌++◌, leb,
  ◌==◌, length, take, reverse, find, is_none, or_keep, keep_if, update_where, if◌then◌else◌,
}
use koto7_tuma.Float.{Float64}
use koto7_tuma.Storage.Env.{Pg}
use koto7_tuma.Storage.Rows.{AlertRule, AlertNotification}
use koto7_tuma.Storage.Db.{
  Db, ok, err, alert_rule_not_found, too_many_alert_rules, fail, constraint_error, ◌>>=◌, statement,
}

abbrev pub max_alert_rules : ℕ
max_alert_rules = 10

unfoldable pub has_rule_id : ℕ → AlertRule → Bool
has_rule_id id r = r.id == id

-- ORDER BY created_at ASC: the oldest row first.
unfoldable pub list_alert_rules : Db (List AlertRule)
list_alert_rules = statement (λ w. (ok w.tables.alert_rules, w))

unfoldable pub count_alert_rules : Db ℕ
count_alert_rules = statement (λ w. (ok (length w.tables.alert_rules), w))

-- alert_rules_unit_matches_type
unfoldable pub unit_matches : Text → Text → Bool
unit_matches rule_type unit =
    text_eq rule_type (str "OPEN_ISSUES") && text_eq unit (str "COUNT")
    || text_eq rule_type (str "DELIVERY_SUCCESS") && text_eq unit (str "PERCENT")
    || text_eq rule_type (str "UNRESOLVED_TIME") && text_eq unit (str "HOURS")

unfoldable pub is_channel : Text → Bool
is_channel t = text_eq t (str "email") || text_eq t (str "slack_dm")

-- threshold >= 0, and alert_rules_delivery_threshold
unfoldable pub threshold_allowed : Pg → Text → Float64 → Bool
threshold_allowed pg rule_type threshold =
    pg.not_negative threshold
    && (not (text_eq rule_type (str "DELIVERY_SUCCESS")) || pg.at_most_hundred threshold)

-- The INSERT: the caller's rule gets the identifier and the times, and the row keeps the rounded
-- threshold.
abbrev pub insertion : Float64 → AlertRule → Db AlertRule
insertion threshold r w =
    let made = record r { id = w.next_id; created_at = w.now; updated_at = w.now } in
    let row = record made {
      threshold = threshold;
      firing_threshold = none;
      delivery_error = none;
    } in
    (
      ok made,
      record w {
        tables = record w.tables { alert_rules = w.tables.alert_rules ++ row ∷ [] };
        next_id = w.next_id + 1;
      },
    )

-- The transaction of CreateAlertRule, under the exclusive lock of the table. The row's firing
-- threshold and delivery error are NULL.
unfoldable pub insert_alert_rule : Pg → Option Float64 → AlertRule → Db AlertRule
unfolding unit_matches is_channel threshold_allowed
insert_alert_rule pg none r w =
    if leb max_alert_rules (length w.tables.alert_rules)
    then fail too_many_alert_rules w
    else constraint_error w
insert_alert_rule pg (some threshold) r w =
    if leb max_alert_rules (length w.tables.alert_rules)
    then fail too_many_alert_rules w
    else if unit_matches r.rule_type r.unit
        && is_channel r.notification_type
        && threshold_allowed pg r.rule_type threshold
    then insertion threshold r w
    else constraint_error w

-- Begin, LOCK, COUNT, INSERT and Commit: nothing is kept unless all of them are.
unfoldable pub create_alert_rule : Pg → AlertRule → Db AlertRule
create_alert_rule pg r = statement (insert_alert_rule pg (pg.numeric_10_2 r.threshold) r)

unfoldable pub get_alert_rule : ℕ → Db (Option AlertRule)
unfolding has_rule_id
get_alert_rule id = statement (λ w. (ok (find (has_rule_id id) w.tables.alert_rules), w))

-- The fields of a PATCH; `none` is a nil pointer.
pub record RulePatch : Type 0 where
  pub active : Option Bool
  pub threshold : Option Float64
  pub subject_template : Option Text
  pub body_template : Option Text

abbrev pub or_keep_some : Option Text → Option Text → Option Text
or_keep_some none old = old
or_keep_some (some new) old = some new

abbrev pub patched_rule : RulePatch → AlertRule → AlertRule
patched_rule p r = record r {
  active = or_keep p.active r.active;
  threshold = or_keep p.threshold r.threshold;
  subject_template = or_keep_some p.subject_template r.subject_template;
  body_template = or_keep_some p.body_template r.body_template;
}

abbrev pub overwrite : Float64 → ℕ → AlertRule → Db AlertRule
overwrite threshold id r w = (
  ok (record r { updated_at = w.now }),
  record w {
    tables = record w.tables {
      alert_rules =
          update_where (has_rule_id id)
            (λ row. record row {
              active = r.active;
              threshold = threshold;
              subject_template = r.subject_template;
              body_template = r.body_template;
              updated_at = w.now;
            })
            w.tables.alert_rules;
    };
  },
)

unfoldable pub write_rule : Pg → Option Float64 → ℕ → AlertRule → Db AlertRule
unfolding threshold_allowed has_rule_id
write_rule pg none id r w = constraint_error w
write_rule pg (some threshold) id r w =
    if threshold_allowed pg r.rule_type threshold
    then overwrite threshold id r w
    else constraint_error w

unfoldable pub update_found_rule : Pg → ℕ → RulePatch → Option AlertRule → Db AlertRule
update_found_rule pg id p none = fail alert_rule_not_found
update_found_rule pg id p (some r) =
    let r' = patched_rule p r in statement (write_rule pg (pg.numeric_10_2 r'.threshold) id r')

unfoldable pub update_alert_rule : Pg → ℕ → RulePatch → Db AlertRule
update_alert_rule pg id p = do r ← get_alert_rule id; update_found_rule pg id p r

-- An UPDATE of one rule, which fails where no row is affected.
unfoldable pub change_rule : (List AlertRule → List AlertRule) → Option AlertRule → Db Unit
change_rule f none w = (err alert_rule_not_found, w)
change_rule f (some _) w =
    (ok tt, record w { tables = record w.tables { alert_rules = f w.tables.alert_rules } })

unfoldable pub change_rules : ℕ → (List AlertRule → List AlertRule) → Db Unit
unfolding change_rule
change_rules id f w = change_rule f (find (has_rule_id id) w.tables.alert_rules) w

-- The notifications of a deleted rule go with it (ON DELETE CASCADE).
abbrev pub without_rule : ℕ → Option AlertRule → Db Unit
without_rule id none w = (err alert_rule_not_found, w)
without_rule id (some _) w = (
  ok tt,
  record w {
    tables = record w.tables {
      alert_rules = keep_if (λ r. not (has_rule_id id r)) w.tables.alert_rules;
      alert_notifications = keep_if (λ n. not (n.alert_rule_id == id)) w.tables.alert_notifications;
    };
  },
)

unfoldable pub delete_rule_row : ℕ → Db Unit
unfolding has_rule_id
delete_rule_row id w = without_rule id (find (has_rule_id id) w.tables.alert_rules) w

unfoldable pub delete_alert_rule : ℕ → Db Unit
unfolding delete_rule_row
delete_alert_rule id = statement (delete_rule_row id)

-- firing_threshold is NUMERIC(10,2): an overflow is an error.
unfoldable pub write_firing : ℕ → Option (Option Float64) → Db Unit
write_firing id none = constraint_error
write_firing id (some kept) =
    change_rules id (update_where (has_rule_id id) (λ r. record r { firing_threshold = kept }))

abbrev pub kept_threshold : Pg → Option Float64 → Option (Option Float64)
kept_threshold pg none = some none
kept_threshold pg (some t) = elim (pg.numeric_10_2 t) [ none ↦ none | some k ↦ some (some k) ]

unfoldable pub set_alert_rule_firing : Pg → ℕ → Option Float64 → Db Unit
set_alert_rule_firing pg id threshold = statement (write_firing id (kept_threshold pg threshold))

unfoldable pub set_alert_rule_delivery_error : ℕ → Option Text → Db Unit
set_alert_rule_delivery_error id message =
    statement
      (change_rules id (update_where (has_rule_id id) (λ r. record r { delivery_error = message })))

-- The rule must exist, and both values fit NUMERIC(10,2).
unfoldable pub insert_notification : Option Float64 → Option Float64 → AlertNotification → Db Unit
unfolding has_rule_id
insert_notification none c n w = constraint_error w
insert_notification (some t) none n w = constraint_error w
insert_notification (some t) (some c) n w =
    let row = record n { id = w.next_id; threshold = t; current_value = c; fired_at = w.now } in
    if is_none (find (has_rule_id n.alert_rule_id) w.tables.alert_rules)
    then constraint_error w
    else (
      ok tt,
      record w {
        tables = record w.tables { alert_notifications = w.tables.alert_notifications ++ row ∷ [] };
        next_id = w.next_id + 1;
      },
    )

unfoldable pub record_alert_notification : Pg → AlertNotification → Db Unit
record_alert_notification pg n =
    statement
      (insert_notification (pg.numeric_10_2 n.threshold) (pg.numeric_10_2 n.current_value) n)

unfoldable pub list_alert_notifications : ℕ → Db (List AlertNotification)
list_alert_notifications limit =
    statement (λ w. (ok (take limit (reverse w.tables.alert_notifications)), w))
