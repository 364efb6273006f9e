-- ===== src/Alerting/Rows.antt =====
-- What the evaluator's statements do to the row of a rule, where every statement goes well, and
-- what they leave alone, however they end.
use koto7_tuma.Prelude.{
  ℕ, ◌≡◌, refl, Text, Bool, true, false, Option, none, some, [], find, is_none, update_where,
  find-update_self, arith, if◌then◌else◌,
}
use koto7_tuma.Float.{Float64}
use koto7_tuma.Storage.Env.{Pg}
use koto7_tuma.Storage.Rows.{AlertRule, AlertNotification}
use koto7_tuma.Storage.AlertRules.{
  has_rule_id, change_rules, change_rule, set_alert_rule_firing, set_alert_rule_delivery_error,
  write_firing, kept_threshold, record_alert_notification, insert_notification,
}
use koto7_tuma.Storage.Db.{World, Res, ignore_error, statement-calm_eq}

-- Every call to come goes well, and the row of the rule `id` is `r`.
pub record HasRow (id : ℕ) (r : AlertRule) (w : World) : Type 0 where
  pub calm : w.outcomes ≡ []
  pub row : find (has_rule_id id) w.tables.alert_rules ≡ some r

change_rule-HasRow :
    (id : ℕ) (g : AlertRule → AlertRule) (r : AlertRule) (w : World) (o : Option AlertRule)
    → ((x : AlertRule) → has_rule_id id (g x) ≡ has_rule_id id x)
    → HasRow id r w
    → o ≡ some r
    → HasRow id (g r) (change_rule (update_where (has_rule_id id) g) o w).1
unfolding change_rule
change_rule-HasRow id g r w none keep h e = absurd (ground arith)
change_rule-HasRow id g r w (some x) keep h e = record {
  calm = h.calm;
  row = find-update_self (has_rule_id id) g w.tables.alert_rules r keep h.row;
}

pub change_rules-HasRow :
    (id : ℕ) (g : AlertRule → AlertRule) (r : AlertRule) (w : World)
    → ((x : AlertRule) → has_rule_id id (g x) ≡ has_rule_id id x)
    → HasRow id r w
    → HasRow id (g r) (change_rules id (update_where (has_rule_id id) g) w).1
unfolding change_rules
change_rules-HasRow id g r w keep h =
    change_rule-HasRow id g r w (find (has_rule_id id) w.tables.alert_rules) keep h h.row

pub set_firing-HasRow :
    (pg : Pg) (id : ℕ) (t kept : Option Float64) (r : AlertRule) (w : World)
    → kept_threshold pg t ≡ some kept
    → HasRow id r w
    → HasRow id
        (record r { firing_threshold = kept })
        (ignore_error (set_alert_rule_firing pg id t) w).1
unfolding ignore_error set_alert_rule_firing write_firing has_rule_id
set_firing-HasRow pg id t kept r w fits h =
    rw (statement-calm_eq (write_firing id (kept_threshold pg t)) w h.calm, fits)
      (change_rules-HasRow id (λ x. record x { firing_threshold = kept }) r w (λ x. refl) h)

pub set_delivery_error-HasRow :
    (id : ℕ) (message : Option Text) (r : AlertRule) (w : World)
    → HasRow id r w
    → HasRow id
        (record r { delivery_error = message })
        (ignore_error (set_alert_rule_delivery_error id message) w).1
unfolding ignore_error set_alert_rule_delivery_error has_rule_id
set_delivery_error-HasRow id message r w h =
    rw
      (statement-calm_eq
        (change_rules id
          (update_where (has_rule_id id) (λ x. record x { delivery_error = message })))
        w h.calm)
      (change_rules-HasRow id (λ x. record x { delivery_error = message }) r w (λ x. refl) h)

branch-HasRow :
    {A : Type 0} (id : ℕ) (r : AlertRule) (b : Bool) (p q : Res A × World)
    → HasRow id r p.1
    → HasRow id r q.1
    → HasRow id r (if b then p else q).1
branch-HasRow id r true p q hp hq = hp
branch-HasRow id r false p q hp hq = hq

insert_notification-HasRow :
    (id : ℕ) (r : AlertRule) (t c : Option Float64) (n : AlertNotification) (w : World)
    → HasRow id r w
    → HasRow id r (insert_notification t c n w).1
unfolding insert_notification
insert_notification-HasRow id r none c n w h = h
insert_notification-HasRow id r (some t) none n w h = h
insert_notification-HasRow id r (some t) (some c) n w h =
    branch-HasRow id r (is_none (find (has_rule_id n.alert_rule_id) w.tables.alert_rules)) _ _ h
      (record { calm = h.calm; row = h.row })

pub record_notification-HasRow :
    (pg : Pg) (id : ℕ) (r : AlertRule) (n : AlertNotification) (w : World)
    → HasRow id r w
    → HasRow id r (ignore_error (record_alert_notification pg n) w).1
unfolding ignore_error record_alert_notification
record_notification-HasRow pg id r n w h =
    rw
      (statement-calm_eq
        (insert_notification (pg.numeric_10_2 n.threshold) (pg.numeric_10_2 n.current_value) n) w
        h.calm)
      (insert_notification-HasRow id r _ _ n w h)
