-- ===== src/Alerting/Quiet.antt =====
-- What the statements that follow a send leave alone, however they end.
use koto7_tuma.Prelude.{
  ℕ, ◌≡◌, refl, Text, Bool, Option, none, some, List, [], ◌∷◌, map, find, update_where, arith,
}
use koto7_tuma.Float.{Float64}
use koto7_tuma.Storage.Env.{Pg}
use koto7_tuma.Storage.Rows.{AlertRule, AlertNotification}
use koto7_tuma.Storage.AlertRules.{
  has_rule_id, change_rules, change_rule, set_alert_rule_firing, set_alert_rule_delivery_error,
  write_firing, kept_threshold, record_alert_notification, insert_notification,
}
use koto7_tuma.Storage.Db.{
  World, Notice, ignore_error, Leaves, Leaves-pure, Leaves-if, Leaves-fail, Leaves-statement,
  Leaves-ignore_error, Leaves-bind,
}
use koto7_tuma.Alerting.DeliveryError.{delivery_error_text}
use koto7_tuma.Alerting.Defs.{
  after_send, clear_delivery_error, clear_error_of, clear_firing_of, note_delivery_error, is_text,
  notification_of,
}
use koto7_tuma.Alerting.Senders.{Evaluator}

abbrev pub notices_of : World → List Notice
notices_of w = w.notices

-- The firing thresholds of the rules, in order.
abbrev pub firing_of : World → List (Option Float64)
firing_of w = map (λ r. r.firing_threshold) w.tables.alert_rules

change_rules-Leaves_notices :
    (id : ℕ) (f : List AlertRule → List AlertRule) → Leaves notices_of (change_rules id f)
unfolding change_rules change_rule
change_rules-Leaves_notices id f = record {
  at = λ w. by_row (find (has_rule_id id) w.tables.alert_rules) w;
}
  where
    by_row : (o : Option AlertRule) (w : World) → (change_rule f o w).1.notices ≡ w.notices
    by_row none w = refl
    by_row (some r) w = refl

write_firing-Leaves_notices :
    (id : ℕ) (kept : Option (Option Float64)) → Leaves notices_of (write_firing id kept)
unfolding write_firing
write_firing-Leaves_notices id none = Leaves-fail _
write_firing-Leaves_notices id (some kept) = change_rules-Leaves_notices id _

set_firing-Leaves_notices :
    (pg : Pg) (id : ℕ) (t : Option Float64)
    → Leaves notices_of (ignore_error (set_alert_rule_firing pg id t))
unfolding set_alert_rule_firing
set_firing-Leaves_notices pg id t =
    Leaves-ignore_error _
      (Leaves-statement (λ w o. refl) _ (write_firing-Leaves_notices id (kept_threshold pg t)))

set_error-Leaves_notices :
    (id : ℕ) (message : Option Text)
    → Leaves notices_of (ignore_error (set_alert_rule_delivery_error id message))
unfolding set_alert_rule_delivery_error
set_error-Leaves_notices id message =
    Leaves-ignore_error _ (Leaves-statement (λ w o. refl) _ (change_rules-Leaves_notices id _))

pub clear_firing-Leaves_notices :
    (e : Evaluator) (id : ℕ) (f : Option Float64) → Leaves notices_of (clear_firing_of e id f)
clear_firing-Leaves_notices e id none = Leaves-pure tt
clear_firing-Leaves_notices e id (some t) = set_firing-Leaves_notices e.pg id none

clear_error-Leaves_notices : (id : ℕ) (d : Option Text) → Leaves notices_of (clear_error_of id d)
clear_error-Leaves_notices id none = Leaves-pure tt
clear_error-Leaves_notices id (some t) = set_error-Leaves_notices id none

insert_notification-Leaves_notices :
    (t c : Option Float64) (n : AlertNotification) → Leaves notices_of (insert_notification t c n)
unfolding insert_notification
insert_notification-Leaves_notices none c n = Leaves-fail _
insert_notification-Leaves_notices (some t) none n = Leaves-fail _
insert_notification-Leaves_notices (some t) (some c) n = record { at = λ w. ground arith }

pub note_delivery_error-Leaves_notices :
    (r : AlertRule) (raw : Text) → Leaves notices_of (note_delivery_error r raw)
unfolding note_delivery_error
note_delivery_error-Leaves_notices r raw =
    Leaves-if (is_text r.delivery_error (delivery_error_text r.notification_type raw)) _ _
      (Leaves-pure tt) (set_error-Leaves_notices r.id _)

pub after_send-Leaves_notices :
    (e : Evaluator) (r : AlertRule) (c : Float64) (sent : Option Text)
    → Leaves notices_of (after_send e r c sent)
unfolding after_send clear_delivery_error record_alert_notification
after_send-Leaves_notices e r c (some raw) = note_delivery_error-Leaves_notices r raw
after_send-Leaves_notices e r c none =
    Leaves-bind _ _ (clear_error-Leaves_notices r.id r.delivery_error) (λ _.
      Leaves-bind _ _
        (Leaves-ignore_error _ (
          Leaves-statement (λ w o. refl) _
            (insert_notification-Leaves_notices _ _ (notification_of r c))))
        (λ _. set_firing-Leaves_notices e.pg r.id _))

map-update :
    (p : AlertRule → Bool) (g : AlertRule → AlertRule) (rs : List AlertRule)
    → ((r : AlertRule) → (g r).firing_threshold ≡ r.firing_threshold)
    → map (λ r. r.firing_threshold) (update_where p g rs) ≡ map (λ r. r.firing_threshold) rs
unfolding update_where
map-update p g [] same = refl
map-update p g (r ∷ rs) same = ground (arith, same r, map-update p g rs same)

set_error-Leaves_firing :
    (id : ℕ) (message : Option Text)
    → Leaves firing_of (ignore_error (set_alert_rule_delivery_error id message))
unfolding set_alert_rule_delivery_error change_rules change_rule
set_error-Leaves_firing id message = Leaves-ignore_error _ (
    Leaves-statement (λ w o. refl) _
      (record { at = λ w. by_row (find (has_rule_id id) w.tables.alert_rules) w }))
  where
    by_row :
        (o : Option AlertRule) (w : World)
        → firing_of
            (change_rule
              (update_where (has_rule_id id) (λ r. record r { delivery_error = message }))
              o
              w).1
          ≡ firing_of w
    by_row none w = refl
    by_row (some r) w = map-update (has_rule_id id) _ w.tables.alert_rules (λ r. refl)

pub note_delivery_error-Leaves_firing :
    (r : AlertRule) (raw : Text) → Leaves firing_of (note_delivery_error r raw)
unfolding note_delivery_error
note_delivery_error-Leaves_firing r raw =
    Leaves-if (is_text r.delivery_error (delivery_error_text r.notification_type raw)) _ _
      (Leaves-pure tt) (set_error-Leaves_firing r.id _)
