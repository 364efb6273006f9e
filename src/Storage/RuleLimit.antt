-- ===== src/Storage/RuleLimit.antt =====
-- The limit maxAlertRules of internal/storage/store.go.
use koto7_tuma.Prelude.{
  ℕ, ◌≤◌, ◌≡◌, refl, Bool, true, false, not, ◌&&◌, Option, none, some, List, [], ◌∷◌, ◌++◌, leb,
  length, find, update_where, length-append, length-update, length-keep_le, arith, if◌then◌else◌,
  Text,
}
use koto7_tuma.Float.{Float64}
use koto7_tuma.Storage.Env.{Pg}
use koto7_tuma.Storage.Rows.{AlertRule}
use koto7_tuma.Storage.AlertRules.{
  max_alert_rules, has_rule_id, insertion, overwrite, insert_alert_rule, create_alert_rule,
  get_alert_rule, RulePatch, patched_rule, write_rule, update_found_rule, update_alert_rule,
  change_rule, change_rules, without_rule, delete_rule_row, delete_alert_rule, write_firing,
  kept_threshold, set_alert_rule_firing, set_alert_rule_delivery_error, threshold_allowed,
  unit_matches, is_channel,
}
use koto7_tuma.Storage.Db.{
  too_many_alert_rules, World, Res, ok, fail, Invariant, Keeps, Keeps-statement, Keeps-bind,
  Keeps-reading, Keeps-fail, constraint_error,
}

abbrev pub AtMostTen : Invariant
AtMostTen t n = length t.alert_rules ≤ 10

record IsSmall {A : Type 0} (p : Res A × World) : Type 0 where
  bound : length p.1.tables.alert_rules ≤ 10

if-IsSmall :
    {A : Type 0} (b : Bool) (p q : Res A × World)
    → (b ≡ true → IsSmall p)
    → (b ≡ false → IsSmall q)
    → IsSmall (if b then p else q)
if-IsSmall true p q hp hq = hp refl
if-IsSmall false p q hp hq = hq refl

appended :
    (rs : List AlertRule) (r : AlertRule) → leb 10 (length rs) ≡ false → length (rs ++ r ∷ []) ≤ 10
appended rs r room = ground (arith, room, length-append rs (r ∷ []))

updated :
    (p : AlertRule → Bool) (g : AlertRule → AlertRule) (rs : List AlertRule)
    → length rs ≤ 10
    → length (update_where p g rs) ≤ 10
updated p g rs h = omega (arith, h, length-update p g rs)

inserted :
    (pg : Pg) (t : Option Float64) (r : AlertRule) (w : World)
    → length w.tables.alert_rules ≤ 10
    → IsSmall (insert_alert_rule pg t r w)
unfolding insert_alert_rule
inserted pg none r w h =
    if-IsSmall (leb max_alert_rules (length w.tables.alert_rules)) (fail too_many_alert_rules w)
      (constraint_error w) (λ _. record { bound = h }) (λ _. record { bound = h })
inserted pg (some t) r w h =
    if-IsSmall (leb max_alert_rules (length w.tables.alert_rules)) (fail too_many_alert_rules w) _
      (λ _. record { bound = h })
      (λ room.
        if-IsSmall
          (unit_matches r.rule_type r.unit
            && is_channel r.notification_type
            && threshold_allowed pg r.rule_type t)
          (insertion t r w) (constraint_error w)
          (λ _. record { bound = appended w.tables.alert_rules _ room })
          (λ _. record { bound = h }))

insert-Keeps :
    (pg : Pg) (t : Option Float64) (r : AlertRule) → Keeps AtMostTen (insert_alert_rule pg t r)
insert-Keeps pg t r = record { at = λ w h. (inserted pg t r w h).bound }

change-Keeps :
    (id : ℕ) (f : List AlertRule → List AlertRule)
    → ((rs : List AlertRule) → length (f rs) ≤ length rs)
    → Keeps AtMostTen (change_rules id f)
unfolding change_rules change_rule
change-Keeps id f le = record {
  at = λ w h. by_row (find (has_rule_id id) w.tables.alert_rules) w h;
}
  where
    by_row :
        (o : Option AlertRule) (w : World)
        → length w.tables.alert_rules ≤ 10
        → length (change_rule f o w).1.tables.alert_rules ≤ 10
    by_row none w h = h
    by_row (some r) w h = omega (arith, h, le w.tables.alert_rules)

update-Keeps :
    (id : ℕ) (g : AlertRule → AlertRule)
    → Keeps AtMostTen (change_rules id (update_where (has_rule_id id) g))
update-Keeps id g = change-Keeps id _ (λ rs. omega (arith, length-update (has_rule_id id) g rs))

without-small :
    (id : ℕ) (o : Option AlertRule) (w : World)
    → length w.tables.alert_rules ≤ 10
    → length (without_rule id o w).1.tables.alert_rules ≤ 10
without-small id none w h = h
without-small id (some r) w h =
    omega (arith, h, length-keep_le (λ x. not (has_rule_id id x)) w.tables.alert_rules)

delete-Keeps : (id : ℕ) → Keeps AtMostTen (delete_rule_row id)
unfolding delete_rule_row
delete-Keeps id = record { at = λ w h. without-small id _ w h }

written :
    (pg : Pg) (t : Option Float64) (id : ℕ) (r : AlertRule) (w : World)
    → length w.tables.alert_rules ≤ 10
    → IsSmall (write_rule pg t id r w)
unfolding write_rule
written pg none id r w h = record { bound = h }
written pg (some t) id r w h =
    if-IsSmall (threshold_allowed pg r.rule_type t) (overwrite t id r w) (constraint_error w)
      (λ _. record { bound = updated (has_rule_id id) _ w.tables.alert_rules h })
      (λ _. record { bound = h })

write-Keeps :
    (pg : Pg) (t : Option Float64) (id : ℕ) (r : AlertRule) → Keeps AtMostTen (write_rule pg t id r)
write-Keeps pg t id r = record { at = λ w h. (written pg t id r w h).bound }

found-Keeps :
    (pg : Pg) (id : ℕ) (p : RulePatch) (o : Option AlertRule)
    → Keeps AtMostTen (update_found_rule pg id p o)
unfolding update_found_rule
found-Keeps pg id p none = Keeps-fail _
found-Keeps pg id p (some r) = Keeps-statement _ (write-Keeps pg _ id (patched_rule p r))

write_firing-Keeps :
    (id : ℕ) (kept : Option (Option Float64)) → Keeps AtMostTen (write_firing id kept)
unfolding write_firing
write_firing-Keeps id none = Keeps-fail _
write_firing-Keeps id (some kept) = update-Keeps id _

-- The operations of Store that write alert rules.
pub data RuleOp : Type 0 where
  create : AlertRule → RuleOp
  update : ℕ → RulePatch → RuleOp
  delete : ℕ → RuleOp
  set_firing : ℕ → Option Float64 → RuleOp
  set_delivery_error : ℕ → Option Text → RuleOp

abbrev pub write_of : Pg → RuleOp → World → World
write_of pg (create r) w = (create_alert_rule pg r w).1
write_of pg (update id p) w = (update_alert_rule pg id p w).1
write_of pg (delete id) w = (delete_alert_rule id w).1
write_of pg (set_firing id t) w = (set_alert_rule_firing pg id t w).1
write_of pg (set_delivery_error id m) w = (set_alert_rule_delivery_error id m w).1

-- However the statements of an operation on the alert rules end, there are at most ten rules after
-- it if there were at most ten before.
pub rules-AtMostTen :
    (pg : Pg) (op : RuleOp) (w : World)
    → AtMostTen w.tables w.next_id
    → AtMostTen (write_of pg op w).tables (write_of pg op w).next_id
unfolding create_alert_rule update_alert_rule delete_alert_rule set_alert_rule_firing
    set_alert_rule_delivery_error get_alert_rule
rules-AtMostTen pg (create r) w h =
    (Keeps-statement _ (insert-Keeps pg (pg.numeric_10_2 r.threshold) r)).at w h
rules-AtMostTen pg (update id p) w h =
    (Keeps-bind (get_alert_rule id) (update_found_rule pg id p)
        (Keeps-statement _ (Keeps-reading (λ v. ok (find (has_rule_id id) v.tables.alert_rules))))
        (found-Keeps pg id p)).at
      w h
rules-AtMostTen pg (delete id) w h = (Keeps-statement _ (delete-Keeps id)).at w h
rules-AtMostTen pg (set_firing id t) w h =
    (Keeps-statement _ (write_firing-Keeps id (kept_threshold pg t))).at w h
rules-AtMostTen pg (set_delivery_error id m) w h =
    (Keeps-statement _ (update-Keeps id (λ r. record r { delivery_error = m }))).at w h
