-- ===== src/Api/Rules/Refused.antt =====
-- Refused requests on the alert rules, of internal/api/alert_rules.go.
use koto7_tuma.Prelude.{ℕ, ◌≡◌, ◌≤◌, ◌<◌, refl, Text, false, Option, none, some, arith}
use koto7_tuma.Float.{Float64}
use koto7_tuma.Storage.Env.{Pg}
use koto7_tuma.Storage.Rows.{AlertRule}
use koto7_tuma.Storage.AlertRules.{
  RulePatch, list_alert_rules, create_alert_rule, insert_alert_rule, get_alert_rule,
  update_alert_rule, update_found_rule, write_rule, delete_alert_rule, without_rule,
  delete_rule_row, list_alert_notifications,
}
use koto7_tuma.Storage.SavedSettings.{get_notification_settings}
use koto7_tuma.Storage.Events.{lift}
use koto7_tuma.Storage.Db.{
  World, Err, db_error, no_rows, alert_rule_not_found, too_many_alert_rules, crypto_error,
  failed_with, Res, ok, err, Leaves, Leaves-pure, Leaves-bind, Leaves-attempt, Leaves-reading,
  Leaves-statement,
}
use koto7_tuma.Api.Http.{Answer, ConsoleEnv}
use koto7_tuma.Api.Guards.{
  tables_of, is_db_error, Spares, Spares-statement, Spares-bind, Guards, Guards-Leaves, Guards-if,
  Guards-refuse, Guards-none, Guards-call, Reports, Guards-last, auth-Guards, coded-tables,
}
use koto7_tuma.Api.Rules.{
  list_rules, RuleRequest, notification_settings, created_answer, store_rule, with_channel,
  create_rule_with, create_rule, answer_with, store_patch, found_or_404, patch_threshold,
  patch_rule, delete_rule, list_notifications, RuleCall, listing, creation, patching, deletion,
  notification_listing, code_of, error_status, requested_rule, rule_call,
}

insert-Spares : (pg : Pg) (t : Option Float64) (r : AlertRule) → Spares (insert_alert_rule pg t r)
unfolding insert_alert_rule
insert-Spares pg none r = record { at = λ w e h k. ground (arith, h) }
insert-Spares pg (some t) r = record { at = λ w e h k. ground (arith, h) }

create-Spares : (pg : Pg) (r : AlertRule) → Spares (create_alert_rule pg r)
unfolding create_alert_rule
create-Spares pg r = Spares-statement _ (insert-Spares pg (pg.numeric_10_2 r.threshold) r)

write-Spares :
    (pg : Pg) (t : Option Float64) (id : ℕ) (r : AlertRule) → Spares (write_rule pg t id r)
unfolding write_rule
write-Spares pg none id r = record { at = λ w e h k. refl }
write-Spares pg (some t) id r = record { at = λ w e h k. ground (arith, h) }

update_found-Spares :
    (pg : Pg) (id : ℕ) (p : RulePatch) (o : Option AlertRule) → Spares (update_found_rule pg id p o)
unfolding update_found_rule
update_found-Spares pg id p none = record { at = λ w e h k. refl }
update_found-Spares pg id p (some r) = Spares-statement _ (write-Spares pg _ id _)

get_rule-Leaves : (id : ℕ) → Leaves tables_of (get_alert_rule id)
unfolding get_alert_rule
get_rule-Leaves id = Leaves-statement (λ w o. refl) _ (Leaves-reading _)

update-Spares : (pg : Pg) (id : ℕ) (p : RulePatch) → Spares (update_alert_rule pg id p)
unfolding update_alert_rule
update-Spares pg id p = Spares-bind _ _ (get_rule-Leaves id) (update_found-Spares pg id p)

without-Spares :
    (id : ℕ) (o : Option AlertRule) (w : World) (e : Err)
    → (without_rule id o w).0 ≡ err e
    → (without_rule id o w).1.tables ≡ w.tables
without-Spares id none w e h = refl
without-Spares id (some r) w e h = absurd (ground (arith, h))

delete-Spares : (id : ℕ) → Spares (delete_alert_rule id)
unfolding delete_alert_rule delete_rule_row
delete-Spares id =
    Spares-statement (delete_rule_row id) (record { at = λ w e h k. without-Spares id _ w e h })

created-Leaves : (r : Res AlertRule) → Leaves tables_of (created_answer r)
created-Leaves (ok rule) = Leaves-pure _
created-Leaves (err too_many_alert_rules) = Leaves-pure _
created-Leaves (err db_error) = Leaves-pure _
created-Leaves (err no_rows) = Leaves-pure _
created-Leaves (err alert_rule_not_found) = Leaves-pure _
created-Leaves (err crypto_error) = Leaves-pure _
created-Leaves (err (failed_with t)) = Leaves-pure _

created-own :
    (r : Res AlertRule) (w : World) (a : Answer AlertRule)
    → (created_answer r w).0 ≡ ok a
    → 400 ≤ code_of a
    → code_of a < 500
    → (e : Err) × ((r ≡ err e) × (is_db_error e ≡ false))
created-own (ok rule) w a h low high = absurd (ground (arith, h, low, high))
created-own (err too_many_alert_rules) w a h low high = (too_many_alert_rules, (refl, refl))
created-own (err db_error) w a h low high = absurd (ground (arith, h, low, high))
created-own (err no_rows) w a h low high = absurd (ground (arith, h, low, high))
created-own (err alert_rule_not_found) w a h low high = absurd (ground (arith, h, low, high))
created-own (err crypto_error) w a h low high = absurd (ground (arith, h, low, high))
created-own (err (failed_with t)) w a h low high = absurd (ground (arith, h, low, high))

created-Reports : Reports created_answer
created-Reports = record { leaves = created-Leaves; own = created-own }

answered-Leaves : {A : Type 0} (status : ℕ) (r : Res A) → Leaves tables_of (answer_with status r)
answered-Leaves status (ok a) = Leaves-pure _
answered-Leaves status (err e) = Leaves-pure _

not_found : (e : Err) → error_status e < 500 → is_db_error e ≡ false
not_found alert_rule_not_found h = refl
not_found db_error h = absurd (omega (arith, h))
not_found no_rows h = refl
not_found too_many_alert_rules h = refl
not_found crypto_error h = refl
not_found (failed_with t) h = refl

answered-own :
    {A : Type 0} (status : ℕ) (r : Res A) (w : World) (a : Answer A)
    → status < 400
    → (answer_with status r w).0 ≡ ok a
    → 400 ≤ code_of a
    → code_of a < 500
    → (e : Err) × ((r ≡ err e) × (is_db_error e ≡ false))
answered-own status (ok x) w a wins h low high = absurd (ground (arith, wins, h, low, high))
answered-own status (err e) w a wins h low high = (e, (refl, not_found e (ground (arith, h, high))))

answered-Reports : {A : Type 0} (status : ℕ) → status < 400 → Reports (answer_with {A = A} status)
answered-Reports status wins = record {
  leaves = answered-Leaves status;
  own = λ r w a. answered-own status r w a wins;
}

lift-Leaves : {A : Type 0} (r : Res A) → Leaves tables_of (lift r)
lift-Leaves r = Leaves-reading _

settings-Leaves : (env : ConsoleEnv) → Leaves tables_of (notification_settings env)
unfolding notification_settings get_notification_settings
settings-Leaves env =
    Leaves-bind _ _ (Leaves-attempt _ (Leaves-statement (λ w o. refl) _ (Leaves-reading _)))
      (λ row. lift-Leaves _)

store-Guards : (env : ConsoleEnv) (req : RuleRequest) → Guards (store_rule env req)
unfolding store_rule
store-Guards env req =
    Guards-last _ _ (create-Spares env.server.store.pg (requested_rule req)) created-Reports

create-Guards : (env : ConsoleEnv) (body : Option RuleRequest) → Guards (create_rule env body)
unfolding create_rule create_rule_with with_channel
create-Guards env body = Guards-none 400 _ body λ req. Guards-if _ _ _ (Guards-refuse 400) (
    Guards-if _ _ _ (Guards-refuse 400) (
      Guards-call 500 _ _ (settings-Leaves env) λ eff.
        Guards-if _ _ _ (Guards-refuse 400)
          (Guards-if _ _ _ (Guards-refuse 400) (store-Guards env req))))

store_patch-Guards : (env : ConsoleEnv) (id : ℕ) (p : RulePatch) → Guards (store_patch env id p)
unfolding store_patch
store_patch-Guards env id p =
    Guards-last _ _ (update-Spares env.server.store.pg id p) (answered-Reports 200 (omega arith))

patch_threshold-Guards :
    (env : ConsoleEnv) (id : ℕ) (p : RulePatch) (t : Option Float64)
    → Guards (patch_threshold env id p t)
unfolding patch_threshold found_or_404
patch_threshold-Guards env id p none = store_patch-Guards env id p
patch_threshold-Guards env id p (some t) = Guards-if _ _ _ (Guards-refuse 400) (
    Guards-call 500 _ _ (get_rule-Leaves id) λ found.
      Guards-none 404 _ found
        λ existing. Guards-if _ _ _ (Guards-refuse 400) (store_patch-Guards env id p))

patch-Guards :
    (env : ConsoleEnv) (id : Text) (body : Option RulePatch) → Guards (patch_rule env id body)
unfolding patch_rule
patch-Guards env id body =
    Guards-none 400 _ (env.parse_uuid id)
      λ uuid. Guards-none 400 _ body λ p. patch_threshold-Guards env uuid p p.threshold

delete-Guards : (env : ConsoleEnv) (id : Text) → Guards (delete_rule env id)
unfolding delete_rule
delete-Guards env id =
    Guards-none 400 _ (env.parse_uuid id)
      λ uuid. Guards-last _ _ (delete-Spares uuid) (answered-Reports 204 (omega arith))

list-Guards : Guards list_rules
unfolding list_rules list_alert_rules
list-Guards =
    Guards-call 500 _ _ (Leaves-statement (λ w o. refl) _ (Leaves-reading _))
      (λ rules. Guards-Leaves _ (Leaves-pure _))

notifications-Guards : (q : Text) → Guards (list_notifications q)
unfolding list_notifications list_alert_notifications
notifications-Guards q =
    Guards-call 500 _ _ (Leaves-statement (λ w o. refl) _ (Leaves-reading _))
      (λ ns. Guards-Leaves _ (Leaves-pure _))

-- A request on the alert rules that is answered with a status from 400 to 499 has changed no table,
-- however the calls that it makes end.
pub rule_call-refused :
    (env : ConsoleEnv) (cookie : Option Text) (c : RuleCall) (w : World) (code : ℕ)
    → (rule_call env cookie c w).0 ≡ ok code
    → 400 ≤ code
    → code < 500
    → (rule_call env cookie c w).1.tables ≡ w.tables
unfolding rule_call
rule_call-refused env cookie listing w code =
    coded-tables _ w (auth-Guards env _ cookie list-Guards)
rule_call-refused env cookie (creation body) w code =
    coded-tables _ w (auth-Guards env _ cookie (create-Guards env body))
rule_call-refused env cookie (patching id body) w code =
    coded-tables _ w (auth-Guards env _ cookie (patch-Guards env id body))
rule_call-refused env cookie (deletion id) w code =
    coded-tables _ w (auth-Guards env _ cookie (delete-Guards env id))
rule_call-refused env cookie (notification_listing q) w code =
    coded-tables _ w (auth-Guards env _ cookie (notifications-Guards q))
