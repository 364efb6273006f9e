-- ===== src/Alerting/Once.antt =====
-- The evaluation of a rule by evaluateOnce of internal/alerting/evaluator.go, from one breach to the
-- next.
use mathlib.Core.Path.{subst}
use koto7_tuma.Prelude.{
  length-append, find, ℕ, ◌+◌, ◌≡◌, refl, ap, sym, ◌∙◌, Text, true, false, Option, none, some,
  length, arith,
}
use koto7_tuma.Float.{Float64}
use koto7_tuma.Storage.Rows.{AlertRule}
use koto7_tuma.Storage.AlertRules.{has_rule_id, record_alert_notification, kept_threshold}
use koto7_tuma.Storage.Db.{World, Db, Res, ok, continue, ◌>>=◌, ignore_error}
use koto7_tuma.Alerting.Defs.{
  sample, judge, after_send, clear_delivery_error, clear_error_of, clear_firing, clear_firing_of,
  is_breached, is_firing_at, same_threshold, notification_of,
}
use koto7_tuma.Alerting.Senders.{Evaluator, send_notification}
use koto7_tuma.Alerting.Sends.{send_notification-IsSend, IsTold}
use koto7_tuma.Alerting.Quiet.{after_send-Leaves_notices, clear_firing-Leaves_notices}
use koto7_tuma.Alerting.Rows.{
  HasRow, set_firing-HasRow, set_delivery_error-HasRow, record_notification-HasRow,
}

no_error : (r : AlertRule) → r.delivery_error ≡ none → record r { delivery_error = none } ≡ r
no_error r h = ap (λ d. record r { delivery_error = d }) (sym h)

clear_error-HasRow :
    (d : Option Text) (r : AlertRule) (w : World)
    → r.delivery_error ≡ d
    → HasRow r.id r w
    → HasRow r.id (record r { delivery_error = none }) (clear_error_of r.id d w).1
clear_error-HasRow none r w e h = rw (no_error r e) h
clear_error-HasRow (some t) r w e h = set_delivery_error-HasRow r.id none r w h

no_firing : (r : AlertRule) → r.firing_threshold ≡ none → record r { firing_threshold = none } ≡ r
no_firing r h = ap (λ d. record r { firing_threshold = d }) (sym h)

clear_firing-HasRow :
    (e : Evaluator) (f : Option Float64) (r : AlertRule) (w : World)
    → r.firing_threshold ≡ f
    → HasRow r.id r w
    → HasRow r.id (record r { firing_threshold = none }) (clear_firing_of e r.id f w).1
clear_firing-HasRow e none r w q h = rw (no_firing r q) h
clear_firing-HasRow e (some t) r w q h = set_firing-HasRow e.pg r.id none none r w refl h

-- The row after a breach that has been told.
abbrev pub told : AlertRule → AlertRule
told r = record r { delivery_error = none; firing_threshold = some r.threshold }

ignored_ok : {A : Type 0} (m : Db A) (w : World) → (ignore_error m w).0 ≡ ok tt
unfolding ignore_error
ignored_ok m w = refl

clear_error-ok : (id : ℕ) (d : Option Text) (w : World) → (clear_error_of id d w).0 ≡ ok tt
clear_error-ok id none w = refl
clear_error-ok id (some t) w = ignored_ok _ w

continue-ok :
    {A B : Type 0} (r : Res A) (a : A) (f : A → Db B) (w : World)
    → r ≡ ok a
    → continue r f w ≡ f a w
continue-ok r a f w e = rw e refl

bind-at :
    {A B : Type 0} (m : Db A) (f : A → Db B) (w : World) (a : A)
    → (m w).0 ≡ ok a
    → (m >>= f) w ≡ f a (m w).1
unfolding ◌>>=◌
bind-at m f w a e = continue-ok (m w).0 a f (m w).1 e

after_send-HasRow :
    (e : Evaluator) (r : AlertRule) (c : Float64) (w : World)
    → e.pg.numeric_10_2 r.threshold ≡ some r.threshold
    → HasRow r.id r w
    → HasRow r.id (told r) (after_send e r c none w).1
unfolding after_send clear_delivery_error
after_send-HasRow e r c w fits h =
    let h1 = clear_error-HasRow r.delivery_error r w refl h in
    let w1 = (clear_error_of r.id r.delivery_error w).1 in
    let h2 = record_notification-HasRow e.pg r.id _ (notification_of r c) w1 h1 in
    let w2 = (ignore_error (record_alert_notification e.pg (notification_of r c)) w1).1 in
    let h3 =
      set_firing-HasRow e.pg r.id (some r.threshold) (some r.threshold) _ w2
        (rw (kept_threshold, fits) refl) h2 in
    rw
      (
        bind-at (clear_delivery_error r) _ w tt (clear_error-ok r.id r.delivery_error w),
        bind-at (ignore_error (record_alert_notification e.pg (notification_of r c))) _ w1 tt
            (ignored_ok _ w1),
      )
      h3

ok-inj : {A : Type 0} {a b : A} → ok a ≡ ok b → a ≡ b
ok-inj e = ground arith

same-fires :
    (e : Evaluator) (r : AlertRule) (c : Float64) (w : World)
    → is_breached e.floats r c ≡ true
    → is_firing_at e.floats r.firing_threshold r.threshold ≡ true
    → judge e r (sample c) w ≡ (ok tt, w)
unfolding judge
same-fires e r c w b f = rw (b, f) refl

sends-of :
    (e : Evaluator) (r : AlertRule) (c : Float64) (w : World)
    → is_breached e.floats r c ≡ true
    → is_firing_at e.floats r.firing_threshold r.threshold ≡ false
    → judge e r (sample c) w ≡ (send_notification e r c >>= λ sent. after_send e r c sent) w
unfolding judge
sends-of e r c w b f = rw (b, f) refl

send-ok :
    (e : Evaluator) (r : AlertRule) (c : Float64) (w : World)
    → (send_notification e r c w).0 ≡ ok none
    → HasRow r.id r w
    → (length (send_notification e r c w).1.notices ≡ length w.notices + 1)
      × HasRow r.id r (send_notification e r c w).1
send-ok e r c w sent h =
    let s = send_notification-IsSend e r c w in
    let none_of : s.error_of ≡ none = ok-inj (sym (ap (λ p. p.0) s.does) ∙ sent) in
    let one : length s.sent ≡ 1 = subst (IsTold (length s.sent)) none_of s.takes in
    (
      ap (λ p. length p.1.notices) s.does
          ∙ length-append w.notices s.sent
          ∙ ap (λ n. length w.notices + n) one,
      rw s.does (record { calm = h.calm; row = h.row }),
    )

-- A breach of the rule `r` that is not firing yet: the send goes well, the statements that follow go
-- well, and the threshold is one that NUMERIC(10,2) keeps. Then one message more has been taken, and
-- the row of the rule is as before, but that it fires at its threshold and has no delivery error.
pub judge-tells :
    (e : Evaluator) (r : AlertRule) (c : Float64) (w : World)
    → HasRow r.id r w
    → e.pg.numeric_10_2 r.threshold ≡ some r.threshold
    → is_breached e.floats r c ≡ true
    → is_firing_at e.floats r.firing_threshold r.threshold ≡ false
    → (send_notification e r c w).0 ≡ ok none
    → (length (judge e r (sample c) w).1.notices ≡ length w.notices + 1)
      × HasRow r.id (told r) (judge e r (sample c) w).1
judge-tells e r c w h fits breach quiet sent =
    let (n, h') = send-ok e r c w sent h in
    let w' = (send_notification e r c w).1 in
    let whole : judge e r (sample c) w ≡ after_send e r c none w' =
      sends-of e r c w breach quiet
      ∙ bind-at (send_notification e r c) (after_send e r c) w none sent in
    (
      rw (whole, (after_send-Leaves_notices e r c none).at w') n,
      rw whole (after_send-HasRow e r c w' fits h'),
    )

read-row :
    (id : ℕ) (r r' : AlertRule) (w : World)
    → HasRow id r w
    → find (has_rule_id id) w.tables.alert_rules ≡ some r'
    → r ≡ r'
read-row id r r' w h read = let found : some r ≡ some r' = sym h.row ∙ read in ground (arith, found)

-- A breach of the rule `r` that is not firing yet: the send goes well, the statements that follow go
-- well, and the threshold is one that NUMERIC(10,2) keeps and is near itself. When the metric
-- of the row `r'` that this evaluation leaves is in breach still, evaluating that row sends nothing and
-- changes nothing.
pub judge-stays_quiet :
    (e : Evaluator) (r r' : AlertRule) (c later : Float64) (w : World)
    → HasRow r.id r w
    → e.pg.numeric_10_2 r.threshold ≡ some r.threshold
    → same_threshold e.floats r.threshold r.threshold ≡ true
    → is_breached e.floats r c ≡ true
    → is_firing_at e.floats r.firing_threshold r.threshold ≡ false
    → (send_notification e r c w).0 ≡ ok none
    → find (has_rule_id r.id) (judge e r (sample c) w).1.tables.alert_rules ≡ some r'
    → is_breached e.floats r' later ≡ true
    → judge e r' (sample later) (judge e r (sample c) w).1 ≡ (ok tt, (judge e r (sample c) w).1)
judge-stays_quiet e r r' c later w h fits same breach quiet sent read still =
    let (_, row) = judge-tells e r c w h fits breach quiet sent in
    let w1 = (judge e r (sample c) w).1 in
    let is_told = read-row r.id (told r) r' w1 row read in
    subst (λ x. judge e x (sample later) w1 ≡ (ok tt, w1)) is_told
      (same-fires e (told r) later w1
        (subst (λ x. is_breached e.floats x later ≡ true) (sym is_told) still) same)

-- Every call to come goes well. When the metric of the rule `r` is not in breach, evaluating it sends
-- nothing, and leaves the row as it is but for the firing threshold, which is none.
pub judge-rearms :
    (e : Evaluator) (r : AlertRule) (c : Float64) (w : World)
    → HasRow r.id r w
    → is_breached e.floats r c ≡ false
    → HasRow r.id (record r { firing_threshold = none }) (judge e r (sample c) w).1
      × ((judge e r (sample c) w).1.notices ≡ w.notices)
unfolding judge clear_firing
judge-rearms e r c w h calm = rw calm (
  clear_firing-HasRow e r.firing_threshold r w refl h,
  (clear_firing-Leaves_notices e r.id r.firing_threshold).at w,
)
