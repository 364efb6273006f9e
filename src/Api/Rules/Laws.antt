-- ===== src/Api/Rules/Laws.antt =====
-- The validation of alert rules of internal/api/alert_rules.go against the constraints of the table.
use koto7_tuma.Prelude.{
  ℕ, ◌≤◌, ◌≡◌, refl, inl, inr, Text, str, text_eq, Bool, true, false, ◌&&◌, ◌||◌, Option, none,
  some, Bool-cases, arith, if◌then◌else◌,
}
use koto7_tuma.Float.{Float64}
use koto7_tuma.Storage.Env.{Pg}
use koto7_tuma.Storage.AlertRules.{unit_matches, is_channel, threshold_allowed}
use koto7_tuma.Api.Http.{ConsoleEnv}
use koto7_tuma.Api.Rules.{
  valid_unit_for_type, validate_unit, validate_alert_rule, valid_destination, atoi_positive,
  limit_or_default, limit_of_query,
}

-- What a query asks for is kept within 1 and 500.
pub limit_of_query-bounds : (q : Text) → (1 ≤ limit_of_query q) × (limit_of_query q ≤ 500)
unfolding limit_of_query
limit_of_query-bounds q = by_value (atoi_positive q)
  where
    by_value : (n : Option ℕ) → (1 ≤ limit_or_default n) × (limit_or_default n ≤ 500)
    by_value none = (omega arith, omega arith)
    by_value (some n) = (ground arith, ground arith)

-- Rounding a threshold to the column keeps it on the side of 0 and of 100 that it is on: Postgres
-- accepts what the column keeps where Go finds the threshold within bounds.
pub record KeepsBounds (env : ConsoleEnv) (pg : Pg) (t kept : Float64) : Type 0 where
  pub zero : env.float_lt t env.float_0 ≡ false → pg.not_negative kept ≡ true
  pub hundred : env.float_lt env.float_100 t ≡ false → pg.at_most_hundred kept ≡ true

-- What the constraints of the table ask of a rule.
pub record Fits (pg : Pg) (rule_type unit_name channel_name : Text) (kept : Float64) : Type 0 where
  pub unit : unit_matches rule_type unit_name ≡ true
  pub channel : is_channel channel_name ≡ true
  pub threshold : threshold_allowed pg rule_type kept ≡ true

unit_of :
    (a b c : Bool) (x y z unit expected : Text)
    → (if a then some x else if b then some y else if c then some z else none) ≡ some expected
    → text_eq unit expected ≡ true
    → (a && text_eq unit x || b && text_eq unit y || c && text_eq unit z) ≡ true
unit_of true b c x y z unit expected e same = ground (arith, e, same)
unit_of false true c x y z unit expected e same = ground (arith, e, same)
unit_of false false true x y z unit expected e same = ground (arith, e, same)
unit_of false false false x y z unit expected e same = absurd (ground arith)

units :
    (rule_type unit expected : Text)
    → valid_unit_for_type rule_type ≡ some expected
    → text_eq unit expected ≡ true
    → unit_matches rule_type unit ≡ true
unfolding valid_unit_for_type unit_matches
units rule_type unit expected e same =
    unit_of (text_eq rule_type (str "OPEN_ISSUES")) (text_eq rule_type (str "DELIVERY_SUCCESS"))
      (text_eq rule_type (str "UNRESOLVED_TIME")) (str "COUNT") (str "PERCENT") (str "HOURS") unit
      expected e same

destinations :
    (env : ConsoleEnv) (channel dest : Text)
    → valid_destination env channel dest ≡ true
    → is_channel channel ≡ true
unfolding valid_destination is_channel
destinations env channel dest h = ground arith

thresholds :
    (env : ConsoleEnv) (pg : Pg) (rule_type : Text) (t kept : Float64)
    → KeepsBounds env pg t kept
    → env.float_lt t env.float_0 ≡ false
    → (text_eq rule_type (str "DELIVERY_SUCCESS") && env.float_lt env.float_100 t) ≡ false
    → threshold_allowed pg rule_type kept ≡ true
unfolding threshold_allowed
thresholds env pg rule_type t kept k low high = elim (Bool-cases (env.float_lt env.float_100 t)) [
  | inl over ↦ ground (arith, k.zero low, over)
  | inr under ↦ ground (arith, k.zero low, k.hundred under)
]

with_unit :
    (env : ConsoleEnv) (pg : Pg) (rule_type unit : Text) (t kept : Float64) (channel dest : Text)
    (expected : Option Text)
    → KeepsBounds env pg t kept
    → valid_unit_for_type rule_type ≡ expected
    → validate_unit env rule_type unit t channel dest expected ≡ true
    → Fits pg rule_type unit channel kept
unfolding validate_unit
with_unit env pg rule_type unit t kept channel dest none k e h = absurd (ground arith)
with_unit env pg rule_type unit t kept channel dest (some expected) k e h =
    let (same, low, high, dst) = facts in
    record {
      unit = units rule_type unit expected e same;
      channel = destinations env channel dest dst;
      threshold = thresholds env pg rule_type t kept k low high;
    }
  where
    facts :
        (text_eq unit expected ≡ true)
        × (env.float_lt t env.float_0 ≡ false)
        × ((text_eq rule_type (str "DELIVERY_SUCCESS") && env.float_lt env.float_100 t) ≡ false)
        × (valid_destination env channel dest ≡ true)
    facts = ground (arith, h)

-- A rule that validateAlertRule accepts breaks no constraint of the table, where rounding keeps its
-- threshold within the bounds.
pub validate_alert_rule-Fits :
    (env : ConsoleEnv) (pg : Pg) (rule_type unit : Text) (t kept : Float64) (channel dest : Text)
    → KeepsBounds env pg t kept
    → validate_alert_rule env rule_type unit t channel dest ≡ true
    → Fits pg rule_type unit channel kept
unfolding validate_alert_rule
validate_alert_rule-Fits env pg rule_type unit t kept channel dest k h =
    with_unit env pg rule_type unit t kept channel dest (valid_unit_for_type rule_type) k refl h
