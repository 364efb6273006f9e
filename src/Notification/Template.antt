-- ===== src/Notification/Template.antt =====
-- internal/notification/template.go and service.go's Request: templates with {{key}} placeholders.
-- `quote` is strconv.Quote, by which %q writes a key. The map of variables is a list, in the order
-- in which the loop over the map takes them, which Go leaves open.
use koto7_tuma.Prelude.{
  ℕ, zero, suc, ◌-◌, Text, str, text_eq, is_empty, has_prefix, contains, ◌&&◌, Option, none, some,
  List, [], ◌∷◌, ◌++◌, length, drop, if◌then◌else◌,
}

-- A function that may fail with an error whose text is known.
pub data Outcome {ℓ} (A : Type ℓ) : Type ℓ where
  done : A → Outcome A
  error : Text → Outcome A

pub data NotificationType : Type 0 where
  open_issues_exceeded delivery_success_dropped issue_unresolved test_notification :
      NotificationType
  other : Text → NotificationType

pub record Template : Type 0 where
  pub subject : Text
  pub body : Text

abbrev em_dash : Text
em_dash = 0xe2 ∷ 0x80 ∷ 0x94 ∷ []

abbrev newline : Text
newline = 10 ∷ []

unfoldable pub get_default_template : NotificationType → Option Template
get_default_template open_issues_exceeded = some (record {
  subject = str "Alert: Open Issues Exceeded " ++ em_dash ++ str " {{resource_name}}";
  body =
      str "Your open issues have exceeded the configured limit."
      ++ newline
      ++ newline
      ++ str "Current open issues : {{current_value}}"
      ++ newline
      ++ str "Threshold           : {{limit}}"
      ++ newline
      ++ newline
      ++ str "Please review your open issues in the Tuma console.";
})
get_default_template delivery_success_dropped = some (record {
  subject =
      str "Alert: Delivery Success Dropped Below Threshold " ++ em_dash ++ str " {{resource_name}}";
  body =
      str "Your delivery success rate has dropped below the configured threshold."
      ++ newline
      ++ newline
      ++ str "Current success rate : {{current_value}}%"
      ++ newline
      ++ str "Threshold            : {{limit}}%"
      ++ newline
      ++ newline
      ++ str "Please review recent delivery failures in the Tuma console.";
})
get_default_template issue_unresolved = some (record {
  subject =
      str "Alert: Issue Unresolved Exceeded Threshold " ++ em_dash ++ str " {{resource_name}}";
  body =
      str "An open issue has remained unresolved longer than the configured threshold."
      ++ newline
      ++ newline
      ++ str "Oldest issue age : {{current_value}}h"
      ++ newline
      ++ str "Threshold        : {{limit}}h"
      ++ newline
      ++ newline
      ++ str "Please review and resolve open issues in the Tuma console.";
})
get_default_template test_notification = some (record {
  subject = str "Tuma " ++ em_dash ++ str " Test Notification";
  body =
      str "This is a test notification from Tuma."
      ++ newline
      ++ newline
      ++ str "If you received this email, your SMTP configuration is working correctly.";
})
get_default_template (other _) = none

abbrev pub unknown_type : Text
unknown_type = str "notification: unknown type"

abbrev pub missing_var : Text
missing_var = str "notification: missing template variable"

-- strings.ReplaceAll, for an `old` that is not empty. The first argument counts the bytes of an
-- occurrence that are still to be passed over.
unfoldable pub replace_from : ℕ → Text → Text → Text → Text
replace_from skip [] old new = []
replace_from (suc skip) (c ∷ s) old new = replace_from skip s old new
replace_from zero (c ∷ s) old new =
    let past = replace_from (length old - 1) s old new in
    let next = replace_from zero s old new in
    if has_prefix (c ∷ s) old then new ++ past else c ∷ next

unfoldable pub replace_all : Text → Text → Text → Text
unfolding replace_from
replace_all s old new = replace_from zero s old new

-- result[strings.Index(result, sub):], where `sub` occurs.
unfoldable pub from_index : Text → Text → Option Text
from_index [] sub = if is_empty sub then some [] else none
from_index (c ∷ s) sub =
    let rest = from_index s sub in if has_prefix (c ∷ s) sub then some (c ∷ s) else rest

-- What stands before the first occurrence of `sub`.
unfoldable pub up_to : Text → Text → Text
up_to [] sub = []
up_to (c ∷ s) sub = let rest = up_to s sub in if has_prefix (c ∷ s) sub then [] else c ∷ rest

abbrev pub Vars : Type 0
Vars = List (Text × Text)

abbrev pub placeholder : Text → Text
placeholder key = str "{{" ++ key ++ str "}}"

unfoldable pub replace_vars : Text → Vars → Text
unfolding replace_all
replace_vars s [] = s
replace_vars s ((key, val) ∷ vars) = replace_vars (replace_all s (placeholder key) val) vars

-- The key of the first placeholder that is left.
unfoldable pub left_over : Option Text → Option Text
unfolding up_to
left_over none = none
left_over (some s) = if contains s (str "}}") then some (up_to (drop 2 s) (str "}}")) else none

module _ (quote : Text → Text) where
  abbrev checked : Text → Option Text → Outcome Text
  checked s none = done s
  checked s (some key) = error (missing_var ++ str ": " ++ quote key)

  unfoldable pub substitute : Text → Vars → Outcome Text
  unfolding replace_vars left_over from_index
  substitute s vars =
      let result = replace_vars s vars in checked result (left_over (from_index result (str "{{")))

  abbrev in_part : Text → Outcome Text → Outcome Text
  in_part part (done s) = done s
  in_part part (error e) = error (part ++ e)

  abbrev pub both_parts : Outcome Text → Outcome Text → Outcome Template
  both_parts (error e) b = error e
  both_parts (done s) (error e) = error e
  both_parts (done s) (done b) = done (record { subject = s; body = b })

  unfoldable pub render_custom : Text → Text → Vars → Outcome Template
  render_custom subject body vars =
      both_parts (in_part (str "subject: ") (substitute subject vars))
        (in_part (str "body: ") (substitute body vars))

  abbrev type_text : NotificationType → Text
  type_text (other t) = t
  type_text _ = []

  abbrev render_found : NotificationType → Option Template → Vars → Outcome Template
  render_found typ none vars = error (unknown_type ++ str ": " ++ quote (type_text typ))
  render_found typ (some t) vars = render_custom t.subject t.body vars

  unfoldable pub render : NotificationType → Vars → Outcome Template
  unfolding get_default_template
  render typ vars = render_found typ (get_default_template typ) vars

  unfoldable pub type_for_rule : Text → Outcome NotificationType
  type_for_rule rule_type =
      if text_eq rule_type (str "OPEN_ISSUES")
      then done open_issues_exceeded
      else if text_eq rule_type (str "DELIVERY_SUCCESS")
      then done delivery_success_dropped
      else if text_eq rule_type (str "UNRESOLVED_TIME")
      then done issue_unresolved
      else error (unknown_type ++ str ": rule_type " ++ quote rule_type)

-- service.go
pub record Request : Type 0 where
  pub typ : NotificationType
  pub recipient : Text
  pub vars : Vars
  pub custom_subject : Text
  pub custom_body : Text

-- The half of a custom template that is empty comes from the default.
abbrev pub filled : Text → Text → Text
filled custom fallback = if is_empty custom then fallback else custom

unfoldable pub custom_template : Request → Option Template → Template
custom_template req none = record { subject = req.custom_subject; body = req.custom_body }
custom_template req (some t) = record {
  subject = filled req.custom_subject t.subject;
  body = filled req.custom_body t.body;
}

unfoldable pub render_request : (Text → Text) → Request → Outcome Template
unfolding custom_template
render_request quote req =
    if is_empty req.custom_subject && is_empty req.custom_body
    then render quote req.typ req.vars
    else let t = custom_template req (get_default_template req.typ) in
      render_custom quote t.subject t.body req.vars
