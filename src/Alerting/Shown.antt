-- ===== src/Alerting/Shown.antt =====
-- The length of the texts of internal/alerting/delivery_error.go.
use koto7_tuma.Prelude.{
  ℕ, ◌+◌, ◌≤◌, ◌≡◌, refl, Text, str, text_eq, is_empty, trim_space, Bool, true, false, ◌++◌, leb,
  length, take, length-append, length-take_le, arith, if◌then◌else◌,
}
use koto7_tuma.Alerting.DeliveryError.{
  clip, told, slack_delivery_error, email_delivery_error, delivery_error_text, ellipsis,
  slack_unset, slack_rejected, slack_scope, slack_unknown, slack_blocked, smtp_unset, smtp_login,
  smtp_tls,
}

record IsShort (t : Text) : Type 0 where
  bound : length t ≤ 203

if-IsShort : (b : Bool) (s t : Text) → IsShort s → IsShort t → IsShort (if b then s else t)
if-IsShort true s t hs ht = hs
if-IsShort false s t hs ht = ht

-- A clipped text has at most `n` bytes and the three of the ellipsis.
clip-length : (s : Text) (n : ℕ) → length (clip s n) ≤ n + 3
unfolding clip
clip-length s n =
    ground (arith, length-append (take n (trim_space s)) ellipsis, length-take_le n (trim_space s))

short : (s : Text) → leb (length s) 203 ≡ true → IsShort s
short s h = record { bound = ground (arith, h) }

dot-length : length (str ".") ≡ 1
unfolding str
dot-length = refl

colon-length : length (str ": ") ≡ 2
unfolding str
colon-length = refl

told-IsShort : (prefix raw : Text) → length prefix ≤ 18 → IsShort (told prefix raw)
told-IsShort prefix raw h =
    if-IsShort (is_empty raw) (prefix ++ str ".") (prefix ++ str ": " ++ clip raw 180)
      (record { bound = omega (arith, h, length-append prefix (str "."), dot-length) })
      (record {
        bound = omega (
          arith,
          h,
          length-append (prefix ++ str ": ") (clip raw 180),
          length-append prefix (str ": "),
          colon-length,
          clip-length raw 180,
        );
      })

slack-IsShort : (raw : Text) → IsShort (slack_delivery_error raw)
unfolding slack_delivery_error str
slack-IsShort raw = if-IsShort _ slack_unset _ (short slack_unset refl) (
    if-IsShort _ slack_rejected _ (short slack_rejected refl) (
      if-IsShort _ slack_scope _ (short slack_scope refl) (
        if-IsShort _ slack_unknown _ (short slack_unknown refl) (
          if-IsShort _ slack_blocked _ (short slack_blocked refl)
            (told-IsShort (str "Slack DM failed") raw (omega arith))))))

email-IsShort : (raw : Text) → IsShort (email_delivery_error raw)
unfolding email_delivery_error str
email-IsShort raw = if-IsShort _ smtp_unset _ (short smtp_unset refl) (
    if-IsShort _ smtp_login _ (short smtp_login refl) (
      if-IsShort _ smtp_tls _ (short smtp_tls refl)
        (told-IsShort (str "Email failed") raw (omega arith))))

-- Whatever the error of a send says, the text that is stored for the console has at most 203 bytes.
pub delivery_error_text-length :
    (channel raw : Text) → length (delivery_error_text channel raw) ≤ 203
unfolding delivery_error_text
delivery_error_text-length channel raw =
    (if-IsShort (text_eq channel (str "slack_dm")) _ _ (slack-IsShort raw) (
      if-IsShort (text_eq channel (str "email")) _ _ (email-IsShort raw)
        (record { bound = clip-length raw 200 }))).bound
