-- ===== src/Notification/Mail.antt =====
-- internal/notification/smtp.go's message and slack.go's member identifiers and direct messages.
use koto7_tuma.Prelude.{
  ℕ, Text, str, is_empty, trim_space, Bool, true, false, not, ◌&&◌, ◌||◌, [], ◌∷◌, ◌++◌, leb, ◌==◌,
  length, keep_if, if◌then◌else◌,
}

abbrev pub crlf : Text
crlf = 13 ∷ 10 ∷ []

unfoldable pub is_line_break : ℕ → Bool
is_line_break c = c == 13 || c == 10

-- strings.NewReplacer("\r", "", "\n", "")
unfoldable pub sanitize_header : Text → Text
unfolding is_line_break
sanitize_header s = keep_if (λ c. not (is_line_break c)) s

unfoldable pub build_message : Text → Text → Text → Text → Text
unfolding sanitize_header
build_message from to subject body =
    str "From: "
    ++ sanitize_header from
    ++ crlf
    ++ str "To: "
    ++ sanitize_header to
    ++ crlf
    ++ str "Subject: "
    ++ sanitize_header subject
    ++ crlf
    ++ str "MIME-Version: 1.0"
    ++ crlf
    ++ str "Content-Type: text/plain; charset=UTF-8"
    ++ crlf
    ++ crlf
    ++ body

-- ^[UW][A-Z0-9]{8,}$
unfoldable pub is_id_char : ℕ → Bool
is_id_char c = leb 65 c && leb c 90 || (leb 48 c && leb c 57)

unfoldable pub all_id_chars : Text → Bool
unfolding is_id_char
all_id_chars [] = true
all_id_chars (c ∷ s) = is_id_char c && all_id_chars s

unfoldable pub valid_slack_user_id : Text → Bool
unfolding all_id_chars
valid_slack_user_id [] = false
valid_slack_user_id (c ∷ s) = (c == 85 || c == 87) && all_id_chars s && leb 8 (length s)

unfoldable pub dm_text : Text → Text → Text
dm_text subject body =
    let s = trim_space subject in
    let b = trim_space body in if is_empty s then b else if is_empty b then s else s ++ 10 ∷ 10 ∷ b
