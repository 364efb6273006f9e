-- ===== src/Notification/Headers.antt =====
-- The headers of an email: sanitizeHeader and buildMessage of internal/notification/smtp.go.
use koto7_tuma.Prelude.{
  ℕ, ◌+◌, ◌≡◌, refl, Text, str, [], ◌∷◌, ◌++◌, ◌==◌, keep_if, count_where, count-append, arith,
}
use koto7_tuma.Notification.Mail.{crlf, is_line_break, sanitize_header, build_message}

abbrev pub line_feeds : Text → ℕ
line_feeds s = count_where (λ c. c == 10) s

abbrev pub returns : Text → ℕ
returns s = count_where (λ c. c == 13) s

clean-feeds : (s : Text) → line_feeds (sanitize_header s) ≡ 0
unfolding sanitize_header is_line_break keep_if count_where
clean-feeds [] = refl
clean-feeds (c ∷ s) = ground (arith, clean-feeds s)

clean-returns : (s : Text) → returns (sanitize_header s) ≡ 0
unfolding sanitize_header is_line_break keep_if count_where
clean-returns [] = refl
clean-returns (c ∷ s) = ground (arith, clean-returns s)

-- A text of the message with `n` line ends.
record HasEnds (n : ℕ) (s : Text) : Type 0 where
  feeds : line_feeds s ≡ n
  cr : returns s ≡ n

join-HasEnds : {m n : ℕ} (s t : Text) → HasEnds m s → HasEnds n t → HasEnds (m + n) (s ++ t)
join-HasEnds s t hs ht = record {
  feeds = omega (arith, count-append (λ c. c == 10) s t, hs.feeds, ht.feeds);
  cr = omega (arith, count-append (λ c. c == 13) s t, hs.cr, ht.cr);
}

crlf-HasEnds : HasEnds 1 crlf
unfolding count_where
crlf-HasEnds = record { feeds = refl; cr = refl }

clean-HasEnds : (s : Text) → HasEnds 0 (sanitize_header s)
clean-HasEnds s = record { feeds = clean-feeds s; cr = clean-returns s }

from-HasEnds : HasEnds 0 (str "From: ")
unfolding str count_where
from-HasEnds = record { feeds = refl; cr = refl }

to-HasEnds : HasEnds 0 (str "To: ")
unfolding str count_where
to-HasEnds = record { feeds = refl; cr = refl }

subject-HasEnds : HasEnds 0 (str "Subject: ")
unfolding str count_where
subject-HasEnds = record { feeds = refl; cr = refl }

mime-HasEnds : HasEnds 0 (str "MIME-Version: 1.0")
unfolding str count_where
mime-HasEnds = record { feeds = refl; cr = refl }

content-HasEnds : HasEnds 0 (str "Content-Type: text/plain; charset=UTF-8")
unfolding str count_where
content-HasEnds = record { feeds = refl; cr = refl }

-- All that stands before the body.
abbrev head : Text → Text → Text → Text
head from to subject =
    str "From: "
    ++ sanitize_header from
    ++ crlf
    ++ str "To: "
    ++ sanitize_header to
    ++ crlf
    ++ str "Subject: "
    ++ sanitize_header subject
    ++ crlf
    ++ str "MIME-Version: 1.0"
    ++ crlf
    ++ str "Content-Type: text/plain; charset=UTF-8"
    ++ crlf
    ++ crlf

infixl 5 ◌⋈◌
◌⋈◌ : {m n : ℕ} {s t : Text} → HasEnds m s → HasEnds n t → HasEnds (m + n) (s ++ t)
◌⋈◌ {s = s} {t = t} hs ht = join-HasEnds s t hs ht

head-HasEnds : (from to subject : Text) → HasEnds 6 (head from to subject)
head-HasEnds from to subject =
    from-HasEnds
    ⋈ clean-HasEnds from
    ⋈ crlf-HasEnds
    ⋈ to-HasEnds
    ⋈ clean-HasEnds to
    ⋈ crlf-HasEnds
    ⋈ subject-HasEnds
    ⋈ clean-HasEnds subject
    ⋈ crlf-HasEnds
    ⋈ mime-HasEnds
    ⋈ crlf-HasEnds
    ⋈ content-HasEnds
    ⋈ crlf-HasEnds
    ⋈ crlf-HasEnds

-- A message has the six line ends that its five headers and the blank line have and those of its
-- body, whatever the sender, the recipient and the subject hold.
pub build_message-line_ends :
    (from to subject body : Text)
    → (line_feeds (build_message from to subject body) ≡ 6 + line_feeds body)
      × (returns (build_message from to subject body) ≡ 6 + returns body)
build_message-line_ends from to subject body =
    let h = head-HasEnds from to subject in
    unfold build_message in
    (
      omega (arith, count-append (λ c. c == 10) (head from to subject) body, h.feeds),
      omega (arith, count-append (λ c. c == 13) (head from to subject) body, h.cr),
    )
