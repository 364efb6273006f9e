-- ===== src/Adapters/Signatures.antt =====
-- What Verify of internal/adapters/adapters.go accepts.
use koto7_tuma.Prelude.{
  ℕ, ◌≡◌, refl, ◌≢◌, ap, pos, Text, str, text_eq, is_empty, has_prefix, trim_prefix, trim_space,
  hex_encode, split, true, false, List, [], ◌∷◌, ◌++◌, arith, eq_of_text_eq, text_eq_self,
  Bool-cases, inl, inr, sym, ◌∙◌, append-trim_prefix, has_prefix-append, trim_prefix-append,
}
use koto7_tuma.Adapters.Defs.{
  Digests, Headers, StripeParts, stripe_parts, too_old, any_equal, stripe_message, check_stripe,
  verify_stripe, verify_github,
}
use mathlib.Core.List.{Memᴰ}

any_equal-mem : (expected : Text) (vs : List Text) → any_equal expected vs ≡ true → Memᴰ expected vs
unfolding any_equal
any_equal-mem expected [] h = absurd (ground arith)
any_equal-mem expected (v ∷ vs) h = elim (Bool-cases (text_eq v expected)) [
  | inl same ↦ Memᴰ.head (sym (eq_of_text_eq v expected same))
  | inr other ↦ Memᴰ.tail (any_equal-mem expected vs (ground (arith, other)))
]

check_stripe-signed :
    (dg : Digests) (now : ℕ) (body key : Text) (p : StripeParts)
    → check_stripe dg now body key p ≡ true
    → Memᴰ (dg.hmac_sha256 key (stripe_message p.ts body)) p.v1s × (too_old now p.ts ≡ false)
unfolding check_stripe
check_stripe-signed dg now body key p h =
    (any_equal-mem (dg.hmac_sha256 key (stripe_message p.ts body)) p.v1s (facts.0), facts.1)
  where
    facts :
        (any_equal (dg.hmac_sha256 key (stripe_message p.ts body)) p.v1s ≡ true)
        × (too_old now p.ts ≡ false)
    facts = ground arith

-- A webhook that the Stripe adapter accepts carries, among its v1 signatures, the digest of its own
-- timestamp and body under the trimmed secret, which is not empty, and is not older than 5 minutes.
pub verify_stripe-signed :
    (dg : Digests) (now : ℕ) (headers : Headers) (body secret : Text)
    → verify_stripe dg now headers body secret ≡ true
    → (p : StripeParts) × (p
        ≡ stripe_parts
            (split b',' (headers (str "Stripe-Signature")))
            (record { ts = pos 0; v1s = [] }))
      × Memᴰ (dg.hmac_sha256 (trim_space secret) (stripe_message p.ts body)) p.v1s
      × (too_old now p.ts ≡ false)
      × (trim_space secret ≢ [])
unfolding verify_stripe
verify_stripe-signed dg now headers body secret h =
    let p =
      stripe_parts (split b',' (headers (str "Stripe-Signature")))
        (record { ts = pos 0; v1s = [] }) in
    let checked : check_stripe dg now body (trim_space secret) p ≡ true = ground arith in
    let (signed, fresh) = check_stripe-signed dg now body (trim_space secret) p checked in
    (p, refl, signed, fresh, λ e. ground arith)

-- A webhook that the GitHub adapter accepts has the signature `sha256=` and the hex digest of its
-- body under the secret, which is not empty.
pub verify_github-signed :
    (dg : Digests) (headers : Headers) (body secret : Text)
    → verify_github dg headers body secret ≡ true
    → (headers (str "X-Hub-Signature-256")
        ≡ str "sha256=" ++ hex_encode (dg.hmac_sha256 secret body))
      × (secret ≢ [])
unfolding verify_github
verify_github-signed dg headers body secret h =
    let sig = headers (str "X-Hub-Signature-256") in
    let prefix = str "sha256=" in
    let hex = hex_encode (dg.hmac_sha256 secret body) in
    let (starts, same) = facts in
    (
      append-trim_prefix sig prefix starts
          ∙ ap (λ (t : Text). prefix ++ t) (eq_of_text_eq (trim_prefix sig prefix) hex same),
      λ e. ground arith,
    )
  where
    facts :
        (has_prefix (headers (str "X-Hub-Signature-256")) (str "sha256=") ≡ true)
        × (text_eq
              (trim_prefix (headers (str "X-Hub-Signature-256")) (str "sha256="))
              (hex_encode (dg.hmac_sha256 secret body))
            ≡ true)
    facts = ground arith

-- A webhook whose X-Hub-Signature-256 is `sha256=` and the hex digest of its body under the secret,
-- which is not empty, is accepted by the GitHub adapter.
pub verify_github-accepts :
    (dg : Digests) (headers : Headers) (body secret : Text)
    → secret ≢ []
    → headers (str "X-Hub-Signature-256") ≡ str "sha256=" ++ hex_encode (dg.hmac_sha256 secret body)
    → verify_github dg headers body secret ≡ true
unfolding verify_github
verify_github-accepts dg headers body secret ne e =
    let hex = hex_encode (dg.hmac_sha256 secret body) in
    simp (e, has_prefix-append, trim_prefix-append, text_eq_self)
      (unfold str in (ground (arith, nonempty secret ne)))
  where
    nonempty : (t : Text) → t ≢ [] → is_empty t ≡ false
    nonempty [] n = absurd (n refl)
    nonempty (c ∷ t) n = refl
