-- ===== src/Playground/Simulate/Accepted.antt =====
-- The webhooks of internal/playground/simulate.go meet the adapters of internal/adapters.
use mathlib.Core.Path.{subst}
use koto7_tuma.Prelude.{
  ℕ, ◌/◌, ◌^◌, ◌<◌, ◌≤◌, ◌≡◌, ◌≢◌, refl, sym, pos, eq_ℤ, Text, str, text_eq, text_eq_self, is_empty,
  trim_space, utf8_valid, to_lower, split, cut, decimal_int, hex_encode, hex_decode-encode,
  AllBytes, decimal, append_assoc, true, false, some, [], ◌∷◌, ◌++◌, find, Bool-cases, inl, inr,
  eq_of_text_eq, arith,
}
use koto7_tuma.Workflow.{second}
use koto7_tuma.Adapters.Defs.{
  Digests, Adapter, stripe, github, easypost, internal, get_adapter, stripe_parts, stripe_part,
  add_v1, too_old, any_equal, stripe_message, check_stripe, verify, verify_stripe, verify_easypost,
  easypost_legacy_digest, extract_event_id,
}
use koto7_tuma.Adapters.Signatures.{verify_github-accepts}
use koto7_tuma.Playground.Simulate.{
  Payloads, SignedRequest, header_get, stripe_payload, github_payload, easypost_payload,
  internal_payload, build_signed_request,
}
use koto7_tuma.Playground.Simulate.Digits.{
  AllPlain, hex_encode-AllPlain, decimal-AllPlain, split-comma, trim_space-plain, parse_int-decimal,
}

-- What signing relies on: HMAC gives bytes, and the identifier that is put into a body is found
-- there again, where it is a text in UTF-8: json.Marshal replaces other bytes.
pub record IsFaithful (dg : Digests) (payloads : Payloads) : Type 0 where
  pub bytes : (key message : Text) → AllBytes (dg.hmac_sha256 key message)
  pub stripe_id :
      (id : Text) (ts : ℕ)
      → utf8_valid id ≡ true
      → dg.json_id (payloads.stripe_body id ts) ≡ some id
  pub easypost_id :
      (id : Text) → utf8_valid id ≡ true → dg.json_id (payloads.easypost_body id) ≡ some id

-- The webhook is for an adapter, which accepts it at `now` and finds the event identifier.
pub record IsAccepted (dg : Digests) (now : ℕ) (provider secret event_id : Text) (r : SignedRequest)
    : Type 0 where
  pub adapter : Adapter
  pub named : get_adapter provider ≡ some adapter
  pub verified : verify dg now adapter (header_get r.headers) r.body secret ≡ true
  pub extracted : extract_event_id dg adapter (header_get r.headers) r.body ≡ event_id

not_empty : (s : Text) → s ≢ [] → is_empty s ≡ false
not_empty [] n = absurd (n refl)
not_empty (c ∷ s) n = refl

accepts_github :
    (dg : Digests) (pl : Payloads) (now : ℕ) (secret event_id : Text)
    → secret ≢ []
    → event_id ≢ []
    → IsAccepted dg now (str "github") secret event_id (github_payload dg pl secret event_id)
unfolding github_payload get_adapter str text_eq verify extract_event_id header_get find
accepts_github dg pl now secret event_id ne nid = record {
  adapter = github;
  named = refl;
  verified = verify_github-accepts dg _ pl.github_body secret ne refl;
  extracted = rw (not_empty event_id nid) refl;
}

accepts_internal :
    (dg : Digests) (pl : Payloads) (now : ℕ) (secret event_id : Text)
    → event_id ≢ []
    → IsAccepted dg now (str "internal") secret event_id (internal_payload dg pl now event_id)
unfolding internal_payload get_adapter str text_eq verify extract_event_id header_get find
accepts_internal dg pl now secret event_id nid = record {
  adapter = internal;
  named = refl;
  verified = refl;
  extracted = rw (not_empty event_id nid) refl;
}

accepts_easypost :
    (dg : Digests) (pl : Payloads) (now : ℕ) (secret event_id : Text)
    → IsFaithful dg pl
    → utf8_valid event_id ≡ true
    → secret ≢ []
    → event_id ≢ []
    → IsAccepted dg now (str "easypost") secret event_id (easypost_payload dg pl secret event_id)
unfolding easypost_payload get_adapter str text_eq verify verify_easypost easypost_legacy_digest
    extract_event_id header_get find
accepts_easypost dg pl now secret event_id f valid ne nid = record {
  adapter = easypost;
  named = refl;
  verified = rw (not_empty secret ne) (text_eq_self (to_lower _));
  extracted = rw (f.easypost_id event_id valid, not_empty event_id nid) refl;
}

-- The two parts of the header that stripePayload writes.
stripe_header_parts :
    (ts : ℕ) (mac : Text)
    → ts < 2 ^ 63
    → AllBytes mac
    → stripe_parts
        (split 44 (str "t=" ++ decimal ts ++ str ",v1=" ++ hex_encode mac))
        (record { ts = pos 0; v1s = [] })
      ≡ record { ts = pos ts; v1s = mac ∷ [] }
unfolding str stripe_parts stripe_part add_v1 cut text_eq
stripe_header_parts ts mac small bytes =
    let t : Text = 116 ∷ 61 ∷ decimal ts in
    let v : Text = 118 ∷ 49 ∷ 61 ∷ hex_encode mac in
    let pt : AllPlain t =
      ((omega arith, omega arith), ((omega arith, omega arith), decimal-AllPlain ts)) in
    let pv : AllPlain v = (
      (omega arith, omega arith),
      ((omega arith, omega arith), ((omega arith, omega arith), hex_encode-AllPlain mac bytes)),
    ) in
    rw
      (
        append_assoc (116 ∷ 61 ∷ decimal ts) (44 ∷ 118 ∷ 49 ∷ 61 ∷ []) (hex_encode mac),
        split-comma t v pt pv,
        trim_space-plain t pt,
        trim_space-plain v pv,
        parse_int-decimal ts small,
        hex_decode-encode mac bytes,
      )
      refl

fresh : (now : ℕ) → too_old now (pos (now / second)) ≡ false
unfolding too_old
fresh now = ground arith

checked :
    (dg : Digests) (now : ℕ) (body secret : Text)
    → second ≤ now
    → check_stripe dg now body secret (record {
      ts = pos (now / second);
      v1s = dg.hmac_sha256 secret (decimal (now / second) ++ str "." ++ body) ∷ [];
    })
      ≡ true
unfolding check_stripe any_equal stripe_message decimal_int
checked dg now body secret started =
    let some_time : eq_ℤ (pos (now / second)) (pos 0) ≡ false = ground arith in
    rw
      (
        some_time,
        fresh now,
        text_eq_self (dg.hmac_sha256 secret (decimal (now / second) ++ str "." ++ body)),
      )
      refl

accepts_stripe :
    (dg : Digests) (pl : Payloads) (now : ℕ) (secret event_id : Text)
    → IsFaithful dg pl
    → utf8_valid event_id ≡ true
    → secret ≢ []
    → trim_space secret ≡ secret
    → event_id ≢ []
    → second ≤ now
    → now / second < 2 ^ 63
    → IsAccepted dg now (str "stripe") secret event_id (stripe_payload dg pl now secret event_id)
unfolding stripe_payload get_adapter str text_eq verify verify_stripe extract_event_id header_get
    find
accepts_stripe dg pl now secret event_id f valid ne trimmed nid started small =
    let ts = now / second in
    let body = pl.stripe_body event_id ts in
    let mac = dg.hmac_sha256 secret (decimal ts ++ str "." ++ body) in
    record {
      adapter = stripe;
      named = refl;
      verified =
          rw (trimmed, not_empty secret ne, stripe_header_parts ts mac small (f.bytes secret _))
            (checked dg now body secret started);
      extracted = rw (f.stripe_id event_id ts valid, not_empty event_id nid) refl;
    }

module _ (dg : Digests) (pl : Payloads) (now : ℕ) (provider secret event_id : Text)
    (r : SignedRequest) where
  by_name :
      (name : Text) (made : SignedRequest)
      → text_eq provider name ≡ true
      → some made ≡ some r
      → IsAccepted dg now name secret event_id made
      → IsAccepted dg now provider secret event_id r
  by_name name made same e a =
      let is_made : made ≡ r = ground (arith, e) in
      subst (λ x. IsAccepted dg now provider secret event_id x) is_made
        (subst (λ p. IsAccepted dg now p secret event_id made)
          (sym (eq_of_text_eq provider name same)) a)

-- A simulated webhook that is built for a provider is accepted by the adapter of that provider at
-- the time that it is built, under the secret that it is signed with, and the adapter finds the
-- event identifier that it was made for. The secret is not empty and has no white space around it,
-- the event identifier is a text in UTF-8 and not empty, and the clock stands between 1 second and 2^63 seconds.
pub build_signed_request-IsAccepted :
    (dg : Digests) (pl : Payloads) (now : ℕ) (provider secret event_id : Text) (r : SignedRequest)
    → IsFaithful dg pl
    → utf8_valid event_id ≡ true
    → secret ≢ []
    → trim_space secret ≡ secret
    → event_id ≢ []
    → second ≤ now
    → now / second < 2 ^ 63
    → build_signed_request dg pl now provider secret event_id ≡ some r
    → IsAccepted dg now provider secret event_id r
unfolding build_signed_request
build_signed_request-IsAccepted dg pl now provider secret event_id r f valid ne trimmed nid started
      small h =
    elim (Bool-cases (text_eq provider (str "stripe"))) [
      | inl e ↦
          by_name dg pl now provider secret event_id r (str "stripe") _ e (rw e at h)
            (accepts_stripe dg pl now secret event_id f valid ne trimmed nid started small)
      | inr n1 ↦ elim (Bool-cases (text_eq provider (str "github"))) [
        | inl e ↦
            by_name dg pl now provider secret event_id r (str "github") _ e (rw (n1, e) at h)
              (accepts_github dg pl now secret event_id ne nid)
        | inr n2 ↦ elim (Bool-cases (text_eq provider (str "easypost"))) [
          | inl e ↦
              by_name dg pl now provider secret event_id r (str "easypost") _ e
                (rw (n1, n2, e) at h) (accepts_easypost dg pl now secret event_id f valid ne nid)
          | inr n3 ↦ elim (Bool-cases (text_eq provider (str "internal"))) [
            | inl e ↦
                by_name dg pl now provider secret event_id r (str "internal") _ e
                  (rw (n1, n2, n3, e) at h) (accepts_internal dg pl now secret event_id nid)
            | inr n4 ↦ absurd (ground (arith, (rw (n1, n2, n3, n4) at h)))
          ]
        ]
      ]
    ]
