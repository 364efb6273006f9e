-- ===== src/Adapters/Defs.antt =====
-- internal/adapters: adapters.go and easypost.go, which verify the signature of an inbound webhook
-- and take the provider's event identifier from it.
use koto7_tuma.Prelude.{
  ℕ, suc, ◌+◌, ◌*◌, Text, str, text_eq, is_empty, has_prefix, trim_prefix, trim_space, to_lower,
  hex_encode, hex_decode, split, cut, parse_int, decimal_int, ℤ, pos, negsuc, Bool, true, false,
  not, ◌||◌, Option, none, some, List, [], ◌∷◌, ◌++◌, take, ltb, eq_ℤ, if◌then◌else◌,
}
use koto7_tuma.Workflow.{second}

-- What the adapters call and the repository does not hold: HMAC-SHA256 by key and message, SHA-256,
-- the `id` that json.Unmarshal finds in a body, and norm.NFKD.String of golang.org/x/text.
pub record Digests : Type 0 where
  pub hmac_sha256 : Text → Text → Text
  pub sha256 : Text → Text
  pub json_id : Text → Option Text
  pub nfkd : Text → Text

-- http.Header.Get: the empty string for a header that is missing.
abbrev pub Headers : Type 0
Headers = Text → Text

pub data Adapter : Type 0 where
  stripe github easypost generic_hmac internal : Adapter

-- Get: the registry of adapters by source type.
unfoldable pub get_adapter : Text → Option Adapter
get_adapter source_type =
    if text_eq source_type (str "stripe")
    then some stripe
    else if text_eq source_type (str "github")
    then some github
    else if text_eq source_type (str "easypost")
    then some easypost
    else if text_eq source_type (str "generic_hmac")
    then some generic_hmac
    else if text_eq source_type (str "internal")
    then some internal
    else none

-- What the loop over the parts of Stripe-Signature has found.
pub record StripeParts : Type 0 where
  pub ts : ℤ
  pub v1s : List Text

unfoldable pub add_v1 : Option Text → StripeParts → StripeParts
add_v1 none p = p
add_v1 (some decoded) p = record p { v1s = p.v1s ++ decoded ∷ [] }

unfoldable pub stripe_part : Option (Text × Text) → StripeParts → StripeParts
unfolding add_v1
stripe_part none p = p
stripe_part (some (k, v)) p =
    if text_eq k (str "t")
    then record p { ts = parse_int v }
    else if text_eq k (str "v1")
    then add_v1 (hex_decode v) p
    else p

unfoldable pub stripe_parts : List Text → StripeParts → StripeParts
unfolding stripe_part
stripe_parts [] p = p
stripe_parts (part ∷ parts) p = stripe_parts parts (stripe_part (cut b'=' (trim_space part)) p)

-- time.Since(time.Unix(ts, 0)) > stripeTolerance
unfoldable pub too_old : ℕ → ℤ → Bool
too_old now (pos ts) = ltb (ts * second + 300 * second) now
too_old now (negsuc n) = ltb (300 * second) (now + suc n * second)

unfoldable pub any_equal : Text → List Text → Bool
any_equal expected [] = false
any_equal expected (v ∷ vs) = text_eq v expected || any_equal expected vs

abbrev no_v1 : List Text → Bool
no_v1 [] = true
no_v1 (_ ∷ _) = false

-- The message that Stripe signs.
unfoldable pub stripe_message : ℤ → Text → Text
stripe_message ts body = decimal_int ts ++ str "." ++ body

unfoldable pub check_stripe : Digests → ℕ → Text → Text → StripeParts → Bool
unfolding too_old any_equal stripe_message
check_stripe dg now body secret p =
    if eq_ℤ p.ts (pos 0) || no_v1 p.v1s
    then false
    else if too_old now p.ts
    then false
    else any_equal (dg.hmac_sha256 secret (stripe_message p.ts body)) p.v1s

unfoldable pub verify_stripe : Digests → ℕ → Headers → Text → Text → Bool
unfolding stripe_parts check_stripe
verify_stripe dg now headers body secret =
    let key = trim_space secret in
    let sig = headers (str "Stripe-Signature") in
    if is_empty sig || is_empty key
    then false
    else check_stripe dg now body key
        (stripe_parts (split b',' sig) (record { ts = pos 0; v1s = [] }))

unfoldable pub verify_github : Digests → Headers → Text → Text → Bool
verify_github dg headers body secret =
    let sig = headers (str "X-Hub-Signature-256") in
    if is_empty sig || is_empty secret
    then false
    else if not (has_prefix sig (str "sha256="))
    then false
    else text_eq (trim_prefix sig (str "sha256=")) (hex_encode (dg.hmac_sha256 secret body))

unfoldable pub verify_generic : Digests → Headers → Text → Text → Bool
verify_generic dg headers body secret =
    let sig = headers (str "X-Signature") in
    if is_empty sig || is_empty secret
    then false
    else text_eq (trim_prefix sig (str "sha256=")) (hex_encode (dg.hmac_sha256 secret body))

unfoldable pub easypost_legacy_digest : Digests → Text → Text → Text
easypost_legacy_digest dg secret body =
    str "hmac-sha256-hex=" ++ hex_encode (dg.hmac_sha256 (dg.nfkd secret) body)

unfoldable pub verify_easypost : Digests → Headers → Text → Text → Bool
unfolding easypost_legacy_digest
verify_easypost dg headers body secret =
    let sig = headers (str "X-Hmac-Signature") in
    if is_empty sig || is_empty secret
    then false
    else text_eq (to_lower sig) (to_lower (easypost_legacy_digest dg secret body))

unfoldable pub verify : Digests → ℕ → Adapter → Headers → Text → Text → Bool
verify dg now stripe headers body secret = verify_stripe dg now headers body secret
verify dg now github headers body secret = verify_github dg headers body secret
verify dg now easypost headers body secret = verify_easypost dg headers body secret
verify dg now generic_hmac headers body secret = verify_generic dg headers body secret
verify dg now internal headers body secret = true

unfoldable pub hash_body : Digests → Text → Text
hash_body dg body = hex_encode (take 16 (dg.sha256 body))

-- The first of two candidates that is not empty.
abbrev or_else : Text → Text → Text
or_else id fallback = if is_empty id then fallback else id

abbrev id_or : Option Text → Text → Text
id_or none fallback = fallback
id_or (some id) fallback = or_else id fallback

unfoldable pub extract_event_id : Digests → Adapter → Headers → Text → Text
unfolding hash_body
extract_event_id dg stripe headers body = id_or (dg.json_id body) (hash_body dg body)
extract_event_id dg github headers body =
    or_else (headers (str "X-GitHub-Delivery")) (hash_body dg body)
extract_event_id dg easypost headers body = id_or (dg.json_id body) (hash_body dg body)
extract_event_id dg generic_hmac headers body =
    or_else (headers (str "X-Event-Id"))
      (or_else (headers (str "X-Request-Id")) (hash_body dg body))
extract_event_id dg internal headers body =
    or_else (headers (str "X-Tuma-Event-Id")) (hash_body dg body)
