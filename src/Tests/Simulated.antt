-- ===== src/Tests/Simulated.antt =====
-- A simulated webhook of Stripe.
use koto7_tuma.Prelude.{
  ◌≡◌, ◌≢◌, refl, str, text_eq, trim_space, utf8_valid, true, some, [], ◌∷◌, arith,
}
use koto7_tuma.Adapters.Defs.{Digests}
use koto7_tuma.Playground.Simulate.{Payloads, SignedRequest, build_signed_request, stripe_payload}
use koto7_tuma.Playground.Simulate.Accepted.{
  IsFaithful, IsAccepted, build_signed_request-IsAccepted,
}

-- The digest of everything is one byte, and a body is its identifier.
abbrev digests : Digests
digests = record {
  hmac_sha256 = λ key message. 171 ∷ [];
  sha256 = λ message. [];
  json_id = some;
  nfkd = λ text. text;
}

abbrev payloads : Payloads
payloads = record {
  stripe_body = λ id ts. id;
  github_body = str "{}";
  easypost_body = λ id. id;
  internal_body = λ id ts. id;
}

faithful : IsFaithful digests payloads
faithful = record {
  bytes = λ key message. (omega arith, tt);
  stripe_id = λ id ts valid. refl;
  easypost_id = λ id valid. refl;
}

id_valid : utf8_valid (str "evt") ≡ true
unfolding str utf8_valid
id_valid = refl

abbrev request : SignedRequest
request = stripe_payload digests payloads 5000000000 (str "k") (str "evt")

built :
    build_signed_request digests payloads 5000000000 (str "stripe") (str "k") (str "evt")
    ≡ some request
unfolding build_signed_request str text_eq
built = refl

secret_given : str "k" ≢ []
unfolding str
secret_given h = ground (arith, h)

id_given : str "evt" ≢ []
unfolding str
id_given h = ground (arith, h)

secret_trimmed : trim_space (str "k") ≡ str "k"
unfolding str trim_space
secret_trimmed = refl

build_signed_request-IsAccepted_example :
    IsAccepted digests 5000000000 (str "stripe") (str "k") (str "evt") request
build_signed_request-IsAccepted_example =
    build_signed_request-IsAccepted digests payloads 5000000000 (str "stripe") (str "k") (str "evt")
      request faithful id_valid secret_given secret_trimmed id_given (omega arith) (omega arith)
      built
