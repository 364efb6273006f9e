-- ===== src/Playground/Simulate.antt =====
-- internal/playground/simulate.go: webhooks that are signed as the providers sign them.
pub mod Digits
pub mod Accepted
use koto7_tuma.Prelude.{
  ℕ, zero, suc, ◌+◌, ◌/◌, Text, str, text_eq, is_empty, trim_space, has_prefix, hex_encode, decimal,
  Bool, not, Option, none, some, List, [], ◌∷◌, ◌++◌, ltb, length, take, drop, find, if◌then◌else◌,
}
use koto7_tuma.Workflow.{second}
use koto7_tuma.Adapters.Defs.{Digests, Headers}
use koto7_tuma.Storage.Db.{Db, failed_with, pure, fail, ◌>>=◌, get_now}

-- What json.Marshal makes of the events of the four providers. The event identifier and the
-- time in seconds stand in some of them.
pub record Payloads : Type 0 where
  pub stripe_body : Text → ℕ → Text
  pub github_body : Text
  pub easypost_body : Text → Text
  pub internal_body : Text → ℕ → Text

-- A body, and the headers by name.
pub record SignedRequest : Type 0 where
  pub headers : List (Text × Text)
  pub body : Text

abbrev pub value_of : Option (Text × Text) → Text
value_of none = []
value_of (some (name, value)) = value

unfoldable pub header_get : List (Text × Text) → Headers
header_get headers name = value_of (find (λ h. text_eq h.0 name) headers)

abbrev pub json_type : Text × Text
json_type = (str "Content-Type", str "application/json")

abbrev pub agent : Text × Text
agent = (str "User-Agent", str "Tuma-Playground/1.0")

module _ (dg : Digests) (payloads : Payloads) where
  unfoldable pub stripe_payload : ℕ → Text → Text → SignedRequest
  unfolding decimal hex_encode
  stripe_payload now secret event_id =
      let ts = now / second in
      let body = payloads.stripe_body event_id ts in
      let mac = dg.hmac_sha256 secret (decimal ts ++ str "." ++ body) in
      record {
        headers =
            json_type
            ∷ (str "Stripe-Signature", str "t=" ++ decimal ts ++ str ",v1=" ++ hex_encode mac)
            ∷ agent
            ∷ [];
        body = body;
      }

  unfoldable pub github_payload : Text → Text → SignedRequest
  unfolding hex_encode
  github_payload secret delivery_id =
      let body = payloads.github_body in
      record {
        headers =
            json_type
            ∷ (str "X-Hub-Signature-256", str "sha256=" ++ hex_encode (dg.hmac_sha256 secret body))
            ∷ (str "X-GitHub-Delivery", delivery_id)
            ∷ (str "X-GitHub-Event", str "issues")
            ∷ agent
            ∷ [];
        body = body;
      }

  unfoldable pub easypost_payload : Text → Text → SignedRequest
  unfolding hex_encode
  easypost_payload secret event_id =
      let body = payloads.easypost_body event_id in
      record {
        headers =
            json_type
            ∷ (
              str "X-Hmac-Signature",
              str "hmac-sha256-hex=" ++ hex_encode (dg.hmac_sha256 (dg.nfkd secret) body),
            )
            ∷ agent
            ∷ [];
        body = body;
      }

  unfoldable pub internal_payload : ℕ → Text → SignedRequest
  internal_payload now event_id = record {
    headers = json_type ∷ (str "X-Tuma-Event-Id", event_id) ∷ agent ∷ [];
    body = payloads.internal_body event_id (now / second);
  }

  -- `none` is the error of an unknown provider.
  unfoldable pub build_signed_request : ℕ → Text → Text → Text → Option SignedRequest
  unfolding stripe_payload github_payload easypost_payload internal_payload
  build_signed_request now provider secret event_id =
      if text_eq provider (str "stripe")
      then some (stripe_payload now secret event_id)
      else if text_eq provider (str "github")
      then some (github_payload secret event_id)
      else if text_eq provider (str "easypost")
      then some (easypost_payload secret event_id)
      else if text_eq provider (str "internal")
      then some (internal_payload now event_id)
      else none

-- randomEventID, with the bytes that crypto/rand gives
unfoldable pub random_event_id : Text → Text → Text
unfolding hex_encode
random_event_id provider bytes =
    let prefix =
      if text_eq provider (str "github")
      then str "gh"
      else if text_eq provider (str "internal")
      then str "int"
      else str "evt" in
    prefix ++ str "_sim_" ++ hex_encode bytes

pub record SimulateRequest : Type 0 where
  pub provider : Text
  pub count : ℕ
  pub duplicate_event_id : Text

pub record SimulateResult : Type 0 where
  pub status : ℕ
  pub body : Text
  pub event_id : Text

-- The identifier of the event with the index `i`.
unfoldable pub event_id_of : Text → SimulateRequest → ℕ → Text → Text
unfolding random_event_id decimal
event_id_of provider req i bytes =
    if is_empty req.duplicate_event_id
    then random_event_id provider bytes
    else if ltb 1 req.count
    then req.duplicate_event_id ++ str "_" ++ decimal (i + 1)
    else req.duplicate_event_id

abbrev pub at_least_one : ℕ → ℕ
at_least_one zero = 1
at_least_one (suc n) = suc n

-- strings.TrimSuffix(base, "/")
unfoldable pub trim_slash : Text → Text
trim_slash [] = []
trim_slash (c ∷ []) = if text_eq (c ∷ []) (str "/") then [] else c ∷ []
trim_slash (c ∷ d ∷ s) = c ∷ trim_slash (d ∷ s)

-- An HTTP client: the status and the body of the response to a POST, or an error.
abbrev pub Client : Type 0
Client = Text → SignedRequest → Db (ℕ × Text)

abbrev pub unknown_provider : Text → Text
unknown_provider provider = str "unknown provider: " ++ provider

module _ (dg : Digests) (payloads : Payloads) (client : Client) (random : ℕ → Text) where
  abbrev post_signed : Text → Text → Text → Option SignedRequest → Db SimulateResult
  post_signed url provider event_id none = fail (failed_with (unknown_provider provider))
  post_signed url provider event_id (some req) = do
    answer ← client url req
    pure (record { status = answer.0; body = answer.1; event_id = event_id })

  -- The loop from the index `i` on, with `left` events to send.
  unfoldable pub send_from : Text → Text → Text → SimulateRequest → ℕ → ℕ → Db (List SimulateResult)
  unfolding build_signed_request event_id_of
  send_from url secret provider req i zero = pure []
  send_from url secret provider req i (suc left) = do
    now ← get_now
    let event_id = event_id_of provider req i (random i)
    r ←
        post_signed url provider event_id
          (build_signed_request dg payloads now provider secret event_id)
    rest ← send_from url secret provider req (i + 1) left
    pure (r ∷ rest)

  unfoldable pub send_events :
      Text → Text → Text → Text → SimulateRequest → Db (List SimulateResult)
  unfolding trim_slash
  send_events base_url inbound_path secret provider req =
      let count = at_least_one req.count in
      send_from (trim_slash base_url ++ str "/e/" ++ inbound_path) secret provider
        (record req { count = count }) 0 count

-- BodyPreview: the ellipsis is its three bytes.
unfoldable pub body_preview : Text → Text
unfolding trim_space
body_preview body =
    let s = trim_space body in if ltb 120 (length s) then take 120 s ++ 226 ∷ 128 ∷ 166 ∷ [] else s
