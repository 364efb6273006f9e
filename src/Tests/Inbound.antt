-- ===== src/Tests/Inbound.antt =====
-- Webhooks that the inbound path accepts.
use koto7_tuma.Prelude.{
  ◌≡◌, ◌≢◌, refl, ap, pos, ◌++◌, Text, str, text_eq, split, hex_encode, trim_space, cut, hex_decode,
  parse_int, decimal_int, true, false, none, some, [], ◌∷◌, find, keep_if, update_where, arith,
  if◌then◌else◌,
}
use mathlib.Core.List.{Memᴰ}
use koto7_tuma.Storage.Db.{
  World, ok, ◌>>=◌, attempt, get_now, statement, ignore_error, remote, start_workflow,
}
use koto7_tuma.Storage.Events.{
  insert_event, insert_event_row, insert_outcome, set_event_workflow_id, has_provider_id,
  has_event_id, seal_event_fields, open_event_fields,
}
use koto7_tuma.Storage.EventCrypto.{IsSound, open_event_fields-seal}
use koto7_tuma.Adapters.Defs.{
  internal, get_adapter, verify, extract_event_id, hash_body, Headers, StripeParts, stripe_parts,
  stripe_message, too_old, verify_stripe, verify_github,
}
use koto7_tuma.Adapters.Signatures.{
  verify_stripe-signed, verify_github-signed, verify_github-accepts,
}
use koto7_tuma.Crypto.{encrypt_bytes, decrypt_bytes, opened}
use koto7_tuma.Storage.Connections.{
  get_connection_by_inbound_path, has_inbound_path, has_connection_id,
}
use koto7_tuma.Api.Ingest.{
  Request, Reply, ingest, with_connection, get_cached_connection, from_cache, cache_load,
  query_connection, load_connection, with_found, with_adapter, accept, after_insert, after_start,
  cache_store, cache_delete, deliver_if_new, start_delivery, workflow_id,
}
use koto7_tuma.Api.Ingest.Acked.{IsAcked, ingest-acks}
use koto7_tuma.Api.Ingest.Cached.{AllLoaded, ingest-AllLoaded}
use koto7_tuma.Api.Ingest.Again.{accept-again}
use koto7_tuma.Tests.Data.{shop, plain_cipher, server, digests, world}

-- A body and no headers
abbrev webhook : Request
webhook = record {
  path = str "p1";
  headers = λ name. [];
  header_json = str "{}";
  body = str "[]";
  nonces = record { for_headers = none; for_payload = none };
}

abbrev after : World
after = (ingest server [] webhook world).1

abbrev signature : Text
signature = str "sha256=" ++ hex_encode (str "key" ++ str "body")

abbrev github_headers : Headers
github_headers name = if text_eq name (str "X-Hub-Signature-256") then signature else []

key_present : str "key" ≢ []
unfolding str
key_present h = ground (arith, h)

signed :
    github_headers (str "X-Hub-Signature-256")
    ≡ str "sha256=" ++ hex_encode (str "key" ++ str "body")
unfolding str text_eq
signed = refl

github_accepted : verify_github digests github_headers (str "body") (str "key") ≡ true
github_accepted =
    verify_github-accepts digests github_headers (str "body") (str "key") key_present signed

verify_github-signed_example :
    (github_headers (str "X-Hub-Signature-256")
      ≡ str "sha256=" ++ hex_encode (str "key" ++ str "body"))
    × (str "key" ≢ [])
verify_github-signed_example =
    verify_github-signed digests github_headers (str "body") (str "key") github_accepted

abbrev stripe_signature : Text
stripe_signature = str "t=1,v1=" ++ hex_encode (str "k" ++ str "1.b")

abbrev stripe_headers : Headers
stripe_headers name = stripe_signature

stripe_accepted : verify_stripe digests 0 stripe_headers (str "b") (str "k") ≡ true
unfolding verify_stripe str trim_space split hex_encode cut text_eq hex_decode parse_int decimal_int
stripe_accepted = refl

verify_stripe-signed_example :
    (p : StripeParts) × (p
      ≡ stripe_parts
          (split b',' (stripe_headers (str "Stripe-Signature")))
          (record { ts = pos 0; v1s = [] }))
    × Memᴰ (digests.hmac_sha256 (trim_space (str "k")) (stripe_message p.ts (str "b"))) p.v1s
    × (too_old 0 p.ts ≡ false)
    × (trim_space (str "k") ≢ [])
verify_stripe-signed_example =
    verify_stripe-signed digests 0 stripe_headers (str "b") (str "k") stripe_accepted

abbrev reply : Reply
reply = record {
  status = 200;
  cache =
      (record { path = str "p1"; conn = shop; secret = b'k' ∷ []; expires_at = 30000001000 }) ∷ [];
}

ingested : ingest server [] webhook world ≡ (ok reply, after)
unfolding ingest str ◌>>=◌ attempt with_connection get_cached_connection get_now from_cache
    cache_load find query_connection get_connection_by_inbound_path statement load_connection
    text_eq decrypt_bytes with_found with_adapter get_adapter verify accept after_insert after_start
    cache_store cache_delete keep_if deliver_if_new start_delivery workflow_id extract_event_id
    hash_body hex_encode ignore_error remote start_workflow insert_event insert_event_row
    insert_outcome seal_event_fields set_event_workflow_id update_where has_inbound_path
    has_connection_id has_provider_id has_event_id opened
ingested = refl

ingest-acks_example : IsAcked server [] webhook world after
ingest-acks_example = ingest-acks server [] webhook world ingested refl

ingest-AllLoaded_example : AllLoaded server reply.cache
ingest-AllLoaded_example =
    ingest-AllLoaded server [] webhook world reply tt (ap (λ p. p.0) ingested)

plain-IsSound : IsSound plain_cipher
plain-IsSound = record { opens = λ nonce text h. refl }

fields_sealed :
    seal_event_fields
      (some plain_cipher)
      (record { for_headers = some (1 ∷ 2 ∷ []); for_payload = some (3 ∷ 4 ∷ []) })
      (str "{}")
      (str "[]")
    ≡ ok (record { headers = 1 ∷ 2 ∷ str "{}"; payload = 3 ∷ 4 ∷ str "[]" })
unfolding seal_event_fields encrypt_bytes
fields_sealed = refl

open_event_fields-seal_example :
    open_event_fields (some plain_cipher) (1 ∷ 2 ∷ str "{}") (3 ∷ 4 ∷ str "[]") true
    ≡ ok (record { headers = str "{}"; payload = str "[]" })
open_event_fields-seal_example =
    open_event_fields-seal plain_cipher (1 ∷ 2 ∷ []) (3 ∷ 4 ∷ []) (str "{}") (str "[]")
      (record { headers = 1 ∷ 2 ∷ str "{}"; payload = 3 ∷ 4 ∷ str "[]" }) plain-IsSound refl refl
      fields_sealed

-- The webhook of the event that is stored already.
abbrev repeated : Request
repeated = record {
  path = str "p1";
  headers = λ name. str "e1";
  header_json = str "{}";
  body = str "[]";
  nonces = record { for_headers = none; for_payload = none };
}

already_there :
    find
      (has_provider_id 1 (extract_event_id digests internal repeated.headers repeated.body))
      world.tables.events
    ≢ none
unfolding find has_provider_id extract_event_id str text_eq
already_there h = ground (arith, h)

accept-again_example :
    ((accept server [] shop internal repeated world).1.tables ≡ world.tables)
    × ((accept server [] shop internal repeated world).1.starts ≡ [])
accept-again_example = accept-again server [] shop internal repeated world already_there
