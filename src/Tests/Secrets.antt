-- ===== src/Tests/Secrets.antt =====
-- A connection gets a new secret, and another connection is created.
use koto7_tuma.Prelude.{
  ◌≡◌, refl, str, text_eq, trim_space, none, some, [], ◌∷◌, find, keep_if, update_where, Bool-cases,
  inl, inr, arith,
}
use koto7_tuma.Storage.Rows.{Connection}
use koto7_tuma.Storage.Connections.{
  create_connection, insert_checked, is_source_type, has_connection_id, has_inbound_path,
  get_connection, update_connection, update_found, write_settings, passes_checks,
  update_connection_secret, write_secret,
}
use koto7_tuma.Storage.EventCrypto.{IsSound, HasSize}
use koto7_tuma.Storage.Db.{fresh_id, World, ◌>>=◌, attempt, statement}
use koto7_tuma.Crypto.{encrypt_bytes}
use koto7_tuma.Api.Ingest.{cache_load, Cache, cache_delete}
use koto7_tuma.Api.Http.{call_or, find_or}
use koto7_tuma.Api.Answers.{Succeeds}
use koto7_tuma.Api.Console.{
  CreateRequest, CreateReply, Random, new_connection, handle_create, create_connection_with,
  store_connection, generate_inbound_path, chosen_secret, PatchRequest, Patched, patch_connection,
  replace_secret, store_secret, to_connection_response,
}
use koto7_tuma.Api.Console.Rows.{PathsLead}
use koto7_tuma.Api.Console.Secrets.{Uses, patch_connection-Uses}
use koto7_tuma.Api.Console.Created.{handle_create-Uses}
use koto7_tuma.Tests.Data.{console, plain_cipher, shop, world}

abbrev patch : PatchRequest
patch = record {
  fields = record {
    name = some (str "store");
    destination_url = none;
    retry_attempts = none;
    retry_first_delay_s = none;
    retry_backoff_factor = none;
    retention_days = none;
  };
  signing_secret = some (str " new");
}

abbrev renamed : Connection
renamed = record shop { name = str "store" }

abbrev patched : World
patched = record world {
  tables = record world.tables {
    connections = (record renamed { signing_secret_enc = 1 ∷ 2 ∷ str "new" }) ∷ [];
  };
}

-- The cache holds the old secret.
abbrev cache : Cache
cache = (record { path = str "p1"; conn = shop; secret = str "k"; expires_at = 5000 }) ∷ []

abbrev reply : Patched
reply = record { connection = to_connection_response console renamed; cache = [] }

patches :
    Succeeds
      (patch_connection console cache (some (1 ∷ 2 ∷ [])) (1 ∷ []) (some patch))
      world
      200
      reply
      patched
unfolding patch_connection find_or call_or update_connection update_found get_connection
    write_settings passes_checks replace_secret store_secret update_connection_secret write_secret
    encrypt_bytes statement ◌>>=◌ attempt find update_where has_connection_id has_inbound_path
    cache_delete keep_if str text_eq trim_space
patches = refl

leads : PathsLead world.tables.connections
unfolding find has_connection_id has_inbound_path str text_eq
leads id c h = elim (Bool-cases (has_connection_id id shop)) [
  | inl here ↦ let e : shop ≡ c = ground (arith, h, here) in rw (← e) refl
  | inr away ↦ absurd (ground (arith, h, away))
]

sound : IsSound plain_cipher
sound = record { opens = λ random text h. refl }

size : HasSize plain_cipher (some (1 ∷ 2 ∷ []))
size = record { at = λ n e. ground (arith, e) }

patch_connection-Uses_example :
    Uses console reply.cache reply.connection.inbound_path (trim_space (str " new")) patched
patch_connection-Uses_example =
    patch_connection-Uses console cache (some (1 ∷ 2 ∷ [])) (1 ∷ []) (str " new") patch world
      patched leads sound size refl patches

abbrev random : Random
random = record { secret_bytes = []; seal_nonce = some (1 ∷ 2 ∷ []) }

abbrev wanted : CreateRequest
wanted = record {
  name = str "store";
  source_type = str "github";
  destination_url = str "https://store.test";
  signing_secret = str "key";
}

abbrev made : Connection
made = record (new_connection console wanted (1 ∷ 2 ∷ str "key") (50 ∷ [])) {
  id = 51;
  created_at = 1000;
}

abbrev with_store : World
with_store = record world {
  tables = record world.tables { connections = shop ∷ made ∷ [] };
  next_id = 52;
}

abbrev created : CreateReply
created = record { connection = to_connection_response console made; signing_secret = str "key" }

creates : Succeeds (handle_create console random (some wanted)) world 201 created with_store
unfolding handle_create create_connection_with store_connection generate_inbound_path fresh_id
    call_or create_connection insert_checked is_source_type passes_checks chosen_secret
    encrypt_bytes statement ◌>>=◌ attempt find has_inbound_path str text_eq trim_space
creates = refl

not_cached : cache_load created.connection.inbound_path cache ≡ none
unfolding cache_load find str text_eq to_connection_response
not_cached = refl

handle_create-Uses_example :
    Uses console cache created.connection.inbound_path created.signing_secret with_store
handle_create-Uses_example =
    handle_create-Uses console cache random wanted world with_store sound size creates not_cached
