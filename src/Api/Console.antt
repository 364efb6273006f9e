-- ===== src/Api/Console.antt =====
-- The connections of the console, in internal/api/handlers.go and metrics.go.
pub mod Rows
pub mod Secrets
pub mod Created
use koto7_tuma.Prelude.{
  ℕ, ◌+◌, ℤ, pos, Text, str, text_eq, is_empty, trim_space, hex_encode, Bool, true, false, not,
  ◌&&◌, ◌||◌, Option, none, some, List, [], ◌∷◌, ◌++◌, map, take, ◌==◌, find, if◌then◌else◌,
}
use koto7_tuma.Float.{Float64, FloatOps}
use koto7_tuma.Crypto.{encrypt_bytes}
use koto7_tuma.Storage.Rows.{Connection, Delivery}
use koto7_tuma.Storage.Connections.{
  ConnectionPatch, create_connection, list_connections, get_connection, update_connection,
  update_connection_secret,
}
use koto7_tuma.Storage.Listings.{inbound_url, list_deliveries_for_connection}
use koto7_tuma.Storage.Stats.{
  ConnectionStats, PlatformMetrics, list_all_connection_stats, get_connection_stats,
  get_platform_metrics,
}
use koto7_tuma.Storage.Events.{lift}
use koto7_tuma.Storage.Db.{Db, Res, ok, err, pure, ◌>>=◌, ◌>>◌, attempt, fresh_id}
use koto7_tuma.Api.Ingest.{Cache, cache_delete}
use koto7_tuma.Api.Http.{Answer, success, refusal, ConsoleEnv, unless_none, call_or, find_or}

-- The creation time is left as the number that it is; time.RFC3339 prints it.
pub record ConnectionResponse : Type 0 where
  pub id : Text
  pub name : Text
  pub source_type : Text
  pub inbound_url : Text
  pub inbound_path : Text
  pub destination_url : Text
  pub retry_attempts : ℤ
  pub retry_first_delay_s : ℤ
  pub retry_backoff_factor : Float64
  pub retention_days : ℤ
  pub created_at : ℕ
  pub stats : Option ConnectionStats

unfoldable pub to_connection_response : ConsoleEnv → Connection → ConnectionResponse
unfolding inbound_url
to_connection_response env c = record {
  id = env.server.uuid_text c.id;
  name = c.name;
  source_type = c.source_type;
  inbound_url = inbound_url env.public_base_url c.inbound_path;
  inbound_path = c.inbound_path;
  destination_url = c.destination_url;
  retry_attempts = c.retry_attempts;
  retry_first_delay_s = c.retry_first_delay_s;
  retry_backoff_factor = c.retry_backoff_factor;
  retention_days = c.retention_days;
  created_at = c.created_at;
  stats = none;
}

pub record CreateRequest : Type 0 where
  pub name : Text
  pub source_type : Text
  pub destination_url : Text
  pub signing_secret : Text

-- What a handler reads from crypto/rand: the bytes of a new secret, and the nonce that seals it.
pub record Random : Type 0 where
  pub secret_bytes : Text
  pub seal_nonce : Option Text

unfoldable pub random_secret : Text → Text
unfolding hex_encode
random_secret bytes = str "whsec_" ++ hex_encode bytes

-- GenerateInboundPath
unfoldable pub generate_inbound_path : ConsoleEnv → Db Text
generate_inbound_path env = do id ← fresh_id; pure (take 8 (env.server.uuid_text id))

-- An empty secret is made up, but for an internal connection.
unfoldable pub chosen_secret : Random → CreateRequest → Text
unfolding random_secret
chosen_secret r req =
    let secret = trim_space req.signing_secret in
    if is_empty secret && not (text_eq req.source_type (str "internal"))
    then random_secret r.secret_bytes
    else secret

abbrev pub new_connection : ConsoleEnv → CreateRequest → Text → Text → Connection
new_connection env req enc path = record {
  id = 0;
  name = req.name;
  source_type = req.source_type;
  inbound_path = path;
  destination_url = req.destination_url;
  signing_secret_enc = enc;
  retry_attempts = pos 8;
  retry_first_delay_s = pos 60;
  retry_backoff_factor = env.float_2;
  retention_days = pos 7;
  is_playground = false;
  created_at = 0;
}

pub record CreateReply : Type 0 where
  pub connection : ConnectionResponse
  pub signing_secret : Text

abbrev pub created_reply : ConsoleEnv → Text → Connection → Db (Answer CreateReply)
created_reply env secret c =
    pure
      (success 201 (record { connection = to_connection_response env c; signing_secret = secret }))

unfoldable pub store_connection : ConsoleEnv → CreateRequest → Text → Text → Db (Answer CreateReply)
store_connection env req secret enc = do
  path ← generate_inbound_path env
  call_or 500 (create_connection env.server.store.pg (new_connection env req enc path))
      (created_reply env secret)

unfoldable pub create_connection_with :
    ConsoleEnv → Random → CreateRequest → Db (Answer CreateReply)
create_connection_with env r req =
    if is_empty req.name || is_empty req.destination_url || is_empty req.source_type
    then pure (refusal 400)
    else call_or 500 (lift (encrypt_bytes env.server.encryptor r.seal_nonce (chosen_secret r req)))
        (store_connection env req (chosen_secret r req))

unfoldable pub handle_create : ConsoleEnv → Random → Option CreateRequest → Db (Answer CreateReply)
handle_create env r body = unless_none 400 (create_connection_with env r) body

unfoldable pub is_stats_of : ℕ → ConnectionStats → Bool
is_stats_of id st = st.connection_id == id

abbrev pub response_with : ConsoleEnv → Connection → Option ConnectionStats → ConnectionResponse
response_with env c st = record (to_connection_response env c) { stats = st }

abbrev pub respond_all :
    ConsoleEnv → List Connection → List ConnectionStats → Db (Answer (List ConnectionResponse))
respond_all env conns stats =
    pure (success 200 (map (λ c. response_with env c (find (is_stats_of c.id) stats)) conns))

abbrev pub stats_found : Res ConnectionStats → Option ConnectionStats
stats_found (err _) = none
stats_found (ok st) = some st

module _ (floats : FloatOps) (percentile : List ℕ → Option Float64) where
  abbrev with_stats : ConsoleEnv → List Connection → Db (Answer (List ConnectionResponse))
  with_stats env conns =
      call_or 500 (list_all_connection_stats floats percentile) (respond_all env conns)

  unfoldable pub handle_list : ConsoleEnv → Db (Answer (List ConnectionResponse))
  handle_list env = call_or 500 list_connections (with_stats env)

  -- Where the statistics cannot be read, the response has none.
  abbrev respond_one : ConsoleEnv → Connection → Db (Answer ConnectionResponse)
  respond_one env c = do
    st ← attempt (get_connection_stats floats percentile c.id)
    pure (success 200 (response_with env c (stats_found st)))

  abbrev get_by_id : ConsoleEnv → ℕ → Db (Answer ConnectionResponse)
  get_by_id env id = find_or 404 (get_connection id) (respond_one env)

  unfoldable pub handle_get : ConsoleEnv → Text → Db (Answer ConnectionResponse)
  handle_get env id = unless_none 400 (get_by_id env) (env.parse_uuid id)

  -- getMetrics
  unfoldable pub get_metrics : Db (Answer PlatformMetrics)
  get_metrics = call_or 500 (get_platform_metrics floats percentile) (λ m. pure (success 200 m))

-- The fields of a PATCH, and the new secret if there is one.
pub record PatchRequest : Type 0 where
  pub fields : ConnectionPatch
  pub signing_secret : Option Text

-- The reply of a PATCH, and the cache of connections after it; a refusal leaves the cache alone.
pub record Patched : Type 0 where
  pub connection : ConnectionResponse
  pub cache : Cache

abbrev pub evict : ConsoleEnv → Cache → Connection → Db (Answer Patched)
evict env cache c = pure (
    success 200 (record {
      connection = to_connection_response env c;
      cache = cache_delete c.inbound_path cache;
    }))

unfoldable pub store_secret : ConsoleEnv → Cache → ℕ → Connection → Text → Db (Answer Patched)
store_secret env cache id c enc =
    call_or 500 (update_connection_secret id enc) (λ _. evict env cache c)

unfoldable pub replace_secret :
    ConsoleEnv → Cache → Option Text → ℕ → Connection → Option Text → Db (Answer Patched)
replace_secret env cache random id c none = evict env cache c
replace_secret env cache random id c (some new) =
    let secret = trim_space new in
    if is_empty secret
    then pure (refusal 400)
    else call_or 500 (lift (encrypt_bytes env.server.encryptor random secret))
        (store_secret env cache id c)

abbrev pub patch_with : ConsoleEnv → Cache → Option Text → ℕ → PatchRequest → Db (Answer Patched)
patch_with env cache random id req =
    find_or 404 (update_connection env.server.store.pg id req.fields)
      (λ c. replace_secret env cache random id c req.signing_secret)

abbrev pub patch_body :
    ConsoleEnv → Cache → Option Text → Option PatchRequest → ℕ → Db (Answer Patched)
patch_body env cache random body id = unless_none 400 (patch_with env cache random id) body

unfoldable pub patch_connection :
    ConsoleEnv → Cache → Option Text → Text → Option PatchRequest → Db (Answer Patched)
patch_connection env cache random id body =
    unless_none 400 (patch_body env cache random body) (env.parse_uuid id)

abbrev pub answer_deliveries : List Delivery → Db (Answer (List Delivery))
answer_deliveries ds = pure (success 200 ds)

abbrev pub deliveries_of : ℕ → Db (Answer (List Delivery))
deliveries_of id = call_or 500 (list_deliveries_for_connection id 50) answer_deliveries

unfoldable pub list_deliveries : ConsoleEnv → Text → Db (Answer (List Delivery))
list_deliveries env id = unless_none 400 deliveries_of (env.parse_uuid id)
