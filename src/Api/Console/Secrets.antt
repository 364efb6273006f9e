-- ===== src/Api/Console/Secrets.antt =====
-- The signing secret that a connection is given in internal/api/handlers.go is the one that the
-- inbound path of server.go then uses.
use mathlib.Core.Path.{subst}
use koto7_tuma.Prelude.{
  ℕ, ◌+◌, ◌*◌, ◌≡◌, refl, sym, ap, ◌∙◌, Text, is_empty, trim_space, Option, none, some, [], ◌∷◌,
  find, keep_if, arith,
}
use koto7_tuma.Crypto.{encrypt_bytes, decrypt_bytes}
use koto7_tuma.Storage.Rows.{Connection}
use koto7_tuma.Storage.Connections.{
  has_inbound_path, update_connection, update_connection_secret, get_connection_by_inbound_path,
}
use koto7_tuma.Storage.EventCrypto.{IsSound, HasSize, decrypted}
use koto7_tuma.Storage.Events.{lift}
use koto7_tuma.Storage.Db.{World, Res, ok, ◌>>=◌, statement, get_now}
use koto7_tuma.Workflow.{second}
use koto7_tuma.Api.Ingest.{
  Cache, cache_load, cache_delete, cache_store, get_cached_connection, from_cache, query_connection,
  load_connection,
}
use koto7_tuma.Api.Http.{ConsoleEnv}
use koto7_tuma.Api.Answers.{
  Succeeds, unless_none-success, call_or-success, find_or-success, else-success,
}
use koto7_tuma.Api.Console.Rows.{PathsLead, IsUpdated, updated, secret_written}
use koto7_tuma.Api.Console.{
  PatchRequest, Patched, evict, to_connection_response, store_secret, replace_secret, patch_body,
  patch_connection,
}

cache_load-delete : (path : Text) (cache : Cache) → cache_load path (cache_delete path cache) ≡ none
unfolding cache_load cache_delete find keep_if
cache_load-delete path [] = refl
cache_load-delete path (c ∷ cache) = ground (arith, cache_load-delete path cache)

-- An inbound request finds the connection `c` by its path and uses the secret `s`.
pub record Uses (env : ConsoleEnv) (cache : Cache) (path s : Text) (w : World) : Type 0 where
  pub conn : Connection
  pub after : Cache
  pub looked :
      (get_cached_connection env.server cache path (record w { outcomes = [] })).0
      ≡ ok (record { found = some (conn, s); cache = after })

pub lookup :
    (env : ConsoleEnv) (cache : Cache) (path s : Text) (w : World) (c : Connection)
    → cache_load path cache ≡ none
    → find (has_inbound_path path) w.tables.connections ≡ some c
    → decrypt_bytes env.server.encryptor c.signing_secret_enc ≡ ok s
    → Uses env cache path s w
unfolding get_cached_connection get_now ◌>>=◌ query_connection get_connection_by_inbound_path
    statement load_connection from_cache cache_store
lookup env cache path s w c empty found opened = record {
  conn = c;
  after =
      cache_store (record { path = path; conn = c; secret = s; expires_at = w.now + 30 * second })
        cache;
  looked = rw (empty, found, opened) refl;
}

replaced :
    (env : ConsoleEnv) (cache : Cache) (random : Option Text) (id : ℕ) (c : Connection) (new : Text)
    (w w' : World) {code : ℕ} {p : Patched}
    → IsSound env.server.encryptor
    → HasSize env.server.encryptor random
    → IsUpdated id c w
    → Succeeds (replace_secret env cache random id c (some new)) w code p w'
    → Uses env p.cache p.connection.inbound_path (trim_space new) w'
unfolding replace_secret store_secret to_connection_response
replaced env cache random id c new w w' {code} {p} sound size u h =
    let s = trim_space new in
    let g = env.server.encryptor in
    let (_, h1) = else-success 400 (is_empty s) _ w h in
    let (enc, sealing, h2) =
      call_or-success 500 (lift (encrypt_bytes g random s)) (store_secret env cache id c) w h1 in
    let write = update_connection_secret id enc in
    let (_, e, h3) = call_or-success 500 write (λ _. evict env cache c) w h2 in
    let row = secret_written id c enc w (write w).1 u e in
    let shown : record {
      connection = to_connection_response env c;
      cache = cache_delete c.inbound_path cache;
    }
        ≡ p =
      ground (arith, h3) in
    let same : (write w).1 ≡ w' = ground (arith, h3) in
    let used =
      lookup env (cache_delete c.inbound_path cache) c.inbound_path s (write w).1
        (record (u.row) { signing_secret_enc = enc }) (cache_load-delete c.inbound_path cache) row
        (decrypted g random s enc sound size (ap (λ (q : Res Text × World). q.0) sealing)) in
    subst (λ (q : Patched). Uses env q.cache q.connection.inbound_path s w') shown
      (subst (λ v. Uses env (cache_delete c.inbound_path cache) c.inbound_path s v) same used)

-- After a successful PATCH with a new secret, inbound requests on the path of the connection use the
-- trimmed secret at once, where their calls go well: no entry of the cache hides it. The paths of
-- connections are unique before, and the cipher is sound, with a nonce of its size.
pub patch_connection-Uses :
    (env : ConsoleEnv) (cache : Cache) (random : Option Text) (text new : Text) (req : PatchRequest)
    (w w' : World) {code : ℕ} {p : Patched}
    → PathsLead w.tables.connections
    → IsSound env.server.encryptor
    → HasSize env.server.encryptor random
    → req.signing_secret ≡ some new
    → Succeeds (patch_connection env cache random text (some req)) w code p w'
    → Uses env p.cache p.connection.inbound_path (trim_space new) w'
unfolding patch_connection
patch_connection-Uses env cache random text new req w w' {code} {p} leads sound size asked h =
    let (id, _, h1) =
      unless_none-success 400 (patch_body env cache random (some req)) (env.parse_uuid text) w h in
    let update = update_connection env.server.store.pg id req.fields in
    let (c, e, h2) =
      find_or-success 404 update (λ c. replace_secret env cache random id c req.signing_secret) w
        h1 in
    let u = updated env.server.store.pg id req.fields w _ leads e in
    let h3 : Succeeds (replace_secret env cache random id c (some new)) (update w).1 code p w' =
      ap (λ o. replace_secret env cache random id c o (update w).1) (sym asked) ∙ h2 in
    replaced env cache random id c new (update w).1 w' sound size u h3
