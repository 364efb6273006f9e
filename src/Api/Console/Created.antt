-- ===== src/Api/Console/Created.antt =====
-- A connection that internal/api/handlers.go creates, as the inbound path of server.go finds it.
use mathlib.Core.Path.{subst}
use koto7_tuma.Prelude.{
  ℕ, ◌+◌, ◌≡◌, refl, sym, ap, ◌∙◌, Text, text_eq_self, is_empty, true, ◌||◌, Option, none, some, [],
  ◌∷◌, ◌++◌, is_none, find, find-append_hit, take, arith,
}
use koto7_tuma.Float.{Float64}
use koto7_tuma.Storage.Env.{Pg}
use koto7_tuma.Crypto.{encrypt_bytes, decrypt_bytes}
use koto7_tuma.Storage.Rows.{Connection}
use koto7_tuma.Storage.Connections.{has_inbound_path, insert_checked, create_connection}
use koto7_tuma.Storage.EventCrypto.{IsSound, HasSize, decrypted}
use koto7_tuma.Storage.Events.{lift}
use koto7_tuma.Storage.Db.{World, Res, ok, ◌>>=◌, statement, statement-ok, fresh_id}
use koto7_tuma.Api.Ingest.{Cache, cache_load}
use koto7_tuma.Api.Http.{ConsoleEnv, call_or}
use koto7_tuma.Api.Answers.{Succeeds, call_or-success, else-success}
use koto7_tuma.Api.Console.{
  CreateRequest, CreateReply, Random, chosen_secret, new_connection, created_reply,
  generate_inbound_path, store_connection, create_connection_with, handle_create,
  to_connection_response,
}
use koto7_tuma.Api.Console.Secrets.{Uses, lookup}

-- The row of a new connection, found by its path.
record IsStored (c made : Connection) (w' : World) : Type 0 where
  row : Connection
  found : find (has_inbound_path c.inbound_path) w'.tables.connections ≡ some row
  sealed : row.signing_secret_enc ≡ c.signing_secret_enc
  path : made.inbound_path ≡ c.inbound_path

none_of : {A : Type 0} (o : Option A) → is_none o ≡ true → o ≡ none
none_of none h = refl
none_of (some a) h = absurd (ground (arith, h))

inserted :
    (pg : Pg) (kept : Option Float64) (c made : Connection) (w w' : World)
    → insert_checked pg kept c w ≡ (ok made, w')
    → IsStored c made w'
unfolding insert_checked has_inbound_path
inserted pg none c made w w' h = absurd (ground (arith, h))
inserted pg (some factor) c made w w' h =
    let row = record c { id = w.next_id; created_at = w.now; retry_backoff_factor = factor } in
    let (free, made_is, connections) = facts in
    record {
      row = row;
      found =
          ap (λ cs. find (has_inbound_path c.inbound_path) cs) (sym connections)
          ∙ find-append_hit (has_inbound_path c.inbound_path) w.tables.connections row
              (none_of _ free) (text_eq_self c.inbound_path);
      sealed = refl;
      path = ap (λ (x : Connection). x.inbound_path) (sym made_is);
    }
  where
    facts :
        (is_none (find (has_inbound_path c.inbound_path) w.tables.connections) ≡ true)
        × (record c { id = w.next_id; created_at = w.now } ≡ made)
        × (w.tables.connections
              ++ (record c { id = w.next_id; created_at = w.now; retry_backoff_factor = factor })
                ∷ []
            ≡ w'.tables.connections)
    facts = ground (arith, h)

stored :
    (env : ConsoleEnv) (cache : Cache) (req : CreateRequest) (secret enc path : Text) (w w' : World)
    {code : ℕ} {reply : CreateReply}
    → decrypt_bytes env.server.encryptor enc ≡ ok secret
    → cache_load reply.connection.inbound_path cache ≡ none
    → Succeeds
        (call_or 500
          (create_connection env.server.store.pg (new_connection env req enc path))
          (created_reply env secret))
        w
        code
        reply
        w'
    → Uses env cache reply.connection.inbound_path reply.signing_secret w'
unfolding create_connection to_connection_response
stored env cache req secret enc path w w' {code} {reply} opens fresh h =
    let c = new_connection env req enc path in
    let insert =
      insert_checked env.server.store.pg (env.server.store.pg.numeric_4_2 env.float_2) c in
    let (made, e, answered) =
      call_or-success 500 (statement insert) (created_reply env secret) w h in
    let (o, run) = statement-ok insert w e in
    let s = inserted env.server.store.pg _ c made (record w { outcomes = o }) _ run in
    let shown : record { connection = to_connection_response env made; signing_secret = secret }
        ≡ reply =
      ground (arith, answered) in
    let same : (statement insert w).1 ≡ w' = ground (arith, answered) in
    let path_is : path ≡ reply.connection.inbound_path =
      sym s.path ∙ ap (λ (r : CreateReply). r.connection.inbound_path) shown in
    let secret_is : secret ≡ reply.signing_secret =
      ap (λ (r : CreateReply). r.signing_secret) shown in
    let here =
      ap (λ (v : World). find (has_inbound_path path) v.tables.connections) (sym same) ∙ s.found in
    subst (λ t. Uses env cache reply.connection.inbound_path t w') secret_is
      (lookup env cache reply.connection.inbound_path secret w' s.row fresh
        (ap (λ p. find (has_inbound_path p) w'.tables.connections) (sym path_is) ∙ here)
        (ap (decrypt_bytes env.server.encryptor) s.sealed ∙ opens))

-- A connection whose creation is answered with success is found on its inbound path by the next
-- request whose calls go well, with the secret of the answer, where the cache has no entry for the
-- path. The cipher is sound, with a nonce of its size.
pub handle_create-Uses :
    (env : ConsoleEnv) (cache : Cache) (random : Random) (req : CreateRequest) (w w' : World)
    {code : ℕ} {reply : CreateReply}
    → IsSound env.server.encryptor
    → HasSize env.server.encryptor random.seal_nonce
    → Succeeds (handle_create env random (some req)) w code reply w'
    → cache_load reply.connection.inbound_path cache ≡ none
    → Uses env cache reply.connection.inbound_path reply.signing_secret w'
unfolding handle_create create_connection_with store_connection generate_inbound_path fresh_id ◌>>=◌
handle_create-Uses env cache random req w w' sound size h fresh =
    let g = env.server.encryptor in
    let secret = chosen_secret random req in
    let (_, h1) =
      else-success 400
        (is_empty req.name || is_empty req.destination_url || is_empty req.source_type) _ w h in
    let (enc, e, h2) =
      call_or-success 500 (lift (encrypt_bytes g random.seal_nonce secret))
        (store_connection env req secret) w h1 in
    stored env cache req secret enc (take 8 (env.server.uuid_text w.next_id))
      (record w { next_id = w.next_id + 1 }) w'
      (decrypted g random.seal_nonce secret enc sound size (ap (λ (q : Res Text × World). q.0) e))
      fresh h2
