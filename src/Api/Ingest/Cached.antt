-- ===== src/Api/Ingest/Cached.antt =====
-- The cache of connections of internal/api/server.go, from request to request.
use mathlib.Core.Path.{subst}
use koto7_tuma.Prelude.{
  text_eq, ℕ, ◌≡◌, refl, find-passes, ap, Text, Bool, true, false, Option, none, some, List, [],
  ◌∷◌, find, keep_if, ltb, length, Bool-cases, inl, inr, arith, if◌then◌else◌,
}
use koto7_tuma.Crypto.{decrypt_bytes}
use koto7_tuma.Storage.Rows.{Connection}
use koto7_tuma.Storage.Connections.{has_inbound_path, get_connection_by_inbound_path}
use koto7_tuma.Storage.Db.{
  World, Db, Res, ok, err, pure, continue, ◌>>=◌, attempt, get_now, statement-ok,
}
use koto7_tuma.Storage.EventCrypto.{ok-inj}
use koto7_tuma.Storage.Events.{InsertEventResult}
use koto7_tuma.Adapters.Defs.{Adapter, verify}
use koto7_tuma.Api.Ingest.{
  Cache, CachedConnection, ServerEnv, Request, Lookup, Reply, cache_store, cache_delete,
  load_connection, query_connection, from_cache, get_cached_connection, after_insert, accept,
  with_adapter, with_found, with_connection, ingest,
}

-- An entry holds a connection of its path, and the secret that the connection's row opens to.
pub record IsLoaded (env : ServerEnv) (c : CachedConnection) : Type 0 where
  pub of_path : has_inbound_path c.path c.conn ≡ true
  pub opens : decrypt_bytes env.encryptor c.conn.signing_secret_enc ≡ ok c.secret

abbrev pub AllLoaded : ServerEnv → Cache → Type 0
AllLoaded env [] = Unit
AllLoaded env (c ∷ cache) = IsLoaded env c × AllLoaded env cache

-- What an action gives, where it gives a value.
record Gives {A : Type 0} (P : A → Type 0) (m : Db A) : Type 0 where
  at : (w : World) (a : A) → (m w).0 ≡ ok a → P a

module _ {A B : Type 0} {Q : A → Type 0} {P : B → Type 0} where
  continue-Gives :
      (r : Res A) (g : A → Db B) (w : World) (b : B)
      → ((a : A) → r ≡ ok a → Q a)
      → ((a : A) → Q a → Gives P (g a))
      → (continue r g w).0 ≡ ok b
      → P b
  continue-Gives (ok a) g w b q h e = (h a (q a refl)).at w b e
  continue-Gives (err x) g w b q h e = absurd (ground (arith, e))

  Gives-bind :
      (m : Db A) (g : A → Db B) → Gives Q m → ((a : A) → Q a → Gives P (g a)) → Gives P (m >>= g)
  unfolding ◌>>=◌
  Gives-bind m g q h = record {
    at = λ w b e. continue-Gives (m w).0 g (m w).1 b (λ a r. q.at w a r) h e;
  }

module _ {A : Type 0} {P : A → Type 0} where
  Gives-pure : (a : A) → P a → Gives P (pure a)
  Gives-pure a p = record { at = λ w b e. subst P (ok-inj e) p }

  Gives-if : (b : Bool) (m n : Db A) → Gives P m → Gives P n → Gives P (if b then m else n)
  Gives-if true m n hm hn = hm
  Gives-if false m n hm hn = hn

-- The results that an attempt can see.
abbrev OfRes : {A : Type 0} → (A → Type 0) → Res A → Type 0
OfRes P (ok a) = P a
OfRes P (err e) = Unit

res-of : {A : Type 0} {P : A → Type 0} (r : Res A) → ((a : A) → r ≡ ok a → P a) → OfRes P r
res-of (ok a) h = h a refl
res-of (err e) h = tt

Gives-attempt : {A : Type 0} {P : A → Type 0} (m : Db A) → Gives P m → Gives (OfRes P) (attempt m)
unfolding attempt
Gives-attempt {P = P} m g = record {
  at = λ w r e. subst (OfRes P) (ok-inj e) (res-of (m w).0 (λ a h. g.at w a h));
}

Gives-any : {A : Type 0} (m : Db A) → Gives (λ a. Unit) m
Gives-any m = record { at = λ w a e. tt }

abbrev IsOf : Text → Option Connection → Type 0
IsOf path none = Unit
IsOf path (some c) = has_inbound_path path c ≡ true

find-IsOf :
    (path : Text) (cs : List Connection) (o : Option Connection)
    → find (has_inbound_path path) cs ≡ o
    → IsOf path o
find-IsOf path cs none h = tt
find-IsOf path cs (some c) h = find-passes (has_inbound_path path) cs h

connection-Gives : (path : Text) → Gives (IsOf path) (get_connection_by_inbound_path path)
unfolding get_connection_by_inbound_path
connection-Gives path = record {
  at = λ w o e.
      let (v, ran) =
        statement-ok _ w (ap (λ r. (r, (get_connection_by_inbound_path path w).1)) e) in
      find-IsOf path w.tables.connections o (ok-inj (ap (λ p. p.0) ran));
}

module _ (env : ServerEnv) where
  delete-AllLoaded :
      (path : Text) (cache : Cache) → AllLoaded env cache → AllLoaded env (cache_delete path cache)
  unfolding cache_delete keep_if
  delete-AllLoaded path [] h = tt
  delete-AllLoaded path (c ∷ cache) h = elim (Bool-cases (text_eq c.path path)) [
    | inl same ↦ rw same (delete-AllLoaded path cache h.1)
    | inr other ↦ rw other (h.0, delete-AllLoaded path cache h.1)
  ]

  abbrev LoadedLookup : Lookup → Type 0
  LoadedLookup l = AllLoaded env l.cache

  abbrev LoadedReply : Reply → Type 0
  LoadedReply r = AllLoaded env r.cache

  load-Gives :
      (cache : Cache) (path : Text) (o : Option Connection)
      → IsOf path o
      → AllLoaded env cache
      → Gives LoadedLookup (load_connection env cache path o)
  unfolding load_connection cache_store
  load-Gives cache path none q h = Gives-pure _ h
  load-Gives cache path (some c) q h =
      Gives-bind {Q = λ secret. decrypt_bytes env.encryptor c.signing_secret_enc ≡ ok secret} _ _
        (record { at = λ w a e. e })
        (λ secret opens. Gives-bind {Q = λ n. Unit} _ _ (Gives-any get_now) (λ now _.
          Gives-pure _ (record { of_path = q; opens = opens }, delete-AllLoaded path cache h)))

  query-Gives :
      (cache : Cache) (path : Text)
      → AllLoaded env cache
      → Gives LoadedLookup (query_connection env cache path)
  unfolding query_connection
  query-Gives cache path h =
      Gives-bind _ _ (connection-Gives path) (λ o q. load-Gives cache path o q h)

  from-Gives :
      (cache : Cache) (path : Text) (now : ℕ) (o : Option CachedConnection)
      → AllLoaded env cache
      → Gives LoadedLookup (from_cache env cache path now o)
  unfolding from_cache
  from-Gives cache path now none h = query-Gives cache path h
  from-Gives cache path now (some c) h =
      Gives-if (ltb now c.expires_at) _ _ (Gives-pure _ h) (query-Gives cache path h)

  lookup-Gives :
      (cache : Cache) (path : Text)
      → AllLoaded env cache
      → Gives LoadedLookup (get_cached_connection env cache path)
  unfolding get_cached_connection
  lookup-Gives cache path h =
      Gives-bind {Q = λ n. Unit} _ _ (Gives-any get_now) (λ now _. from-Gives cache path now _ h)

  inserted-Gives :
      (cache : Cache) (r : Res InsertEventResult)
      → AllLoaded env cache
      → Gives LoadedReply (after_insert env cache r)
  unfolding after_insert
  inserted-Gives cache (err x) h = Gives-pure _ h
  inserted-Gives cache (ok x) h =
      Gives-bind {Q = λ n. Unit} _ _ (Gives-any _) (λ _ _. Gives-pure _ h)

  adapter-Gives :
      (cache : Cache) (conn : Connection) (secret : Text) (req : Request) (o : Option Adapter)
      → AllLoaded env cache
      → Gives LoadedReply (with_adapter env cache conn secret req o)
  unfolding with_adapter accept
  adapter-Gives cache conn secret req none h = Gives-pure _ h
  adapter-Gives cache conn secret req (some a) h =
      Gives-bind {Q = λ n. Unit} _ _ (Gives-any get_now) (λ now _.
        Gives-if (verify env.digests now a req.headers req.body secret) _ _
          (Gives-bind {Q = λ r. Unit} _ _ (Gives-any _) (λ r _. inserted-Gives cache r h))
          (Gives-pure _ h))

  connection_found-Gives :
      (cache : Cache) (req : Request) (r : Res Lookup)
      → AllLoaded env cache
      → OfRes LoadedLookup r
      → Gives LoadedReply (with_connection env cache req r)
  unfolding with_connection with_found
  connection_found-Gives cache req (err e) h l = Gives-pure _ h
  connection_found-Gives cache req (ok l) h loaded = by_found l.found
    where
      by_found : (o : Option (Connection × Text)) → Gives LoadedReply (with_found env l.cache req o)
      by_found none = Gives-pure _ loaded
      by_found (some (conn, secret)) = adapter-Gives l.cache conn secret req _ loaded

-- Every entry of the cache holds a connection of its path, and the secret that the row of this
-- connection opens to: a request to the inbound path keeps it so, however its calls end.
pub ingest-AllLoaded :
    (env : ServerEnv) (cache : Cache) (req : Request) (w : World) (reply : Reply)
    → AllLoaded env cache
    → (ingest env cache req w).0 ≡ ok reply
    → AllLoaded env reply.cache
unfolding ingest
ingest-AllLoaded env cache req w reply h e =
    (Gives-if {P = LoadedReply env} (ltb env.max_body_bytes (length req.body)) _ _ (Gives-pure _ h)
        (Gives-bind _ _ (Gives-attempt _ (lookup-Gives env cache req.path h))
          (λ r l. connection_found-Gives env cache req r h l))).at
      w reply e
