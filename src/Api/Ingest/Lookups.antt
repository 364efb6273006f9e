-- ===== src/Api/Ingest/Lookups.antt =====
-- What getCachedConnection of internal/api/server.go finds.
use mathlib.Core.Path.{subst}
use koto7_tuma.Prelude.{
  ◌<◌, ◌≡◌, refl, ap, Text, Option, none, some, ltb, find, arith, Bool-cases, inl, inr, sym, ◌∙◌,
}
use koto7_tuma.Crypto.{decrypt_bytes}
use koto7_tuma.Storage.Connections.{has_inbound_path, get_connection_by_inbound_path}
use koto7_tuma.Storage.Rows.{Connection}
use koto7_tuma.Storage.Db.{World, Res, ok, pure, ◌>>=◌, get_now, bind-ok, statement-ok}
use koto7_tuma.Storage.EventCrypto.{ok-inj}
use koto7_tuma.Storage.Events.{lift}
use koto7_tuma.Api.Ingest.{
  Cache, CachedConnection, cache_load, load_connection, query_connection, from_cache,
  get_cached_connection, ServerEnv, Lookup,
}

-- Where the connection and the secret of a path come from: an entry of the cache that has not
-- expired, or the table and the decryption of the secret that the row holds.
pub data IsFrom (env : ServerEnv) (cache : Cache) (path : Text) (w : World)
    : Connection → Text → Type 0 where
  cached :
      (c : CachedConnection)
      → cache_load path cache ≡ some c
      → w.now < c.expires_at
      → IsFrom env cache path w c.conn c.secret
  queried :
      (conn : Connection) (secret : Text)
      → find (has_inbound_path path) w.tables.connections ≡ some conn
      → decrypt_bytes env.encryptor conn.signing_secret_enc ≡ ok secret
      → IsFrom env cache path w conn secret

-- What a lookup of a path leaves: a connection with its source, in a state that differs in nothing
-- but the outcomes to come.
pub record IsLookup (env : ServerEnv) (cache : Cache) (path : Text) (v : World) (l : Lookup)
    (w : World) : Type 0 where
  pub timely : w.now ≡ v.now
  pub source :
      (conn : Connection) (secret : Text)
      → l.found ≡ some (conn, secret)
      → IsFrom env cache path v conn secret

or_first : {A : Type 0} → A → Option A → A
or_first a none = a
or_first a (some x) = x

some-inj : {A : Type 0} {a b : A} → some a ≡ some b → a ≡ b
unfolding or_first
some-inj {A} {a} {b} h = ap (or_first a) h

module _ (env : ServerEnv) (cache : Cache) where
  -- A lookup that ends in the state `w` with this connection.
  found-IsLookup :
      (path : Text) (v w : World) (conn : Connection) (secret : Text) (after : Cache) {l : Lookup}
      {w' : World}
      → w.now ≡ v.now
      → IsFrom env cache path v conn secret
      → pure (record { found = some (conn, secret); cache = after }) w ≡ (ok l, w')
      → IsLookup env cache path v l w'
  found-IsLookup path v w conn secret after {l} {w'} t from h = record {
    timely = sym (ap (λ (p : Res Lookup × World). p.1.now) h) ∙ t;
    source = λ conn' secret' s.
        let is_l : (record { found = some (conn, secret); cache = after }) ≡ l =
          ok-inj (ap (λ (p : Res Lookup × World). p.0) h) in
        subst (λ (q : Connection × Text). IsFrom env cache path v q.0 q.1)
          (some-inj (ap (λ (x : Lookup). x.found) is_l ∙ s)) from;
  }

  load-IsLookup :
      (path : Text) (o : Option Connection) (v w : World) {l : Lookup} {w' : World}
      → w.now ≡ v.now
      → find (has_inbound_path path) v.tables.connections ≡ o
      → load_connection env cache path o w ≡ (ok l, w')
      → IsLookup env cache path v l w'
  unfolding load_connection get_now ◌>>=◌
  load-IsLookup path none v w {l} t f h = record {
    timely = sym (ap (λ (p : Res Lookup × World). p.1.now) h) ∙ t;
    source = λ conn secret s.
        let is_l : (record { found = none; cache = cache }) ≡ l =
          ok-inj (ap (λ (p : Res Lookup × World). p.0) h) in
        let gone : none ≡ some (conn, secret) = ap (λ (x : Lookup). x.found) is_l ∙ s in
        absurd (ground (arith, gone));
  }
  load-IsLookup path (some c) v w {l} {w'} t f h =
      let (secret, dec, k) =
        bind-ok (lift (decrypt_bytes env.encryptor c.signing_secret_enc)) _ w h in
      found-IsLookup path v w c secret _ t
        (IsFrom.queried c secret f (ap (λ (p : Res Text × World). p.0) dec)) k

  query-IsLookup :
      (path : Text) (v : World) {l : Lookup} {w' : World}
      → query_connection env cache path v ≡ (ok l, w')
      → IsLookup env cache path v l w'
  unfolding query_connection get_connection_by_inbound_path
  query-IsLookup path v {l} h =
      let (o, ran, k) = bind-ok _ _ v {b = l} h in
      let (_, found) = statement-ok _ v ran in
      load-IsLookup path o v _ (sym (ap (λ (p : Res (Option Connection) × World). p.1.now) found))
        (ok-inj (ap (λ (p : Res (Option Connection) × World). p.0) found)) k

  from-IsLookup :
      (path : Text) (o : Option CachedConnection) (v : World) {l : Lookup} {w' : World}
      → cache_load path cache ≡ o
      → from_cache env cache path v.now o v ≡ (ok l, w')
      → IsLookup env cache path v l w'
  unfolding from_cache
  from-IsLookup path none v e h = query-IsLookup path v h
  from-IsLookup path (some c) v e h = elim (Bool-cases (ltb v.now c.expires_at)) [
    | inl fresh ↦
        found-IsLookup path v v c.conn c.secret cache refl
          (IsFrom.cached c e (ground (arith, fresh))) (rw fresh at h)
    | inr old ↦ query-IsLookup path v (rw old at h)
  ]

  pub cached-IsLookup :
      (path : Text) (v : World) {l : Lookup} {w' : World}
      → get_cached_connection env cache path v ≡ (ok l, w')
      → IsLookup env cache path v l w'
  unfolding get_cached_connection get_now ◌>>=◌
  cached-IsLookup path v h = from-IsLookup path (cache_load path cache) v refl h
