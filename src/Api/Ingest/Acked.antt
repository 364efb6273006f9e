-- ===== src/Api/Ingest/Acked.antt =====
-- What an acknowledgement of ingest of internal/api/server.go rests on.
use mathlib.Core.Path.{subst}
use koto7_tuma.Prelude.{
  ℕ, ◌≡◌, refl, ◌≢◌, ap, Text, Bool, true, false, Option, none, some, List, ltb, length, find,
  arith, Option-cases, Bool-cases, inl, inr, find-append_hit, find-update_none, text_eq_self, sym,
  ◌∙◌,
}
use koto7_tuma.Storage.Env.{StoreEnv}
use koto7_tuma.Storage.Rows.{Connection, Event}
use koto7_tuma.Storage.Db.{
  World, Res, ok, err, get_now, Keeps, keeps_rules, Keeps-statement, attempt-ok, Invariant, bind-ok,
  statement-ok, Leaves, Leaves-statement, Leaves-bind, Leaves-pure, Leaves-reading,
}
use koto7_tuma.Storage.EventCrypto.{ok-inj}
use koto7_tuma.Storage.Events.{
  Nonces, Fields, InsertEventResult, insert_event, insert_event_row, insert_outcome,
  has_provider_id, has_event_id, set_event_workflow_id, get_event_by_provider_id,
}
use koto7_tuma.Adapters.Defs.{Adapter, get_adapter, verify, extract_event_id}
use koto7_tuma.Api.Ingest.Lookups.{IsFrom, IsLookup, cached-IsLookup}
use koto7_tuma.Api.Ingest.{
  Cache, ServerEnv, Request, Lookup, Reply, after_start, start_delivery, deliver_if_new,
  after_insert, new_event, accept, with_adapter, with_found, with_connection, ingest,
}

-- An event of the connection under that provider identifier is in the table.
abbrev pub IsStored : ℕ → Text → World → Type 0
IsStored conn provider w = find (has_provider_id conn provider) w.tables.events ≢ none

insert_event_row-stores :
    (e : Event) (f : Fields) (w : World) {o : Option Event} {w' : World}
    → insert_event_row e f w ≡ (ok o, w')
    → IsStored e.connection_id e.provider_event_id w'
unfolding insert_event_row
insert_event_row-stores e f w {o} {w'} h =
    let key = has_provider_id e.connection_id e.provider_event_id in
    elim (Option-cases (find key w.tables.events)) [
      | inl fresh ↦ λ gone.
          ground (
            arith,
            fresh,
            find-append_hit key w.tables.events (new_row e f w) fresh (own_key e f w),
          )
      | inr (x, old) ↦ λ gone. ground (arith, old)
    ]
  where
    new_row : Event → Fields → World → Event
    new_row e f w = record e {
      id = w.next_id;
      raw_headers = f.headers;
      raw_payload = f.payload;
      payload_encrypted = true;
      received_at = w.now;
    }

    own_key :
        (e : Event) (f : Fields) (w : World)
        → has_provider_id e.connection_id e.provider_event_id (new_row e f w) ≡ true
    own_key e f w = unfold has_provider_id in (ground (arith, text_eq_self e.provider_event_id))

abbrev events_of : World → List Event
events_of w = w.tables.events

get_event_by_provider_id-Leaves :
    (env : StoreEnv) (conn : ℕ) (p : Text) → Leaves events_of (get_event_by_provider_id env conn p)
unfolding get_event_by_provider_id
get_event_by_provider_id-Leaves env conn p =
    Leaves-bind _ _ (Leaves-statement (λ w o. refl) _ (Leaves-reading _)) (λ a. Leaves-reading _)

insert_outcome-Leaves :
    (env : StoreEnv) (e : Event) (o : Option Event) → Leaves events_of (insert_outcome env e o)
unfolding insert_outcome
insert_outcome-Leaves env e (some made) = Leaves-pure _
insert_outcome-Leaves env e none =
    Leaves-bind _ _ (get_event_by_provider_id-Leaves env _ _) (λ a. Leaves-pure _)

insert_event-stores :
    (env : StoreEnv) (n : Nonces) (e : Event) (w : World) {r : InsertEventResult} {w' : World}
    → insert_event env n e w ≡ (ok r, w')
    → IsStored e.connection_id e.provider_event_id w'
unfolding insert_event
insert_event-stores env n e w {r} {w'} h =
    let (f, _, h₁) = bind-ok _ _ w {b = r} h in
    let (o, ran, h₂) = bind-ok _ _ _ {b = r} h₁ in
    let (_, ran') = statement-ok _ _ ran in
    let same = (insert_outcome-Leaves env e o).at _ in
    let last = ap (λ (p : Res InsertEventResult × World). p.1.tables.events) h₂ in
    let there = insert_event_row-stores e f _ ran' in
    λ gone.
      there
        (ap (find (has_provider_id e.connection_id e.provider_event_id)) (sym same ∙ last) ∙ gone)

-- Later statements do not lose the event.
abbrev Stored : ℕ → Text → Invariant
Stored conn provider t n = find (has_provider_id conn provider) t.events ≢ none

set_event_workflow_id-stored :
    (conn : ℕ) (provider : Text) (id : ℕ) (wf : Text)
    → Keeps (Stored conn provider) (set_event_workflow_id id wf)
unfolding set_event_workflow_id has_provider_id
set_event_workflow_id-stored conn provider id wf = Keeps-statement _ (record {
  at = λ w h gone. h (
      find-update_none (has_provider_id conn provider) (has_event_id id)
        (λ e. record e { workflow_id = some wf }) w.tables.events (λ y. refl) gone);
})

after_start-stored :
    (conn : ℕ) (provider : Text) (env : ServerEnv) (id : ℕ) (r : Res (Unit {0}))
    → Keeps (Stored conn provider) (after_start env id r)
unfolding after_start
after_start-stored conn provider env id (ok _) = search (keeps_rules, set_event_workflow_id-stored)
after_start-stored conn provider env id (err _) = search keeps_rules

deliver_if_new-stored :
    (conn : ℕ) (provider : Text) (env : ServerEnv) (b : Bool) (e : Option Event)
    → Keeps (Stored conn provider) (deliver_if_new env b e)
unfolding deliver_if_new start_delivery
deliver_if_new-stored conn provider env false e = search keeps_rules
deliver_if_new-stored conn provider env true none = search keeps_rules
deliver_if_new-stored conn provider env true (some e) = search (keeps_rules, after_start-stored)

after_insert-stored :
    (conn : ℕ) (provider : Text) (env : ServerEnv) (cache : Cache) (r : Res InsertEventResult)
    → Keeps (Stored conn provider) (after_insert env cache r)
unfolding after_insert
after_insert-stored conn provider env cache (ok r) = search (keeps_rules, deliver_if_new-stored)
after_insert-stored conn provider env cache (err _) = search keeps_rules

after_insert-acks :
    (env : ServerEnv) (cache : Cache) (r : Res InsertEventResult) (w : World) {reply : Reply}
    {w' : World}
    → after_insert env cache r w ≡ (ok reply, w')
    → reply.status ≡ 200
    → (x : InsertEventResult) × (r ≡ ok x)
unfolding after_insert
after_insert-acks env cache (ok x) w h s = (x, refl)
after_insert-acks env cache (err _) w h s = absurd (ground arith)

accept-stores :
    (env : ServerEnv) (cache : Cache) (conn : Connection) (a : Adapter) (req : Request) (w : World)
    {reply : Reply} {w' : World}
    → accept env cache conn a req w ≡ (ok reply, w')
    → reply.status ≡ 200
    → IsStored conn.id (extract_event_id env.digests a req.headers req.body) w'
unfolding accept
accept-stores env cache conn a req w {reply} {w'} h s =
    let provider = extract_event_id env.digests a req.headers req.body in
    let (r, ran, rest) = bind-ok _ _ w {b = reply} h in
    let (x, good) = after_insert-acks env cache r _ rest s in
    let inserted = attempt-ok _ w ran good in
    let there = insert_event-stores env.store req.nonces (new_event env conn a req) w inserted in
    let after = (after_insert-stored conn.id provider env cache r).at _ there in
    let last = ap (λ (p : Res Reply × World). p.1.tables.events) rest in
    λ gone. after (ap (find (has_provider_id conn.id provider)) last ∙ gone)

-- Why the request was accepted in the state `v`, and what the state `w` then holds: the connection
-- and its secret are those of the request's path.
pub record IsAcked (env : ServerEnv) (cache : Cache) (req : Request) (v w : World) : Type 0 where
  pub conn : Connection
  pub secret : Text
  pub adapter : Adapter
  pub source : IsFrom env cache req.path v conn secret
  pub known : get_adapter conn.source_type ≡ some adapter
  pub verified : verify env.digests v.now adapter req.headers req.body secret ≡ true
  pub stored : IsStored conn.id (extract_event_id env.digests adapter req.headers req.body) w

module _ (env : ServerEnv) (cache : Cache) (req : Request) (v : World) where
  with_adapter-acks :
      (after : Cache) (conn : Connection) (secret : Text) (o : Option Adapter) (w : World)
      {reply : Reply} {w' : World}
      → w.now ≡ v.now
      → IsFrom env cache req.path v conn secret
      → get_adapter conn.source_type ≡ o
      → with_adapter env after conn secret req o w ≡ (ok reply, w')
      → reply.status ≡ 200
      → IsAcked env cache req v w'
  unfolding with_adapter get_now
  with_adapter-acks after conn secret none w t from k h s = absurd (ground arith)
  with_adapter-acks after conn secret (some a) w {reply} {w'} t from k h s =
      let (now, clock, rest) = bind-ok _ _ w {b = reply} h in
      let is_now : now ≡ v.now = sym (ok-inj (ap (λ (p : Res ℕ × World). p.0) clock)) ∙ t in
      elim (Bool-cases (verify env.digests now a req.headers req.body secret)) [
        | inl good ↦ record {
          conn = conn;
          secret = secret;
          adapter = a;
          source = from;
          known = k;
          verified =
              subst (λ n. verify env.digests n a req.headers req.body secret ≡ true) is_now good;
          stored = accept-stores env after conn a req _ (rw good at rest) s;
        }
        | inr bad ↦ let refused = rw bad at rest in absurd (ground arith)
      ]

  with_connection-acks :
      (r : Res Lookup) (w : World) {reply : Reply} {w' : World}
      → ((l : Lookup) → r ≡ ok l → IsLookup env cache req.path v l w)
      → with_connection env cache req r w ≡ (ok reply, w')
      → reply.status ≡ 200
      → IsAcked env cache req v w'
  unfolding with_connection
  with_connection-acks (err _) w look h s = absurd (ground arith)
  with_connection-acks (ok l) w {reply} {w'} look h s = found l.found refl h
    where
      found :
          (o : Option (Connection × Text))
          → l.found ≡ o
          → with_found env l.cache req o w ≡ (ok reply, w')
          → IsAcked env cache req v w'
      found none e k = unfold with_found in (absurd (ground arith))
      found (some (conn, secret)) e k =
          unfold with_found in
          with_adapter-acks l.cache conn secret (get_adapter conn.source_type) w
            (look l refl).timely ((look l refl).source conn secret e) refl k s

-- A request that is answered 200, whatever calls failed on the way, was verified by the adapter of the
-- connection of its path, under that connection's secret and at the time of the request, and its
-- event is in the table. The connection and the secret are those of a cached entry of the path that
-- has not expired, or those of the table, decrypted.
pub ingest-acks :
    (env : ServerEnv) (cache : Cache) (req : Request) (w : World) {reply : Reply} {w' : World}
    → ingest env cache req w ≡ (ok reply, w')
    → reply.status ≡ 200
    → IsAcked env cache req w w'
unfolding ingest
ingest-acks env cache req w {reply} {w'} h s =
    elim (Bool-cases (ltb env.max_body_bytes (length req.body))) [
      | inl large ↦ let refused = rw large at h in absurd (ground arith)
      | inr fits ↦
          let run = rw fits at h in
          let (r, ran, rest) = bind-ok _ _ w {b = reply} run in
          with_connection-acks env cache req w r _
            (λ l good. cached-IsLookup env cache req.path w (attempt-ok _ w ran good)) rest s
    ]
