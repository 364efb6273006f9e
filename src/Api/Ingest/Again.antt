-- ===== src/Api/Ingest/Again.antt =====
-- A webhook that a provider sends again: ingest of internal/api/server.go and InsertEvent of
-- internal/storage/store.go.
use koto7_tuma.Prelude.{
  ◌≢◌, ℕ, ◌≡◌, refl, ap, sym, ◌∙◌, Text, Bool, true, false, Option, none, some, List, [], ◌∷◌, find,
  is_none, arith, if◌then◌else◌,
}
use koto7_tuma.Storage.Env.{StoreEnv}
use koto7_tuma.Storage.Rows.{Connection, Event}
use koto7_tuma.Storage.Db.{
  World, Outcome, fine, refused, reply_lost, Db, Res, ok, err, Err, db_error, continue, ◌>>=◌,
  attempt, run_statement, statement,
}
use koto7_tuma.Storage.Events.{
  Nonces, Fields, InsertEventResult, insert_event, insert_event_row, insert_outcome,
  has_provider_id, lift, get_event_by_provider_id, scan_event, seal_event_fields,
}
use koto7_tuma.Storage.Connections.{has_connection_id}
use koto7_tuma.Adapters.Defs.{Adapter, extract_event_id}
use koto7_tuma.Api.Ingest.{
  Cache, ServerEnv, Request, deliver_if_new, after_insert, new_event, accept,
}

-- The result `p` of an action that began in the state `w`, stored nothing and started nothing, and
-- whose value satisfies `Q` if there is one.
record IsStill {A : Type 0} (Q : A → Type 0) (w : World) (p : Res A × World) : Type 0 where
  tables : p.1.tables ≡ w.tables
  starts : p.1.starts ≡ w.starts
  value : (a : A) → p.0 ≡ ok a → Q a

-- A state that holds what `w` holds.
record IsLike (w v : World) : Type 0 where
  tables : v.tables ≡ w.tables
  starts : v.starts ≡ w.starts

module _ {A : Type 0} {Q : A → Type 0} (w : World) where
  error-IsStill : (e : Err) (v : World) → IsLike w v → IsStill Q w (err e, v)
  error-IsStill e v l = record {
    tables = l.tables;
    starts = l.starts;
    value = λ a q. absurd (ground arith);
  }

  pure-IsStill : (a : A) (v : World) → IsLike w v → Q a → IsStill Q w (ok a, v)
  pure-IsStill a v l q = record {
    tables = l.tables;
    starts = l.starts;
    value = λ b e. let same : a ≡ b = ground (arith, e) in rw (← same) q;
  }

  if-IsStill :
      (b : Bool) (p q : Res A × World)
      → (b ≡ true → IsStill Q w p)
      → (b ≡ false → IsStill Q w q)
      → IsStill Q w (if b then p else q)
  if-IsStill true p q hp hq = hp refl
  if-IsStill false p q hp hq = hq refl

  run-IsStill :
      (body : Db A) (o : List Outcome) (v : World)
      → IsLike w v
      → ((u : World) → IsLike w u → IsStill Q w (body u))
      → IsStill Q w (run_statement o body v)
  run-IsStill body [] v l h = h v l
  run-IsStill body (fine ∷ rest) v l h =
      h (record v { outcomes = rest }) (record { tables = l.tables; starts = l.starts })
  run-IsStill body (refused ∷ rest) v l h =
      error-IsStill _ _ (record { tables = l.tables; starts = l.starts })
  run-IsStill body (reply_lost ∷ rest) v l h =
      let s = h (record v { outcomes = rest }) (record { tables = l.tables; starts = l.starts }) in
      error-IsStill _ _ (record { tables = s.tables; starts = s.starts })

  statement-IsStill :
      (body : Db A) (v : World)
      → IsLike w v
      → ((u : World) → IsLike w u → IsStill Q w (body u))
      → IsStill Q w (statement body v)
  unfolding statement
  statement-IsStill body v l h = run-IsStill body v.outcomes v l h

module _ {A B : Type 0} {Q : A → Type 0} {R : B → Type 0} (w : World) where
  continue-IsStill :
      (r : Res A) (f : A → Db B) (v : World)
      → IsStill Q w (r, v)
      → ((a : A) (u : World) → IsLike w u → Q a → IsStill R w (f a u))
      → IsStill R w (continue r f v)
  continue-IsStill (ok a) f v s k =
      k a v (record { tables = s.tables; starts = s.starts }) (s.value a refl)
  continue-IsStill (err x) f v s k =
      error-IsStill w x v (record { tables = s.tables; starts = s.starts })

  bind-IsStill :
      (m : Db A) (f : A → Db B) (v : World)
      → IsStill Q w (m v)
      → ((a : A) (u : World) → IsLike w u → Q a → IsStill R w (f a u))
      → IsStill R w ((m >>= f) v)
  unfolding ◌>>=◌
  bind-IsStill m f v s k = continue-IsStill (m v).0 f (m v).1 s k

-- The event of the request is in the table.
abbrev pub Has : ℕ → Text → World → Type 0
Has conn provider w = find (has_provider_id conn provider) w.tables.events ≢ none

none-is_none : {A : Type 0} (o : Option A) → is_none o ≡ true → o ≡ none
none-is_none none h = refl
none-is_none (some a) h = absurd (ground arith)

row-IsStill :
    (e : Event) (sealed : Fields) (w u : World)
    → Has e.connection_id e.provider_event_id w
    → IsLike w u
    → IsStill (λ o. o ≡ none) w (insert_event_row e sealed u)
unfolding insert_event_row
row-IsStill e sealed w u h l =
    if-IsStill w (is_none (find (has_connection_id e.connection_id) u.tables.connections)) _ _
      (λ _. error-IsStill w db_error u l)
      (λ _.
        if-IsStill w
          (is_none (find (has_provider_id e.connection_id e.provider_event_id) u.tables.events)) _ _
          (λ missing. absurd (
            h (
              ap (λ t. find (has_provider_id e.connection_id e.provider_event_id) t.events)
                (sym l.tables)
              ∙ none-is_none _ missing)))
          (λ _. pure-IsStill w none u l refl))

-- The result of an insert that found the event there.
abbrev IsOld : InsertEventResult → Type 0
IsOld r = r.inserted ≡ false

lift-IsStill :
    {A : Type 0} (w : World) (r : Res A) (u : World) → IsLike w u → IsStill (λ a. Unit) w (r, u)
lift-IsStill w r u l = record { tables = l.tables; starts = l.starts; value = λ a q. tt }

existing-IsStill :
    (env : StoreEnv) (conn : ℕ) (provider : Text) (w u : World)
    → IsLike w u
    → IsStill (λ o. Unit) w (get_event_by_provider_id env conn provider u)
unfolding get_event_by_provider_id
existing-IsStill env conn provider w u l =
    bind-IsStill {Q = λ o. Unit} w _ _ u (statement-IsStill w _ u l (λ v k. lift-IsStill w _ v k))
      (λ row v k _. lift-IsStill w (scan_event env row) v k)

outcome-IsStill :
    (env : StoreEnv) (e : Event) (w : World) (o : Option Event) (u : World)
    → IsLike w u
    → o ≡ none
    → IsStill IsOld w (insert_outcome env e o u)
unfolding insert_outcome
outcome-IsStill env e w none u l q =
    bind-IsStill {Q = λ o. Unit} w
      (get_event_by_provider_id env e.connection_id e.provider_event_id) _ u
      (existing-IsStill env e.connection_id e.provider_event_id w u l)
      (λ existing v k _. pure-IsStill w _ v k refl)
outcome-IsStill env e w (some x) u l q = absurd (ground arith)

insert_event-IsStill :
    (env : StoreEnv) (n : Nonces) (e : Event) (w : World)
    → Has e.connection_id e.provider_event_id w
    → IsStill IsOld w (insert_event env n e w)
unfolding insert_event
insert_event-IsStill env n e w h =
    bind-IsStill {Q = λ f. Unit} w
      (lift (seal_event_fields env.payload_enc n e.raw_headers e.raw_payload)) _ w
      (lift-IsStill w _ w (record { tables = refl; starts = refl }))
      (λ sealed u l _.
        bind-IsStill {Q = λ o. o ≡ none} w (statement (insert_event_row e sealed))
          (insert_outcome env e) u (statement-IsStill w _ u l (λ v k. row-IsStill e sealed w v h k))
          (outcome-IsStill env e w))

attempt-IsStill :
    (w : World) (p : Res InsertEventResult × World)
    → IsStill IsOld w p
    → IsStill (λ r. (x : InsertEventResult) → r ≡ ok x → x.inserted ≡ false) w (ok p.0, p.1)
attempt-IsStill w p s = record {
  tables = s.tables;
  starts = s.starts;
  value = λ r e x z. s.value x (let same : p.0 ≡ r = ground (arith, e) in same ∙ z);
}

after_insert-IsStill :
    (env : ServerEnv) (cache : Cache) (r : Res InsertEventResult) (w u : World)
    → IsLike w u
    → ((x : InsertEventResult) → r ≡ ok x → x.inserted ≡ false)
    → IsStill (λ reply. Unit) w (after_insert env cache r u)
unfolding after_insert deliver_if_new
after_insert-IsStill env cache (err e) w u l q = lift-IsStill w _ u l
after_insert-IsStill env cache (ok x) w u l q =
    bind-IsStill {Q = λ o. Unit} w (deliver_if_new env x.inserted x.event) _ u
      (rw (q x refl) (lift-IsStill w (ok tt) u l)) (λ _ v k _. lift-IsStill w _ v k)

-- A verified request whose event is in the table already, under the connection and the provider's
-- identifier: however the calls end, accepting it changes no table and starts no workflow.
pub accept-again :
    (env : ServerEnv) (cache : Cache) (conn : Connection) (a : Adapter) (req : Request) (w : World)
    → find
        (has_provider_id conn.id (extract_event_id env.digests a req.headers req.body))
        w.tables.events
      ≢ none
    → ((accept env cache conn a req w).1.tables ≡ w.tables)
      × ((accept env cache conn a req w).1.starts ≡ w.starts)
unfolding accept attempt
accept-again env cache conn a req w h =
    let m = insert_event env.store req.nonces (new_event env conn a req) in
    let s = insert_event-IsStill env.store req.nonces (new_event env conn a req) w h in
    let t =
      bind-IsStill {Q = λ r. (x : InsertEventResult) → r ≡ ok x → x.inserted ≡ false}
        {R = λ reply. Unit} w (attempt m) (after_insert env cache) w (attempt-IsStill w (m w) s)
        (λ r u l q. after_insert-IsStill env cache r w u l q) in
    (t.tables, t.starts)
