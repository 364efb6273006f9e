-- ===== src/Storage/Retention/Backfill.antt =====
-- BackfillPayloadEncryption of internal/storage/event_crypto.go, and what the store reads of the
-- events after it.
use mathlib.Core.Path.{subst}
use koto7_tuma.Prelude.{
  ℕ, ◌+◌, ◌≡◌, refl, sym, ap, ◌∙◌, Text, true, false, not, some, List, [], ◌∷◌, map, ◌==◌, keep_if,
  update_where, Bool-cases, inl, inr, arith,
}
use mathlib.Core.List.{Memᴰ}
use koto7_tuma.Crypto.{Gcm, encrypt_bytes}
use koto7_tuma.Storage.Env.{Pg, StoreEnv}
use koto7_tuma.Storage.Rows.{Event}
use koto7_tuma.Storage.Events.{
  Nonces, Fields, seal_event_fields, both, open_event_fields, has_event_id, lift,
}
use koto7_tuma.Storage.EventCrypto.{IsSound, ok-inj, HasSize, decrypted}
use koto7_tuma.Storage.Retention.{
  set_sealed, write_sealed, seal_rows, backfill_with, backfill_payload_encryption,
}
use koto7_tuma.Storage.Db.{
  World, Outcome, fine, refused, reply_lost, Db, Res, ok, err, continue, ◌>>=◌, statement,
  run_statement, Invariant, Keeps, Keeps-pure, Keeps-bind, Keeps-statement,
}

-- What the store reads of an event: its row but for the three columns that encryption changes, and
-- the fields that it opens from them.
abbrev pub Reading : Type 0
Reading = Event × Res Fields

abbrev pub bare : Event → Event
bare e = record e { raw_headers = []; raw_payload = []; payload_encrypted = false }

abbrev pub plain_fields : Event → Fields
plain_fields e = record { headers = e.raw_headers; payload = e.raw_payload }

both_ok : (a b : Res Text) (f : Fields) → both a b ≡ ok f → (a ≡ ok f.headers) × (b ≡ ok f.payload)
unfolding both
both_ok (err e) b f h = absurd (ground arith)
both_ok (ok x) (err e) f h = absurd (ground arith)
both_ok (ok x) (ok y) f h =
    let e : (record { headers = x; payload = y }) ≡ f = ok-inj h in
    (ap (λ (q : Fields). ok q.headers) e, ap (λ (q : Fields). ok q.payload) e)

-- An action on a result that is known.
lift-Keeps :
    {A B : Type 0} {P : Invariant} (r : Res A) (next : A → Db B)
    → ((a : A) → r ≡ ok a → Keeps P (next a))
    → Keeps P (lift r >>= next)
unfolding ◌>>=◌
lift-Keeps (err e) next k = record { at = λ w h. h }
lift-Keeps (ok a) next k = record { at = (k a refl).at }

module _ (g : Gcm) where
  abbrev pub reading : Event → Reading
  reading e = (bare e, open_event_fields (some g) e.raw_headers e.raw_payload e.payload_encrypted)

  -- Rows with the identifier of `r` are read as `r` is in plain text.
  abbrev Matches : Event → List Reading → Type 0
  Matches r [] = Unit
  Matches r (p ∷ ps) = (p.0.id ≡ r.id → p.1 ≡ ok (plain_fields r)) × Matches r ps

  abbrev AllMatch : List Event → List Reading → Type 0
  AllMatch [] ps = Unit
  AllMatch (r ∷ rs) ps = Matches r ps × AllMatch rs ps

  -- A primary key: events with the same identifier are the same.
  abbrev pub IdsUnique : List Event → Type 0
  IdsUnique es = (x y : Event) → Memᴰ x es → Memᴰ y es → x.id ≡ y.id → x ≡ y

  plain_reading :
      (x r : Event) → r.payload_encrypted ≡ false → x ≡ r → (reading x).1 ≡ ok (plain_fields r)
  unfolding open_event_fields
  plain_reading x r plain e = rw (e, plain) refl

  matching :
      (r : Event) (all xs : List Event)
      → IdsUnique all
      → Memᴰ r all
      → r.payload_encrypted ≡ false
      → ((x : Event) → Memᴰ x xs → Memᴰ x all)
      → Matches r (map reading xs)
  matching r all [] unique mem plain sub = tt
  matching r all (x ∷ xs) unique mem plain sub = (
    λ same. plain_reading x r plain (unique x r (sub x (Memᴰ.head refl)) mem same),
    matching r all xs unique mem plain (λ y m. sub y (Memᴰ.tail m)),
  )

  all_matching :
      (all xs : List Event)
      → IdsUnique all
      → ((x : Event) → Memᴰ x xs → Memᴰ x all)
      → AllMatch (keep_if (λ e. not e.payload_encrypted) xs) (map reading all)
  unfolding keep_if
  all_matching all [] unique sub = tt
  all_matching all (x ∷ xs) unique sub =
      let rest = all_matching all xs unique (λ y m. sub y (Memᴰ.tail m)) in
      elim (Bool-cases x.payload_encrypted) [
        | inl sealed ↦ rw sealed rest
        | inr plain ↦
            rw plain (matching x all all unique (sub x (Memᴰ.head refl)) plain (λ y m. m), rest)
      ]

  -- Sealing the rows of one identifier changes no reading.
  sealed_same :
      (r : Event) (f : Fields) (es : List Event)
      → open_event_fields (some g) f.headers f.payload true ≡ ok (plain_fields r)
      → Matches r (map reading es)
      → map reading (update_where (has_event_id r.id) (set_sealed f) es) ≡ map reading es
  unfolding update_where has_event_id
  sealed_same r f [] opens m = refl
  sealed_same r f (x ∷ xs) opens m =
      let rest = sealed_same r f xs opens m.1 in
      elim (Bool-cases (x.id == r.id)) [
        | inl same ↦
            let id : x.id ≡ r.id = ground (arith, same) in
            let here : reading (set_sealed f x) ≡ reading x =
              ap (λ (o : Res Fields). (bare x, o)) (opens ∙ sym (m.0 id)) in
            rw same
              (ap (λ t. reading (set_sealed f x) ∷ t) rest ∙ ap (λ p. p ∷ map reading xs) here)
        | inr other ↦ rw other (ap (λ t. reading x ∷ t) rest)
      ]

  -- The readings of the events of the tables are `ps`.
  abbrev Reads : List Reading → Invariant
  Reads ps t n = map reading t.events ≡ ps

  write-Keeps :
      (ps : List Reading) (r : Event) (f : Fields)
      → open_event_fields (some g) f.headers f.payload true ≡ ok (plain_fields r)
      → Matches r ps
      → Keeps (Reads ps) (write_sealed r.id f)
  unfolding write_sealed
  write-Keeps ps r f opens m = Keeps-statement _ (record {
    at = λ w e. sealed_same r f w.tables.events opens (subst (Matches r) (sym e) m) ∙ e;
  })

  module _ (pg : Pg) (nonces : ℕ → Nonces) where
    abbrev pub sealing_env : StoreEnv
    sealing_env = record { pg = pg; payload_enc = some g }

    -- The nonces have the size that the cipher asks for.
    abbrev pub NoncesFit : Type 0
    NoncesFit = (id : ℕ) → HasSize g (nonces id).for_headers × HasSize g (nonces id).for_payload

    seal_opens :
        (r : Event) (f : Fields)
        → IsSound g
        → NoncesFit
        → seal_event_fields (some g) (nonces r.id) r.raw_headers r.raw_payload ≡ ok f
        → open_event_fields (some g) f.headers f.payload true ≡ ok (plain_fields r)
    unfolding seal_event_fields open_event_fields both
    seal_opens r f sound fit e =
        let (h, p) =
          both_ok (encrypt_bytes g (nonces r.id).for_headers r.raw_headers)
            (encrypt_bytes g (nonces r.id).for_payload r.raw_payload) f e in
        let (fh, fp) = fit r.id in
        rw
          (
            decrypted g _ r.raw_headers f.headers sound fh h,
            decrypted g _ r.raw_payload f.payload sound fp p,
          )
          refl

    rows-Keeps :
        (ps : List Reading) (rs : List Event) (count : ℕ)
        → IsSound g
        → NoncesFit
        → AllMatch rs ps
        → Keeps (Reads ps) (seal_rows sealing_env nonces count rs)
    unfolding seal_rows
    rows-Keeps ps [] count sound fit m = Keeps-pure count
    rows-Keeps ps (r ∷ rs) count sound fit m =
        lift-Keeps (seal_event_fields (some g) (nonces r.id) r.raw_headers r.raw_payload) _ (λ f e.
          Keeps-bind (write_sealed r.id f) _ (write-Keeps ps r f (seal_opens r f sound fit e) m.0)
            (λ n. rows-Keeps ps rs (count + n) sound fit m.1))

    abbrev plain_rows : Db (List Event)
    plain_rows w = (ok (keep_if (λ e. not e.payload_encrypted) w.tables.events), w)

    all_same :
        (w : World)
        → IsSound g
        → NoncesFit
        → IdsUnique w.tables.events
        → map reading
            (seal_rows sealing_env nonces 0
              (keep_if (λ e. not e.payload_encrypted) w.tables.events)
              w).1.tables.events
          ≡ map reading w.tables.events
    all_same w sound fit unique =
        (rows-Keeps (map reading w.tables.events) _ 0 sound fit
            (all_matching w.tables.events w.tables.events unique (λ x m. m))).at
          w refl

    by_outcomes :
        (o : List Outcome) (w : World)
        → IsSound g
        → NoncesFit
        → IdsUnique w.tables.events
        → let p = run_statement o plain_rows w in
          map reading (continue p.0 (seal_rows sealing_env nonces 0) p.1).1.tables.events
          ≡ map reading w.tables.events
    by_outcomes [] w sound fit unique = all_same w sound fit unique
    by_outcomes (fine ∷ rest) w sound fit unique =
        all_same (record w { outcomes = rest }) sound fit unique
    by_outcomes (refused ∷ rest) w sound fit unique = refl
    by_outcomes (reply_lost ∷ rest) w sound fit unique = refl

    -- However its statements end, the backfill of the encryption changes nothing that the store
    -- reads of the events: neither their opened headers and payloads nor any other column, the flag
    -- of the encryption aside. The
    -- identifiers are unique and the cipher is sound, with nonces of its size.
    pub backfill-reads_same :
        (w : World)
        → IsSound g
        → NoncesFit
        → IdsUnique w.tables.events
        → map reading (backfill_payload_encryption sealing_env nonces w).1.tables.events
          ≡ map reading w.tables.events
    unfolding backfill_payload_encryption backfill_with statement ◌>>=◌
    backfill-reads_same w sound fit unique = by_outcomes w.outcomes w sound fit unique
