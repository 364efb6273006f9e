-- ===== src/Workflow/Slots/Bounded.antt =====
-- Deliveries under the slots of internal/workflow/delivery.go: how many run, and that none is stuck.
use koto7_tuma.Prelude.{
  ℕ, ◌+◌, ◌*◌, length, ◌-◌, ◌≤◌, ◌<◌, ◌≡◌, refl, sym, ap, ◌⊎◌, inl, inr, true, Option, none, some,
  List, [], ◌∷◌, ◌++◌, ltb, ◌==◌, count_where, count-append, Bool-cases, arith,
}
use koto7_tuma.Workflow.Slots.{
  Pools, no_tokens, set_pool, acquire_slot, release_slot, Worker, idle, waiting, holding, holds,
  Running, Move, Reach,
}

-- The tokens of a connection are its holders, within the limit.
record IsCounted (limit : ℕ) (r : Running) : Type 0 where
  tokens : (conn : ℕ) → r.pools conn ≡ count_where (holds conn) r.workers
  bounded : (conn : ℕ) → r.pools conn ≤ limit

entered :
    (limit conn : ℕ) (pools pools' : Pools)
    → acquire_slot limit conn pools ≡ some pools'
    → (k : ℕ) → (pools conn < limit) × (pools' k ≡ set_pool conn (pools conn + 1) pools k)
unfolding acquire_slot
entered limit conn pools pools' e k = elim (Bool-cases (ltb (pools conn) limit)) [
  | inl room ↦
      let taken : some (set_pool conn (pools conn + 1) pools) ≡ some pools' = rw room at e in
      (ground (arith, room), ap (λ (o : Option Pools). pool_of o k) (sym taken))
  | inr full ↦
      let none_taken : none ≡ some pools' = rw full at e in absurd (ground (arith, none_taken))
]
  where
    pool_of : Option Pools → Pools
    pool_of none = no_tokens
    pool_of (some p) = p

-- Counts where one worker is replaced by another.
replaced :
    (k : ℕ) (before after : List Worker) (x y : Worker) (n m : ℕ)
    → n ≡ count_where (holds k) (before ++ x ∷ after)
    → count_where (holds k) (x ∷ []) + m ≡ n + count_where (holds k) (y ∷ [])
    → m ≡ count_where (holds k) (before ++ y ∷ after)
unfolding count_where
replaced k before after x y n m e d =
    let ex = count-append (holds k) before (x ∷ after) in
    let ey = count-append (holds k) before (y ∷ after) in ground (arith, e, d, ex, ey)

held :
    (conn : ℕ) (before after : List Worker)
    → 0 < count_where (holds conn) (before ++ holding conn ∷ after)
unfolding count_where holds
held conn before after = ground (arith, count-append (holds conn) before (holding conn ∷ after))

IsCounted-Move :
    (limit : ℕ) (r r' : Running) → Move limit r r' → IsCounted limit r → IsCounted limit r'
unfolding release_slot set_pool holds count_where
IsCounted-Move limit r r' (Move.ask before after conn pools) i = record {
  tokens = λ k.
      replaced k before after idle (waiting conn) (pools k) (pools k) (i.tokens k) (omega arith);
  bounded = i.bounded;
}
IsCounted-Move limit r r' (Move.enter before after conn pools pools' e) i = record {
  tokens = λ k.
      replaced k before after (waiting conn) (holding conn) (pools k) (pools' k) (i.tokens k)
        (ground (arith, entered limit conn pools pools' e k));
  bounded = λ k. ground (arith, entered limit conn pools pools' e k, i.bounded k);
}
IsCounted-Move limit r r' (Move.leave before after conn pools) i = record {
  tokens = λ k.
      replaced k before after (holding conn) idle (pools k) (release_slot conn pools k) (i.tokens k)
        (ground (arith, i.tokens conn, held conn before after));
  bounded = λ k. ground (arith, i.bounded k, i.bounded conn);
}

Reach-IsCounted : (limit : ℕ) (r : Running) → Reach limit r → IsCounted limit r
Reach-IsCounted limit r (Reach.start workers none_holds) = record {
  tokens = λ k. sym (none_holds k);
  bounded = λ k. omega arith;
}
Reach-IsCounted limit r (Reach.move before now reached m) =
    IsCounted-Move limit before now m (Reach-IsCounted limit before reached)

process-bounded :
    (limit : ℕ) (r : Running) (conn : ℕ)
    → Reach limit r
    → count_where (holds conn) r.workers ≤ limit
process-bounded limit r conn reached =
    let c = Reach-IsCounted limit r reached in omega (arith, c.tokens conn, c.bounded conn)

-- The processes of the program, each with semaphores of its own.
abbrev pub AllReach : ℕ → List Running → Type 0
AllReach limit [] = Unit
AllReach limit (r ∷ rs) = Reach limit r × AllReach limit rs

-- The deliveries of a connection that run at the same time in some process.
unfoldable pub deliveries_of : ℕ → List Running → ℕ
deliveries_of conn [] = 0
deliveries_of conn (r ∷ rs) = count_where (holds conn) r.workers + deliveries_of conn rs

-- Whatever the workers of some processes do, the deliveries of a connection that run at the same time
-- are at most as many as the limit for each process, since the semaphores are those of a process.
pub Reach-bounded :
    (limit : ℕ) (processes : List Running) (conn : ℕ)
    → AllReach limit processes
    → deliveries_of conn processes ≤ length processes * limit
unfolding deliveries_of
Reach-bounded limit [] conn reached = omega arith
Reach-bounded limit (r ∷ rs) conn reached =
    let here = process-bounded limit r conn reached.0 in
    let rest = Reach-bounded limit rs conn reached.1 in grind (arith, here, rest)

find_holder :
    (conn : ℕ) (workers : List Worker)
    → 0 < count_where (holds conn) workers
    → (before : List Worker) × (after : List Worker) × (workers ≡ before ++ holding conn ∷ after)
unfolding count_where holds
find_holder conn [] h = absurd (omega (arith, h))
find_holder conn (idle ∷ ws) h =
    let (b, a, e) = find_holder conn ws h in (idle ∷ b, a, ap (λ t. idle ∷ t) e)
find_holder conn (waiting c ∷ ws) h =
    let (b, a, e) = find_holder conn ws h in (waiting c ∷ b, a, ap (λ t. waiting c ∷ t) e)
find_holder conn (holding c ∷ ws) h = elim (Bool-cases (c == conn)) [
  | inl same ↦ let e : c ≡ conn = ground (arith, same) in ([], ws, ap (λ k. holding k ∷ ws) e)
  | inr other ↦
      let (b, a, e) = find_holder conn ws (ground (arith, h, other)) in
      (holding c ∷ b, a, ap (λ t. holding c ∷ t) e)
]

-- A slot of the connection is free in `pools`: a worker that waits for it enters.
abbrev pub CanEnter : ℕ → ℕ → Pools → Type 0
CanEnter limit conn pools = (pools' : Pools) × (acquire_slot limit conn pools ≡ some pools')

room_enters : (limit conn : ℕ) (pools : Pools) → pools conn < limit → CanEnter limit conn pools
unfolding acquire_slot
room_enters limit conn pools room =
    let e : ltb (pools conn) limit ≡ true = ground (arith, room) in
    (set_pool conn (pools conn + 1) pools, rw e refl)

released : (conn : ℕ) (pools : Pools) → release_slot conn pools conn ≡ pools conn - 1
unfolding release_slot set_pool
released conn pools = ground arith

-- Where the limit is not 0, no worker is stuck: in every state that the moves lead to, one that
-- asks for a slot of a connection can enter, or another worker holds a slot of the connection and
-- one can enter once it has left.
pub Reach-enters :
    (limit : ℕ) (r : Running) (conn : ℕ)
    → 0 < limit
    → Reach limit r
    → CanEnter limit conn r.pools
      ⊎ ((before : List Worker) × (after : List Worker) × (r.workers
            ≡ before ++ holding conn ∷ after)
          × CanEnter limit conn (release_slot conn r.pools))
Reach-enters limit r conn positive reached =
    let c = Reach-IsCounted limit r reached in
    elim (Bool-cases (ltb (r.pools conn) limit)) [
      | inl room ↦ inl (room_enters limit conn r.pools (ground (arith, room)))
      | inr full ↦
          let (b, a, e) =
            find_holder conn r.workers (ground (arith, full, c.tokens conn, positive)) in
          inr (
            b,
            a,
            e,
            room_enters limit conn (release_slot conn r.pools)
                (omega (arith, released conn r.pools, c.bounded conn, positive)),
          )
    ]
