-- ===== src/Tests/Rounds.antt =====
-- Slots of two workers, a round of the collection, and a backfill.
use koto7_tuma.Prelude.{
  Bool, ◌<◌, ◌+◌, ◌*◌, find, true, ◌≡◌, refl, sym, ◌∙◌, false, ◌≤◌, ◌-◌, ◌⊎◌, ℕ, some, List, [],
  ◌∷◌, ◌++◌, map, ltb, length, count_where, arith,
}
use mathlib.Core.List.{Memᴰ}
use koto7_tuma.Storage.Rows.{Event, PlaygroundSession}
use koto7_tuma.Storage.Connections.{has_connection_id}
use koto7_tuma.Storage.Events.{Nonces}
use koto7_tuma.Storage.EventCrypto.{IsSound}
use koto7_tuma.Storage.Db.{World}
use koto7_tuma.Storage.Retention.{backfill_payload_encryption, purge_expired_events}
use koto7_tuma.Storage.Retention.Purge.{purge_expired_events-keeps}
use koto7_tuma.Alerting.Lock
use koto7_tuma.Alerting.Lock.{Phase, is_evaluating, is_orphaned, try_lock, unlock, Evaluators}
use koto7_tuma.Alerting.Lock.One.{Reach-one_evaluates}
use koto7_tuma.Storage.Retention.Backfill.{
  reading, sealing_env, NoncesFit, IdsUnique, backfill-reads_same,
}
use koto7_tuma.Workflow.Slots.{
  Pools, no_tokens, acquire_slot, release_slot, set_pool, idle, waiting, holding, holds, Worker,
  Running, Move, Reach,
}
use koto7_tuma.Workflow.Slots.Bounded.{CanEnter, deliveries_of, Reach-bounded, Reach-enters}
use koto7_tuma.Api.Playground.Garbage.{collect, collect-bounds}
use koto7_tuma.Tests.Data.{plain_cipher, pg, order, shop, world}

abbrev resting : Running
resting = record { workers = idle ∷ idle ∷ []; pools = no_tokens }

abbrev asking : Running
asking = record { workers = waiting 1 ∷ idle ∷ []; pools = no_tokens }

abbrev one_taken : Pools
one_taken = set_pool 1 1 no_tokens

abbrev delivering : Running
delivering = record { workers = holding 1 ∷ idle ∷ []; pools = one_taken }

none_holds : (conn : ℕ) → count_where (holds conn) resting.workers ≡ 0
unfolding count_where holds
none_holds conn = refl

taken : acquire_slot 1 1 no_tokens ≡ some one_taken
unfolding acquire_slot
taken = refl

reached : Reach 1 delivering
reached =
    Reach.move asking delivering
      (Reach.move resting asking (Reach.start resting.workers none_holds)
        (Move.ask [] (idle ∷ []) 1 no_tokens))
      (Move.enter [] (idle ∷ []) 1 no_tokens one_taken taken)

Reach-bounded_example : deliveries_of 1 (delivering ∷ delivering ∷ []) ≤ 2 * 1
Reach-bounded_example = Reach-bounded 1 (delivering ∷ delivering ∷ []) 1 (reached, (reached, tt))

Reach-enters_example :
    CanEnter 1 1 one_taken
    ⊎ ((before : List Worker) × (after : List Worker) × (holding 1 ∷ idle ∷ []
          ≡ before ++ holding 1 ∷ after)
        × CanEnter 1 1 (release_slot 1 one_taken))
Reach-enters_example = Reach-enters 1 delivering 1 (omega arith) reached

abbrev session : ℕ → ℕ → PlaygroundSession
session id seen = record {
  id = id;
  connection_id = id;
  fail_destination = false;
  created_at = 0;
  last_seen_at = seen;
}

-- One session is idle, and of the other two one is too many.
abbrev busy : World
busy = record world {
  tables = record world.tables {
    playground_sessions = session 1 100 ∷ session 2 900 ∷ session 3 800 ∷ [];
  };
}

collect-bounds_example :
    (length (collect 500 1 busy).1.tables.playground_sessions ≤ 1)
    × (count_where
          (λ ps. ltb ps.last_seen_at (1000 - 500))
          (collect 500 1 busy).1.tables.playground_sessions
        ≡ 0)
collect-bounds_example = collect-bounds 500 1 busy refl

abbrev nonces : ℕ → Nonces
nonces id = record { for_headers = some (1 ∷ id ∷ []); for_payload = some (2 ∷ id ∷ []) }

sound : IsSound plain_cipher
sound = record { opens = λ random text h. refl }

sizes : NoncesFit plain_cipher pg nonces
sizes id = (
  record { at = λ n e. let same : 1 ∷ id ∷ [] ≡ n = ground (arith, e) in rw (← same) refl },
  record { at = λ n e. let same : 2 ∷ id ∷ [] ≡ n = ground (arith, e) in rw (← same) refl },
)

only : (x : Event) → Memᴰ x (order ∷ []) → x ≡ order
only x (Memᴰ.head e) = e
only x (Memᴰ.tail m) = elim m [ ]

ids : IdsUnique plain_cipher world.tables.events
ids x y mx my same = only x mx ∙ sym (only y my)

backfill-reads_same_example :
    map
      (reading plain_cipher)
      (backfill_payload_encryption
        (sealing_env plain_cipher pg nonces)
        nonces
        world).1.tables.events
    ≡ map (reading plain_cipher) (order ∷ [])
backfill-reads_same_example = backfill-reads_same plain_cipher pg nonces world sound sizes ids

abbrev late : World
late = record world { now = 100 * (24 * 3600 * 1000000000) }

shop_found : find (has_connection_id order.connection_id) late.tables.connections ≡ some shop
unfolding find has_connection_id
shop_found = refl

purge_expired_events-keeps_example :
    ((late.now ≤ order.received_at + 30 * (24 * 3600 * 1000000000))
      × Memᴰ order (purge_expired_events late).1.tables.events)
    ⊎ ((order.received_at + 30 * (24 * 3600 * 1000000000) < late.now)
        × ¬ Memᴰ order (purge_expired_events late).1.tables.events)
purge_expired_events-keeps_example =
    purge_expired_events-keeps late order shop 30 refl (Memᴰ.head refl) shop_found refl

-- One worker loses its session while it evaluates, and another takes the lock.
abbrev at_phases : List Phase → Bool → Evaluators
at_phases phases locked = record { phases = phases; locked = locked }

lock_free : try_lock false ≡ some true
unfolding try_lock
lock_free = refl

one_reached : Lock.Reach (at_phases (Phase.evaluating ∷ []) true)
one_reached =
    Lock.Reach.move (at_phases (Phase.asking ∷ []) false) _
      (Lock.Reach.move (at_phases [] false) _ Lock.Reach.start (Lock.Move.join [] false))
      (Lock.Move.begin [] [] false true lock_free)

lost_reached : Lock.Reach (at_phases (Phase.orphaned ∷ []) false)
unfolding unlock
lost_reached = Lock.Reach.move _ _ one_reached (Lock.Move.lose [] [] true)

two_reached : Lock.Reach (at_phases (Phase.evaluating ∷ Phase.orphaned ∷ []) true)
two_reached =
    Lock.Reach.move (at_phases (Phase.asking ∷ Phase.orphaned ∷ []) false) _
      (Lock.Reach.move _ _ lost_reached (Lock.Move.join (Phase.orphaned ∷ []) false))
      (Lock.Move.begin [] (Phase.orphaned ∷ []) false true lock_free)

Reach-one_evaluates_example :
    count_where is_evaluating (Phase.evaluating ∷ Phase.orphaned ∷ [])
    ≤ 1 + count_where is_orphaned (Phase.evaluating ∷ Phase.orphaned ∷ [])
Reach-one_evaluates_example =
    Reach-one_evaluates (at_phases (Phase.evaluating ∷ Phase.orphaned ∷ []) true) two_reached
