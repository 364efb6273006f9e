-- ===== src/Workflow/Slots.antt =====
-- ConnectionSemaphores of internal/workflow/delivery.go: the slots that bound the deliveries of one
-- connection that run at the same time in one process, and what DeliverActivity does with them: it
-- acquires a slot once it has the connection, and its deferred release runs when it returns. A pool is
-- the number of tokens in its channel; `limit` is the channel's capacity.
pub mod Bounded
use koto7_tuma.Prelude.{
  ℕ, ◌+◌, ◌-◌, ◌≡◌, Bool, true, false, Option, none, some, List, [], ◌∷◌, ◌++◌, ltb, ◌==◌,
  count_where, if◌then◌else◌,
}

-- The channels by connection. A connection without one has no token.
abbrev pub Pools : Type 0
Pools = ℕ → ℕ

abbrev pub no_tokens : Pools
no_tokens conn = 0

unfoldable pub set_pool : ℕ → ℕ → Pools → Pools
set_pool conn n pools k = if k == conn then n else pools k

-- pool <- struct{}{}: `none` while the channel is full and the sender waits.
unfoldable pub acquire_slot : ℕ → ℕ → Pools → Option Pools
unfolding set_pool
acquire_slot limit conn pools =
    if ltb (pools conn) limit then some (set_pool conn (pools conn + 1) pools) else none

-- <-pool
unfoldable pub release_slot : ℕ → Pools → Pools
unfolding set_pool
release_slot conn pools = set_pool conn (pools conn - 1) pools

-- Where a run of DeliverActivity is: outside the slots, waiting in acquire for a slot of a connection,
-- or between acquire and its return, with a slot.
pub data Worker : Type 0 where
  idle : Worker
  waiting holding : ℕ → Worker

unfoldable pub holds : ℕ → Worker → Bool
holds conn idle = false
holds conn (waiting c) = false
holds conn (holding c) = c == conn

pub record Running : Type 0 where
  pub workers : List Worker
  pub pools : Pools

-- One step of one worker, which stands between the workers `before` and `after`.
pub data Move (limit : ℕ) : Running → Running → Type 0 where
  ask :
      (before after : List Worker) (conn : ℕ) (pools : Pools)
      → Move limit
          (record { workers = before ++ idle ∷ after; pools = pools })
          (record { workers = before ++ waiting conn ∷ after; pools = pools })
  enter :
      (before after : List Worker) (conn : ℕ) (pools pools' : Pools)
      → acquire_slot limit conn pools ≡ some pools'
      → Move limit
          (record { workers = before ++ waiting conn ∷ after; pools = pools })
          (record { workers = before ++ holding conn ∷ after; pools = pools' })
  leave :
      (before after : List Worker) (conn : ℕ) (pools : Pools)
      → Move limit
          (record { workers = before ++ holding conn ∷ after; pools = pools })
          (record { workers = before ++ idle ∷ after; pools = release_slot conn pools })

-- The states that moves lead to.
pub data Reach (limit : ℕ) : Running → Type 0 where
  start :
      (workers : List Worker)
      → ((conn : ℕ) → count_where (holds conn) workers ≡ 0)
      → Reach limit (record { workers = workers; pools = no_tokens })
  move : (r r' : Running) → Reach limit r → Move limit r r' → Reach limit r'
