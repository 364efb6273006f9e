-- ===== src/Api/Streams.antt =====
-- The stream limiter of internal/api/ratelimit.go. The map of active streams is a function, 0 where a
-- key is missing. Both operations hold the mutex, so the handlers are a sequence of operations.
use koto7_tuma.Prelude.{
  ℕ, ◌+◌, ◌-◌, ◌≤◌, ◌≡◌, refl, Text, text_eq, eq_of_text_eq, Bool-cases, inl, inr, Bool, true,
  false, ◌||◌, List, [], ◌∷◌, leb, arith, if◌then◌else◌, count_where, ap, ◌∙◌,
}

abbrev pub Active : Type 0
Active = Text → ℕ

unfoldable pub set_active : Text → ℕ → Active → Active
set_active ip n active key = if text_eq key ip then n else active key

-- The result is whether the stream may be opened.
unfoldable pub acquire : Text → ℕ → Active → Bool × Active
acquire ip limit active =
    if leb limit (active ip) then (false, active) else (true, set_active ip (active ip + 1) active)

-- A count that comes to 0 or below is deleted, which is 0 again.
unfoldable pub release : Text → Active → Active
unfolding set_active
release ip active = set_active ip (active ip - 1) active

-- The streams that are open, by the address of each, and the counts.
pub record Streams : Type 0 where
  pub held : List Text
  pub active : Active

abbrev pub no_streams : Streams
no_streams = record { held = []; active = λ key. 0 }

unfoldable pub holds : Text → List Text → Bool
holds ip [] = false
holds ip (s ∷ held) = text_eq ip s || holds ip held

-- One stream of the address ends.
unfoldable pub end_one : Text → List Text → List Text
end_one ip [] = []
end_one ip (s ∷ held) = if text_eq ip s then held else s ∷ end_one ip held

abbrev pub opened : Text → Streams → Bool × Active → Streams
opened ip s (true, active) = record { held = ip ∷ s.held; active = active }
opened ip s (false, active) = record s { active = active }

-- A stream is refused, or stays open until its handler returns and releases it.
unfoldable pub open_one : ℕ → Text → Streams → Streams
open_one limit ip s = opened ip s (acquire ip limit s.active)

unfoldable pub close_one : Text → Streams → Streams
close_one ip s =
    if holds ip s.held then record { held = end_one ip s.held; active = release ip s.active } else s

pub data StreamOp : Type 0 where
  open_stream close_stream : Text → StreamOp

-- What a sequence of requests and ends of streams leaves.
unfoldable pub run : ℕ → List StreamOp → Streams → Streams
unfolding open_one close_one
run limit [] s = s
run limit (open_stream ip ∷ ops) s = run limit ops (open_one limit ip s)
run limit (close_stream ip ∷ ops) s = run limit ops (close_one ip s)

abbrev pub held_by : Text → List Text → ℕ
held_by key held = count_where (text_eq key) held

-- The counts are those of the open streams, within the limit.
record IsCounted (limit : ℕ) (s : Streams) : Type 0 where
  counts : (key : Text) → s.active key ≡ held_by key s.held
  bounded : (key : Text) → s.active key ≤ limit

at_key :
    (key ip : Text) (active : Active) (n m k : ℕ)
    → active key ≡ m
    → n ≡ active ip + k
    → (if text_eq key ip then n else active key) ≡ (if text_eq key ip then m + k else m)
at_key key ip active n m k e f = elim (Bool-cases (text_eq key ip)) [
  | inl same ↦ rw same (
      let here : active key ≡ active ip = ap active (eq_of_text_eq key ip same) in
      omega (arith, e, f, here))
  | inr other ↦ rw other e
]

open_one-IsCounted :
    (limit : ℕ) (ip : Text) (s : Streams)
    → IsCounted limit s
    → IsCounted limit (open_one limit ip s)
unfolding open_one acquire set_active count_where
open_one-IsCounted limit ip s i = elim (Bool-cases (leb limit (s.active ip))) [
  | inl full ↦ rw full (record { counts = i.counts; bounded = i.bounded })
  | inr room ↦ rw room (record {
    counts = λ key.
        at_key key ip s.active (s.active ip + 1) (held_by key s.held) 1 (i.counts key) refl
        ∙ (ground arith);
    bounded = λ key. ground (arith, room, i.bounded key);
  })
]

-- An open stream that ends is one less of its address.
end_one-count :
    (key ip : Text) (held : List Text)
    → holds ip held ≡ true
    → held_by key (end_one ip held) + (if text_eq key ip then 1 else 0) ≡ held_by key held
unfolding end_one holds count_where
end_one-count key ip [] h = absurd (ground (arith, h))
end_one-count key ip (s ∷ held) h = elim (Bool-cases (text_eq ip s)) [
  | inl same ↦ rw same (
      let e : text_eq key ip ≡ text_eq key s = ap (λ t. text_eq key t) (eq_of_text_eq ip s same) in
      ground (arith, e))
  | inr other ↦
      let rest = end_one-count key ip held (ground (arith, h, other)) in
      rw other (ground (arith, rest))
]

less :
    (key ip : Text) (active : Active) (n m : ℕ)
    → active key ≡ n
    → m + (if text_eq key ip then 1 else 0) ≡ n
    → (if text_eq key ip then active ip - 1 else active key) ≡ m
less key ip active n m e f = elim (Bool-cases (text_eq key ip)) [
  | inl same ↦ rw same (
      let here : active key ≡ active ip = ap active (eq_of_text_eq key ip same) in
      let one : m + 1 ≡ n = rw same at f in omega (arith, e, one, here))
  | inr other ↦ let none_less : m + 0 ≡ n = rw other at f in rw other (omega (arith, e, none_less))
]

close_one-IsCounted :
    (limit : ℕ) (ip : Text) (s : Streams) → IsCounted limit s → IsCounted limit (close_one ip s)
unfolding close_one release set_active
close_one-IsCounted limit ip s i = elim (Bool-cases (holds ip s.held)) [
  | inl there ↦ rw there (record {
    counts = λ key.
        less key ip s.active (held_by key s.held) (held_by key (end_one ip s.held)) (i.counts key)
          (end_one-count key ip s.held there);
    bounded = λ key. ground (arith, i.bounded key, i.bounded ip);
  })
  | inr gone ↦ rw gone i
]

run-IsCounted :
    (limit : ℕ) (ops : List StreamOp) (s : Streams)
    → IsCounted limit s
    → IsCounted limit (run limit ops s)
unfolding run
run-IsCounted limit [] s i = i
run-IsCounted limit (open_stream ip ∷ ops) s i =
    run-IsCounted limit ops (open_one limit ip s) (open_one-IsCounted limit ip s i)
run-IsCounted limit (close_stream ip ∷ ops) s i =
    run-IsCounted limit ops (close_one ip s) (close_one-IsCounted limit ip s i)

-- However streams are asked for and end, the open streams of an address are at most as many as the
-- limit, if there was none at first.
pub run-bounded :
    (limit : ℕ) (ops : List StreamOp) (key : Text)
    → held_by key (run limit ops no_streams).held ≤ limit
unfolding count_where
run-bounded limit ops key =
    let c =
      run-IsCounted limit ops no_streams
        (record { counts = λ k. refl; bounded = λ k. omega arith }) in
    omega (arith, c.counts key, c.bounded key)
