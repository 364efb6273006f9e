-- ===== src/Alerting/Lock/One.antt =====
-- How many workers evaluate the alert rules under the lock of internal/storage/store.go.
use koto7_tuma.Prelude.{
  ℕ, ◌+◌, ◌≤◌, ◌≡◌, refl, ap, some, Bool, true, false, List, [], ◌∷◌, ◌++◌, count_where,
  count-append, arith,
}
use koto7_tuma.Alerting.Lock.{
  Phase, asking, evaluating, orphaned, stopped, is_owner, is_orphaned, is_evaluating, try_lock,
  unlock, Evaluators, Move, Reach,
}

abbrev held : Bool → ℕ
held true = 1
held false = 0

-- An evaluator whose session lives owns the lock.
record IsHeld (e : Evaluators) : Type 0 where
  owners : count_where is_owner e.phases ≤ held e.locked

replaced :
    (before after : List Phase) (x y : Phase)
    → count_where is_owner (before ++ x ∷ after) + count_where is_owner (y ∷ [])
      ≡ count_where is_owner (before ++ y ∷ after) + count_where is_owner (x ∷ [])
unfolding count_where
replaced before after x y =
    let ex = count-append is_owner before (x ∷ after) in
    let ey = count-append is_owner before (y ∷ after) in ground (arith, ex, ey)

held_le : (locked : Bool) → held locked ≤ 1
held_le true = omega arith
held_le false = omega arith

-- The lock is given to nobody while it is held.
free :
    (locked locked' : Bool) → try_lock locked ≡ some locked' → (locked ≡ false) × (locked' ≡ true)
unfolding try_lock
free true locked' taken = absurd (ground (arith, taken))
free false locked' taken = (refl, ground (arith, taken))

taken-held :
    (locked locked' : Bool)
    → try_lock locked ≡ some locked'
    → (held locked ≡ 0) × (held locked' ≡ 1)
taken-held locked locked' taken =
    let (was, is) = free locked locked' taken in (ap held was, ap held is)

IsHeld-Move : (e e' : Evaluators) → Move e e' → IsHeld e → IsHeld e'
unfolding count_where unlock
IsHeld-Move e e' (Move.begin before after locked locked' taken) i =
    let (was, is) = taken-held locked locked' taken in
    record { owners = omega (arith, i.owners, was, is, replaced before after asking evaluating) }
IsHeld-Move e e' (Move.cancel before after locked) i = record {
  owners = omega (arith, i.owners, replaced before after asking stopped);
}
IsHeld-Move e e' (Move.finish before after locked) i = record {
  owners = omega (arith, i.owners, held_le locked, replaced before after evaluating stopped);
}
IsHeld-Move e e' (Move.lose before after locked) i = record {
  owners = omega (arith, i.owners, held_le locked, replaced before after evaluating orphaned);
}
IsHeld-Move e e' (Move.finish_orphaned before after locked) i = record {
  owners = omega (arith, i.owners, replaced before after orphaned stopped);
}
IsHeld-Move e e' (Move.take_unseen before after locked locked' taken) i =
    let (was, is) = taken-held locked locked' taken in
    record { owners = omega (arith, i.owners, was, is) }
IsHeld-Move e e' (Move.lapse phases locked none_owns) i = record {
  owners = omega (arith, none_owns);
}
IsHeld-Move e e' (Move.join phases locked) i = record { owners = i.owners }

Reach-IsHeld : (e : Evaluators) → Reach e → IsHeld e
unfolding count_where
Reach-IsHeld e Reach.start = record { owners = omega arith }
Reach-IsHeld e (Reach.move before now reached m) =
    IsHeld-Move before now m (Reach-IsHeld before reached)

either :
    (phases : List Phase)
    → count_where is_evaluating phases
      ≡ count_where is_owner phases + count_where is_orphaned phases
unfolding count_where
either [] = refl
either (Phase.asking ∷ ps) = either ps
either (Phase.stopped ∷ ps) = either ps
either (Phase.evaluating ∷ ps) = omega (arith, either ps)
either (Phase.orphaned ∷ ps) = omega (arith, either ps)

-- However workers start, take the lock, stop and give it back, and sessions of the database end, at
-- most one worker evaluates the alert rules besides those whose session has ended while they do.
pub Reach-one_evaluates :
    (e : Evaluators)
    → Reach e
    → count_where is_evaluating e.phases ≤ 1 + count_where is_orphaned e.phases
Reach-one_evaluates e reached =
    omega (arith, (Reach-IsHeld e reached).owners, held_le e.locked, either e.phases)
