-- ===== src/Api/Playground/Garbage.antt =====
-- playgroundGC of internal/api/playground.go: one tick of the collection of idle sessions.
use koto7_tuma.Prelude.{
  ℕ, ◌+◌, ◌-◌, ◌≤◌, ◌≡◌, refl, sym, ap, ◌∙◌, Bool, true, not, List, [], ◌∷◌, ltb, ◌==◌, ==_self,
  length, take, append_assoc, length-take, length-keep_count, count-keep_le, count-keep_not,
  length-sort, count-sort, count-take_le, ◌++◌, find, keep_if, count_where, sort_by, Bool-cases,
  inl, inr, arith, if◌then◌else◌,
}
use koto7_tuma.Storage.Rows.{PlaygroundSession}
use koto7_tuma.Storage.Playground.{
  is_among, oldest_sessions, count_playground_sessions, delete_playground_sessions_older_than,
  evict_oldest_playground_sessions,
}
use koto7_tuma.Storage.Db.{
  World, Db, Res, ok, err, pure, ◌>>=◌, attempt, statement, ignore_error, get_now,
}

abbrev pub evict_over : ℕ → Res ℕ → Db Unit
evict_over limit (err _) = pure tt
evict_over limit (ok count) =
    if ltb limit count
    then ignore_error (evict_oldest_playground_sessions (count - limit))
    else pure tt

abbrev pub after_delete : ℕ → Res ℕ → Db Unit
after_delete limit (err _) = pure tt
after_delete limit (ok n) = do count ← attempt count_playground_sessions; evict_over limit count

-- One tick, for the lifetime of a session and the largest number of sessions.
unfoldable pub collect : ℕ → ℕ → Db Unit
collect session_ttl max_sessions = do
  now ← get_now
  n ← attempt (delete_playground_sessions_older_than (now - session_ttl))
  after_delete max_sessions n

is_among_self :
    (ys xs : List PlaygroundSession) (x : PlaygroundSession) → is_among (ys ++ x ∷ xs) x ≡ true
unfolding is_among find
is_among_self [] xs x = rw (==_self x.id) refl
is_among_self (y ∷ ys) xs x = elim (Bool-cases (y.id == x.id)) [
  | inl same ↦ rw same refl
  | inr other ↦ rw other (is_among_self ys xs x)
]

count-among : (ys xs : List PlaygroundSession) → count_where (is_among (ys ++ xs)) xs ≡ length xs
unfolding count_where
count-among ys [] = refl
count-among ys (x ∷ xs) =
    let rest : count_where (is_among (ys ++ x ∷ xs)) xs ≡ length xs =
      ap (λ zs. count_where (is_among zs) xs) (sym (append_assoc ys (x ∷ []) xs))
      ∙ count-among (ys ++ x ∷ []) xs in
    rw (is_among_self ys xs x, rest) refl

-- Evicting the n oldest takes at least n sessions away.
evicted_enough :
    (n : ℕ) (xs : List PlaygroundSession)
    → n ≤ length xs
    → length (keep_if (λ ps. not (is_among (oldest_sessions n xs) ps)) xs) + n ≤ length xs
unfolding oldest_sessions
evicted_enough n xs h =
    let key : PlaygroundSession → ℕ = λ ps. ps.last_seen_at in
    let sorted = sort_by key xs in
    let p = is_among (take n sorted) in
    let taken : length (take n sorted) ≡ n =
      length-take n sorted (omega (arith, h, length-sort key xs)) in
    omega (
      arith,
      length-keep_count p xs,
      count-sort p key xs,
      count-take_le p n sorted,
      count-among [] (take n sorted),
      taken,
    )

-- The sessions of `w'` are within the limit, and those that a test counts are no more than before.
record IsCapped (limit : ℕ) (p : PlaygroundSession → Bool) (w w' : World) : Type 0 where
  capped : length w'.tables.playground_sessions ≤ limit
  fewer : count_where p w'.tables.playground_sessions ≤ count_where p w.tables.playground_sessions

over :
    (limit : ℕ) (p : PlaygroundSession → Bool) (w : World)
    → w.outcomes ≡ []
    → IsCapped limit p w (evict_over limit (ok (length w.tables.playground_sessions)) w).1
unfolding ignore_error evict_oldest_playground_sessions statement
over limit p w calm =
    let xs = w.tables.playground_sessions in
    elim (Bool-cases (ltb limit (length xs))) [
      | inl more ↦
          let n = length xs - limit in
          let e = evicted_enough n xs (omega arith) in
          record {
            capped = rw (more, calm) (ground (arith, e, more));
            fewer =
                rw (more, calm)
                  (count-keep_le p (λ ps. not (is_among (oldest_sessions n xs) ps)) xs);
          }
      | inr few ↦ record { capped = rw few (ground (arith, few)); fewer = rw few (omega arith) }
    ]

counted :
    (limit : ℕ) (p : PlaygroundSession → Bool) (n : ℕ) (w : World)
    → w.outcomes ≡ []
    → IsCapped limit p w (after_delete limit (ok n) w).1
unfolding count_playground_sessions statement ◌>>=◌ attempt
counted limit p n w calm = rw calm (over limit p (record w { outcomes = [] }) refl)

-- After a tick of the collection whose calls go well, there are at most as many sessions as the
-- limit says, and none that was last seen before the lifetime of a session.
pub collect-bounds :
    (ttl limit : ℕ) (w : World)
    → w.outcomes ≡ []
    → (length (collect ttl limit w).1.tables.playground_sessions ≤ limit)
      × (count_where
            (λ ps. ltb ps.last_seen_at (w.now - ttl))
            (collect ttl limit w).1.tables.playground_sessions
          ≡ 0)
unfolding collect delete_playground_sessions_older_than statement ◌>>=◌ attempt get_now
collect-bounds ttl limit w calm =
    let old : PlaygroundSession → Bool = λ ps. ltb ps.last_seen_at (w.now - ttl) in
    let xs = w.tables.playground_sessions in
    let w1 = record w {
      outcomes = [];
      tables = record w.tables { playground_sessions = keep_if (λ ps. not (old ps)) xs };
    } in
    let c = counted limit old (count_where old xs) w1 refl in
    rw calm (c.capped, omega (arith, c.fewer, count-keep_not old xs))
