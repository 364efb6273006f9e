-- ===== src/Api/Issues/Replays.antt =====
-- What replayBulk of internal/api/handlers.go counts.
use koto7_tuma.Prelude.{
  ℕ, ◌+◌, ◌≤◌, ◌≡◌, refl, ap, Text, Option, none, some, List, [], ◌∷◌, length, length-append, find,
  arith,
}
use koto7_tuma.Storage.Rows.{Issue}
use koto7_tuma.Storage.Issues.{get_issue, has_issue_id}
use koto7_tuma.Storage.Db.{
  World, Outcome, fine, refused, reply_lost, Res, ok, pure, continue, ◌>>=◌, attempt, statement,
  run_statement, get_now, remote, start_workflow, Start,
}
use koto7_tuma.Api.Ingest.{start_replay}
use koto7_tuma.Api.Http.{
  Answer, success, ConsoleEnv, unless_none, unless_nil, unless_error, call_or, find_or,
}
use koto7_tuma.Api.Issues.{replay_found, replay_by_id, counted, replay_all, bulk_with, replay_bulk}

-- A replay that is counted is a workflow more, and none goes away.
record IsCounted (w : World) (p : Res (Answer (Unit {0})) × World) : Type 0 where
  at : (n : ℕ) → counted n p.0 + length w.starts ≤ n + length p.1.starts

started :
    (s : Start) (o : List Outcome) (w : World)
    → let p = run_statement o (start_workflow s) w in
      IsCounted w (unless_error {B = Unit} 500 (λ _. λ v. (ok (success 200 tt), v)) p.0 p.1)
unfolding start_workflow
started s [] w = record { at = λ n. omega (arith, length-append w.starts (s ∷ [])) }
started s (fine ∷ rest) w = record { at = λ n. omega (arith, length-append w.starts (s ∷ [])) }
started s (refused ∷ rest) w = record { at = λ n. omega arith }
started s (reply_lost ∷ rest) w = record {
  at = λ n. omega (arith, length-append w.starts (s ∷ []));
}

found_IsCounted :
    (env : ConsoleEnv) (issue : Issue) (w : World) → IsCounted w (replay_found env issue w)
unfolding call_or start_replay remote statement ◌>>=◌ attempt get_now
found_IsCounted env issue w = started _ w.outcomes w

row_IsCounted :
    (env : ConsoleEnv) (i : Option Issue) (w : World)
    → IsCounted w (unless_nil 404 (replay_found env) (ok i) w)
row_IsCounted env none w = record { at = λ n. omega arith }
row_IsCounted env (some i) w = found_IsCounted env i w

by_id :
    (env : ConsoleEnv) (id : ℕ) (o : List Outcome) (w : World)
    → let p = run_statement o (λ v. (ok (find (has_issue_id id) v.tables.issues), v)) w in
      IsCounted w (unless_nil 404 (replay_found env) p.0 p.1)
by_id env id [] w = row_IsCounted env (find (has_issue_id id) w.tables.issues) w
by_id env id (fine ∷ rest) w =
    let c =
      row_IsCounted env (find (has_issue_id id) w.tables.issues) (record w { outcomes = rest }) in
    record { at = c.at }
by_id env id (refused ∷ rest) w = record { at = λ n. omega arith }
by_id env id (reply_lost ∷ rest) w = record { at = λ n. omega arith }

parsed_IsCounted :
    (env : ConsoleEnv) (id : Option ℕ) (w : World)
    → IsCounted w (unless_none 400 (replay_by_id env) id w)
unfolding replay_by_id find_or get_issue statement ◌>>=◌ attempt
parsed_IsCounted env none w = record { at = λ n. omega arith }
parsed_IsCounted env (some id) w = by_id env id w.outcomes w

all_counted :
    (env : ConsoleEnv) (ids : List Text) (n : ℕ) (w : World)
    → (k : ℕ) × ((replay_all env n ids w).0 ≡ ok k)
      × (k + length w.starts ≤ n + length (replay_all env n ids w).1.starts)
unfolding replay_all ◌>>=◌ attempt
all_counted env [] n w = (n, refl, omega arith)
all_counted env (id ∷ ids) n w =
    let p = unless_none 400 (replay_by_id env) (env.parse_uuid id) w in
    let c = (parsed_IsCounted env (env.parse_uuid id) w).at n in
    let (k, e, rest) = all_counted env ids (counted n p.0) p.1 in (k, e, omega (arith, c, rest))

bulk_with-run :
    (env : ConsoleEnv) (ids : List Text) (w : World) {k : ℕ}
    → (replay_all env 0 ids w).0 ≡ ok k
    → bulk_with env ids w ≡ (ok (success 200 k), (replay_all env 0 ids w).1)
unfolding ◌>>=◌
bulk_with-run env ids w {k} e =
    ap (λ (r : Res ℕ). continue r (λ n. pure (success 200 n)) (replay_all env 0 ids w).1) e

-- However its calls end, a bulk replay is answered with 200, and the number that it reports is at
-- most the number of workflows that it has started.
pub replay_bulk-bound :
    (env : ConsoleEnv) (ids : List Text) (w : World)
    → (k : ℕ) × ((replay_bulk env (some ids) w).0 ≡ ok (success 200 k))
      × (k + length w.starts ≤ length (replay_bulk env (some ids) w).1.starts)
unfolding replay_bulk
replay_bulk-bound env ids w =
    let (k, e, bound) = all_counted env ids 0 w in
    let done = bulk_with-run env ids w e in
    (
      k,
      ap (λ (p : Res (Answer ℕ) × World). p.0) done,
      let same = ap (λ (p : Res (Answer ℕ) × World). length p.1.starts) done in
          omega (arith, bound, same),
    )
