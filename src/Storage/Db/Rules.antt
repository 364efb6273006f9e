-- ===== src/Storage/Db/Rules.antt =====
-- Invariants of the tables and of the supply of identifiers, one rule for each way to build an
-- action of Db. They hold however the statements end.
use koto7_tuma.Prelude.{ℕ, Bool, true, false, Option, none, some, List, [], ◌∷◌}
use koto7_tuma.Prelude.{if◌then◌else◌}
use koto7_tuma.Storage.Rows.{Tables}
use koto7_tuma.Storage.Db.Action.{
  World, Outcome, fine, refused, reply_lost, Db, Res, ok, err, Err, pure, fail, continue, ◌>>=◌,
  attempt, run_statement, statement, remote, or_error, require, ignore_error, sleep, send_post,
  Post, start_workflow, Start, get_now,
}

abbrev pub Invariant : Type 1
Invariant = Tables → ℕ → Type 0

-- `m` keeps `P`, whether it returns or fails.
pub record Keeps {A : Type 0} (P : Invariant) (m : Db A) : Type 0 where
  pub at : (w : World) → P w.tables w.next_id → P (m w).1.tables (m w).1.next_id

module _ {A : Type 0} {P : Invariant} where
  pub Keeps-pure : (a : A) → Keeps P (pure a)
  Keeps-pure a = record { at = λ w h. h }

  pub Keeps-fail : (e : Err) → Keeps P (fail {A = A} e)
  Keeps-fail e = record { at = λ w h. h }

  pub Keeps-reading : (f : World → Res A) → Keeps P (λ w. (f w, w))
  Keeps-reading f = record { at = λ w h. h }

  pub Keeps-if : (b : Bool) (m n : Db A) → Keeps P m → Keeps P n → Keeps P (if b then m else n)
  Keeps-if true m n km kn = km
  Keeps-if false m n km kn = kn

  -- The branch of a statement's effect may depend on the tables.
  pub Keeps-branch :
      (b : World → Bool) (m n : Db A)
      → Keeps P m
      → Keeps P n
      → Keeps P (λ w. if b w then m w else n w)
  Keeps-branch b m n km kn = record { at = λ w h. go (b w) w h }
    where
      go :
          (c : Bool) (w : World)
          → P w.tables w.next_id
          → P (if c then m w else n w).1.tables (if c then m w else n w).1.next_id
      go true w h = km.at w h
      go false w h = kn.at w h

  run-keeps :
      (body : Db A) (o : List Outcome) (w : World)
      → Keeps P body
      → P w.tables w.next_id
      → P (run_statement o body w).1.tables (run_statement o body w).1.next_id
  run-keeps body [] w k h = k.at w h
  run-keeps body (fine ∷ rest) w k h = k.at (record w { outcomes = rest }) h
  run-keeps body (refused ∷ rest) w k h = h
  run-keeps body (reply_lost ∷ rest) w k h = k.at (record w { outcomes = rest }) h

  pub Keeps-statement : (body : Db A) → Keeps P body → Keeps P (statement body)
  unfolding statement
  Keeps-statement body k = record { at = λ w h. run-keeps body w.outcomes w k h }

  pub Keeps-remote : (body : Db A) → Keeps P body → Keeps P (remote body)
  unfolding remote
  Keeps-remote body k = Keeps-statement body k

  pub Keeps-attempt : (m : Db A) → Keeps P m → Keeps P (attempt m)
  unfolding attempt
  Keeps-attempt m k = record { at = k.at }

  pub Keeps-ignore_error : (m : Db A) → Keeps P m → Keeps P (ignore_error m)
  unfolding ignore_error
  Keeps-ignore_error m k = record { at = k.at }

  pub Keeps-or_error : (e : Err) (r : Res (Option A)) → Keeps P (or_error e r)
  Keeps-or_error e (ok none) = Keeps-fail e
  Keeps-or_error e (ok (some a)) = Keeps-pure a
  Keeps-or_error e (err _) = Keeps-fail e

module _ {A B : Type 0} {P : Invariant} where
  continue-keeps :
      (r : Res A) (f : A → Db B) (w : World)
      → ((a : A) → Keeps P (f a))
      → P w.tables w.next_id
      → P (continue r f w).1.tables (continue r f w).1.next_id
  continue-keeps (ok a) f w k h = (k a).at w h
  continue-keeps (err e) f w k h = h

  pub Keeps-bind :
      (m : Db A) (f : A → Db B) → Keeps P m → ((a : A) → Keeps P (f a)) → Keeps P (m >>= f)
  unfolding ◌>>=◌
  Keeps-bind m f km kf = record { at = λ w h. continue-keeps (m w).0 f (m w).1 kf (km.at w h) }

pub Keeps-require :
    {A : Type 0} {P : Invariant} (e : Err) (m : Db (Option A)) → Keeps P m → Keeps P (require e m)
unfolding require
Keeps-require e m k = Keeps-bind (attempt m) (or_error e) (Keeps-attempt m k) (Keeps-or_error e)

pub Keeps-sleep : {P : Invariant} (n : ℕ) → Keeps P (sleep n)
unfolding sleep
Keeps-sleep n = record { at = λ w h. h }

pub Keeps-send_post : {P : Invariant} (p : Post) → Keeps P (send_post p)
unfolding send_post
Keeps-send_post p = record { at = λ w h. h }

pub Keeps-start_workflow : {P : Invariant} (s : Start) → Keeps P (start_workflow s)
unfolding start_workflow
Keeps-start_workflow s = record { at = λ w h. h }

pub Keeps-get_now : {P : Invariant} → Keeps P get_now
unfolding get_now
Keeps-get_now = record { at = λ w h. h }

pub ruleset keeps_rules = (
  Keeps-pure, Keeps-fail, Keeps-reading, Keeps-if, Keeps-statement, Keeps-attempt,
  Keeps-ignore_error, Keeps-bind, Keeps-require, Keeps-remote, Keeps-sleep, Keeps-send_post,
  Keeps-start_workflow, Keeps-get_now,
)
