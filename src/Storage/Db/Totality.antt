-- ===== src/Storage/Db/Totality.antt =====
-- Total correctness where every call goes well: `m` returns, keeps `P`, and its value satisfies `Q`.
use koto7_tuma.Prelude.{ℕ, ◌≡◌, refl, Bool, true, false, Option, some, List, [], ◌∷◌, arith}
use koto7_tuma.Prelude.{if◌then◌else◌}
use koto7_tuma.Storage.Db.Rules.{Invariant}
use koto7_tuma.Storage.Db.Action.{
  World, Outcome, Db, Res, ok, err, Err, pure, continue, ◌>>=◌, attempt, run_statement, statement,
  remote, require, ignore_error, sleep, send_post, Post, get_now,
}

-- The state of an action that has gone well.
pub record IsCalm (P : Invariant) (w : World) : Type 0 where
  pub calm : w.outcomes ≡ []
  pub kept : P w.tables w.next_id

pub record Works {A : Type 0} (P : Invariant) (Q : A → Type 0) (m : Db A) : Type 0 where
  pub at : (w : World) → IsCalm P w → (a : A) × ((m w).0 ≡ ok a) × Q a × IsCalm P (m w).1

module _ {A : Type 0} {P : Invariant} {Q : A → Type 0} where
  pub Works-pure : (a : A) → Q a → Works P Q (pure a)
  Works-pure a q = record { at = λ w c. (a, refl, q, c) }

  run-Works :
      (o : List Outcome) (body : Db A) (w : World)
      → o ≡ []
      → Works P Q body
      → IsCalm P w
      → (a : A) × ((run_statement o body w).0 ≡ ok a) × Q a × IsCalm P (run_statement o body w).1
  run-Works [] body w e k c = k.at w c
  run-Works (x ∷ rest) body w e k c = absurd (ground arith)

  pub Works-statement : (body : Db A) → Works P Q body → Works P Q (statement body)
  unfolding statement
  Works-statement body k = record { at = λ w c. run-Works w.outcomes body w c.calm k c }

  pub Works-remote : (body : Db A) → Works P Q body → Works P Q (remote body)
  unfolding remote
  Works-remote body k = Works-statement body k

  pub Works-if :
      (b : Bool) (m n : Db A)
      → (b ≡ true → Works P Q m)
      → (b ≡ false → Works P Q n)
      → Works P Q (if b then m else n)
  Works-if true m n km kn = km refl
  Works-if false m n km kn = kn refl

module _ {A B : Type 0} {P : Invariant} {R : B → Type 0} where
  continue-Works :
      (r : Res A) (f : A → Db B) (w : World) (a : A)
      → r ≡ ok a
      → Works P R (f a)
      → IsCalm P w
      → (b : B) × ((continue r f w).0 ≡ ok b) × R b × IsCalm P (continue r f w).1
  continue-Works (ok x) f w a e k c = let same : x ≡ a = ground arith in rw same (k.at w c)
  continue-Works (err x) f w a e k c = absurd (ground arith)

module _ {A B : Type 0} {P : Invariant} {Q : A → Type 0} {R : B → Type 0} where
  pub Works-bind :
      (m : Db A) (f : A → Db B)
      → Works P Q m
      → ((a : A) → Q a → Works P R (f a))
      → Works P R (m >>= f)
  unfolding ◌>>=◌
  Works-bind m f km kf = record {
    at = λ w c. let (a, e, q, c') = km.at w c in continue-Works (m w).0 f (m w).1 a e (kf a q) c';
  }

module _ {A : Type 0} {P : Invariant} {Q : A → Type 0} where
  pub Works-require :
      (e : Err) (m : Db (Option A))
      → Works P (λ o. (a : A) × (o ≡ some a) × Q a) m
      → Works P Q (require e m)
  unfolding require attempt ◌>>=◌
  Works-require e m k = record {
    at = λ w c. let (o, r, (a, s, q), c') = k.at w c in rw (r, s) (a, refl, q, c');
  }

-- An action whose error is ignored goes well if it keeps the state calm.
pub Works-ignore_error :
    {A : Type 0} {P : Invariant} (m : Db A)
    → ((w : World) → IsCalm P w → IsCalm P (m w).1)
    → Works P (λ _. Unit) (ignore_error m)
unfolding ignore_error
Works-ignore_error m k = record { at = λ w c. (tt, refl, tt, k w c) }

pub Works-sleep : {P : Invariant} (n : ℕ) → Works P (λ _. Unit) (sleep n)
unfolding sleep
Works-sleep n = record { at = λ w c. (tt, refl, tt, record { calm = c.calm; kept = c.kept }) }

pub Works-send_post : {P : Invariant} (p : Post) → Works P (λ _. Unit) (send_post p)
unfolding send_post
Works-send_post p = record { at = λ w c. (tt, refl, tt, record { calm = c.calm; kept = c.kept }) }

module _ {A : Type 0} {P : Invariant} where
  run-IsCalm :
      (o : List Outcome) (body : Db A) (w : World)
      → o ≡ []
      → ((v : World) → IsCalm P v → IsCalm P (body v).1)
      → IsCalm P w
      → IsCalm P (run_statement o body w).1
  run-IsCalm [] body w e k c = k w c
  run-IsCalm (x ∷ rest) body w e k c = absurd (ground arith)

  -- A statement that goes well, whatever it returns, leaves the state as its effect does.
  pub statement-IsCalm :
      (body : Db A) (w : World)
      → ((v : World) → IsCalm P v → IsCalm P (body v).1)
      → IsCalm P w
      → IsCalm P (statement body w).1
  unfolding statement
  statement-IsCalm body w k c = run-IsCalm w.outcomes body w c.calm k c

pub get_now-Works : {P : Invariant} → Works P (λ _. Unit) get_now
unfolding get_now
get_now-Works = record { at = λ w c. (w.now, refl, tt, c) }
