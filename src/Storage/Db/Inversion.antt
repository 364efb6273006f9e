-- ===== src/Storage/Db/Inversion.antt =====
-- What a result that is `ok` says of the parts of an action.
use koto7_tuma.Prelude.{◌≡◌, refl, List, [], ◌∷◌, ap, arith}
use koto7_tuma.Storage.Db.Action.{
  World, Outcome, fine, refused, reply_lost, Db, Res, ok, err, continue, ◌>>=◌, attempt,
  run_statement, statement, remote,
}

module _ {A B : Type 0} where
  continue-ok :
      (f : A → Db B) (r : Res A) (w : World) {b : B} {w'' : World}
      → continue r f w ≡ (ok b, w'')
      → (a : A) × (r ≡ ok a) × (f a w ≡ (ok b, w''))
  continue-ok f (ok a) w h = (a, refl, h)
  continue-ok f (err e) w h = absurd (ground arith)

  pub bind-ok :
      (m : Db A) (f : A → Db B) (w : World) {b : B} {w'' : World}
      → (m >>= f) w ≡ (ok b, w'')
      → (a : A) × (m w ≡ (ok a, (m w).1)) × (f a (m w).1 ≡ (ok b, w''))
  unfolding ◌>>=◌
  bind-ok m f w h =
      let (a, e, k) = continue-ok f (m w).0 (m w).1 h in (a, ap (λ (r : Res A). (r, (m w).1)) e, k)

module _ {A : Type 0} where
  run-ok :
      (o : List Outcome) (body : Db A) (w : World) {a : A} {w' : World}
      → run_statement o body w ≡ (ok a, w')
      → (o' : List Outcome) × (body (record w { outcomes = o' }) ≡ (ok a, w'))
  run-ok [] body w h = (w.outcomes, h)
  run-ok (fine ∷ rest) body w h = (rest, h)
  run-ok (refused ∷ rest) body w h = absurd (ground arith)
  run-ok (reply_lost ∷ rest) body w h = absurd (ground arith)

  pub statement-ok :
      (body : Db A) (w : World) {a : A} {w' : World}
      → statement body w ≡ (ok a, w')
      → (o : List Outcome) × (body (record w { outcomes = o }) ≡ (ok a, w'))
  unfolding statement
  statement-ok body w h = run-ok w.outcomes body w h

  pub remote-ok :
      (body : Db A) (w : World) {a : A} {w' : World}
      → remote body w ≡ (ok a, w')
      → (o : List Outcome) × (body (record w { outcomes = o }) ≡ (ok a, w'))
  unfolding remote
  remote-ok body w h = statement-ok body w h

  pub attempt-ok :
      (m : Db A) (w : World) {r : Res A} {w' : World} {a : A}
      → attempt m w ≡ (ok r, w')
      → r ≡ ok a
      → m w ≡ (ok a, w')
  unfolding attempt
  attempt-ok m w {r} {w'} {a} h e = ground arith

-- A statement where every call to come goes well.
module _ {A : Type 0} where
  run-calm_eq :
      (o : List Outcome) (body : Db A) (w : World) → o ≡ [] → run_statement o body w ≡ body w
  run-calm_eq [] body w h = refl
  run-calm_eq (x ∷ o) body w h = absurd (ground arith)

  pub statement-calm_eq : (body : Db A) (w : World) → w.outcomes ≡ [] → statement body w ≡ body w
  unfolding statement
  statement-calm_eq body w h = run-calm_eq w.outcomes body w h
