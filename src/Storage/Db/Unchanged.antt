-- ===== src/Storage/Db/Unchanged.antt =====
-- What an action leaves alone, one rule for each way to build an action. `f` sees a part of the
-- state, and not the outcomes to come.
use koto7_tuma.Prelude.{◌≡◌, refl, ◌∙◌, Bool, true, false, List, [], ◌∷◌}
use koto7_tuma.Prelude.{if◌then◌else◌}
use koto7_tuma.Storage.Db.Action.{
  World, Outcome, fine, refused, reply_lost, Db, Res, ok, err, Err, pure, fail, continue, ◌>>=◌,
  attempt, run_statement, statement, ignore_error,
}

abbrev pub IsBlind {ℓ} : {X : Type ℓ} → (World → X) → Type ℓ
IsBlind f = (w : World) (o : List Outcome) → f (record w { outcomes = o }) ≡ f w

pub record Leaves {ℓ} {A : Type 0} {X : Type ℓ} (f : World → X) (m : Db A) : Type ℓ where
  pub at : (w : World) → f (m w).1 ≡ f w

module _ {ℓ} {A : Type 0} {X : Type ℓ} {f : World → X} where
  pub Leaves-pure : (a : A) → Leaves f (pure a)
  Leaves-pure a = record { at = λ w. refl }

  pub Leaves-fail : (e : Err) → Leaves f (fail {A = A} e)
  Leaves-fail e = record { at = λ w. refl }

  pub Leaves-reading : (g : World → Res A) → Leaves f (λ w. (g w, w))
  Leaves-reading g = record { at = λ w. refl }

  pub Leaves-if : (b : Bool) (m n : Db A) → Leaves f m → Leaves f n → Leaves f (if b then m else n)
  Leaves-if true m n lm ln = lm
  Leaves-if false m n lm ln = ln

  run-Leaves :
      (blind : IsBlind f) (body : Db A) (o : List Outcome) (w : World)
      → Leaves f body
      → f (run_statement o body w).1 ≡ f w
  run-Leaves blind body [] w l = l.at w
  run-Leaves blind body (fine ∷ rest) w l = l.at (record w { outcomes = rest }) ∙ blind w rest
  run-Leaves blind body (refused ∷ rest) w l = blind w rest
  run-Leaves blind body (reply_lost ∷ rest) w l = l.at (record w { outcomes = rest }) ∙ blind w rest

  pub Leaves-statement : IsBlind f → (body : Db A) → Leaves f body → Leaves f (statement body)
  unfolding statement
  Leaves-statement blind body l = record { at = λ w. run-Leaves blind body w.outcomes w l }

  pub Leaves-attempt : (m : Db A) → Leaves f m → Leaves f (attempt m)
  unfolding attempt
  Leaves-attempt m l = record { at = l.at }

  pub Leaves-ignore_error : (m : Db A) → Leaves f m → Leaves f (ignore_error m)
  unfolding ignore_error
  Leaves-ignore_error m l = record { at = l.at }

module _ {ℓ} {A B : Type 0} {X : Type ℓ} {f : World → X} where
  continue-Leaves :
      (r : Res A) (g : A → Db B) (w : World)
      → ((a : A) → Leaves f (g a))
      → f (continue r g w).1 ≡ f w
  continue-Leaves (ok a) g w l = (l a).at w
  continue-Leaves (err e) g w l = refl

  pub Leaves-bind :
      (m : Db A) (g : A → Db B) → Leaves f m → ((a : A) → Leaves f (g a)) → Leaves f (m >>= g)
  unfolding ◌>>=◌
  Leaves-bind m g lm lg = record { at = λ w. continue-Leaves (m w).0 g (m w).1 lg ∙ lm.at w }

pub ruleset leaves_rules = (
  Leaves-pure, Leaves-fail, Leaves-reading, Leaves-if, Leaves-attempt, Leaves-ignore_error,
  Leaves-bind,
)
