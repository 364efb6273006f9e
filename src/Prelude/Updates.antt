-- ===== src/Prelude/Updates.antt =====
-- What `find` and `count_where` give after an update of the rows.
use mathlib.Core.Path.{◌≡◌, refl}
use mathlib.Core.Bool.{Bool, true, false}
use mathlib.Core.List.{List, [], ◌∷◌, ◌++◌}
use mathlib.Core.Option.{none, some}
use native.Mathlib.Omega.{arith}
use mathlib.Core.Logic.{inl, inr}
use koto7_tuma.Prelude.Tests.{Bool-cases, if◌then◌else◌}
use koto7_tuma.Prelude.Lists.{find, count_where, update_where}

module _ {ℓ} {A : Type ℓ} where
  -- The first row that passes the test of the update is the row that is changed.
  pub find-update_self :
      (p : A → Bool) (f : A → A) (xs : List A) (x : A)
      → ((y : A) → p (f y) ≡ p y)
      → find p xs ≡ some x
      → find p (update_where p f xs) ≡ some (f x)
  unfolding find update_where
  find-update_self p f [] x keep h = absurd (ground arith)
  find-update_self p f (y ∷ xs) x keep h = ground (arith, keep y, find-update_self p f xs x keep)

  -- An update of rows that another test never takes does not change what that test finds.
  pub find-update_other :
      (p q : A → Bool) (f : A → A) (xs : List A)
      → ((y : A) → q y ≡ true → p y ≡ false)
      → ((y : A) → p (f y) ≡ p y)
      → find p (update_where q f xs) ≡ find p xs
  unfolding find update_where
  find-update_other p q f [] apart keep = refl
  find-update_other p q f (y ∷ xs) apart keep =
      ground (arith, apart y, keep y, find-update_other p q f xs apart keep)

  -- Where the update makes every row that it takes fail the test, no row passes it afterwards.
  pub count-update_none :
      (p : A → Bool) (f : A → A) (xs : List A)
      → ((y : A) → p (f y) ≡ false)
      → count_where p (update_where p f xs) ≡ 0
  unfolding count_where update_where
  count-update_none p f [] fails = refl
  count-update_none p f (y ∷ xs) fails = ground (arith, fails y, count-update_none p f xs fails)

  pub find-append_fails :
      (p : A → Bool) (xs : List A) (x : A) → p x ≡ false → find p (xs ++ x ∷ []) ≡ find p xs
  unfolding find
  find-append_fails p [] x h = ground arith
  find-append_fails p (y ∷ xs) x h = ground (arith, find-append_fails p xs x h)

  pub find-append_hit :
      (p : A → Bool) (xs : List A) (x : A)
      → find p xs ≡ none
      → p x ≡ true
      → find p (xs ++ x ∷ []) ≡ some x
  unfolding find
  find-append_hit p [] x h e = ground arith
  find-append_hit p (y ∷ xs) x h e = ground (arith, find-append_hit p xs x)

  -- An update that leaves the tested key alone hides no row.
  pub find-update_none :
      (p q : A → Bool) (f : A → A) (xs : List A)
      → ((y : A) → p (f y) ≡ p y)
      → find p (update_where q f xs) ≡ none
      → find p xs ≡ none
  unfolding find update_where
  find-update_none p q f [] keep h = refl
  find-update_none p q f (y ∷ xs) keep h = ground (arith, keep y, find-update_none p q f xs keep)

  -- A row that is found is found again, updated if it passes the other test.
  pub find-update_found :
      (p q : A → Bool) (f : A → A) (xs : List A) (x : A)
      → ((y : A) → p (f y) ≡ p y)
      → find p xs ≡ some x
      → find p (update_where q f xs) ≡ some (if q x then f x else x)
  unfolding find update_where
  find-update_found p q f [] x keep h = absurd (ground arith)
  find-update_found p q f (y ∷ xs) x keep h = elim (Bool-cases (p y)) [
    | inl hit ↦ elim (Bool-cases (q y)) [
      | inl here ↦ let e : y ≡ x = ground (arith, hit, h) in rw (← e, here, keep y, hit) refl
      | inr away ↦ let e : y ≡ x = ground (arith, hit, h) in rw (← e, away, hit) refl
    ]
    | inr miss ↦ elim (Bool-cases (q y)) [
      | inl here ↦
          rw (here, keep y, miss) (find-update_found p q f xs x keep (ground (arith, miss, h)))
      | inr away ↦ rw (away, miss) (find-update_found p q f xs x keep (ground (arith, miss, h)))
    ]
  ]
