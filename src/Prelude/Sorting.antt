-- ===== src/Prelude/Sorting.antt =====
-- ORDER BY: a list sorted by a key.
use Prim.Native.Nat.{ℕ, zero, suc, ◌≤◌}
use mathlib.Core.Path.{◌≡◌, refl, sym, ap, ◌∙◌}
use mathlib.Core.Logic.{inl, inr}
use mathlib.Core.Bool.{Bool, true}
use native.Mathlib.Omega.{arith}
use mathlib.Core.List.{List, [], ◌∷◌, reverse}
use koto7_tuma.Prelude.Lists.{length, take, count_where}
use koto7_tuma.Prelude.Tests.{leb, Bool-cases, if◌then◌else◌}

module _ {ℓ} {A : Type ℓ} where
  abbrev pub insert_by : (A → ℕ) → A → List A → List A
  insert_by key x [] = x ∷ []
  insert_by key x (y ∷ ys) =
      let rest = insert_by key x ys in if leb (key x) (key y) then x ∷ y ∷ ys else y ∷ rest

  unfoldable pub sort_by : (A → ℕ) → List A → List A
  sort_by key [] = []
  sort_by key (x ∷ xs) = insert_by key x (sort_by key xs)

  -- ORDER BY … DESC
  unfoldable pub sort_desc_by : (A → ℕ) → List A → List A
  unfolding sort_by
  sort_desc_by key xs = reverse (sort_by key xs)

  -- Sorting moves the elements, and counts stay.
  count-insert :
      (p : A → Bool) (key : A → ℕ) (x : A) (xs : List A)
      → count_where p (insert_by key x xs) ≡ count_where p (x ∷ xs)
  unfolding count_where
  count-insert p key x [] = refl
  count-insert p key x (y ∷ ys) = elim (Bool-cases (leb (key x) (key y))) [
    | inl low ↦ rw low refl
    | inr high ↦ rw high (ground (arith, count-insert p key x ys))
  ]

  pub count-sort :
      (p : A → Bool) (key : A → ℕ) (xs : List A) → count_where p (sort_by key xs) ≡ count_where p xs
  unfolding count_where sort_by
  count-sort p key [] = refl
  count-sort p key (x ∷ xs) =
      count-insert p key x (sort_by key xs) ∙ (ground (arith, count-sort p key xs))

  pub count-take_le :
      (p : A → Bool) (n : ℕ) (xs : List A) → count_where p (take n xs) ≤ count_where p xs
  unfolding count_where
  count-take_le p zero xs = omega arith
  count-take_le p (suc n) [] = omega arith
  count-take_le p (suc n) (x ∷ xs) = ground (arith, count-take_le p n xs)

  count-all : (xs : List A) → count_where (λ _. true) xs ≡ length xs
  unfolding count_where
  count-all [] = refl
  count-all (x ∷ xs) = ap suc (count-all xs)

  pub length-sort : (key : A → ℕ) (xs : List A) → length (sort_by key xs) ≡ length xs
  length-sort key xs =
      sym (count-all (sort_by key xs)) ∙ count-sort (λ _. true) key xs ∙ count-all xs
