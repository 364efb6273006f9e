-- ===== src/Prelude/Newest.antt =====
-- The newest entries of a log that keeps a bounded number of them.
use Prim.Native.Nat.{ℕ, suc, ◌+◌, ◌-◌, ◌≤◌}
use mathlib.Core.Path.{◌≡◌, refl, sym, ap, ◌∙◌}
use mathlib.Core.Logic.{inl, inr}
use mathlib.Core.List.{List, [], ◌∷◌, ◌++◌}
use native.Mathlib.Omega.{arith}
use koto7_tuma.Prelude.Tests.{ltb, Bool-cases, if◌then◌else◌}
use koto7_tuma.Prelude.Lists.{length, drop, length-append, length-drop, drop-append_le, drop-drop}

module _ {ℓ} {A : Type ℓ} where
  abbrev pub newest : ℕ → List A → List A
  newest n xs = drop (length xs - n) xs

  pub newest-short : (n : ℕ) (xs : List A) → length xs ≤ n → newest n xs ≡ xs
  newest-short n xs h = let e : length xs - n ≡ 0 = omega (arith, h) in rw e refl

  pub if-newest :
      (n : ℕ) (xs : List A) → (if ltb n (length xs) then newest n xs else xs) ≡ newest n xs
  if-newest n xs = elim (Bool-cases (ltb n (length xs))) [
    | inl long ↦ rw long refl
    | inr short ↦ rw short (sym (newest-short n xs (ground (arith, short))))
  ]

  pub newest-append :
      (n : ℕ) (xs : List A) (x : A)
      → newest (suc n) (newest (suc n) xs ++ x ∷ []) ≡ newest (suc n) (xs ++ x ∷ [])
  newest-append n xs x =
      let k = length xs - suc n in
      let kept : drop k xs ++ x ∷ [] ≡ drop k (xs ++ x ∷ []) =
        sym (drop-append_le k xs (x ∷ []) (omega arith)) in
      let all : length (xs ++ x ∷ []) ≡ length xs + 1 = length-append xs (x ∷ []) in
      let e : k + (length (drop k (xs ++ x ∷ [])) - suc n) ≡ length (xs ++ x ∷ []) - suc n =
        omega (arith, all, length-drop k (xs ++ x ∷ [])) in
      ap (λ t. newest (suc n) t) kept
      ∙ drop-drop (length (drop k (xs ++ x ∷ [])) - suc n) k (xs ++ x ∷ [])
      ∙ ap (λ j. drop j (xs ++ x ∷ [])) e
