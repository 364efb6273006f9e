-- ===== src/Playground/Simulate/Digits.antt =====
-- The texts of numbers and digests that stand in a Stripe-Signature header, and how they are read.
use koto7_tuma.Prelude.{
  ℕ, zero, suc, ◌+◌, ◌-◌, ◌*◌, ◌/◌, ◌%◌, ◌^◌, ◌<◌, ◌≡◌, refl, ap, sym, ◌∙◌, pos, Text, split,
  trim_left, trim_right, trim_space, is_space, is_space_pair, is_space_triple, AllBytes, hex_encode,
  hex_digit, decimal, decimal_digits, digits_value, parse_int, clamp_positive, unsigned_value, Bool,
  true, false, Option, none, some, [], ◌∷◌, ◌++◌, ltb, leb, ◌&&◌, ◌==◌, Bool-cases, inl, inr, arith,
  if◌then◌else◌,
}

-- Every byte is ASCII and comes after the comma, and so is no part of white space.
abbrev pub AllPlain : Text → Type 0
AllPlain [] = Unit
AllPlain (c ∷ s) = ((44 < c) × (c < 128)) × AllPlain s

pub append-AllPlain : (s t : Text) → AllPlain s → AllPlain t → AllPlain (s ++ t)
append-AllPlain [] t hs ht = ht
append-AllPlain (c ∷ s) t hs ht = (hs.0, append-AllPlain s t hs.1 ht)

pub hex_encode-AllPlain : (bs : Text) → AllBytes bs → AllPlain (hex_encode bs)
unfolding hex_encode hex_digit
hex_encode-AllPlain [] h = tt
hex_encode-AllPlain (b ∷ bs) h =
    let rest = hex_encode-AllPlain bs h.1 in
    ((ground arith, ground (arith, h.0)), ((ground arith, ground arith), rest))

digits-AllPlain : (fuel n : ℕ) → AllPlain (decimal_digits fuel n)
unfolding decimal_digits
digits-AllPlain zero n = tt
digits-AllPlain (suc fuel) n = elim (Bool-cases (ltb n 10)) [
  | inl small ↦ rw small ((omega arith, ground (arith, small)), tt)
  | inr large ↦ rw large (
      append-AllPlain (decimal_digits fuel (n / 10)) ((48 + n % 10) ∷ [])
        (digits-AllPlain fuel (n / 10)) ((omega arith, omega arith), tt))
]

pub decimal-AllPlain : (n : ℕ) → AllPlain (decimal n)
unfolding decimal
decimal-AllPlain n = digits-AllPlain (suc n) n

-- Splitting at a comma between texts that have none.
pub split-last : (s : Text) → AllPlain s → split 44 s ≡ s ∷ []
unfolding split
split-last [] h = refl
split-last (c ∷ s) h =
    let e : (c == 44) ≡ false = ground (arith, h.0.0) in rw (e, split-last s h.1) refl

pub split-comma : (s t : Text) → AllPlain s → AllPlain t → split 44 (s ++ 44 ∷ t) ≡ s ∷ t ∷ []
unfolding split
split-comma [] t hs ht = rw (split-last t ht) refl
split-comma (c ∷ s) t hs ht =
    let e : (c == 44) ≡ false = ground (arith, hs.0) in rw (e, split-comma s t hs.1 ht) refl

plain-trim_left : (s : Text) → AllPlain s → trim_left s ≡ s
unfolding trim_left is_space is_space_pair is_space_triple
plain-trim_left [] h = refl
plain-trim_left (c ∷ []) h = ground (arith, h.0)
plain-trim_left (c ∷ d ∷ []) h = ground (arith, h.0)
plain-trim_left (c ∷ d ∷ e ∷ s) h = ground (arith, h.0)

trim_right-plain : (s : Text) → AllPlain s → trim_right s ≡ s
unfolding trim_right
trim_right-plain [] h = refl
trim_right-plain (c ∷ s) h = rw (plain-trim_left (c ∷ s) h, trim_right-plain s h.1) refl

pub trim_space-plain : (s : Text) → AllPlain s → trim_space s ≡ s
unfolding trim_space
trim_space-plain s h = rw (plain-trim_left s h) (trim_right-plain s h)

abbrev next_digit : ℕ → Option ℕ → Option ℕ
next_digit d none = none
next_digit d (some n) = some (n * 10 + d)

if-next_digit :
    (b : Bool) (d : ℕ) (x y : Option ℕ)
    → x ≡ next_digit d y
    → (if b then x else none) ≡ next_digit d (if b then y else none)
if-next_digit true d x y h = h
if-next_digit false d x y h = refl

digits_value-append :
    (acc d : ℕ) (s : Text)
    → d < 10
    → digits_value acc (s ++ (48 + d) ∷ []) ≡ next_digit d (digits_value acc s)
unfolding digits_value
digits_value-append acc d [] h = ground (arith, h)
digits_value-append acc d (c ∷ s) h =
    if-next_digit (leb 48 c && leb c 57) d _ _ (digits_value-append (acc * 10 + (c - 48)) d s h)

digits_value-digits : (fuel n : ℕ) → n < fuel → digits_value 0 (decimal_digits fuel n) ≡ some n
unfolding decimal_digits digits_value
digits_value-digits zero n h = absurd (omega (arith, h))
digits_value-digits (suc fuel) n h = elim (Bool-cases (ltb n 10)) [
  | inl small ↦ rw small (ground (arith, small))
  | inr large ↦
      let rest = digits_value-digits fuel (n / 10) (ground (arith, large, h)) in
      let whole : n / 10 * 10 + n % 10 ≡ n = omega arith in
      rw large (
        digits_value-append 0 (n % 10) (decimal_digits fuel (n / 10)) (omega arith)
        ∙ ap (next_digit (n % 10)) rest
        ∙ ap some whole)
]

first_digit :
    (fuel n : ℕ)
    → n < fuel
    → (c : ℕ) × (s : Text) × (decimal_digits fuel n ≡ c ∷ s) × (44 < c) × (c < 58) × (45 < c)
unfolding decimal_digits
first_digit zero n h = absurd (omega (arith, h))
first_digit (suc fuel) n h = elim (Bool-cases (ltb n 10)) [
  | inl small ↦ (48 + n, [], rw small refl, omega arith, ground (arith, small), omega arith)
  | inr large ↦
      let (c, s, e, low, high, minus) = first_digit fuel (n / 10) (ground (arith, large, h)) in
      (c, s ++ (48 + n % 10) ∷ [], rw (large, e) refl, low, high, minus)
]

positive : (c : ℕ) (s : Text) → 45 < c → parse_int (c ∷ s) ≡ clamp_positive (unsigned_value (c ∷ s))
unfolding parse_int
positive c s h = ground (arith, h)

-- strconv.ParseInt reads the number that %d printed, where it is an int64.
pub parse_int-decimal : (n : ℕ) → n < 2 ^ 63 → parse_int (decimal n) ≡ pos n
unfolding decimal
parse_int-decimal n h =
    let (c, s, e, _, _, minus) = first_digit (suc n) n (omega arith) in
    let value : digits_value 0 (c ∷ s) ≡ some n =
      ap (digits_value 0) (sym e) ∙ digits_value-digits (suc n) n (omega arith) in
    let small : ltb n (2 ^ 63) ≡ true = ground (arith, h) in
    ap parse_int e ∙ positive c s minus ∙ rw value (rw small refl)
