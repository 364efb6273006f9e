-- ===== src/Prelude/Texts.antt =====
-- A Go string is its bytes. Literals are written through `str`, and are ASCII wherever it is used.
use Prim.Native.Nat.{ℕ}
use Prim.Native.Char.{code}
use Prim.Native.String.{String}
use mathlib.Core.Path.{◌≡◌, refl}
use mathlib.Core.Bool.{Bool, true, false, ◌&&◌, ◌||◌}
use mathlib.Core.List.{List, [], ◌∷◌, ◌++◌}
use native.Mathlib.Omega.{arith}
use mathlib.Core.Option.{Option, none, some}
use koto7_tuma.Prelude.Tests.{◌==◌, ltb, leb, if◌then◌else◌}
use koto7_tuma.Prelude.Lists.{length, drop}

abbrev pub Text : Type 0
Text = List ℕ

unfoldable pub str : String → Text
str String.[] = []
str (String.◌∷◌ c s) = code c ∷ str s

unfoldable pub text_eq : Text → Text → Bool
text_eq [] [] = true
text_eq (a ∷ s) (b ∷ t) = a == b && text_eq s t
text_eq _ _ = false

abbrev pub is_empty : Text → Bool
is_empty [] = true
is_empty (c ∷ s) = false

pub text_eq_self : (s : Text) → text_eq s s ≡ true
unfolding text_eq
text_eq_self [] = refl
text_eq_self (c ∷ s) = ground (arith, text_eq_self s)

pub eq_of_text_eq : (s t : Text) → text_eq s t ≡ true → s ≡ t
unfolding text_eq
eq_of_text_eq [] [] h = refl
eq_of_text_eq [] (b ∷ t) h = ground arith
eq_of_text_eq (a ∷ s) [] h = ground arith
eq_of_text_eq (a ∷ s) (b ∷ t) h = ground (arith, eq_of_text_eq s t)

-- strings.HasPrefix
unfoldable pub has_prefix : Text → Text → Bool
has_prefix s [] = true
has_prefix [] (p ∷ ps) = false
has_prefix (c ∷ s) (p ∷ ps) = c == p && has_prefix s ps

-- strings.Contains
unfoldable pub contains : Text → Text → Bool
unfolding has_prefix
contains [] sub = has_prefix [] sub
contains (c ∷ s) sub = has_prefix (c ∷ s) sub || contains s sub

-- The encodings in UTF-8 of the white space of Unicode (unicode.IsSpace), by their length.
unfoldable pub is_space : ℕ → Bool
is_space c = c == 32 || (leb 9 c && leb c 13)

unfoldable pub is_space_pair : ℕ → ℕ → Bool
is_space_pair c d = c == 194 && (d == 133 || d == 160)

unfoldable pub is_space_triple : ℕ → ℕ → ℕ → Bool
is_space_triple c d e =
    c == 225 && d == 154 && e == 128
    || c == 226 && d == 128 && (leb 128 e && leb e 138 || e == 168 || e == 169 || e == 175)
    || c == 226 && d == 129 && e == 159
    || c == 227 && d == 128 && e == 128

unfoldable pub trim_left : Text → Text
unfolding is_space is_space_pair is_space_triple
trim_left [] = []
trim_left (c ∷ []) = if is_space c then [] else c ∷ []
trim_left (c ∷ d ∷ []) =
    let rest = trim_left (d ∷ []) in
    if is_space c then rest else if is_space_pair c d then [] else c ∷ d ∷ []
trim_left (c ∷ d ∷ e ∷ s) =
    let rest = trim_left (d ∷ e ∷ s) in
    let rest' = trim_left (e ∷ s) in
    let rest'' = trim_left s in
    if is_space c
    then rest
    else if is_space_pair c d
    then rest'
    else if is_space_triple c d e
    then rest''
    else c ∷ d ∷ e ∷ s

-- `s` ends where nothing but white space follows.
unfoldable pub trim_right : Text → Text
unfolding trim_left
trim_right [] = []
trim_right (c ∷ s) =
    let rest = trim_right s in if is_empty (trim_left (c ∷ s)) then [] else c ∷ rest

-- strings.TrimSpace
unfoldable pub trim_space : Text → Text
unfolding trim_left trim_right
trim_space s = trim_right (trim_left s)

-- The bytes that may follow a leading byte of UTF-8, as ranges.
abbrev pub cont : ℕ × ℕ
cont = (128, 191)

unfoldable pub utf8_lead : ℕ → Option (List (ℕ × ℕ))
utf8_lead c =
    if ltb c 128
    then some []
    else if leb 194 c && leb c 223
    then some (cont ∷ [])
    else if c == 224
    then some ((160, 191) ∷ cont ∷ [])
    else if c == 237
    then some ((128, 159) ∷ cont ∷ [])
    else if leb 225 c && leb c 239
    then some (cont ∷ cont ∷ [])
    else if c == 240
    then some ((144, 191) ∷ cont ∷ cont ∷ [])
    else if leb 241 c && leb c 243
    then some (cont ∷ cont ∷ cont ∷ [])
    else if c == 244
    then some ((128, 143) ∷ cont ∷ cont ∷ [])
    else none

unfoldable pub utf8_after : List (ℕ × ℕ) → Text → Bool
unfolding utf8_lead
utf8_after [] [] = true
utf8_after (r ∷ rs) [] = false
utf8_after [] (c ∷ s) = elim (utf8_lead c) [ none ↦ false | some rs ↦ utf8_after rs s ]
utf8_after (r ∷ rs) (c ∷ s) = leb r.0 c && leb c r.1 && utf8_after rs s

-- utf8.ValidString
unfoldable pub utf8_valid : Text → Bool
unfolding utf8_after
utf8_valid s = utf8_after [] s

-- strings.TrimPrefix
unfoldable pub trim_prefix : Text → Text → Text
unfolding has_prefix
trim_prefix s p = if has_prefix s p then drop (length p) s else s

pub has_prefix-append : (p s : Text) → has_prefix (p ++ s) p ≡ true
unfolding has_prefix
has_prefix-append [] [] = refl
has_prefix-append [] (c ∷ s) = refl
has_prefix-append (c ∷ p) s = ground (arith, has_prefix-append p s)

drop-append : (p s : Text) → drop (length p) (p ++ s) ≡ s
drop-append [] s = refl
drop-append (c ∷ p) s = drop-append p s

pub trim_prefix-append : (p s : Text) → trim_prefix (p ++ s) p ≡ s
unfolding trim_prefix
trim_prefix-append p s = rw (has_prefix-append p s) (drop-append p s)

append-drop : (s p : Text) → has_prefix s p ≡ true → s ≡ p ++ drop (length p) s
unfolding has_prefix
append-drop [] [] h = refl
append-drop (c ∷ s) [] h = refl
append-drop [] (d ∷ p) h = ground arith
append-drop (c ∷ s) (d ∷ p) h = ground (arith, append-drop s p)

pub append-trim_prefix : (s p : Text) → has_prefix s p ≡ true → s ≡ p ++ trim_prefix s p
unfolding trim_prefix
append-trim_prefix s p h = rw h (append-drop s p h)
