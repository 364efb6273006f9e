-- ===== src/Api/Answers.antt =====
-- What a successful answer of a handler says of its calls, and handlers that change nothing.
use koto7_tuma.Prelude.{
  ℕ, ◌≡◌, refl, ap, Bool, true, false, Option, none, some, arith, if◌then◌else◌,
}
use koto7_tuma.Storage.Db.{World, Db, Res, ok, err, pure, ◌>>=◌, attempt}
use koto7_tuma.Api.Http.{
  Answer, success, refusal, unless_error, unless_nil, unless_none, call_or, find_or,
}

-- The reply of a handler that answers with success.
abbrev pub Succeeds : {A : Type 0} → Db (Answer A) → World → ℕ → A → World → Type 0
Succeeds m w code a w' = m w ≡ (ok (success code a), w')

module _ {A B : Type 0} where
  unless_error-success :
      (status : ℕ) (next : A → Db (Answer B)) (r : Res A) (w : World) {code : ℕ} {b : B}
      {w' : World}
      → Succeeds (unless_error status next r) w code b w'
      → (a : A) × (r ≡ ok a) × Succeeds (next a) w code b w'
  unless_error-success status next (ok a) w h = (a, refl, h)
  unless_error-success status next (err e) w h = absurd (ground arith)

  unless_nil-success :
      (status : ℕ) (next : A → Db (Answer B)) (r : Res (Option A)) (w : World) {code : ℕ} {b : B}
      {w' : World}
      → Succeeds (unless_nil status next r) w code b w'
      → (a : A) × (r ≡ ok (some a)) × Succeeds (next a) w code b w'
  unless_nil-success status next (ok (some a)) w h = (a, refl, h)
  unless_nil-success status next (ok none) w h = absurd (ground arith)
  unless_nil-success status next (err e) w h = absurd (ground arith)

  pub unless_none-success :
      (status : ℕ) (next : A → Db (Answer B)) (o : Option A) (w : World) {code : ℕ} {b : B}
      {w' : World}
      → Succeeds (unless_none status next o) w code b w'
      → (a : A) × (o ≡ some a) × Succeeds (next a) w code b w'
  unless_none-success status next (some a) w h = (a, refl, h)
  unless_none-success status next none w h = absurd (ground arith)

  pub call_or-success :
      (status : ℕ) (m : Db A) (next : A → Db (Answer B)) (w : World) {code : ℕ} {b : B} {w' : World}
      → Succeeds (call_or status m next) w code b w'
      → (a : A) × (m w ≡ (ok a, (m w).1)) × Succeeds (next a) (m w).1 code b w'
  unfolding call_or ◌>>=◌ attempt
  call_or-success status m next w h =
      let (a, e, k) = unless_error-success status next (m w).0 (m w).1 h in
      (a, ap (λ (r : Res A). (r, (m w).1)) e, k)

  pub find_or-success :
      (status : ℕ) (m : Db (Option A)) (next : A → Db (Answer B)) (w : World) {code : ℕ} {b : B}
      {w' : World}
      → Succeeds (find_or status m next) w code b w'
      → (a : A) × (m w ≡ (ok (some a), (m w).1)) × Succeeds (next a) (m w).1 code b w'
  unfolding find_or ◌>>=◌ attempt
  find_or-success status m next w h =
      let (a, e, k) = unless_nil-success status next (m w).0 (m w).1 h in
      (a, ap (λ (r : Res (Option A)). (r, (m w).1)) e, k)

module _ {B : Type 0} where
  -- `if !b { refuse }` passed
  pub then-success :
      (status : ℕ) (b : Bool) (m : Db (Answer B)) (w : World) {code : ℕ} {x : B} {w' : World}
      → Succeeds (if b then m else pure (refusal status)) w code x w'
      → (b ≡ true) × Succeeds m w code x w'
  then-success status true m w h = (refl, h)
  then-success status false m w h = absurd (ground arith)

  -- `if b { refuse }` passed
  pub else-success :
      (status : ℕ) (b : Bool) (m : Db (Answer B)) (w : World) {code : ℕ} {x : B} {w' : World}
      → Succeeds (if b then pure (refusal status) else m) w code x w'
      → (b ≡ false) × Succeeds m w code x w'
  else-success status true m w h = absurd (ground arith)
  else-success status false m w h = (refl, h)
