-- ===== src/Api/Guards.antt =====
-- What a handler of internal/api leaves where it answers that a request is wrong.
use koto7_tuma.Prelude.{
  ℕ, ◌≡◌, ◌≤◌, ◌<◌, refl, ◌∙◌, Text, Bool, true, false, Option, none, some, List, [], ◌∷◌, arith,
  if◌then◌else◌,
}
use koto7_tuma.Storage.Rows.{Tables}
use koto7_tuma.Storage.Accounts.{get_session}
use koto7_tuma.Storage.Db.{
  World, Outcome, fine, refused, reply_lost, Db, Err, db_error, no_rows, alert_rule_not_found,
  too_many_alert_rules, crypto_error, failed_with, Res, ok, err, pure, continue, ◌>>=◌, attempt,
  run_statement, statement, Leaves, Leaves-reading, Leaves-statement,
}
use koto7_tuma.Api.Http.{
  Answer, refusal, ConsoleEnv, unless_error, unless_nil, unless_none, call_or, find_or,
}
use koto7_tuma.Api.Auth.{auth, admit, session_id_of}
use koto7_tuma.Api.Rules.{code_of, status_of}

abbrev pub tables_of : World → Tables
tables_of w = w.tables

abbrev pub is_db_error : Err → Bool
is_db_error db_error = true
is_db_error no_rows = false
is_db_error alert_rule_not_found = false
is_db_error too_many_alert_rules = false
is_db_error crypto_error = false
is_db_error (failed_with _) = false

-- What a call that gives an error of the code's own leaves: all tables.
pub record Spares {A : Type 0} (m : Db A) : Type 0 where
  pub at :
      (w : World) (e : Err) → (m w).0 ≡ err e → is_db_error e ≡ false → (m w).1.tables ≡ w.tables

run-Spares :
    {A : Type 0} (body : Db A) (o : List Outcome) (w : World) (e : Err)
    → Spares body
    → (run_statement o body w).0 ≡ err e
    → is_db_error e ≡ false
    → (run_statement o body w).1.tables ≡ w.tables
run-Spares body [] w e s h k = s.at w e h k
run-Spares body (fine ∷ rest) w e s h k = s.at (record w { outcomes = rest }) e h k
run-Spares body (refused ∷ rest) w e s h k = refl
run-Spares body (reply_lost ∷ rest) w e s h k = absurd (ground (arith, h, k))

pub Spares-statement : {A : Type 0} (body : Db A) → Spares body → Spares (statement body)
unfolding statement
Spares-statement body s = record { at = λ w e h k. run-Spares body w.outcomes w e s h k }

continue-Spares :
    {A B : Type 0} (r : Res A) (g : A → Db B) (w : World) (e : Err)
    → ((a : A) → Spares (g a))
    → (continue r g w).0 ≡ err e
    → is_db_error e ≡ false
    → (continue r g w).1.tables ≡ w.tables
continue-Spares (ok a) g w e s h k = (s a).at w e h k
continue-Spares (err x) g w e s h k = refl

pub Spares-bind :
    {A B : Type 0} (m : Db A) (g : A → Db B)
    → Leaves tables_of m
    → ((a : A) → Spares (g a))
    → Spares (m >>= g)
unfolding ◌>>=◌
Spares-bind m g l s = record { at = λ w e h k. continue-Spares (m w).0 g (m w).1 e s h k ∙ l.at w }

-- What a handler leaves where it answers with the status of a wrong request: all tables.
pub record Guards {A : Type 0} (m : Db (Answer A)) : Type 0 where
  pub at :
      (w : World) (a : Answer A)
      → (m w).0 ≡ ok a
      → 400 ≤ code_of a
      → code_of a < 500
      → (m w).1.tables ≡ w.tables

pub Guards-Leaves : {A : Type 0} (m : Db (Answer A)) → Leaves tables_of m → Guards m
Guards-Leaves m l = record { at = λ w a h low high. l.at w }

pub Guards-if :
    {A : Type 0} (b : Bool) (m n : Db (Answer A))
    → Guards m
    → Guards n
    → Guards (if b then m else n)
Guards-if true m n gm gn = gm
Guards-if false m n gm gn = gn

pub Guards-refuse : {A : Type 0} (status : ℕ) → Guards {A = A} (pure (refusal status))
Guards-refuse status = record { at = λ w a h low high. refl }

pub Guards-none :
    {A B : Type 0} (status : ℕ) (next : A → Db (Answer B)) (o : Option A)
    → ((a : A) → Guards (next a))
    → Guards (unless_none status next o)
Guards-none status next none g = Guards-refuse status
Guards-none status next (some a) g = g a

pub Guards-error :
    {A B : Type 0} (status : ℕ) (next : A → Db (Answer B)) (r : Res A)
    → ((a : A) → Guards (next a))
    → Guards (unless_error status next r)
Guards-error status next (ok a) g = g a
Guards-error status next (err e) g = Guards-refuse status

pub Guards-nil :
    {A B : Type 0} (status : ℕ) (next : A → Db (Answer B)) (r : Res (Option A))
    → ((a : A) → Guards (next a))
    → Guards (unless_nil status next r)
Guards-nil status next (ok (some a)) g = g a
Guards-nil status next (ok none) g = Guards-refuse status
Guards-nil status next (err e) g = Guards-refuse status

pub Guards-call :
    {A B : Type 0} (status : ℕ) (m : Db A) (next : A → Db (Answer B))
    → Leaves tables_of m
    → ((a : A) → Guards (next a))
    → Guards (call_or status m next)
unfolding call_or ◌>>=◌ attempt
Guards-call status m next l g = record {
  at = λ w a h low high. (Guards-error status next (m w).0 g).at (m w).1 a h low high ∙ l.at w;
}

pub Guards-find :
    {A B : Type 0} (status : ℕ) (m : Db (Option A)) (next : A → Db (Answer B))
    → Leaves tables_of m
    → ((a : A) → Guards (next a))
    → Guards (find_or status m next)
unfolding find_or ◌>>=◌ attempt
Guards-find status m next l g = record {
  at = λ w a h low high. (Guards-nil status next (m w).0 g).at (m w).1 a h low high ∙ l.at w;
}

-- How a handler answers what its last statement gives: with the status of a wrong request for no
-- result but an error of the code's own.
pub record Reports {A B : Type 0} (next : Res A → Db (Answer B)) : Type 0 where
  pub leaves : (r : Res A) → Leaves tables_of (next r)
  pub own :
      (r : Res A) (w : World) (b : Answer B)
      → (next r w).0 ≡ ok b
      → 400 ≤ code_of b
      → code_of b < 500
      → (e : Err) × ((r ≡ err e) × (is_db_error e ≡ false))

pub Guards-last :
    {A B : Type 0} (m : Db A) (next : Res A → Db (Answer B))
    → Spares m
    → Reports next
    → Guards (attempt m >>= next)
unfolding ◌>>=◌ attempt
Guards-last m next s r = record {
  at = λ w b h low high.
      let (e, (k, mine)) = r.own (m w).0 (m w).1 b h low high in
      (r.leaves (m w).0).at (m w).1 ∙ s.at w e k mine;
}

pub auth-Guards :
    {A : Type 0} (env : ConsoleEnv) (m : Db (Answer A)) (cookie : Option Text)
    → Guards m
    → Guards (auth env m cookie)
unfolding auth admit get_session
auth-Guards env m cookie g =
    Guards-none 401 _ (session_id_of env cookie)
      λ id. Guards-find 401 _ _ (Leaves-statement (λ w o. refl) _ (Leaves-reading _)) (λ s. g)

coded :
    {A : Type 0} (m : Db (Answer A)) (r : Res (Answer A)) (w : World) {code : ℕ}
    → Guards m
    → (m w).0 ≡ r
    → (continue r (λ a. pure (code_of a)) (m w).1).0 ≡ ok code
    → 400 ≤ code
    → code < 500
    → (continue r (λ a. pure (code_of a)) (m w).1).1.tables ≡ w.tables
coded m (ok a) w g e h low high = g.at w a e (ground (arith, h, low)) (ground (arith, h, high))
coded m (err x) w g e h low high = absurd (ground (arith, h))

pub coded-tables :
    {A : Type 0} (m : Db (Answer A)) (w : World) {code : ℕ}
    → Guards m
    → (status_of m w).0 ≡ ok code
    → 400 ≤ code
    → code < 500
    → (status_of m w).1.tables ≡ w.tables
unfolding ◌>>=◌
coded-tables m w g h low high = coded m (m w).0 w g refl h low high
