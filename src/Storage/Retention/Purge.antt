-- ===== src/Storage/Retention/Purge.antt =====
-- What PurgeExpiredEvents of internal/storage/event_crypto.go deletes and what it keeps.
use mathlib.Core.Path.{subst}
use mathlib.Core.List.{Memᴰ}
use koto7_tuma.Prelude.{
  ℕ, ◌+◌, ◌*◌, ◌≤◌, ◌<◌, ◌≡◌, refl, sym, ap, ◌∙◌, pos, ◌⊎◌, inl, inr, Bool, true, not, some, List,
  [], ◌∷◌, find, keep_if, Bool-cases, arith, ltb,
}
use koto7_tuma.Storage.Rows.{Connection, Event}
use koto7_tuma.Storage.Connections.{has_connection_id}
use koto7_tuma.Storage.Retention.{day, is_past, is_expired, purged, purge_expired_events}
use koto7_tuma.Storage.Db.{World, statement-calm_eq}

keep-kept :
    {A : Type 0} (p : A → Bool) (x : A) (xs : List A)
    → p x ≡ true
    → Memᴰ x xs
    → Memᴰ x (keep_if p xs)
unfolding keep_if
keep-kept p x [] h m = elim m [ ]
keep-kept p x (y ∷ ys) h (Memᴰ.head e) =
    let here : p y ≡ true = ap p (sym e) ∙ h in rw here (Memᴰ.head e)
keep-kept p x (y ∷ ys) h (Memᴰ.tail m) = elim (Bool-cases (p y)) [
  | inl hit ↦ rw hit (Memᴰ.tail (keep-kept p x ys h m))
  | inr miss ↦ rw miss (keep-kept p x ys h m)
]

module _ {A : Type 0} (p : A → Bool) (x : A) where
  kept-tail :
      (y : A) (ys : List A) (rest : Memᴰ x ys → p x ≡ true)
      → p y ≡ true
      → Memᴰ x (y ∷ ys)
      → p x ≡ true
  kept-tail y ys rest hit (Memᴰ.head e) = ap p e ∙ hit
  kept-tail y ys rest hit (Memᴰ.tail m) = rest m

  kept-holds : (xs : List A) → Memᴰ x (keep_if p xs) → p x ≡ true
  unfolding keep_if
  kept-holds [] m = elim m [ ]
  kept-holds (y ∷ ys) m = elim (Bool-cases (p y)) [
    | inl hit ↦ kept-tail y (keep_if p ys) (kept-holds ys) hit (rw hit at m)
    | inr miss ↦ kept-holds ys (rw miss at m)
  ]

expired_at :
    (w : World) (e : Event) (c : Connection) (days : ℕ)
    → find (has_connection_id e.connection_id) w.tables.connections ≡ some c
    → c.retention_days ≡ pos days
    → is_expired w e ≡ ltb (e.received_at + days * day) (w.now + 0 * day)
unfolding is_expired is_past
expired_at w e c days found kept = rw (found, kept) refl

events_after :
    (w : World)
    → w.outcomes ≡ []
    → (purge_expired_events w).1.tables.events ≡ keep_if (λ x. not (is_expired w x)) w.tables.events
unfolding purge_expired_events purged
events_after w calm = ap (λ p. p.1.tables.events) (statement-calm_eq _ w calm)

-- Where its statement goes well, the purge keeps an event of a connection whose retention, in days of
-- 24 hours, is not over, and deletes one whose retention is over: one that stands at its end is kept.
pub purge_expired_events-keeps :
    (w : World) (e : Event) (c : Connection) (days : ℕ)
    → w.outcomes ≡ []
    → Memᴰ e w.tables.events
    → find (has_connection_id e.connection_id) w.tables.connections ≡ some c
    → c.retention_days ≡ pos days
    → ((w.now ≤ e.received_at + days * (24 * 3600 * 1000000000))
        × Memᴰ e (purge_expired_events w).1.tables.events)
      ⊎ ((e.received_at + days * (24 * 3600 * 1000000000) < w.now)
          × ¬ Memᴰ e (purge_expired_events w).1.tables.events)
purge_expired_events-keeps w e c days calm mem found kept =
    let is = expired_at w e c days found kept in
    elim (Bool-cases (is_expired w e)) [
      | inl over ↦ inr (
        ground (arith, is, over),
        λ m.
            let stays = subst (Memᴰ e) (events_after w calm) m in
            let still = kept-holds (λ x. not (is_expired w x)) e w.tables.events stays in
            absurd (ground (arith, still, over)),
      )
      | inr within ↦ inl (
        ground (arith, is, within),
        subst (Memᴰ e) (sym (events_after w calm))
            (keep-kept (λ x. not (is_expired w x)) e w.tables.events (ground (arith, within)) mem),
      )
    ]
