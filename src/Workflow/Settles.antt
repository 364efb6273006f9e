-- ===== src/Workflow/Settles.antt =====
-- How DeliveryWorkflow of internal/workflow/delivery.go leaves an event when it returns.
use koto7_tuma.Prelude.{
  ℕ, zero, suc, ◌+◌, ◌≤◌, ◌<◌, ◌≡◌, refl, ap, pos_part, Bool, true, false, Option, none, some, List,
  count_where, arith, Bool-cases, inl, inr, sym, ◌∙◌,
}
use native.Mathlib.Decide.{dec_le}
use koto7_tuma.Float.{FloatOps}
use koto7_tuma.Storage.Env.{StoreEnv}
use koto7_tuma.Storage.Rows.{Event, Issue}
use koto7_tuma.Storage.Db.{
  World, Outcome, Res, ok, bind-ok, remote-ok, ignore_error, attempt, Keeps-statement,
  Keeps-reading, Keeps-ignore_error,
}
use koto7_tuma.Storage.Issues.{
  is_open, is_open_of_event, merged_issue, record_issue, open_issues_count,
}
use koto7_tuma.Storage.IssueLaws.{
  issue_of, recorded, record_issue-effect, resolve_issue_by_event_id-effect,
}
use koto7_tuma.Workflow.Defs.{
  Meta, HttpResult, bad_request, transport_error, responded, Destination, DeliverResult, is_success,
  load_event_meta, settle, deliver_activity, record_delivered, record_issue_activity, run_attempts,
  delivery_workflow,
}

-- The attempt was answered by a status in the 200s.
abbrev pub is_delivered : HttpResult → Bool
is_delivered (responded code) = is_success code
is_delivered _ = false

-- What is left behind: a delivered event with no open issue, or an open issue with all the attempts.
pub data Settled (dest : Destination) (event : ℕ) (first left most : ℕ) (w : World) : Type 0 where
  at_attempt :
      (k : ℕ)
      → first ≤ k
      → k < first + left
      → is_delivered (dest.result k) ≡ true
      → count_where (is_open_of_event event) w.tables.issues ≡ 0
      → Settled dest event first left most w
  exhausted :
      ((k : ℕ) → first ≤ k → k < first + left → is_delivered (dest.result k) ≡ false)
      → (i : Issue) → issue_of event w ≡ some i
      → is_open i ≡ true
      → most ≤ i.attempts_exhausted
      → Settled dest event first left most w

open_issues_count-issues :
    (w : World) → (ignore_error open_issues_count w).1.tables.issues ≡ w.tables.issues
unfolding open_issues_count
open_issues_count-issues w =
    (Keeps-ignore_error {P = λ t n. t.issues ≡ w.tables.issues} _
        (Keeps-statement _ (Keeps-reading _))).at
      w refl

settle-success :
    (dest : Destination) (id attempt : ℕ) (e : Event) (delivery_id : ℕ) (r : HttpResult) (w : World)
    {x : DeliverResult} {w' : World}
    → settle dest id attempt e delivery_id r w ≡ (ok x, w')
    → x.success ≡ is_delivered r
unfolding settle
settle-success dest id attempt e delivery_id (bad_request m) w h = ground arith
settle-success dest id attempt e delivery_id (transport_error m) w {x} h =
    let (_, _, h₁) = bind-ok _ _ w {b = x} h in
    let (_, _, h₂) = bind-ok _ _ _ {b = x} h₁ in ground arith
settle-success dest id attempt e delivery_id (responded code) w {x} h =
    let (_, _, h₁) = bind-ok _ _ w {b = x} h in
    let (_, _, h₂) = bind-ok _ _ _ {b = x} h₁ in ground arith

-- An activity that returns says truly whether its attempt was answered by a success.
deliver_activity-success :
    (env : StoreEnv) (dest : Destination) (id attempt : ℕ) (w : World) {x : DeliverResult}
    {w' : World}
    → deliver_activity env dest id attempt w ≡ (ok x, w')
    → x.success ≡ is_delivered (dest.result attempt)
unfolding deliver_activity
deliver_activity-success env dest id attempt w {x} h =
    let (e, _, h₁) = bind-ok _ _ w {b = x} h in
    let (c, _, h₂) = bind-ok _ _ _ {b = x} h₁ in
    let (d, _, h₃) = bind-ok _ _ _ {b = x} h₂ in
    let (_, _, h₄) = bind-ok _ _ _ {b = x} h₃ in
    settle-success dest id attempt e d (dest.result attempt) _ h₄

record_delivered-resolves :
    (id : ℕ) (w : World) {w' : World}
    → record_delivered id w ≡ (ok tt, w')
    → count_where (is_open_of_event id) w'.tables.issues ≡ 0
unfolding record_delivered
record_delivered-resolves id w {w'} h =
    let (_, ran, counted) = bind-ok _ _ w {b = tt} h in
    let e = ap (λ (p : Res Unit × World). p.1.tables.issues) counted in
    rw (← e, open_issues_count-issues) (resolve_issue_by_event_id-effect id w ran)

recorded_facts :
    (i : Issue) (w : World) (old : Option Issue)
    → (is_open (recorded i w old) ≡ true)
      × (i.attempts_exhausted ≤ (recorded i w old).attempts_exhausted)
unfolding is_open merged_issue
recorded_facts i w none = (refl, omega arith)
recorded_facts i w (some old) = (refl, omega arith)

record_issue-opens :
    (i : Issue) (w : World) {w' : World}
    → record_issue i w ≡ (ok tt, w')
    → (x : Issue) × (issue_of i.event_id w' ≡ some x)
      × (is_open x ≡ true)
      × (i.attempts_exhausted ≤ x.attempts_exhausted)
record_issue-opens i w h =
    let old = issue_of i.event_id w in
    let (opens, enough) = recorded_facts i w old in
    (recorded i w old, (record_issue-effect i w h).0, opens, enough)

record_issue_activity-opens :
    (env : StoreEnv) (id most : ℕ) (w : World) {w' : World}
    → record_issue_activity env id most w ≡ (ok tt, w')
    → (i : Issue) × (issue_of id w' ≡ some i) × (is_open i ≡ true) × (most ≤ i.attempts_exhausted)
unfolding record_issue_activity
record_issue_activity-opens env id most w {w'} h =
    let (event, _, h₁) = bind-ok _ _ w {b = tt} h in
    let (now, _, h₂) = bind-ok _ _ _ {b = tt} h₁ in
    let (_, ran, counted) = bind-ok _ _ _ {b = tt} h₂ in
    let (x, found, opens, enough) = record_issue-opens _ _ ran in
    let e = ap (λ (p : Res Unit × World). p.1.tables.issues) counted in
    (x, rw (← e, open_issues_count-issues) found, opens, enough)

delivered_now :
    (dest : Destination) (event first left most : ℕ) (w : World)
    → is_delivered (dest.result first) ≡ true
    → count_where (is_open_of_event event) w.tables.issues ≡ 0
    → Settled dest event first (suc left) most w
delivered_now dest event first left most w d c = at_attempt first (omega arith) (omega arith) d c

delivered_later :
    (dest : Destination) (event first left most : ℕ) (w : World)
    → is_delivered (dest.result first) ≡ false
    → Settled dest event (first + 1) left most w
    → Settled dest event first (suc left) most w
delivered_later dest event first left most w f (at_attempt k lo hi d c) =
    at_attempt k (omega arith) (omega arith) d c
delivered_later dest event first left most w f (exhausted none_of i e o n) =
    exhausted
      (λ k lo hi. elim (dec_le (first + 1) k) [
        | yes above ↦ none_of k above (omega arith)
        | no at ↦ let same : k ≡ first = omega arith in rw same f
      ])
      i e o n

run_attempts-settles :
    (ops : FloatOps) (env : StoreEnv) (dest : Destination) (id : ℕ) (meta : Meta)
    (most first left : ℕ) (w : World) {w' : World}
    → run_attempts ops env dest id meta most first left w ≡ (ok tt, w')
    → Settled dest id first left most w'
unfolding run_attempts
run_attempts-settles ops env dest id meta most first zero w {w'} h =
    let (o, ran) = remote-ok _ w h in
    let (i, e, opens, enough) = record_issue_activity-opens env id most _ ran in
    exhausted (λ k lo hi. absurd (omega arith)) i e opens enough
run_attempts-settles ops env dest id meta most first (suc left) w {w'} h =
    let (r, ran, rest) = bind-ok _ _ w {b = tt} h in
    let (o, ran') = remote-ok _ w ran in
    let truth = deliver_activity-success env dest id first _ ran' in
    elim (Bool-cases r.success) [
      | inl good ↦
          let settled = rw good at rest in
          let (o', ran'') = remote-ok _ _ settled in
          delivered_now dest id first left most w' (sym truth ∙ good)
            (record_delivered-resolves id _ ran'')
      | inr bad ↦
          let paused = rw bad at rest in
          let (_, _, again) = bind-ok _ _ _ {b = tt} paused in
          delivered_later dest id first left most w' (sym truth ∙ bad)
            (run_attempts-settles ops env dest id meta most (first + 1) left _ again)
    ]

-- A delivery workflow that returns without an error, whatever calls failed on the way, made its
-- attempts as the connection says: either an attempt in range was answered by a success and the
-- event has no open issue, or all attempts in range failed and the event has an open issue that
-- counts them all.
pub delivery_workflow-settles :
    (ops : FloatOps) (env : StoreEnv) (dest : Destination) (id : ℕ) (w : World) {w' : World}
    → delivery_workflow ops env dest id w ≡ (ok tt, w')
    → (o : List Outcome) × (meta : Meta) × ((load_event_meta env id (record w { outcomes = o })).0
        ≡ ok meta)
      × Settled dest id 1 (pos_part meta.retry_attempts) (pos_part meta.retry_attempts) w'
unfolding delivery_workflow
delivery_workflow-settles ops env dest id w h =
    let (meta, ran, rest) = bind-ok _ _ w {b = tt} h in
    let (o, ran') = remote-ok _ w ran in
    (
      o,
      meta,
      ap (λ (p : Res Meta × World). p.0) ran',
      run_attempts-settles ops env dest id meta (pos_part meta.retry_attempts) 1 _ _ rest,
    )
