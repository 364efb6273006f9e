-- ===== src/Storage/IssueLaws.antt =====
-- What RecordIssue and ResolveIssueByEventID of internal/storage/store.go do to the issues.
use koto7_tuma.Prelude.{
  Text, Bool, not, ◌&&◌, ◌⊎◌, max, ◌==◌, ℕ, ◌≡◌, refl, ◌≢◌, true, Option, none, some, List, [], ◌∷◌,
  find, inl, inr, count_where, arith, count-update_none, find-update_self, find-update_other,
  find-append_none, find-append_fails, Bool-cases, ap,
}
use koto7_tuma.Storage.Rows.{Issue, opened, resolved}
use koto7_tuma.Storage.Db.{World, Outcome, Res, ok, statement-ok}
use koto7_tuma.Storage.Issues.{
  is_exhausted_reason, merged_reason, is_of_event, is_open_of_event, merged_issue, upsert_issue,
  lacks_parent, write_issue, record_issue, resolve_issue_by_event_id,
}

-- The issue of an event, and what the row of a new one holds.
abbrev pub issue_of : ℕ → World → Option Issue
issue_of event w = find (is_of_event event) w.tables.issues

abbrev pub new_issue : Issue → World → Issue
new_issue i w = record i { id = w.next_id; status = opened; resolved_at = none; resolved_by = none }

-- The row that RecordIssue leaves, from the row that it found.
abbrev pub recorded : Issue → World → Option Issue → Issue
recorded i w none = new_issue i w
recorded i w (some old) = merged_issue i old

-- The effect of RecordIssue on the issue of its own event.
upsert_self :
    (i : Issue) (o : Option Issue) (w : World)
    → issue_of i.event_id w ≡ o
    → issue_of i.event_id (upsert_issue i o w).1 ≡ some (recorded i w o)
unfolding upsert_issue
upsert_self i none w e =
    rw (find-append_none (is_of_event i.event_id) w.tables.issues (new_issue i w ∷ []) e)
      (unfold find is_of_event in (ground arith))
upsert_self i (some old) w e =
    find-update_self (is_of_event i.event_id) (merged_issue i) w.tables.issues old
      (λ y. unfold is_of_event merged_issue in refl) e

upsert_other :
    (i : Issue) (o : Option Issue) (w : World) (event : ℕ)
    → event ≢ i.event_id
    → issue_of i.event_id w ≡ o
    → issue_of event (upsert_issue i o w).1 ≡ issue_of event w
unfolding upsert_issue
upsert_other i none w event ne e =
    find-append_fails (is_of_event event) w.tables.issues (new_issue i w)
      (unfold is_of_event in (ground arith))
upsert_other i (some old) w event ne e =
    find-update_other (is_of_event event) (is_of_event i.event_id) (merged_issue i) w.tables.issues
      (λ y h. unfold is_of_event in (ground arith)) (λ y. unfold is_of_event merged_issue in refl)

write_issue-ok :
    (i : Issue) (v : World) {w' : World}
    → write_issue i v ≡ (ok tt, w')
    → (upsert_issue i (issue_of i.event_id v) v).1 ≡ w'
unfolding write_issue
write_issue-ok i v {w'} h = elim (Bool-cases (lacks_parent i v)) [
  | inl missing ↦ absurd (ground (arith, missing))
  | inr there ↦ ground (arith, there)
]

-- Where RecordIssue returns, the issue of its own event is the old row merged with the new one, or the
-- new one if there was none, and the issues of other events are as before.
pub record_issue-effect :
    (i : Issue) (w : World) {w' : World}
    → record_issue i w ≡ (ok tt, w')
    → (issue_of i.event_id w' ≡ some (recorded i w (issue_of i.event_id w)))
      × ((event : ℕ) → event ≢ i.event_id → issue_of event w' ≡ issue_of event w)
unfolding record_issue
record_issue-effect i w {w'} h =
    let (o, run) = statement-ok (write_issue i) w h in
    let v = record w { outcomes = o } in
    let e = write_issue-ok i v run in
    (
      rw (← e)
          (recorded_same (issue_of i.event_id w) o (upsert_self i (issue_of i.event_id v) v refl)),
      λ event ne. rw (← e) (upsert_other i (issue_of i.event_id v) v event ne refl),
    )
  where
    recorded_same :
        (old : Option Issue) (o : List Outcome) {x : Option Issue}
        → x ≡ some (recorded i (record w { outcomes = o }) old)
        → x ≡ some (recorded i w old)
    recorded_same none o h = h
    recorded_same (some _) o h = h

-- After ResolveIssueByEventID returns, the event has no open issue.
pub resolve_issue_by_event_id-effect :
    (event : ℕ) (w : World) {w' : World}
    → resolve_issue_by_event_id event w ≡ (ok tt, w')
    → count_where (is_open_of_event event) w'.tables.issues ≡ 0
unfolding resolve_issue_by_event_id
resolve_issue_by_event_id-effect event w {w'} h =
    let (o, run) = statement-ok _ w h in
    let e = ap (λ (p : Res Unit × World). p.1.tables.issues) run in
    rw (← e) (
      count-update_none (is_open_of_event event)
        (λ i. record i { status = resolved; resolved_at = some w.now }) w.tables.issues
        (λ y. unfold is_open_of_event in (ground arith)))

abbrev attempts_of : Option Issue → ℕ
attempts_of none = 0
attempts_of (some o) = o.attempts_exhausted

abbrev all_closing : Option Issue → Bool
all_closing none = true
all_closing (some o) = is_exhausted_reason o.reason

abbrev KeepsRow : Option Issue → Issue → Type 0
KeepsRow none row = Unit
KeepsRow (some o) row = (row.id ≡ o.id) × (row.first_failed_at ≡ o.first_failed_at)

abbrev reason_of : Option Issue → Option Text
reason_of none = none
reason_of (some o) = some o.reason

-- The row of an event after the issue `i`, with `old` before: it is open, counts the most attempts
-- of the two, gives one of their reasons, and one that only says that the attempts are exhausted
-- where neither says more. An old row keeps its identity and its first failure.
pub record IsRecorded (i : Issue) (old : Option Issue) (row : Issue) : Type 0 where
  pub is_opened : row.status ≡ opened
  pub unresolved : row.resolved_at ≡ none
  pub attempts : row.attempts_exhausted ≡ max (attempts_of old) i.attempts_exhausted
  pub closing : is_exhausted_reason row.reason ≡ (is_exhausted_reason i.reason && all_closing old)
  pub reason : (row.reason ≡ i.reason) ⊎ (reason_of old ≡ some row.reason)
  pub kept : KeepsRow old row

closing_of :
    (old new : Text)
    → is_exhausted_reason (merged_reason old new)
      ≡ (is_exhausted_reason new && is_exhausted_reason old)
unfolding merged_reason
closing_of old new = elim (Bool-cases (is_exhausted_reason new)) [
  | inl c ↦ elim (Bool-cases (is_exhausted_reason old)) [
    | inl d ↦ rw (c, d) c
    | inr d ↦ rw (c, d) d
  ]
  | inr c ↦ rw c c
]

reason_from :
    (old new : Text) → (merged_reason old new ≡ new) ⊎ (some old ≡ some (merged_reason old new))
unfolding merged_reason
reason_from old new = elim (Bool-cases (is_exhausted_reason new && not (is_exhausted_reason old))) [
  | inl b ↦ rw b (inr refl)
  | inr b ↦ rw b (inl refl)
]

recorded-IsRecorded :
    (i : Issue) (w : World) (old : Option Issue) → IsRecorded i old (recorded i w old)
unfolding merged_issue
recorded-IsRecorded i w none = record {
  is_opened = refl;
  unresolved = refl;
  attempts = omega arith;
  closing = ground arith;
  reason = inl refl;
  kept = tt;
}
recorded-IsRecorded i w (some o) = record {
  is_opened = refl;
  unresolved = refl;
  attempts = refl;
  closing = closing_of o.reason i.reason;
  reason = reason_from o.reason i.reason;
  kept = (refl, refl);
}

-- Where RecordIssue returns, its event has an issue, which is recorded as `IsRecorded` says from the
-- one that it had before, if any, and the issues of all other events are as before.
pub record_issue-issues :
    (i : Issue) (w : World) {w' : World} (event : ℕ)
    → record_issue i w ≡ (ok tt, w')
    → ((event ≡ i.event_id)
        × ((row : Issue) × (issue_of event w' ≡ some row) × IsRecorded i (issue_of event w) row))
      ⊎ ((event ≢ i.event_id) × (issue_of event w' ≡ issue_of event w))
record_issue-issues i w {w'} event h =
    let (own, others) = record_issue-effect i w h in
    elim (Bool-cases (event == i.event_id)) [
      | inl same ↦
          let e : event ≡ i.event_id = ground (arith, same) in
          inl (
            e,
            (
              recorded i w (issue_of i.event_id w),
              rw e own,
              rw e (recorded-IsRecorded i w (issue_of i.event_id w)),
            ),
          )
      | inr other ↦
          let ne : event ≢ i.event_id = λ e. ground (arith, other, e) in inr (ne, others event ne)
    ]
