-- ===== src/Playground/Hub.antt =====
-- internal/playground/hub.go: the log and the subscribers of one session. A channel is the events
-- that it holds, with its identity; a send that would block is dropped. Every operation holds the
-- session's mutex, so the program is a sequence of operations.
use koto7_tuma.Prelude.{
  ℕ, zero, suc, ◌+◌, ◌-◌, ◌≡◌, refl, ap, sym, ◌∙◌, Text, Bool, true, false, not, List, [], ◌∷◌,
  ◌++◌, map, ltb, ◌==◌, length, take, drop, keep_if, newest, if-newest, newest-append, append_assoc,
  append_nil, length-append, arith, if◌then◌else◌,
}

-- An event without its time.
pub record LogEvent : Type 0 where
  pub line : Text
  pub delivery_id : Text
  pub body_preview : Text

pub record Channel : Type 0 where
  pub id : ℕ
  pub buffer : List LogEvent

pub record SessionHub : Type 0 where
  pub dest_log : List LogEvent
  pub sim_subs : List Channel
  pub dest_subs : List Channel

abbrev pub max_dest_log : ℕ
max_dest_log = 50

abbrev pub capacity : ℕ
capacity = 32

abbrev pub new_session_hub : SessionHub
new_session_hub = record { dest_log = []; sim_subs = []; dest_subs = [] }

-- select { case ch <- e: default: }
unfoldable pub offer : LogEvent → List LogEvent → List LogEvent
offer ev buffer = if ltb (length buffer) capacity then buffer ++ ev ∷ [] else buffer

unfoldable pub offer_all : List LogEvent → List LogEvent → List LogEvent
unfolding offer
offer_all [] buffer = buffer
offer_all (ev ∷ evs) buffer = offer_all evs (offer ev buffer)

unfoldable pub subscribe : Bool → ℕ → SessionHub → SessionHub
unfolding offer_all
subscribe true id h = record h { sim_subs = (record { id = id; buffer = [] }) ∷ h.sim_subs }
subscribe false id h = record h {
  dest_subs = (record { id = id; buffer = offer_all h.dest_log [] }) ∷ h.dest_subs;
}

unfoldable pub unsubscribe : Bool → ℕ → SessionHub → SessionHub
unsubscribe true id h = record h { sim_subs = keep_if (λ c. not (c.id == id)) h.sim_subs }
unsubscribe false id h = record h { dest_subs = keep_if (λ c. not (c.id == id)) h.dest_subs }

abbrev pub offer_to : LogEvent → Channel → Channel
offer_to ev c = record c { buffer = offer ev c.buffer }

unfoldable pub send_to : LogEvent → List Channel → List Channel
unfolding offer
send_to ev subs = map (offer_to ev) subs

unfoldable pub publish : Bool → LogEvent → SessionHub → SessionHub
unfolding send_to
publish true ev h = record h { sim_subs = send_to ev h.sim_subs }
publish false ev h =
    let log = h.dest_log ++ ev ∷ [] in
    record h {
      dest_log =
          if ltb max_dest_log (length log) then drop (length log - max_dest_log) log else log;
      dest_subs = send_to ev h.dest_subs;
    }

-- What the handlers do with a session.
pub data HubOp : Type 0 where
  subscribed unsubscribed : Bool → ℕ → HubOp
  published : Bool → LogEvent → HubOp

unfoldable pub run : List HubOp → SessionHub → SessionHub
unfolding subscribe unsubscribe publish
run [] h = h
run (subscribed sim id ∷ ops) h = run ops (subscribe sim id h)
run (unsubscribed sim id ∷ ops) h = run ops (unsubscribe sim id h)
run (published sim ev ∷ ops) h = run ops (publish sim ev h)

-- The events that are published to the destination's view.
unfoldable pub dest_events : List HubOp → List LogEvent
dest_events [] = []
dest_events (published false ev ∷ ops) = ev ∷ dest_events ops
dest_events (published true ev ∷ ops) = dest_events ops
dest_events (subscribed sim id ∷ ops) = dest_events ops
dest_events (unsubscribed sim id ∷ ops) = dest_events ops

run-log :
    (ops : List HubOp) (h : SessionHub) (past : List LogEvent)
    → h.dest_log ≡ newest 50 past
    → (run ops h).dest_log ≡ newest 50 (past ++ dest_events ops)
unfolding run dest_events subscribe unsubscribe publish
run-log [] h past e = rw (append_nil past) e
run-log (subscribed true id ∷ ops) h past e = run-log ops (subscribe true id h) past e
run-log (subscribed false id ∷ ops) h past e = run-log ops (subscribe false id h) past e
run-log (unsubscribed true id ∷ ops) h past e = run-log ops (unsubscribe true id h) past e
run-log (unsubscribed false id ∷ ops) h past e = run-log ops (unsubscribe false id h) past e
run-log (published true ev ∷ ops) h past e = run-log ops (publish true ev h) past e
run-log (published false ev ∷ ops) h past e =
    run-log ops (publish false ev h) (past ++ ev ∷ []) (
      if-newest 50 (h.dest_log ++ ev ∷ [])
      ∙ ap (λ es. newest 50 (es ++ ev ∷ [])) e
      ∙ newest-append 49 past ev)
    ∙ ap (λ t. newest 50 t) (append_assoc past (ev ∷ []) (dest_events ops))

-- Whatever is done with a new session, its log holds the newest 50 of the events that were published
-- to the destination's view.
pub run-keeps_newest :
    (ops : List HubOp) → (run ops new_session_hub).dest_log ≡ newest 50 (dest_events ops)
run-keeps_newest ops = run-log ops new_session_hub [] refl

full :
    (evs buffer : List LogEvent)
    → ltb (length buffer) capacity ≡ false
    → offer_all evs buffer ≡ buffer
unfolding offer_all offer
full [] buffer h = refl
full (ev ∷ evs) buffer h = rw h (full evs buffer h)

offered :
    (evs buffer : List LogEvent) (room : ℕ)
    → length buffer + room ≡ capacity
    → offer_all evs buffer ≡ buffer ++ take room evs
unfolding offer_all offer
offered evs buffer zero h = full evs buffer (ground (arith, h)) ∙ sym (append_nil buffer)
offered [] buffer (suc room) h = sym (append_nil buffer)
offered (ev ∷ evs) buffer (suc room) h =
    let fits : ltb (length buffer) capacity ≡ true = ground (arith, h) in
    rw fits (
      offered evs (buffer ++ ev ∷ []) room (omega (arith, h, length-append buffer (ev ∷ [])))
      ∙ append_assoc buffer (ev ∷ []) (take room evs))

-- The channel of a new subscriber to the destination's view holds the oldest 32 events of the log,
-- and nothing else changes: no other channel of either view, and not the log.
pub subscribe-oldest :
    (id : ℕ) (h : SessionHub)
    → subscribe false id h
      ≡ record h { dest_subs = (record { id = id; buffer = take 32 h.dest_log }) ∷ h.dest_subs }
unfolding subscribe
subscribe-oldest id h =
    let e : offer_all h.dest_log [] ≡ take 32 h.dest_log =
      offered h.dest_log [] 32 (omega arith) ∙ nil_append (take 32 h.dest_log) in
    rw e refl
  where
    nil_append : (xs : List LogEvent) → [] ++ xs ≡ xs
    nil_append [] = refl
    nil_append (x ∷ xs) = ap (λ t. x ∷ t) (nil_append xs)
