-- ===== src/Api/Sink.antt =====
-- internal/api/sink.go: the test receiver of the console, and the deliveries that it shows. Every
-- handler holds the mutex for one operation, so the handlers are a sequence of operations.
use koto7_tuma.Prelude.{
  ℕ, ◌-◌, Text, Bool, true, false, List, [], ◌∷◌, ◌++◌, ltb, length, drop, if◌then◌else◌,
}

-- An event without its time.
pub record SinkEvent : Type 0 where
  pub status : ℕ
  pub delivery_id : Text
  pub attempt : Text
  pub body : Text

pub record EchoSink : Type 0 where
  pub fail : Bool
  pub events : List SinkEvent

abbrev pub sink_max_events : ℕ
sink_max_events = 50

abbrev pub new_echo_sink : EchoSink
new_echo_sink = record { fail = false; events = [] }

abbrev pub status_of : Bool → ℕ
status_of fail = if fail then 502 else 200

-- The event gets the status that the receiver answers with, and the oldest events go.
unfoldable pub record_event : SinkEvent → EchoSink → ℕ × EchoSink
record_event ev s =
    let status = status_of s.fail in
    let events = s.events ++ (record ev { status = status }) ∷ [] in
    let kept =
      if ltb sink_max_events (length events)
      then drop (length events - sink_max_events) events
      else events in
    (status, record s { events = kept })

unfoldable pub set_fail : Bool → EchoSink → EchoSink
set_fail fail s = record s { fail = fail }

-- What the handlers sinkReceive, sinkBreak and sinkFix do to the receiver.
pub data SinkOp : Type 0 where
  receive : SinkEvent → SinkOp
  break fix : SinkOp

-- The statuses that the receiver answers with, and the new state.
unfoldable pub step : SinkOp → EchoSink → List ℕ × EchoSink
unfolding record_event set_fail
step (receive ev) s = let (status, s') = record_event ev s in (status ∷ [], s')
step break s = ([], set_fail true s)
step fix s = ([], set_fail false s)

unfoldable pub run : List SinkOp → EchoSink → List ℕ × EchoSink
unfolding step
run [] s = ([], s)
run (op ∷ ops) s =
    let (answers, s') = step op s in let (later, last) = run ops s' in (answers ++ later, last)

-- Everything that is received, with the status that it is answered with, from the switch on.
unfoldable pub received : Bool → List SinkOp → List SinkEvent
received fail [] = []
received fail (receive ev ∷ ops) = (record ev { status = status_of fail }) ∷ received fail ops
received fail (break ∷ ops) = received true ops
received fail (fix ∷ ops) = received false ops
