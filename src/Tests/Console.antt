-- ===== src/Tests/Console.antt =====
-- The test receiver, the stream limiter, the settings and an email.
use koto7_tuma.Prelude.{newest, ◌+◌, ◌≡◌, ◌≤◌, str, false, [], ◌∷◌}
use koto7_tuma.Api.Sink.{SinkEvent, run}
use koto7_tuma.Api.Streams.{held_by, no_streams, open_stream, close_stream, run-bounded}
use koto7_tuma.Api.Streams
use koto7_tuma.Playground.Hub.{
  LogEvent, SessionHub, subscribed, published, new_session_hub, dest_events, run-keeps_newest,
  subscribe, subscribe-oldest,
}
use koto7_tuma.Playground.Hub
use koto7_tuma.Notification.Mail.{build_message}
use koto7_tuma.Notification.Headers.{line_feeds, returns, build_message-line_ends}

abbrev ping : SinkEvent
ping = record { status = 0; delivery_id = str "d"; attempt = str "1"; body = str "{}" }

run-bounded_example :
    held_by
      (str "b")
      (Streams.run 3
        (open_stream (str "a") ∷ open_stream (str "b") ∷ close_stream (str "a") ∷ [])
        no_streams).held
    ≤ 3
run-bounded_example =
    run-bounded 3 (open_stream (str "a") ∷ open_stream (str "b") ∷ close_stream (str "a") ∷ [])
      (str "b")

build_message-line_ends_example :
    (line_feeds (build_message (str "a") (str "b") (13 ∷ 10 ∷ str "Bcc: c") (str "x"))
      ≡ 6 + line_feeds (str "x"))
    × (returns (build_message (str "a") (str "b") (13 ∷ 10 ∷ str "Bcc: c") (str "x"))
        ≡ 6 + returns (str "x"))
build_message-line_ends_example =
    build_message-line_ends (str "a") (str "b") (13 ∷ 10 ∷ str "Bcc: c") (str "x")

abbrev shown : LogEvent
shown = record { line = str "POST 200"; delivery_id = str "d"; body_preview = [] }

run-keeps_newest_example :
    (Hub.run (subscribed false 1 ∷ published false shown ∷ []) new_session_hub).dest_log
    ≡ newest 50 (dest_events (subscribed false 1 ∷ published false shown ∷ []))
run-keeps_newest_example = run-keeps_newest (subscribed false 1 ∷ published false shown ∷ [])

abbrev watched : SessionHub
watched = record {
  dest_log = shown ∷ [];
  sim_subs = (record { id = 4; buffer = [] }) ∷ [];
  dest_subs = [];
}

subscribe-oldest_example :
    subscribe false 1 watched
    ≡ record watched { dest_subs = (record { id = 1; buffer = shown ∷ [] }) ∷ [] }
subscribe-oldest_example = subscribe-oldest 1 watched
