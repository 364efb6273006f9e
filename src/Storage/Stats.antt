-- ===== src/Storage/Stats.antt =====
-- internal/storage/stats.go and OldestOpenIssueAge of store.go: the counts of the last 24 hours.
-- `percentile` is Postgres' percentile_cont(0.95), and `hours` its EXTRACT(EPOCH ...) / 3600 of a
-- number of nanoseconds, as a float8.
use koto7_tuma.Prelude.{
  ℕ, ◌+◌, ◌-◌, ◌*◌, ◌/◌, Text, str, Bool, true, false, ◌&&◌, Option, none, some, List, [], ◌∷◌, map,
  reverse, ltb, ◌==◌, min, pos, find, keep_if, count_where, if◌then◌else◌,
}
use koto7_tuma.Float.{Float64, FloatOps}
use koto7_tuma.Storage.Rows.{
  Connection, Event, Delivery, DeliveryStatus, delivered, failed, Issue, Tables,
}
use koto7_tuma.Storage.Connections.{list_connections}
use koto7_tuma.Storage.Events.{has_event_id}
use koto7_tuma.Storage.Issues.{is_open, open_issues_count}
use koto7_tuma.Storage.Db.{World, Db, ok, pure, ◌>>=◌, statement}

-- 24 hours and one hour, in nanoseconds
abbrev pub hour : ℕ
hour = 3600000000000

abbrev pub day : ℕ
day = 24 * hour

-- t > NOW() - INTERVAL '24 hours'
abbrev pub within_day : ℕ → ℕ → Bool
within_day now t = ltb now (t + day)

-- The status is text: healthy, degraded or failing.
unfoldable pub derive_connection_status : ℕ → ℕ → ℕ → Text
derive_connection_status open_issues failed_24h delivered_24h =
    if ltb 0 open_issues
    then str "failing"
    else if ltb 0 failed_24h
    then str "degraded"
    else if ltb 0 delivered_24h
    then str "healthy"
    else str "healthy"

pub record HourlyCount : Type 0 where
  pub hour_start : ℕ
  pub count : ℕ

-- The counts of one connection. `p95_latency_ms` is the bits of an int.
pub record ConnectionStats : Type 0 where
  pub connection_id : ℕ
  pub delivered_24h : ℕ
  pub failed_24h : ℕ
  pub open_issues : ℕ
  pub p95_latency_ms : ℕ
  pub status : Text

pub record ConnectionMetricsRow : Type 0 where
  pub name : Text
  pub stats : ConnectionStats

pub record PlatformMetrics : Type 0 where
  pub events_received_24h : ℕ
  pub deliveries_delivered_24h : ℕ
  pub deliveries_failed_24h : ℕ
  pub p95_latency_ms : ℕ
  pub open_issues : ℕ
  pub ingestion_hourly : List HourlyCount
  pub delivery_hourly : List HourlyCount
  pub connections : List ConnectionMetricsRow

abbrev is_delivered_status : DeliveryStatus → Bool
is_delivered_status delivered = true
is_delivered_status failed = false

unfoldable pub is_delivered : Delivery → Bool
is_delivered d = is_delivered_status d.status

unfoldable pub is_failed : Delivery → Bool
unfolding is_delivered
is_failed d = if is_delivered d then false else true

abbrev recent : ℕ → List Delivery → List Delivery
recent now ds = keep_if (λ d. within_day now d.attempted_at) ds

-- GROUP BY 1 ORDER BY 1: the hours in order, each with its number of rows.
unfoldable pub count_hour : ℕ → List HourlyCount → List HourlyCount
count_hour h [] = (record { hour_start = h; count = 1 }) ∷ []
count_hour h (c ∷ cs) =
    let rest = count_hour h cs in
    if c.hour_start == h
    then record c { count = c.count + 1 } ∷ cs
    else if ltb h c.hour_start
    then (record { hour_start = h; count = 1 }) ∷ c ∷ cs
    else c ∷ rest

unfoldable pub count_hours : List ℕ → List HourlyCount
unfolding count_hour
count_hours [] = []
count_hours (t ∷ ts) = count_hour (t / hour * hour) (count_hours ts)

unfoldable pub count_events_24h : Db ℕ
count_events_24h =
    statement (λ w. (ok (count_where (λ e. within_day w.now e.received_at) w.tables.events), w))

unfoldable pub hourly_event_counts : Db (List HourlyCount)
hourly_event_counts = statement (λ w. (
  ok (
      count_hours
        (map (λ e. e.received_at) (keep_if (λ e. within_day w.now e.received_at) w.tables.events))),
  w,
))

unfoldable pub hourly_delivery_counts : Db (List HourlyCount)
hourly_delivery_counts = statement (λ w. (
  ok (
      count_hours
        (map (λ d. d.attempted_at) (keep_if is_delivered (recent w.now w.tables.deliveries)))),
  w,
))

-- e.connection_id of the event that a delivery is of.
abbrev event_is_of : ℕ → Option Event → Bool
event_is_of id none = false
event_is_of id (some e) = e.connection_id == id

unfoldable pub is_of_connection : ℕ → Tables → Delivery → Bool
unfolding has_event_id
is_of_connection id t d = event_is_of id (find (has_event_id d.event_id) t.events)

abbrev add_latency : Option ℕ → List ℕ → List ℕ
add_latency none rest = rest
add_latency (some n) rest = n ∷ rest

-- The latencies that are not NULL, of the delivered ones.
unfoldable pub latencies : List Delivery → List ℕ
unfolding is_delivered
latencies [] = []
latencies (d ∷ ds) =
    let rest = latencies ds in if is_delivered d then add_latency d.latency_ms rest else rest

module _ (floats : FloatOps) (percentile : List ℕ → Option Float64) where
  abbrev or_zero_percentile : Option Float64 → ℕ
  or_zero_percentile none = 0
  or_zero_percentile (some p) = floats.to_int (floats.round p)

  abbrev p95 : List Delivery → ℕ
  p95 ds = or_zero_percentile (percentile (latencies ds))

  unfoldable pub connection_stats : World → Connection → ConnectionStats
  connection_stats w c =
      let ds = keep_if (is_of_connection c.id w.tables) (recent w.now w.tables.deliveries) in
      let d = count_where is_delivered ds in
      let f = count_where is_failed ds in
      let o = count_where (λ i. is_open i && i.connection_id == c.id) w.tables.issues in
      record {
        connection_id = c.id;
        delivered_24h = d;
        failed_24h = f;
        open_issues = o;
        p95_latency_ms = p95 ds;
        status = derive_connection_status o f d;
      }

  unfoldable pub list_all_connection_stats : Db (List ConnectionStats)
  list_all_connection_stats =
      statement (λ w. (ok (map (connection_stats w) (reverse w.tables.connections)), w))

  -- The map from identifiers to statistics: a missing key gives the zero value.
  abbrev stats_or_zero : ℕ → Option ConnectionStats → ConnectionStats
  stats_or_zero id (some s) = s
  stats_or_zero id none = record {
    connection_id = id;
    delivered_24h = 0;
    failed_24h = 0;
    open_issues = 0;
    p95_latency_ms = 0;
    status = str "healthy";
  }

  unfoldable pub find_stats : ℕ → List ConnectionStats → ConnectionStats
  find_stats id all = stats_or_zero id (find (λ s. s.connection_id == id) all)

  unfoldable pub get_connection_stats : ℕ → Db ConnectionStats
  get_connection_stats id = do all ← list_all_connection_stats; pure (find_stats id all)

  unfoldable pub metrics_row : List ConnectionStats → Connection → ConnectionMetricsRow
  metrics_row all c = record { name = c.name; stats = find_stats c.id all }

  unfoldable pub count_deliveries_24h : Db (ℕ × ℕ × ℕ)
  count_deliveries_24h = statement (λ w.
      let ds = recent w.now w.tables.deliveries in
      (ok (count_where is_delivered ds, count_where is_failed ds, p95 ds), w))

  unfoldable pub get_platform_metrics : Db PlatformMetrics
  get_platform_metrics = do
    events ← count_events_24h
    counts ← count_deliveries_24h
    open_issues ← open_issues_count
    ingestion ← hourly_event_counts
    deliveries ← hourly_delivery_counts
    conns ← list_connections
    all ← list_all_connection_stats
    pure (record {
      events_received_24h = events;
      deliveries_delivered_24h = counts.0;
      deliveries_failed_24h = counts.1;
      p95_latency_ms = counts.2;
      open_issues = open_issues;
      ingestion_hourly = ingestion;
      delivery_hourly = deliveries;
      connections = map (metrics_row all) conns;
    })

abbrev earlier : ℕ → Option ℕ → Option ℕ
earlier t none = some t
earlier t (some u) = some (min t u)

-- The earliest first_failed_at of the open issues.
unfoldable pub oldest_open : List Issue → Option ℕ
unfolding is_open
oldest_open [] = none
oldest_open (i ∷ is) =
    let rest = oldest_open is in if is_open i then earlier i.first_failed_at rest else rest

abbrev pub age : FloatOps → (ℕ → Float64) → ℕ → Option ℕ → Float64
age floats hours now none = floats.of_int (pos 0)
age floats hours now (some t) = hours (now - t)

unfoldable pub oldest_open_issue_age : FloatOps → (ℕ → Float64) → Db Float64
oldest_open_issue_age floats hours =
    statement (λ w. (ok (age floats hours w.now (oldest_open w.tables.issues)), w))
