-- ===== src/Storage/Listings.antt =====
-- The lists that internal/storage/store.go and playground.go read: deliveries and issues, joined
-- with the events and connections that foreign keys keep in place.
use koto7_tuma.Prelude.{
  ℕ, Text, str, text_eq, is_empty, Bool, ◌&&◌, ◌||◌, Option, none, some, List, [], ◌∷◌, ◌++◌, ◌==◌,
  take, reverse, keep_if, count_where, sort_desc_by,
}
use koto7_tuma.Storage.Rows.{Delivery, Issue, IssueStatus, opened, resolved}
use koto7_tuma.Storage.Stats.{is_of_connection, is_delivered, within_day}
use koto7_tuma.Storage.Issues.{is_open}
use koto7_tuma.Storage.Db.{World, Db, ok, statement}

-- ORDER BY d.attempted_at DESC: the newest row first.
unfoldable pub list_deliveries_for_connection : ℕ → ℕ → Db (List Delivery)
list_deliveries_for_connection connection limit = statement λ w. (
  ok (take limit (reverse (keep_if (is_of_connection connection w.tables) w.tables.deliveries))),
  w,
)

abbrev pub status_text : IssueStatus → Text
status_text opened = str "open"
status_text resolved = str "resolved"

-- The WHERE clause is left out for the empty status and for `all`.
unfoldable pub is_listed : Text → Issue → Bool
is_listed status i =
    is_empty status || text_eq status (str "all") || text_eq (status_text i.status) status

unfoldable pub list_issues : Text → Db (List Issue)
unfolding is_listed sort_desc_by
list_issues status = statement λ w.
    (ok (sort_desc_by (λ i. i.first_failed_at) (keep_if (is_listed status) w.tables.issues)), w)

unfoldable pub is_open_of : ℕ → Issue → Bool
unfolding is_open
is_open_of connection i = i.connection_id == connection && is_open i

abbrev pub first_of : {A : Type 0} → List A → Option A
first_of [] = none
first_of (x ∷ xs) = some x

unfoldable pub get_latest_open_issue_for_connection : ℕ → Db (Option Issue)
unfolding is_open_of sort_desc_by
get_latest_open_issue_for_connection connection = statement λ w. (
  ok (
      first_of
        (sort_desc_by (λ i. i.first_failed_at) (keep_if (is_open_of connection) w.tables.issues))),
  w,
)

unfoldable pub open_issues_count_for_connection : ℕ → Db ℕ
unfolding is_open_of
open_issues_count_for_connection connection =
    statement (λ w. (ok (count_where (is_open_of connection) w.tables.issues), w))

-- The deliveries of the last 24 hours.
unfoldable pub is_recent_delivery : World → ℕ → Delivery → Bool
is_recent_delivery w connection d =
    is_of_connection connection w.tables d && is_delivered d && within_day w.now d.attempted_at

unfoldable pub delivered_count_24h_for_connection : ℕ → Db ℕ
unfolding is_recent_delivery
delivered_count_24h_for_connection connection =
    statement (λ w. (ok (count_where (is_recent_delivery w connection) w.tables.deliveries), w))

-- InboundURL
unfoldable pub inbound_url : Text → Text → Text
inbound_url base path = base ++ str "/e/" ++ path
