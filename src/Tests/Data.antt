-- ===== src/Tests/Data.antt =====
-- A small database, and simple functions for the parameters of the model.
use koto7_tuma.Prelude.{
  ℕ, Text, text_eq, Option, ◌+◌, ◌-◌, ◌*◌, ◌/◌, pos, pos_part, str, true, false, none, some, [],
  ◌∷◌, ◌++◌, ltb, leb,
}
use koto7_tuma.Float.{FloatOps}
use koto7_tuma.Crypto.{Gcm}
use koto7_tuma.Storage.Env.{Pg, StoreEnv}
use koto7_tuma.Storage.Rows.{Connection, Event, AlertRule, Tables}
use koto7_tuma.Storage.Db.{World}
use koto7_tuma.Adapters.Defs.{Digests}
use koto7_tuma.Api.Ingest.{ServerEnv}
use koto7_tuma.Api.Http.{ConsoleEnv}

-- Whole numbers in place of floats.
abbrev pub floats : FloatOps
floats = record {
  lt = ltb;
  add = λ a b. a + b;
  sub = λ a b. a - b;
  mul = λ a b. a * b;
  div = λ a b. a / b;
  abs = λ a. a;
  of_int = pos_part;
  to_int = λ a. a;
  round = λ a. a;
  format_whole = λ a. a ∷ [];
  format_shortest = λ a. a ∷ [];
  one_thousandth = 1;
}

abbrev pub pg : Pg
pg = record {
  numeric_4_2 = some;
  numeric_10_2 = some;
  at_least_one = leb 1;
  not_negative = leb 0;
  at_most_hundred = λ x. leb x 100;
}

-- A cipher that leaves the text as it is.
abbrev pub plain_cipher : Gcm
plain_cipher = record {
  nonce_size = 2;
  seal = λ nonce text. text;
  unseal = λ nonce text. some text;
}

abbrev pub store : StoreEnv
store = record { pg = pg; payload_enc = none }

abbrev pub digests : Digests
digests = record {
  hmac_sha256 = λ key message. key ++ message;
  sha256 = λ message. message;
  json_id = λ body. none;
  nfkd = λ text. text;
}

abbrev pub shop : Connection
shop = record {
  id = 1;
  name = str "shop";
  source_type = str "internal";
  inbound_path = str "p1";
  destination_url = str "https://shop.test";
  signing_secret_enc = 0 ∷ 0 ∷ b'k' ∷ [];
  retry_attempts = pos 2;
  retry_first_delay_s = pos 1;
  retry_backoff_factor = 2;
  retention_days = pos 30;
  is_playground = false;
  created_at = 0;
}

abbrev pub order : Event
order = record {
  id = 7;
  connection_id = 1;
  provider_event_id = str "e1";
  raw_headers = [];
  raw_payload = str "{}";
  payload_encrypted = false;
  received_at = 0;
  workflow_id = none;
}

abbrev pub backlog : AlertRule
backlog = record {
  id = 3;
  name = str "backlog";
  rule_type = str "OPEN_ISSUES";
  threshold = 5;
  unit = str "COUNT";
  active = true;
  notification_type = str "email";
  notification_dest = str "ops@shop.test";
  subject_template = none;
  body_template = none;
  firing_threshold = none;
  delivery_error = none;
  created_at = 0;
  updated_at = 0;
}

abbrev pub tables : Tables
tables = record {
  connections = shop ∷ [];
  events = order ∷ [];
  deliveries = [];
  issues = [];
  users = [];
  sessions = [];
  alert_rules = backlog ∷ [];
  alert_notifications = [];
  playground_sessions = [];
  notification_settings = none;
}

abbrev pub world : World
world = record {
  tables = tables;
  outcomes = [];
  now = 1000;
  next_id = 50;
  posts = [];
  starts = [];
  notices = [];
}

abbrev pub server : ServerEnv
server = record {
  store = store;
  encryptor = plain_cipher;
  digests = digests;
  uuid_text = λ id. id ∷ [];
  max_body_bytes = 100;
}

-- An identifier is printed as one byte.
abbrev pub one_byte : Text → Option ℕ
one_byte (c ∷ []) = some c
one_byte _ = none

abbrev pub console : ConsoleEnv
console = record {
  server = server;
  config = record {
    smtp = record {
      host = str "mail.test";
      port = pos 25;
      username = [];
      password = [];
      from = str "tuma@mail.test";
    };
    slack_bot_token = [];
  };
  public_base_url = str "https://tuma.test";
  session_cookie_name = str "s";
  session_ttl = 500;
  password_matches = text_eq;
  parse_uuid = one_byte;
  parse_address = some;
  replay_workflow_id = λ event now. event ∷ now ∷ [];
  float_0 = 0;
  float_2 = 2;
  float_100 = 100;
  float_lt = ltb;
}
