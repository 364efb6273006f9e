-- ===== src/Api/Console/Rows.antt =====
-- The rows of connections that UpdateConnection and UpdateConnectionSecret of
-- internal/storage/store.go leave behind.
use mathlib.Core.Path.{subst}
use koto7_tuma.Prelude.{
  ℕ, ◌≡◌, refl, sym, ap, ◌∙◌, Text, true, Option, none, some, List, find, update_where, find-passes,
  find-update_found, arith, if◌then◌else◌,
}
use koto7_tuma.Float.{Float64}
use koto7_tuma.Storage.Env.{Pg}
use koto7_tuma.Storage.Rows.{Connection, Tables}
use koto7_tuma.Storage.Connections.{
  has_connection_id, has_inbound_path, update_connection, update_connection_secret, write_secret,
  write_settings, set_settings, passes_checks, patched, ConnectionPatch, update_found,
  get_connection,
}
use koto7_tuma.Storage.Db.{World, Res, ok, statement, statement-ok, bind-ok}

-- What the inbound path finds for `path`, once the secret of that row is the text `enc`.
secret_row :
    (id : ℕ) (path enc : Text) (cs : List Connection) (c : Connection)
    → find (has_inbound_path path) cs ≡ some c
    → has_connection_id id c ≡ true
    → find
        (has_inbound_path path)
        (update_where (has_connection_id id) (λ r. record r { signing_secret_enc = enc }) cs)
      ≡ some (record c { signing_secret_enc = enc })
unfolding has_inbound_path
secret_row id path enc cs c found same =
    find-update_found (has_inbound_path path) (has_connection_id id)
      (λ r. record r { signing_secret_enc = enc }) cs c (λ y. refl) found
    ∙ ap (λ b. some (if b then record c { signing_secret_enc = enc } else c)) same

-- The path of every connection leads to that connection: paths are unique.
abbrev pub PathsLead : List Connection → Type 0
PathsLead cs =
    (id : ℕ) (c : Connection)
    → find (has_connection_id id) cs ≡ some c
    → find (has_inbound_path c.inbound_path) cs ≡ some c

-- What UpdateConnection leaves: the row of the path of the connection that it returns.
pub record IsUpdated (id : ℕ) (c : Connection) (w' : World) : Type 0 where
  pub row : Connection
  pub here : has_connection_id id row ≡ true
  pub leads : find (has_inbound_path c.inbound_path) w'.tables.connections ≡ some row

written :
    (pg : Pg) (kept : Option Float64) (id : ℕ) (c c0 : Connection) (w : World) {w' : World}
    → c.inbound_path ≡ c0.inbound_path
    → has_connection_id id c0 ≡ true
    → find (has_inbound_path c0.inbound_path) w.tables.connections ≡ some c0
    → write_settings pg kept id c w ≡ (ok tt, w')
    → IsUpdated id c w'
unfolding write_settings has_connection_id has_inbound_path
written pg none id c c0 w path here leads h = absurd (ground arith)
written pg (some factor) id c c0 w {w'} path here leads h =
    let (_, same) = facts in
    record {
      row = set_settings c factor c0;
      here = here;
      leads =
          rw (path, ← same)
            (find-update_found (has_inbound_path c0.inbound_path) (has_connection_id id)
                (set_settings c factor) w.tables.connections c0 (λ y. refl) leads
              ∙ ap (λ b. some (if b then set_settings c factor c0 else c0)) here);
    }
  where
    facts :
        (passes_checks pg (record c { retry_backoff_factor = factor }) ≡ true)
        × (record w {
          tables = record w.tables {
            connections =
                update_where (has_connection_id id) (set_settings c factor) w.tables.connections;
          };
        }
            ≡ w')
    facts = ground (arith, h)

-- What GetConnection returns, from the tables that it leaves.
record IsRead (id : ℕ) (o : Option Connection) (w w' : World) : Type 0 where
  tables : w'.tables ≡ w.tables
  row : find (has_connection_id id) w.tables.connections ≡ o

reads :
    (id : ℕ) (w : World) {o : Option Connection} {w' : World}
    → get_connection id w ≡ (ok o, w')
    → IsRead id o w w'
unfolding get_connection
reads id w {o} {w'} h =
    let (os, e) =
      statement-ok (λ v. (ok (find (has_connection_id id) v.tables.connections), v)) w h in
    let same : record w { outcomes = os } ≡ w' = ground (arith, e) in
    record { tables = ap (λ (v : World). v.tables) (sym same); row = ground (arith, e) }

row_updated :
    (pg : Pg) (id : ℕ) (p : ConnectionPatch) (o : Option Connection) (v w' : World) {c : Connection}
    → PathsLead v.tables.connections
    → find (has_connection_id id) v.tables.connections ≡ o
    → update_found pg id p o v ≡ (ok (some c), w')
    → IsUpdated id c w'
unfolding update_found
row_updated pg id p none v w' leads found h = absurd (ground arith)
row_updated pg id p (some c0) v w' {c} leads found h =
    let new = patched p c0 in
    let kept = pg.numeric_4_2 new.retry_backoff_factor in
    let write = write_settings pg kept id new in
    let (_, e, k) = bind-ok (statement write) _ v h in
    let (os, run) = statement-ok write v e in
    let u =
      written pg kept id new c0 (record v { outcomes = os }) refl
        (find-passes (has_connection_id id) v.tables.connections found) (leads id c0 found) run in
    let path : new.inbound_path ≡ c.inbound_path = ground (arith, k) in
    let same : (statement write v).1 ≡ w' = ground (arith, k) in
    record {
      row = u.row;
      here = u.here;
      leads =
          ap (λ (x : World). find (has_inbound_path c.inbound_path) x.tables.connections) (sym same)
          ∙ ap (λ t. find (has_inbound_path t) (statement write v).1.tables.connections) (sym path)
          ∙ u.leads;
    }

pub updated :
    (pg : Pg) (id : ℕ) (p : ConnectionPatch) (w w' : World) {c : Connection}
    → PathsLead w.tables.connections
    → update_connection pg id p w ≡ (ok (some c), w')
    → IsUpdated id c w'
unfolding update_connection
updated pg id p w w' {c} leads h =
    let get = get_connection id in
    let (found, e, k) = bind-ok get (update_found pg id p) w h in
    let r = reads id w e in
    let same = ap (λ (t : Tables). t.connections) r.tables in
    row_updated pg id p found (get w).1 w' (subst PathsLead (sym same) leads)
      (ap (λ cs. find (has_connection_id id) cs) same ∙ r.row) k

row_written :
    (id : ℕ) (path enc : Text) (o : Option Connection) (w w' : World) (row : Connection)
    → find (has_inbound_path path) w.tables.connections ≡ some row
    → has_connection_id id row ≡ true
    → write_secret id enc o w ≡ (ok tt, w')
    → find (has_inbound_path path) w'.tables.connections
      ≡ some (record row { signing_secret_enc = enc })
unfolding write_secret
row_written id path enc none w w' row leads here h = absurd (ground arith)
row_written id path enc (some c) w w' row leads here h =
    let e = ap (λ (p : Res Unit × World). p.1.tables.connections) h in
    ap (λ cs. find (has_inbound_path path) cs) (sym e)
    ∙ secret_row id path enc w.tables.connections row leads here

pub secret_written :
    (id : ℕ) (c : Connection) (enc : Text) (w w' : World) (u : IsUpdated id c w)
    → update_connection_secret id enc w ≡ (ok tt, w')
    → find (has_inbound_path c.inbound_path) w'.tables.connections
      ≡ some (record (u.row) { signing_secret_enc = enc })
unfolding update_connection_secret
secret_written id c enc w w' u h =
    let (os, e) = statement-ok _ w h in
    row_written id c.inbound_path enc (find (has_connection_id id) w.tables.connections)
      (record w { outcomes = os }) w' u.row u.leads u.here e
