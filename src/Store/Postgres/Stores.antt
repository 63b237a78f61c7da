-- ===== src/Store/Postgres/Stores.antt =====
-- The PostgreSQL stores as the stores of internal/service/sync_service.go.
use telebook_server.Prelude.{ℕ, String, List}
use telebook_server.Model.Errors.{ok}
use telebook_server.Model.Action.{gets}
use telebook_server.Model.Book.{Time, Codec}
use telebook_server.Store.Interfaces.{SyncStores}
use telebook_server.Store.Events
use telebook_server.Store.Postgres.{SyncTables}
use telebook_server.Store.Postgres.Entities
use telebook_server.Store.Postgres.Books
use telebook_server.Store.Postgres.Restore
use telebook_server.Store.Postgres.Conflicts
use telebook_server.Store.Postgres.Conflicts.{BuildObject}
use telebook_server.Store.Postgres.History

-- What a call meets besides the tables: encoding/json and its counterpart in the database, the
-- orders of the rows and of Go's maps, random texts and the clock.
pub record PgEnv (Raw : Type 0) : Type 0 where
  pub codec : Codec Raw
  pub build_object : BuildObject Raw
  pub order : List String → List String
  pub by_id : List String → List String
  pub fresh : ℕ → String
  pub now : Time

abbrev pub pg_stores : {Raw : Type 0} → PgEnv Raw → SyncStores Raw (SyncTables Raw)
pg_stores env = record {
  apply_change = λ c device_id. Entities.apply_change env.codec c device_id env.now;
  force_upsert = λ t i payload device_id.
      Entities.force_upsert env.codec env.fresh t i payload device_id env.now;
  apply_book_change =
      λ c source device_id. Books.apply_book_change env.codec c source device_id env.now;
  force_upsert_book = λ i payload device_id.
      Books.force_upsert_book env.codec env.fresh i payload device_id env.now;
  restore_library = λ snapshot device_id.
      Restore.restore_library env.codec env.fresh env.order snapshot device_id env.now;
  snapshot_library = gets (Restore.snapshot_library env.codec env.by_id);
  insert_snapshot = λ op_type tag snapshot. History.insert_snapshot op_type tag snapshot env.now;
  list_history = λ limit. gets (History.list_history limit);
  get_history = λ id t. (History.get_history id t, t);
  list_after_cursor =
      λ cursor limit. gets (λ t. Events.list_after_cursor cursor limit t.event_tables);
  count_by_status = gets (λ t. Events.count_by_status t.event_tables);
  update_cursor = λ device_id last t.
      (ok tt, record t { event_tables = Events.update_cursor device_id last t.event_tables });
  get_cursor = λ device_id. gets (λ t. Events.get_cursor device_id t.event_tables);
  list_open = gets (Conflicts.list_open env.build_object);
  get_conflict = λ id t. (Conflicts.get_conflict env.build_object id t, t);
  mark_resolved = λ id device_id. Conflicts.mark_resolved id device_id;
}
