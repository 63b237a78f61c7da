-- ===== src/Store/Postgres/History.antt =====
-- internal/store/history_store.go: `PGHostoryStore` over the table `book_history`.
use mathlib.Core.List.{reverse}
use telebook_server.Prelude.{
  ℕ, suc, String, none, some, List, [], ◌∷◌, ◌++◌, take, eqb, if◌then◌else◌,
}
use telebook_server.Model.Errors.{Error, Result, ok, err}
use telebook_server.Model.Action.{Action}
use telebook_server.Model.Book.{RawMessage, Time, BookHistory}
use telebook_server.Store.Postgres.{SyncTables}

module _ {Raw : Type 0} where
  -- The payload is NOT NULL; the sequence has moved when the statement fails.
  unfoldable pub insert_snapshot :
      String → String → RawMessage Raw → Time → Action (SyncTables Raw) ℕ
  insert_snapshot op_type tag none now t =
      (err Error.database_error, record t { history_seq = suc t.history_seq })
  insert_snapshot op_type tag (some snapshot) now t =
      let id = suc t.history_seq in
      (
        ok id,
        record t {
          history_seq = id;
          book_history =
              t.book_history
              ++ record {
                id = id;
                op_type = op_type;
                tag = tag;
                payload = some snapshot;
                created_at = now;
              }
                ∷ [];
        },
      )

  unfoldable pub list_history : ℕ → SyncTables Raw → List (BookHistory Raw)
  list_history limit t = take (if eqb limit 0 then 500 else limit) (reverse t.book_history)

  unfoldable pub history_row : ℕ → List (BookHistory Raw) → Result (BookHistory Raw)
  history_row id [] = err Error.history_not_found
  history_row id (h ∷ hs) = if eqb h.id id then ok h else history_row id hs

  unfoldable pub get_history : ℕ → SyncTables Raw → Result (BookHistory Raw)
  unfolding history_row
  get_history id t = history_row id t.book_history
