-- ===== src/Service/Sync/Failures.antt =====
-- A push over the PostgreSQL stores that stops with an error.
use telebook_server.Prelude.{
  String, ◌≡◌, refl, ap, Bool, true, false, Option, List, [], ◌∷◌, ◌++◌, ◌==◌, Bool-cases, inl, inr,
}
use telebook_server.Model.Errors.{Error, Result, ok, err, Result-cases}
use telebook_server.Model.Action.{continue}
use telebook_server.Model.Book.{BookFileMeta}
use telebook_server.Model.Sync.{Change, ChangeResult, entity_book}
use telebook_server.Store.Interfaces.{LibraryVersionStore}
use telebook_server.Store.Postgres.{SyncTables, transaction, settle, rolled_back}
use telebook_server.Store.Postgres.Stores.{PgEnv}
use telebook_server.Store.Postgres.Books.{apply_book_change, book_body}
use telebook_server.Store.Postgres.Entities.{apply_change, entity_body}
use telebook_server.Store.Library.{LibraryBook}
use telebook_server.Service.Sync.{
  SyncService, files_complete, apply_routed, result_of, push_one, push_all,
}
use telebook_server.Service.Sync.Backends.{pg_service}

module _ {Raw : Type 0} where
  -- The rows are the same; a sequence may have moved.
  pub record SameRows (s t : SyncTables Raw) : Type 0 where
    pub entities : t.entities ≡ s.entities
    pub current_book : t.current_book ≡ s.current_book
    pub event_tables : t.event_tables ≡ s.event_tables
    pub conflicts : t.conflicts ≡ s.conflicts
    pub book_history : t.book_history ≡ s.book_history

  SameRows-refl : (t : SyncTables Raw) → SameRows t t
  SameRows-refl t = record {
    entities = refl;
    current_book = refl;
    event_tables = refl;
    conflicts = refl;
    book_history = refl;
  }

  settle-SameRows :
      {A : Type 0} (s : SyncTables Raw) (r : Result A × SyncTables Raw) (e : Error)
      → (settle s r).0 ≡ err e
      → SameRows s (settle s r).1
  unfolding settle rolled_back
  settle-SameRows s (err f, t) e h = record {
    entities = refl;
    current_book = refl;
    event_tables = refl;
    conflicts = refl;
    book_history = refl;
  }
  settle-SameRows s (ok a, t) e h = absurd (cc h)

  -- The error of a call whose answer is turned into a result.
  continue-SameRows :
      {A B : Type 0} (f : A → B) (s : SyncTables Raw) (r : Result A × SyncTables Raw) (e : Error)
      → ((e : Error) → r.0 ≡ err e → SameRows s (r.1))
      → (continue (r.0) (λ a t. (ok (f a), t)) (r.1)).0 ≡ err e
      → SameRows s (continue (r.0) (λ a t. (ok (f a), t)) (r.1)).1
  continue-SameRows f s (err g, t) e h k = h g refl
  continue-SameRows f s (ok a, t) e h k = absurd (cc k)

module _ {Raw : Type 0} (env : PgEnv Raw) (file_verifier : Option (List BookFileMeta → Result Bool))
    (lib_version : Option (LibraryVersionStore (SyncTables Raw)))
    (compute_version : List LibraryBook → String) where
  abbrev service : SyncService Raw (SyncTables Raw)
  service = pg_service env file_verifier lib_version compute_version

  apply_routed-SameRows :
      (c : Change Raw) (source device_id : String) (t : SyncTables Raw) (e : Error)
      → (apply_routed service c source device_id t).0 ≡ err e
      → SameRows t (apply_routed service c source device_id t).1
  unfolding apply_routed apply_book_change apply_change transaction
  apply_routed-SameRows c source device_id t e h =
      elim (Bool-cases (c.entity_type == entity_book)) [
        | inl b ↦ rw b (settle-SameRows t (book_body env.codec c device_id env.now t) e (rw b at h))
        | inr b ↦
            rw b (settle-SameRows t (entity_body env.codec c device_id env.now t) e (rw b at h))
      ]

  push_one-SameRows :
      (device_id source : String) (c : Change Raw) (t : SyncTables Raw) (e : Error)
      → (push_one service device_id source c t).0 ≡ err e
      → SameRows t (push_one service device_id source c t).1
  unfolding push_one
  push_one-SameRows device_id source c t e h = elim (Result-cases (files_complete service c)) [
    | inl (f, failed) ↦ rw failed (SameRows-refl t)
    | inr (true, known) ↦ rw known (
        continue-SameRows (result_of service c) t (apply_routed service c source device_id t) e
          (apply_routed-SameRows c source device_id t) (rw known at h))
    | inr (false, known) ↦ rw known (SameRows-refl t)
  ]

  -- Where a push stopped: the changes before `failed` are committed, as a push of them alone would
  -- leave them, and the rows are those.
  pub record IsStopped (device_id source : String) (cs : List (Change Raw)) (xs : List ChangeResult)
      (t final : SyncTables Raw) : Type 0 where
    pub before : List (Change Raw)
    pub failed : Change Raw
    pub after : List (Change Raw)
    pub results : List ChangeResult
    pub reached : SyncTables Raw
    pub split : cs ≡ before ++ failed ∷ after
    pub committed : push_all service device_id source before xs t ≡ (ok results, reached)
    pub kept : SameRows reached final

  stopped :
      (device_id source : String) (c : Change Raw) (cs : List (Change Raw)) (xs : List ChangeResult)
      (t : SyncTables Raw) (r : Result ChangeResult × SyncTables Raw) (e : Error)
      → push_one service device_id source c t ≡ r
      → ((ys : List ChangeResult) (u : SyncTables Raw)
          → (push_all service device_id source cs ys u).0 ≡ err e
          → IsStopped device_id source cs ys u (push_all service device_id source cs ys u).1)
      → (continue (r.0) (λ x. push_all service device_id source cs (xs ++ x ∷ [])) (r.1)).0 ≡ err e
      → IsStopped device_id source
          (c ∷ cs)
          xs
          t
          (continue (r.0) (λ x. push_all service device_id source cs (xs ++ x ∷ [])) (r.1)).1
  unfolding push_all
  stopped device_id source c cs xs t (ok x, u) e done rest h =
      let i = rest (xs ++ x ∷ []) u h in
      record {
        before = c ∷ i.before;
        failed = i.failed;
        after = i.after;
        results = i.results;
        reached = i.reached;
        split = ap (◌∷◌ c) i.split;
        committed = rw done i.committed;
        kept = i.kept;
      }
  stopped device_id source c cs xs t (err f, u) e done rest h = record {
    before = [];
    failed = c;
    after = cs;
    results = xs;
    reached = t;
    split = refl;
    committed = refl;
    kept = rw done at (push_one-SameRows device_id source c t f (ap (λ r. r.0) done));
  }

  push_all-IsStopped :
      (device_id source : String) (cs : List (Change Raw)) (xs : List ChangeResult)
      (t : SyncTables Raw) (e : Error)
      → (push_all service device_id source cs xs t).0 ≡ err e
      → IsStopped device_id source cs xs t (push_all service device_id source cs xs t).1
  unfolding push_all
  push_all-IsStopped device_id source [] xs t e h = absurd (cc h)
  push_all-IsStopped device_id source (c ∷ cs) xs t e h =
      stopped device_id source c cs xs t (push_one service device_id source c t) e refl
        (λ ys u. push_all-IsStopped device_id source cs ys u e) h

  -- When the loop of `Push` over the PostgreSQL stores ends in an error, there is one change before
  -- which all changes succeeded; the rows of every table are as a push of those alone leaves them,
  -- so that nothing of the change that failed, and nothing of a later one, is in a table.
  pub failed_push_keeps_prefix :
      (device_id source : String) (cs : List (Change Raw)) (t : SyncTables Raw) (e : Error)
      → (push_all service device_id source cs [] t).0 ≡ err e
      → IsStopped device_id source cs [] t (push_all service device_id source cs [] t).1
  failed_push_keeps_prefix device_id source cs t e h =
      push_all-IsStopped device_id source cs [] t e h
