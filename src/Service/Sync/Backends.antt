-- ===== src/Service/Sync/Backends.antt =====
-- The loop of `Push` over the PostgreSQL stores and over the memory store.
use mathlib.Core.List.{map-append}
use telebook_server.Prelude.{
  ℕ, String, ◌≡◌, refl, Bool, true, false, Option, List, [], ◌∷◌, ◌++◌, map, All, ◌==◌, inl, inr,
  ap, ◌∙◌,
}
use telebook_server.Model.Errors.{Result, ok, err, map_ok, Result-cases, ok_inj}
use telebook_server.Model.Action.{continue}
use telebook_server.Model.Book.{BookFileMeta}
use telebook_server.Model.Sync.{Change, ChangeOutcome, ChangeResult, Reason, entity_book}
use telebook_server.Store.Interfaces.{LibraryVersionStore}
use telebook_server.Store.Memory.{MemorySyncStore}
use telebook_server.Store.Memory.Books
use telebook_server.Store.Postgres.{SyncTables}
use telebook_server.Store.Postgres.Stores.{PgEnv, pg_stores}
use telebook_server.Store.Postgres.Books.{apply_book_change}
use telebook_server.Store.Postgres.Agreement.{
  Agrees, IsPlain, Simulates, verdict, apply_book_change-Simulates,
}
use telebook_server.Store.Library.{LibraryBook}
use telebook_server.Service.Sync.{
  SyncService, files_complete, files_to_verify, apply_routed, result_of, incomplete_result,
  push_one, push_all,
}
use telebook_server.Service.Sync.Histories.{memory_service}

-- The service over the tables.
abbrev pub pg_service :
    {Raw : Type 0}
    → PgEnv Raw
    → Option (List BookFileMeta → Result Bool)
    → Option (LibraryVersionStore (SyncTables Raw))
    → (List LibraryBook → String)
    → SyncService Raw (SyncTables Raw)
pg_service env file_verifier lib_version compute_version = record {
  stores = pg_stores env;
  codec = env.codec;
  file_verifier = file_verifier;
  lib_version = lib_version;
  compute_version = compute_version;
}

-- An answer without the numbers of its event and its conflict.
abbrev pub answer : ChangeResult → String × String × Bool × ℕ × Reason
answer r = (r.entity_type, r.entity_id, r.accepted, r.revision, r.reason)

module _ {Raw : Type 0} (env : PgEnv Raw) (file_verifier : Option (List BookFileMeta → Result Bool))
    (compute_version : List LibraryBook → String)
    (lib_version : Option (LibraryVersionStore (SyncTables Raw))) where
  abbrev pub pg : SyncService Raw (SyncTables Raw)
  pg = pg_service env file_verifier lib_version compute_version

  -- With the same documents, clock and verifier.
  abbrev pub memory : SyncService Raw (MemorySyncStore Raw)
  memory = memory_service (record {
    codec = env.codec;
    order = env.order;
    now = env.now;
    file_verifier = file_verifier;
    compute_version = compute_version;
  })

  abbrev pub IsBookChange : Change Raw → Type 0
  IsBookChange c = ((c.entity_type == entity_book) ≡ true) × IsPlain env.codec c

  -- The same answers or the same error, and the same books.
  pub record SameAnswers (r : Result (List ChangeResult) × SyncTables Raw)
      (m : Result (List ChangeResult) × MemorySyncStore Raw) : Type 0 where
    pub answers : map_ok (map answer) (r.0) ≡ map_ok (map answer) (m.0)
    pub agrees : Agrees env.codec (r.1) (m.1)

  record SameAnswer (r : Result ChangeResult × SyncTables Raw)
      (m : Result ChangeResult × MemorySyncStore Raw) : Type 0 where
    pub answers : map_ok answer (r.0) ≡ map_ok answer (m.0)
    pub agrees : Agrees env.codec (r.1) (m.1)

  answered :
      (c : Change Raw) (r : Result ChangeOutcome × SyncTables Raw)
      (m : ChangeOutcome × MemorySyncStore Raw)
      → Simulates env.codec r m
      → SameAnswer
          (continue (r.0) (λ o u. (ok (result_of pg c o), u)) (r.1))
          (ok (result_of memory c (m.0)), m.1)
  unfolding result_of
  answered c (ok o, u) m sim = record {
    answers =
        ap (λ v. ok (c.entity_type, c.entity_id, v.0, v.1, v.2))
          (ap verdict (ok_inj o sim.outcome sim.succeeds) ∙ sim.tells);
    agrees = sim.agrees;
  }
  answered c (err e, u) m sim = absurd (cc sim.succeeds)

  same_files : (c : Change Raw) → files_complete memory c ≡ files_complete pg c
  unfolding files_complete files_to_verify
  same_files c = refl

  push_one-SameAnswer :
      (device_id source : String) (c : Change Raw) (t : SyncTables Raw) (s : MemorySyncStore Raw)
      → IsBookChange c
      → Agrees env.codec t s
      → SameAnswer (push_one pg device_id source c t) (push_one memory device_id source c s)
  unfolding push_one incomplete_result apply_routed
  push_one-SameAnswer device_id source c t s (book, plain) a =
      elim (Result-cases (files_complete pg c)) [
        | inl (e, failed) ↦
            rw (same_files c ∙ failed, failed) (record { answers = refl; agrees = a })
        | inr (true, known) ↦
            rw (same_files c ∙ known, known, book)
              (answered c (apply_book_change env.codec c source device_id env.now t)
                (Books.apply_book_change c source device_id env.now s)
                (apply_book_change-Simulates env.codec c source device_id env.now t s plain a))
        | inr (false, known) ↦
            rw (same_files c ∙ known, known) (record { answers = refl; agrees = a })
      ]

  answers-step :
      (xs ys : List ChangeResult) (x y : ChangeResult)
      → map answer xs ≡ map answer ys
      → answer x ≡ answer y
      → map answer (xs ++ x ∷ []) ≡ map answer (ys ++ y ∷ [])
  answers-step xs ys x y h k =
      rw (map-append answer xs (x ∷ []), map-append answer ys (y ∷ []), h, k) refl

  pushed-SameAnswers :
      (device_id source : String) (cs : List (Change Raw)) (xs ys : List ChangeResult)
      (r : Result ChangeResult × SyncTables Raw) (m : Result ChangeResult × MemorySyncStore Raw)
      → ((us vs : List ChangeResult) (t : SyncTables Raw) (s : MemorySyncStore Raw)
          → map answer us ≡ map answer vs
          → Agrees env.codec t s
          → SameAnswers
              (push_all pg device_id source cs us t)
              (push_all memory device_id source cs vs s))
      → map answer xs ≡ map answer ys
      → SameAnswer r m
      → SameAnswers
          (continue (r.0) (λ x. push_all pg device_id source cs (xs ++ x ∷ [])) (r.1))
          (continue (m.0) (λ y. push_all memory device_id source cs (ys ++ y ∷ [])) (m.1))
  pushed-SameAnswers device_id source cs xs ys (ok x, t) (ok y, s) rest h same =
      rest _ _ t s (answers-step xs ys x y h (ok_inj _ _ same.answers)) same.agrees
  pushed-SameAnswers device_id source cs xs ys (err e, t) (err f, s) rest h same = record {
    answers = cc same.answers;
    agrees = same.agrees;
  }
  pushed-SameAnswers device_id source cs xs ys (ok x, t) (err f, s) rest h same =
      absurd (cc same.answers)
  pushed-SameAnswers device_id source cs xs ys (err e, t) (ok y, s) rest h same =
      absurd (cc same.answers)

  push_all-SameAnswers :
      (device_id source : String) (cs : List (Change Raw)) (xs ys : List ChangeResult)
      (t : SyncTables Raw) (s : MemorySyncStore Raw)
      → All IsBookChange cs
      → map answer xs ≡ map answer ys
      → Agrees env.codec t s
      → SameAnswers
          (push_all pg device_id source cs xs t)
          (push_all memory device_id source cs ys s)
  unfolding push_all
  push_all-SameAnswers device_id source [] xs ys t s hs h a = record {
    answers = ap ok h;
    agrees = a;
  }
  push_all-SameAnswers device_id source (c ∷ cs) xs ys t s hs h a =
      pushed-SameAnswers device_id source cs xs ys _ _
        (λ us vs u w k b. push_all-SameAnswers device_id source cs us vs u w (hs.1) k b) h
        (push_one-SameAnswer device_id source c t s (hs.0) a)

  -- For any updates and deletions of books, where each payload of an update fills the columns of a
  -- row, from tables and a memory store that agree, the loop of `Push` gives the same answers over
  -- both, apart from the numbers of events and conflicts, or stops with the same error, and leaves
  -- tables and store that agree: on the revision, the tombstone and the columns of each book, and on
  -- the change ids that are duplicates.
  pub push_all_refines :
      (device_id source : String) (cs : List (Change Raw)) (t : SyncTables Raw)
      (s : MemorySyncStore Raw)
      → All IsBookChange cs
      → Agrees env.codec t s
      → SameAnswers
          (push_all pg device_id source cs [] t)
          (push_all memory device_id source cs [] s)
  push_all_refines device_id source cs t s hs a =
      push_all-SameAnswers device_id source cs [] [] t s hs refl a
