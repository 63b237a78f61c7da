-- ===== src/Service/Sync/Histories.antt =====
-- Over the memory store each action of the synchronisation service is a sequence of steps of the
-- store: one rule for each way to build an action, then the actions.
use telebook_server.Prelude.{
  ℕ, String, ◌≡◌, refl, Bool, true, false, not, Option, none, List, [], ◌∷◌, ◌++◌, is_some, length,
  eqb, ◌==◌, if◌then◌else◌,
}
use telebook_server.Model.Errors.{Error, Result, ok, err}
use telebook_server.Model.Action.{pure, Action, raise, lift, attempt, continue, ◌>>=◌}
use telebook_server.Model.Book.{RawMessage, Time, Codec, BookFileMeta, BookSnapshotItem}
use telebook_server.Model.Sync.{Change, ChangeResult, entity_book, op_restore, tag_manual}
use telebook_server.Model.Conflict.{
  Conflict, ResolveRequest, ConflictStatus, open_conflict, resolved, strategy_keep_server,
  strategy_keep_local, strategy_manual,
}
use telebook_server.Store.Memory.{MemorySyncStore}
use telebook_server.Store.Memory.Restore.{restore_library, restore_read, read_snapshot}
use telebook_server.Store.Memory.Steps.{
  Step, Reach, here, next, Reach-trans, entity_changed, entity_forced, book_changed, book_forced,
  restored, snapshot_recorded, cursor_moved, conflict_closed,
}
use telebook_server.Store.Interfaces.{memory_stores}
use telebook_server.Store.Library.{LibraryBook}
use telebook_server.Service.Sync.{
  SyncService, push, push_all, push_one, files_complete, apply_routed, refresh_library_version,
  pull, resolve_conflict, resolve_as, win, force_upsert, restore_book, record_restore,
  record_history,
}

-- What a request meets besides the store: encoding/json, the order in which maps are walked, the
-- clock, the file verifier and the version function.
pub record Env (Raw : Type 0) : Type 0 where
  pub codec : Codec Raw
  pub order : List String → List String
  pub now : Time
  pub file_verifier : Option (List BookFileMeta → Result Bool)
  pub compute_version : List LibraryBook → String

-- The service over the memory store, which keeps no library version.
abbrev pub memory_service : {Raw : Type 0} → Env Raw → SyncService Raw (MemorySyncStore Raw)
memory_service env = record {
  stores = memory_stores env.codec env.order env.now;
  codec = env.codec;
  file_verifier = env.file_verifier;
  lib_version = none;
  compute_version = env.compute_version;
}

module _ {Raw : Type 0} where
  -- The action takes the store along a history.
  pub record IsHistory {A : Type 0} (m : Action (MemorySyncStore Raw) A) : Type 0 where
    pub at : (s : MemorySyncStore Raw) → Reach s (m s).1

  module _ {A : Type 0} where
    keeps_state : (f : MemorySyncStore Raw → Result A) → IsHistory (λ s. (f s, s))
    keeps_state f = record { at = λ s. here }

    IsHistory-pure : (a : A) → IsHistory (pure {S = MemorySyncStore Raw} a)
    IsHistory-pure a = record { at = λ s. here }

    one-Step :
        (m : Action (MemorySyncStore Raw) A)
        → ((s : MemorySyncStore Raw) → Step s (m s).1)
        → IsHistory m
    one-Step m h = record { at = λ s. next here (h s) }

    IsHistory-attempt : (m : Action (MemorySyncStore Raw) A) → IsHistory m → IsHistory (attempt m)
    IsHistory-attempt m h = record { at = h.at }

    IsHistory-if :
        (b : Bool) (m n : Action (MemorySyncStore Raw) A)
        → (b ≡ true → IsHistory m)
        → (b ≡ false → IsHistory n)
        → IsHistory (if b then m else n)
    IsHistory-if true m n f g = f refl
    IsHistory-if false m n f g = g refl

  module _ {A B : Type 0} where
    continue-Reach :
        (r : Result A) (f : A → Action (MemorySyncStore Raw) B) (s : MemorySyncStore Raw)
        → ((a : A) → IsHistory (f a))
        → Reach s (continue r f s).1
    continue-Reach (ok a) f s h = (h a).at s
    continue-Reach (err e) f s h = here

    IsHistory-bind :
        (m : Action (MemorySyncStore Raw) A) (f : A → Action (MemorySyncStore Raw) B)
        → IsHistory m
        → ((a : A) → IsHistory (f a))
        → IsHistory (m >>= f)
    IsHistory-bind m f h k = record {
      at = λ s. Reach-trans (h.at s) (continue-Reach (m s).0 f (m s).1 k);
    }

  module _ (env : Env Raw) where
    abbrev v : SyncService Raw (MemorySyncStore Raw)
    v = memory_service env

    pub apply_routed-IsHistory :
        (c : Change Raw) (source device_id : String) → IsHistory (apply_routed v c source device_id)
    unfolding apply_routed
    apply_routed-IsHistory c source device_id =
        IsHistory-if (c.entity_type == entity_book) _ _
          (λ book. one-Step _ (λ s. book_changed c source device_id env.now s book))
          (λ other. one-Step _ (λ s. entity_changed c device_id env.now s other))

    push_one-IsHistory :
        (device_id source : String) (c : Change Raw) → IsHistory (push_one v device_id source c)
    unfolding push_one
    push_one-IsHistory device_id source c =
        IsHistory-bind (lift (files_complete v c)) _ (keeps_state (λ _. files_complete v c))
          λ complete.
            IsHistory-if (not complete) _ _ (λ _. keeps_state _)
              λ _.
                IsHistory-bind (apply_routed v c source device_id) _
                  (apply_routed-IsHistory c source device_id) (λ o. keeps_state _)

    push_all-IsHistory :
        (device_id source : String) (cs : List (Change Raw)) (results : List ChangeResult)
        → IsHistory (push_all v device_id source cs results)
    unfolding push_all
    push_all-IsHistory device_id source [] results = keeps_state _
    push_all-IsHistory device_id source (c ∷ cs) results =
        IsHistory-bind (push_one v device_id source c) _ (push_one-IsHistory device_id source c)
          λ r. push_all-IsHistory device_id source cs (results ++ r ∷ [])

    refresh-IsHistory : IsHistory (refresh_library_version v)
    unfolding refresh_library_version
    refresh-IsHistory = keeps_state _

    pub push-IsHistory :
        (device_id source : String) (cs : List (Change Raw))
        → IsHistory (push v device_id source cs)
    unfolding push
    push-IsHistory device_id source cs =
        IsHistory-bind (push_all v device_id source cs []) _
          (push_all-IsHistory device_id source cs [])
          λ results.
            IsHistory-if (eqb (length results) 0) _ _ (λ _. keeps_state _)
              λ _.
                IsHistory-bind (attempt (refresh_library_version v)) _
                  (IsHistory-attempt (refresh_library_version v) refresh-IsHistory)
                  (λ _. IsHistory-pure results)

    pub pull-IsHistory :
        (device_id : String) (cursor limit : ℕ) → IsHistory (pull v device_id cursor limit)
    unfolding pull
    pull-IsHistory device_id cursor limit = record {
      at = λ s. next here (cursor_moved device_id _ s);
    }

    force_upsert-IsHistory :
        (conflict : Conflict Raw) (payload : RawMessage Raw) (device_id : String)
        → IsHistory (force_upsert v conflict payload device_id)
    unfolding force_upsert
    force_upsert-IsHistory conflict payload device_id =
        IsHistory-if (conflict.entity_type == entity_book) _ _
          (λ _. one-Step _ (λ s. book_forced conflict.entity_id payload device_id env.now s))
          λ other. one-Step _ λ s.
            entity_forced conflict.entity_type conflict.entity_id payload device_id env.now s other

    -- The payload that is written, if there is one.
    upsert_or-IsHistory :
        (payload : RawMessage Raw) (e : Error) (conflict : Conflict Raw) (device_id : String)
        → IsHistory (if is_some payload then force_upsert v conflict payload device_id else raise e)
    upsert_or-IsHistory payload e conflict device_id =
        IsHistory-if (is_some payload) _ _ (λ _. force_upsert-IsHistory conflict payload device_id)
          (λ _. keeps_state _)

    win-IsHistory :
        (conflict : Conflict Raw) (req : ResolveRequest Raw) (device_id : String)
        → IsHistory (win v conflict req device_id)
    unfolding win
    win-IsHistory conflict req device_id =
        IsHistory-if (req.strategy == strategy_keep_server) _ _ (λ _. keeps_state _)
          λ _.
            IsHistory-if (req.strategy == strategy_keep_local) _ _
              (λ _. upsert_or-IsHistory conflict.local_payload _ conflict device_id)
              λ _.
                IsHistory-if (req.strategy == strategy_manual) _ _
                  (λ _. upsert_or-IsHistory req.payload _ conflict device_id) (λ _. keeps_state _)

    resolve_as-IsHistory :
        (st : ConflictStatus) (conflict : Conflict Raw) (device_id : String) (id : ℕ)
        (req : ResolveRequest Raw)
        → IsHistory (resolve_as v st conflict device_id id req)
    unfolding resolve_as
    resolve_as-IsHistory resolved conflict device_id id req = keeps_state _
    resolve_as-IsHistory open_conflict conflict device_id id req =
        IsHistory-bind (win v conflict req device_id) _ (win-IsHistory conflict req device_id)
          λ _. one-Step _ (λ s. conflict_closed id device_id s)

    pub resolve_conflict-IsHistory :
        (device_id : String) (id : ℕ) (req : ResolveRequest Raw)
        → IsHistory (resolve_conflict v device_id id req)
    unfolding resolve_conflict
    resolve_conflict-IsHistory device_id id req =
        IsHistory-bind (v.stores.get_conflict id) _ (keeps_state _)
          λ conflict. resolve_as-IsHistory conflict.status conflict device_id id req

    restore_read-Reach :
        (r : Result (List (BookSnapshotItem Raw))) (device_id : String) (s : MemorySyncStore Raw)
        → Reach s (restore_read env.codec env.order r device_id env.now s).1
    unfolding restore_read
    restore_read-Reach (ok items) device_id s =
        next here (restored env.codec env.order items device_id env.now s)
    restore_read-Reach (err e) device_id s = here

    restore_library-IsHistory :
        (snapshot : RawMessage Raw) (device_id : String)
        → IsHistory (v.stores.restore_library snapshot device_id)
    unfolding restore_library
    restore_library-IsHistory snapshot device_id = record {
      at = λ s. restore_read-Reach (read_snapshot env.codec snapshot) device_id s;
    }

    pub record_history-IsHistory :
        (op_type tag : String) (snapshot : RawMessage Raw)
        → IsHistory (record_history v op_type tag snapshot)
    unfolding record_history
    record_history-IsHistory op_type tag snapshot =
        one-Step _ (λ s. snapshot_recorded op_type tag snapshot env.now s)

    record_restore-IsHistory : (r : Result (RawMessage Raw)) → IsHistory (record_restore v r)
    unfolding record_restore
    record_restore-IsHistory (err e) = keeps_state _
    record_restore-IsHistory (ok snap) =
        one-Step _ (λ s. snapshot_recorded op_restore tag_manual snap env.now s)

    pub restore_book-IsHistory :
        (device_id : String) (id : ℕ) → IsHistory (restore_book v device_id id)
    unfolding restore_book
    restore_book-IsHistory device_id id =
        IsHistory-bind (v.stores.get_history id) _ (keeps_state _) λ h.
          IsHistory-bind (v.stores.restore_library h.payload device_id) _
            (restore_library-IsHistory h.payload device_id)
            λ result. IsHistory-bind (attempt v.stores.snapshot_library) _ (keeps_state _) λ snap.
              IsHistory-bind (record_restore v snap) _ (record_restore-IsHistory snap)
                (λ _. IsHistory-pure result)
