-- ===== src/Api/Validation.antt =====
-- What gets through the checks of the synchronisation's handlers.
use telebook_server.Model.Conflict.{ResolveRequest}
use telebook_server.Store.Memory.Paging.{pending}
use telebook_server.Store.Memory.{MemorySyncStore}
use telebook_server.Service.Sync.Histories.{memory_service, Env}
use telebook_server.Prelude.{
  ℕ, ◌≤◌, suc, zero, String, ◌≡◌, ◌≢◌, ◌⊎◌, inl, inr, refl, sym, ap, true, not, ◌&&◌, Option, none,
  some, List, [], ◌∷◌, length, All, arith, eq_iff, ◌==◌, Bool-cases, take, eqb, ltb,
}
use telebook_server.Prelude.Int.{ℤ, pos, negsuc}
use telebook_server.Model.Errors.{Result-cases}
use telebook_server.Model.Sync.{SyncEvent, Change, ChangeResult, PullResult, op_upsert, op_delete}
use telebook_server.Service.Sync
use telebook_server.Service.Sync.{SyncService}
use telebook_server.Api.Reply.{Reply, success, failure, respond, internal}
use telebook_server.Service.Sync.Resolution.{resolve_error_unchanged}
use telebook_server.Store.Memory.Paging.{list_after_cursor-eq}
use telebook_server.Prelude.{is_some, ◌∙◌, subst}
use telebook_server.Api.Sync.{
  resolve_conflict_handler, on_resolve, PushRequest, push_handler, validate_change, validate_all,
  source_or_auto, pull_handler, clamp_limit, sync_source_auto, sync_source_manual,
}

-- What the server wants of a change.
pub record IsValid {Raw : Type 0} (c : Change Raw) : Type 0 where
  pub change_id : c.change_id ≢ ""
  pub entity_type : c.entity_type ≢ ""
  pub entity_id : c.entity_id ≢ ""
  pub op : (c.op ≡ op_upsert) ⊎ (c.op ≡ op_delete)

module _ {Raw : Type 0} where
  validate_change-IsValid : (c : Change Raw) → validate_change c ≡ true → IsValid c
  unfolding validate_change
  validate_change-IsValid c h = record {
    change_id = λ e. ground (arith, eq_iff c.change_id "");
    entity_type = λ e. ground (arith, eq_iff c.entity_type "");
    entity_id = λ e. ground (arith, eq_iff c.entity_id "");
    op = ground (arith, eq_iff c.op op_upsert, eq_iff c.op op_delete);
  }

  validate_all-IsValid : (cs : List (Change Raw)) → validate_all cs ≡ true → All IsValid cs
  unfolding validate_all
  validate_all-IsValid [] h = tt
  validate_all-IsValid (c ∷ cs) h = elim (Bool-cases (validate_change c)) [
    | inl e ↦ (validate_change-IsValid c e, validate_all-IsValid cs (rw e at h))
    | inr e ↦ cc (rw e at h)
  ]

module _ {Raw S : Type 0} (v : SyncService Raw S) where
  -- The request is pushed as it is, and every change of it is valid.
  abbrev pub Pushes : String → Option (PushRequest Raw) → S → Reply (List ChangeResult) × S → Type 0
  Pushes device_id body s r =
      (req : PushRequest Raw) × (body ≡ some req)
      × (1 ≤ length req.changes)
      × All IsValid req.changes
      × ((source_or_auto req.source ≡ sync_source_auto)
          ⊎ (source_or_auto req.source ≡ sync_source_manual))
      × (r ≡ respond internal (Sync.push v device_id (source_or_auto req.source) req.changes) s)

  push_checked :
      (device_id : String) (req : PushRequest Raw) (s : S)
      → ((push_handler v device_id (some req) s ≡ (failure 422 "validation_error", s))
          ⊎ Pushes device_id (some req) s (push_handler v device_id (some req) s))
  unfolding push_handler
  push_checked device_id req s =
      elim (Bool-cases (
        not (source_or_auto req.source == sync_source_auto)
        && not (source_or_auto req.source == sync_source_manual))) [
          | inl a ↦ inl (rw a refl)
          | inr a ↦ elim (Bool-cases (eqb (length req.changes) 0)) [
            | inl b ↦ inl (rw a (rw b refl))
            | inr b ↦ elim (Bool-cases (validate_all req.changes)) [
              | inl c ↦ inr (
                req,
                refl,
                ground arith,
                validate_all-IsValid req.changes c,
                ground (
                  arith,
                  eq_iff (source_or_auto req.source) sync_source_auto,
                  eq_iff (source_or_auto req.source) sync_source_manual,
                ),
                rw a (rw b (rw c refl)),
              )
              | inr c ↦ inl (rw a (rw b (rw c refl)))
            ]
          ]
        ]

  -- A push is either refused with status 422, and changes nothing, or all its changes have a change
  -- id, a type, an id, and an operation upsert or delete, there is at least one, its source is
  -- manual or auto, and the service gets exactly these changes.
  pub push_handler_checks :
      (device_id : String) (body : Option (PushRequest Raw)) (s : S)
      → ((push_handler v device_id body s ≡ (failure 422 "validation_error", s))
          ⊎ Pushes device_id body s (push_handler v device_id body s))
  unfolding push_handler
  push_handler_checks device_id none s = inl refl
  push_handler_checks device_id (some req) s = push_checked device_id req s

length-take-bound : {A : Type 0} (n : ℕ) (l : List A) → length (take n l) ≤ n
unfolding take
length-take-bound zero l = omega arith
length-take-bound (suc n) [] = omega arith
length-take-bound (suc n) (x ∷ l) = omega (arith, length-take-bound n l)

clamp_limit-bound : (limit : ℕ) → clamp_limit limit ≤ 1000
unfolding clamp_limit
clamp_limit-bound limit = ground arith

module _ {Raw : Type 0} (env : Env Raw) where
  abbrev events_of : Reply (PullResult Raw) → List (SyncEvent Raw)
  events_of (success r) = r.events
  events_of (failure status code) = []

  pull_bounded :
      (device_id : String) (cursor limit : ℕ) (s : MemorySyncStore Raw) (r : PullResult Raw)
      → (respond internal (Sync.pull (memory_service env) device_id cursor (clamp_limit limit)) s).0
        ≡ success r
      → length r.events ≤ 1000
  unfolding Sync.pull
  pull_bounded device_id cursor limit s r h =
      subst (λ es. length es ≤ 1000) page
        (omega (
          arith,
          length-take-bound (clamp_limit limit) (pending cursor s.events),
          clamp_limit-bound limit,
        ))
    where
      page : take (clamp_limit limit) (pending cursor s.events) ≡ r.events
      page =
          sym (ap (λ x. x.0) (list_after_cursor-eq cursor (clamp_limit limit) s)) ∙ ap events_of h

  -- An answer to a pull over the memory store never has more than 1000 events, whatever limit the
  -- client asks for.
  pub pull_handler_bounded :
      (device_id : String) (cursor limit : Option ℤ) (s : MemorySyncStore Raw) (r : PullResult Raw)
      → (pull_handler (memory_service env) device_id cursor limit s).0 ≡ success r
      → length r.events ≤ 1000
  unfolding pull_handler
  pull_handler_bounded device_id (some (pos cursor)) (some (pos limit)) s r h =
      elim (Bool-cases (ltb limit 1)) [
        | inl e ↦ cc (rw e at h)
        | inr e ↦ pull_bounded device_id cursor limit s r (rw e at h)
      ]
  pull_handler_bounded device_id (some (negsuc c)) limit s r h = cc h
  pull_handler_bounded device_id (some (pos c)) (some (negsuc l)) s r h = cc h
  pull_handler_bounded device_id (some (pos c)) none s r h = cc h
  pull_handler_bounded device_id none limit s r h = cc h

  resolved_or_unchanged :
      (device_id : String) (id : ℕ) (req : ResolveRequest Raw) (s : MemorySyncStore Raw)
      (status : ℕ) (code : String)
      → (respond
          (on_resolve (not (is_some req.payload)))
          (Sync.resolve_conflict (memory_service env) device_id id req)
          s).0
        ≡ failure status code
      → (Sync.resolve_conflict (memory_service env) device_id id req s).1 ≡ s
  resolved_or_unchanged device_id id req s status code h =
      elim (Result-cases (Sync.resolve_conflict (memory_service env) device_id id req s).0) [
        | inl (e, q) ↦ resolve_error_unchanged env device_id id req s e q
        | inr (u, q) ↦ cc (rw q at h)
      ]

  -- A resolution over the memory store that is answered with an error, whatever was wrong with it,
  -- changes nothing.
  pub resolve_handler_unchanged :
      (device_id : String) (id : Option ℤ) (body : Option (ResolveRequest Raw))
      (s : MemorySyncStore Raw) (status : ℕ) (code : String)
      → (resolve_conflict_handler (memory_service env) device_id id body s).0 ≡ failure status code
      → (resolve_conflict_handler (memory_service env) device_id id body s).1 ≡ s
  unfolding resolve_conflict_handler
  resolve_handler_unchanged device_id (some (pos id)) (some req) s status code h =
      elim (Bool-cases (ltb id 1)) [
        | inl e ↦ rw e refl
        | inr e ↦ rw e (resolved_or_unchanged device_id id req s status code (rw e at h))
      ]
  resolve_handler_unchanged device_id (some (pos id)) none s status code h = refl
  resolve_handler_unchanged device_id (some (negsuc n)) body s status code h = refl
  resolve_handler_unchanged device_id none body s status code h = refl
