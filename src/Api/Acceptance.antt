-- ===== src/Api/Acceptance.antt =====
-- Pushes that are well formed, at `PushHandler`.
use telebook_server.Prelude.{
  eqb, ℕ, ◌≤◌, String, ◌≡◌, ◌≢◌, ◌⊎◌, inl, inr, refl, ap, ◌∙◌, map, true, false, not, ◌&&◌, some,
  List, [], ◌∷◌, length, All, arith, eq_iff, ◌==◌, Bool-cases,
}
use telebook_server.Model.Sync.{Change, ChangeResult, op_upsert, op_delete}
use telebook_server.Store.Memory.{MemorySyncStore}
use telebook_server.Service.Sync.Histories.{Env, memory_service}
use telebook_server.Service.Sync.Answering.{NeverFails, answered, entity_of, push-answers}
use telebook_server.Service.Sync
use telebook_server.Service.Sync.{SyncService}
use telebook_server.Api.Reply.{respond, internal, success}
use telebook_server.Api.Sync.{
  PushRequest, push_handler, validate_change, validate_all, source_or_auto, sync_source_auto,
  sync_source_manual,
}
use telebook_server.Api.Validation.{IsValid}

eq_false : (s t : String) → s ≢ t → (s == t) ≡ false
eq_false s t n = elim (Bool-cases (s == t)) [ inl e ↦ absurd (n ((eq_iff s t).0 e)) | inr e ↦ e ]

not_both : (s t u : String) → (s ≡ t) ⊎ (s ≡ u) → (not (s == t) && not (s == u)) ≡ false
not_both s t u (inl e) = ground (arith, eq_iff s t, eq_iff s u)
not_both s t u (inr e) = ground (arith, eq_iff s t, eq_iff s u)

some_change : (n : ℕ) → 1 ≤ n → eqb n 0 ≡ false
some_change n h = ground arith

module _ {Raw : Type 0} where
  validate_change-accepts : (c : Change Raw) → IsValid c → validate_change c ≡ true
  unfolding validate_change
  validate_change-accepts c v = rw (eq_false c.change_id "" v.change_id) (
      rw (eq_false c.entity_type "" v.entity_type) (
        rw (eq_false c.entity_id "" v.entity_id)
          (rw (not_both c.op op_upsert op_delete v.op) refl)))

  validate_all-accepts : (cs : List (Change Raw)) → All IsValid cs → validate_all cs ≡ true
  unfolding validate_all
  validate_all-accepts [] h = refl
  validate_all-accepts (c ∷ cs) (v, vs) =
      rw (validate_change-accepts c v) (validate_all-accepts cs vs)

module _ {Raw S : Type 0} (v : SyncService Raw S) where
  -- A push that is well formed goes to the service as it is.
  push_handler_accepts :
      (device_id : String) (req : PushRequest Raw) (s : S)
      → 1 ≤ length req.changes
      → All IsValid req.changes
      → ((source_or_auto req.source ≡ sync_source_auto)
          ⊎ (source_or_auto req.source ≡ sync_source_manual))
      → push_handler v device_id (some req) s
        ≡ respond internal (Sync.push v device_id (source_or_auto req.source) req.changes) s
  unfolding push_handler
  push_handler_accepts device_id req s l valid source =
      rw (not_both (source_or_auto req.source) sync_source_auto sync_source_manual source)
        (rw (some_change (length req.changes) l) (rw (validate_all-accepts req.changes valid) refl))

-- Over the memory store, with a file verifier, if any, that never fails, a push with at least one
-- change, all of them with a change id, a type, an id, and an operation upsert or delete, from a
-- source that is manual, auto or not given, is always answered with success: with one result for
-- each change, in their order, that names the type and the id of the entity.
pub push_handler_answers :
    {Raw : Type 0} (env : Env Raw) (device_id : String) (req : PushRequest Raw)
    (s : MemorySyncStore Raw)
    → NeverFails env.file_verifier
    → 1 ≤ length req.changes
    → All IsValid req.changes
    → ((source_or_auto req.source ≡ sync_source_auto)
        ⊎ (source_or_auto req.source ≡ sync_source_manual))
    → (rs : List ChangeResult) × ((push_handler (memory_service env) device_id (some req) s).0
        ≡ success rs)
      × (map answered rs ≡ map entity_of req.changes)
push_handler_answers env device_id req s h l valid source =
    let (rs, q, names) = push-answers env device_id (source_or_auto req.source) req.changes s h in
    (
      rs,
      ap (λ x. x.0) (push_handler_accepts (memory_service env) device_id req s l valid source)
          ∙ rw q refl,
      names,
    )
