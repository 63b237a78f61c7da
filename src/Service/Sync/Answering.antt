-- ===== src/Service/Sync/Answering.antt =====
-- `Push` over the memory store always answers, for each change.
use mathlib.Core.List.{append-nil, append_assoc}
use telebook_server.Prelude.{
  String, ◌≡◌, refl, ap, ◌∙◌, sym, Bool, true, Option, none, some, List, [], ◌∷◌, ◌++◌, map, length,
  eqb, ◌==◌, Bool-cases, inl, inr,
}
use telebook_server.Model.Errors.{Result, ok, err}
use telebook_server.Model.Book.{BookFileMeta}
use telebook_server.Model.Sync.{Change, ChangeResult, entity_book}
use telebook_server.Store.Memory.{MemorySyncStore}
use telebook_server.Service.Sync.{
  push, push_all, push_one, files_complete, files_to_verify, apply_routed, result_of,
  incomplete_result,
}
use telebook_server.Service.Sync.Histories.{Env, memory_service}

-- A verifier, where there is one, that never fails.
abbrev pub NeverFails : Option (List BookFileMeta → Result Bool) → Type 0
NeverFails none = Unit
NeverFails (some verify) = (fs : List BookFileMeta) → (b : Bool) × (verify fs ≡ ok b)

-- The call succeeded, with what `P` tells.
abbrev Succeeds : {A : Type 0} → (A → Type 0) → Result A → Type 0
Succeeds P (ok a) = P a
Succeeds P (err e) = ⊥

succeeds : {A : Type 0} {P : A → Type 0} (r : Result A) → Succeeds P r → (a : A) × (r ≡ ok a) × P a
succeeds (ok a) h = (a, refl, h)
succeeds (err e) h = absurd h

-- The entity of a result, and of a change.
abbrev pub answered : ChangeResult → String × String
answered r = (r.entity_type, r.entity_id)

module _ {Raw : Type 0} where
  abbrev pub entity_of : Change Raw → String × String
  entity_of c = (c.entity_type, c.entity_id)

  module _ (env : Env Raw) where
    verified :
        (o : Option (List BookFileMeta → Result Bool)) (fs : List BookFileMeta)
        → NeverFails o
        → (b : Bool) × ((elim o [
          | none ↦ ok true
          | some verify ↦ elim fs [ [] ↦ ok true | f ∷ gs ↦ verify (f ∷ gs) ]
        ])
            ≡ ok b)
    verified none fs h = (true, refl)
    verified (some verify) [] h = (true, refl)
    verified (some verify) (f ∷ fs) h = h (f ∷ fs)

    push_one-Succeeds :
        (device_id source : String) (c : Change Raw) (s : MemorySyncStore Raw)
        → NeverFails env.file_verifier
        → Succeeds
            (λ r. answered r ≡ entity_of c)
            (push_one (memory_service env) device_id source c s).0
    unfolding push_one files_complete apply_routed result_of incomplete_result
    push_one-Succeeds device_id source c s h =
        let (complete, e) = verified env.file_verifier (files_to_verify (memory_service env) c) h in
        rw e (elim (Bool-cases complete) [
          | inl y ↦ rw y (elim (Bool-cases (c.entity_type == entity_book)) [
            | inl b ↦ rw b refl
            | inr b ↦ rw b refl
          ])
          | inr y ↦ rw y refl
        ])

    push_all-answers :
        (device_id source : String) (cs : List (Change Raw)) (acc : List ChangeResult)
        (s : MemorySyncStore Raw)
        → NeverFails env.file_verifier
        → (rs : List ChangeResult) × ((push_all (memory_service env) device_id source cs acc s).0
            ≡ ok (acc ++ rs))
          × (map answered rs ≡ map entity_of cs)
    unfolding push_all
    push_all-answers device_id source [] acc s h = ([], ap ok (sym (append-nil acc)), refl)
    push_all-answers device_id source (c ∷ cs) acc s h =
        let (r, e, a) =
          succeeds {P = λ x. answered x ≡ entity_of c}
            (push_one (memory_service env) device_id source c s).0
            (push_one-Succeeds device_id source c s h) in
        let (rs, q, b) =
          push_all-answers device_id source cs (acc ++ r ∷ [])
            (push_one (memory_service env) device_id source c s).1 h in
        (r ∷ rs, rw e (q ∙ ap ok (append_assoc acc (r ∷ []) rs)), rw (a, b) refl)

    pub push-answers :
        (device_id source : String) (cs : List (Change Raw)) (s : MemorySyncStore Raw)
        → NeverFails env.file_verifier
        → (rs : List ChangeResult) × ((push (memory_service env) device_id source cs s).0 ≡ ok rs)
          × (map answered rs ≡ map entity_of cs)
    unfolding push
    push-answers device_id source cs s h =
        let (rs, q, b) = push_all-answers device_id source cs [] s h in
        (
          rs,
          elim (Bool-cases (eqb (length rs) 0)) [ inl z ↦ rw (q, z) refl | inr z ↦ rw (q, z) refl ],
          b,
        )
