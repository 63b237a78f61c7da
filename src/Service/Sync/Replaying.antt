-- ===== src/Service/Sync/Replaying.antt =====
-- A change that comes again, over the memory store, whatever came between.
use telebook_server.Prelude.{
  String, ◌≡◌, ◌≢◌, refl, ap, sym, ◌∙◌, subst, true, Option, none, some, List, [], ◌∷◌, ◌++◌,
  lookup, is_some, All, ◌==◌, Bool-cases, inl, inr,
}
use telebook_server.Prelude.Int.{eq_pos}
use telebook_server.Store.Memory.Growth.{Grows}
use telebook_server.Model.Errors.{Result, ok, ok_inj}
use telebook_server.Model.Book.{Time}
use telebook_server.Model.Sync.{Change, ChangeOutcome, zero_outcome, Reason, entity_book, op_delete}
use telebook_server.Store.Memory.{MemorySyncStore, MemoryBook, MemoryEntity, MemoryEvent}
use telebook_server.Store.Memory.Log.{append_event, append_conflict}
use telebook_server.Store.Memory.Entities.{apply_change, apply_to_entity, entity_key}
use telebook_server.Store.Memory.Books.{apply_book_change, apply_to_book}
use telebook_server.Store.Memory.Invariant.{WellFormed, IsKnown}
use telebook_server.Store.Memory.Steps.{Reach-WellFormed}
use telebook_server.Service.Sync.{apply_routed}
use telebook_server.Service.Sync.Histories.{Env, memory_service, apply_routed-IsHistory}
use telebook_server.Service.Sync.Requests.{Request, serve, serve-Grows, serve-Reach}

All-right {κ} : {A : Type 0} (P : A → Type κ) (xs ys : List A) → All P (xs ++ ys) → All P ys
All-right P [] ys h = h
All-right P (x ∷ xs) ys h = All-right P xs ys (h.1)

All-left {κ} : {A : Type 0} (P : A → Type κ) (xs ys : List A) → All P (xs ++ ys) → All P xs
All-left P [] ys h = tt
All-left P (x ∷ xs) ys h = (h.0, All-left P xs ys (h.1))

module _ {Raw : Type 0} where
  -- The last event of the log is that of the change.
  abbrev Logged : Change Raw → MemorySyncStore Raw → Type 0
  Logged c s =
      (es : List (MemoryEvent Raw)) × (e : MemoryEvent Raw) × (s.events ≡ es ++ e ∷ [])
      × (e.change_id ≡ c.change_id)

  book-Logged :
      (o : Option (MemoryBook Raw)) (c : Change Raw) (device_id : String) (now : Time)
      (s : MemorySyncStore Raw)
      → (apply_to_book o c device_id now s).0.event_id ≢ 0
      → Logged c (apply_to_book o c device_id now s).1
  unfolding apply_to_book append_event append_conflict
  book-Logged none c device_id now s h = elim (Bool-cases (c.op == op_delete)) [
    | inl e ↦ absurd (rw e at h refl)
    | inr e ↦ elim (Bool-cases (eq_pos c.base_revision 0)) [
      | inl z ↦ rw (e, z) (s.events, _, refl, refl)
      | inr z ↦ absurd (rw (e, z) at h refl)
    ]
  ]
  book-Logged (some b) c device_id now s h = elim (Bool-cases (eq_pos c.base_revision b.revision)) [
    | inl z ↦ rw z (s.events, _, refl, refl)
    | inr z ↦ rw z (s.events, _, refl, refl)
  ]

  entity-Logged :
      (o : Option (MemoryEntity Raw)) (c : Change Raw) (device_id : String) (now : Time)
      (s : MemorySyncStore Raw)
      → (apply_to_entity o c device_id now s).0.event_id ≢ 0
      → Logged c (apply_to_entity o c device_id now s).1
  unfolding apply_to_entity append_event append_conflict
  entity-Logged none c device_id now s h = elim (Bool-cases (c.op == op_delete)) [
    | inl e ↦ absurd (rw e at h refl)
    | inr e ↦ elim (Bool-cases (eq_pos c.base_revision 0)) [
      | inl z ↦ rw (e, z) (s.events, _, refl, refl)
      | inr z ↦ absurd (rw (e, z) at h refl)
    ]
  ]
  entity-Logged (some b) c device_id now s h =
      elim (Bool-cases (eq_pos c.base_revision b.revision)) [
        | inl z ↦ rw z (s.events, _, refl, refl)
        | inr z ↦ rw z (s.events, _, refl, refl)
      ]

  -- The store that a change is routed to.
  abbrev pub routed :
      Env Raw
      → Change Raw
      → String
      → String
      → MemorySyncStore Raw
      → Result ChangeOutcome × MemorySyncStore Raw
  routed env c source device_id s = apply_routed (memory_service env) c source device_id s

  routed-Logged :
      (env : Env Raw) (c : Change Raw) (source device_id : String) (s : MemorySyncStore Raw)
      (o : ChangeOutcome)
      → (routed env c source device_id s).0 ≡ ok o
      → o.event_id ≢ 0
      → Logged c (routed env c source device_id s).1
  unfolding apply_routed apply_change apply_book_change
  routed-Logged env c source device_id s o h n = elim (Bool-cases (c.entity_type == entity_book)) [
    | inl b ↦ elim (Bool-cases (is_some (lookup c.change_id s.change_ids))) [
      | inl e ↦ absurd (n (sym (ap (λ x. x.event_id) (ok_inj _ o (rw (b, e) at h)))))
      | inr e ↦
          rw (b, e)
            (book-Logged (lookup c.entity_id s.books) c device_id env.now s
              (λ z. n (sym (ap (λ x. x.event_id) (ok_inj _ o (rw (b, e) at h))) ∙ z)))
    ]
    | inr b ↦ elim (Bool-cases (is_some (lookup c.change_id s.change_ids))) [
      | inl e ↦ absurd (n (sym (ap (λ x. x.event_id) (ok_inj _ o (rw (b, e) at h)))))
      | inr e ↦
          rw (b, e)
            (entity-Logged (lookup (entity_key c.entity_type c.entity_id) s.entities) c device_id
              env.now s (λ z. n (sym (ap (λ x. x.event_id) (ok_inj _ o (rw (b, e) at h))) ∙ z)))
    ]
  ]

  -- The duplicate test knows what is in the log, and the log only grows.
  Logged-known :
      (c : Change Raw) (s t : MemorySyncStore Raw)
      → Logged c s
      → Grows s t
      → WellFormed t
      → is_some (lookup c.change_id t.change_ids) ≡ true
  Logged-known c s t (es, e, q, same) g w =
      let all = subst (All (IsKnown t.change_ids)) (g.log.1 ∙ ap (λ l. l ++ g.log.0) q) w.known in
      let here = All-right (IsKnown t.change_ids) es (e ∷ []) (All-left _ (es ++ e ∷ []) _ all) in
      subst (λ i. is_some (lookup i t.change_ids) ≡ true) same (here.0)

  known_is_duplicate :
      (env : Env Raw) (c : Change Raw) (source device_id : String) (s : MemorySyncStore Raw)
      → is_some (lookup c.change_id s.change_ids) ≡ true
      → routed env c source device_id s
        ≡ (ok (record zero_outcome { accepted = true; reason = Reason.duplicate }), s)
  unfolding apply_routed apply_change apply_book_change
  known_is_duplicate env c source device_id s k = elim (Bool-cases (c.entity_type == entity_book)) [
    | inl b ↦ rw (b, k) refl
    | inr b ↦ rw (b, k) refl
  ]

  -- Over a well-formed memory store, a change, of a book or of another entity, for which the store that
  -- it is routed to wrote an event, also the event of a conflict, changes nothing when the store
  -- gets it again from any device, whatever requests the service handled in between: the answer is
  -- accepted, as a duplicate, and the state is the same.
  pub replay_is_duplicate :
      (env later : Env Raw) (c : Change Raw) (source device_id again other : String)
      (s : MemorySyncStore Raw) (o : ChangeOutcome) (rs : List (Env Raw × Request Raw))
      → WellFormed s
      → (routed env c source device_id s).0 ≡ ok o
      → o.event_id ≢ 0
      → routed later c again other (serve rs (routed env c source device_id s).1) ≡ (
        ok (record zero_outcome { accepted = true; reason = Reason.duplicate }),
        serve rs (routed env c source device_id s).1,
      )
  replay_is_duplicate env later c source device_id again other s o rs w h n =
      let t = (routed env c source device_id s).1 in
      known_is_duplicate later c again other (serve rs t) (
        Logged-known c t (serve rs t) (routed-Logged env c source device_id s o h n)
          (serve-Grows rs t)
          (Reach-WellFormed
            (Reach-WellFormed w ((apply_routed-IsHistory env c source device_id).at s))
            (serve-Reach rs t)))
