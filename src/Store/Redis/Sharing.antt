-- ===== src/Store/Redis/Sharing.antt =====
-- Refresh tokens and upload orders share one Redis: their keys have different prefixes.
use Prim.Native.String.append
use Prim.Native.String.{[], ◌++◌ as ◌<>◌, ◌∷◌ as ◌∷ᶜ◌}
use Prim.Native.Char.{char, code}
use telebook_server.Prelude.{
  ℕ, String, ◌≡◌, refl, ◌∙◌, sym, ap, false, some, List, ◌==◌, eq_iff, eq_refl, arith, Bool-cases,
  inl, inr,
}
use telebook_server.Model.Errors.{ok}
use telebook_server.Model.Action.{◌>>◌}
use telebook_server.Model.Book.{BookFileMeta}
use telebook_server.Store.Redis.{
  RedisClient, Answers, OrderJson, save_refresh_token, get_device_by_refresh_token,
  delete_refresh_token, device_of_reply, upload_order_ttl, save_order, load_order, delete_order,
  order_of_reply, refresh_token_key_prefix, upload_order_key_prefix,
}

abbrev first_code : String → ℕ
first_code [] = 0
first_code (c ∷ᶜ s) = code c

keys_apart :
    (token_hash uuid : String)
    → ((refresh_token_key_prefix <> token_hash) == (upload_order_key_prefix <> uuid)) ≡ false
keys_apart token_hash uuid =
    elim (Bool-cases
      ((refresh_token_key_prefix <> token_hash) == (upload_order_key_prefix <> uuid))) [
        | inl e ↦ absurd (different (ap first_code (heads ((eq_iff _ _).0 e))))
        | inr e ↦ e
      ]
  where
    heads :
        refresh_token_key_prefix <> token_hash ≡ upload_order_key_prefix <> uuid
        → char 114 tt ∷ᶜ ("t:" <> token_hash) ≡ char 116 tt ∷ᶜ ("elebook:upord:" <> uuid)
    heads h =
        sym (append.cons (char 114 tt) "t:" token_hash)
        ∙ h
        ∙ append.cons (char 116 tt) "elebook:upord:" uuid

    different : ◌≡◌ {A = ℕ} 114 116 → ⊥
    different h = omega arith

eq_comm : (s t : String) → (s == t) ≡ false → (t == s) ≡ false
eq_comm s t h = ground (arith, eq_iff s t, eq_iff t s)

module _ {S : Type 0} (client : RedisClient S) (json : OrderJson) (a : Answers client) where
  -- The order of an upload that was saved is read back after any refresh token was saved and
  -- another one deleted, where what json.Marshal wrote is what json.Unmarshal reads.
  pub order_survives_tokens :
      (uuid token_hash other device_id : String) (files : List BookFileMeta) (ttl : ℕ) (s : S)
      → json.read_order (json.write_order files) ≡ some files
      → ((save_order client json uuid files
            >> save_refresh_token client token_hash device_id ttl
            >> delete_refresh_token client other
            >> load_order client json uuid)
          s).0
        ≡ ok files
  unfolding save_order save_refresh_token delete_refresh_token load_order order_of_reply
  order_survives_tokens uuid token_hash other device_id files ttl s reads =
      let (t, saved, at_t) =
        a.sets (upload_order_key_prefix <> uuid) (json.write_order files) upload_order_ttl s in
      let (u, token_saved, at_u) =
        a.sets (refresh_token_key_prefix <> token_hash) device_id ttl t in
      let (w, deleted, at_w) = a.dels (refresh_token_key_prefix <> other) u in
      rw
        (
          saved,
          token_saved,
          deleted,
          a.reads (upload_order_key_prefix <> uuid) w,
          at_w (upload_order_key_prefix <> uuid),
          keys_apart other uuid,
          at_u (upload_order_key_prefix <> uuid),
          keys_apart token_hash uuid,
          at_t (upload_order_key_prefix <> uuid),
          eq_refl (upload_order_key_prefix <> uuid),
          reads,
        )
        refl

  -- A refresh token that was saved names its device after the order of any upload was saved and
  -- that of another one deleted.
  pub token_survives_orders :
      (token_hash device_id uuid other : String) (files : List BookFileMeta) (ttl : ℕ) (s : S)
      → ((save_refresh_token client token_hash device_id ttl
            >> save_order client json uuid files
            >> delete_order client json other
            >> get_device_by_refresh_token client token_hash)
          s).0
        ≡ ok device_id
  unfolding save_order save_refresh_token delete_order get_device_by_refresh_token device_of_reply
  token_survives_orders token_hash device_id uuid other files ttl s =
      let (t, saved, at_t) = a.sets (refresh_token_key_prefix <> token_hash) device_id ttl s in
      let (u, order_saved, at_u) =
        a.sets (upload_order_key_prefix <> uuid) (json.write_order files) upload_order_ttl t in
      let (w, deleted, at_w) = a.dels (upload_order_key_prefix <> other) u in
      rw
        (
          saved,
          order_saved,
          deleted,
          a.reads (refresh_token_key_prefix <> token_hash) w,
          at_w (refresh_token_key_prefix <> token_hash),
          eq_comm _ _ (keys_apart token_hash other),
          at_u (refresh_token_key_prefix <> token_hash),
          eq_comm _ _ (keys_apart token_hash uuid),
          at_t (refresh_token_key_prefix <> token_hash),
          eq_refl (refresh_token_key_prefix <> token_hash),
        )
        refl
