-- ===== src/Store/Redis.antt =====
-- internal/store/redis_token_store.go and `RedisUploadOrderStore` of
-- internal/store/upload_order_store.go. The client of go-redis, with the reply of the server that
-- it gives, is an argument; so are the functions of encoding/json on a list of files.
pub mod Sharing
use Prim.Native.String.{◌++◌ as ◌<>◌}
use telebook_server.Prelude.{ℕ, String, ◌≡◌, Option, none, some, List, ◌==◌, if◌then◌else◌}
use telebook_server.Model.Errors.{Error, Result, ok, err}
use telebook_server.Model.Action.{Action, pure, raise, ◌>>=◌}
use telebook_server.Model.Book.{BookFileMeta}

-- `Set` with the time to live, `Get`, where none is redis.Nil, and `Del`.
pub record RedisClient (S : Type 0) : Type 0 where
  pub set : String → String → ℕ → Action S (Unit {0})
  pub get : String → Action S (Option String)
  pub del : String → Action S (Unit {0})

abbrev pub refresh_token_key_prefix : String
refresh_token_key_prefix = "rt:"

abbrev pub upload_order_key_prefix : String
upload_order_key_prefix = "telebook:upord:"

-- In seconds.
abbrev pub upload_order_ttl : ℕ
upload_order_ttl = 604800

pub record OrderJson : Type 0 where
  pub write_order : List BookFileMeta → String
  pub read_order : String → Option (List BookFileMeta)

module _ {S : Type 0} (client : RedisClient S) where
  unfoldable pub save_refresh_token : String → String → ℕ → Action S (Unit {0})
  save_refresh_token token_hash device_id ttl =
      client.set (refresh_token_key_prefix <> token_hash) device_id ttl

  unfoldable pub device_of_reply : Option String → Action S String
  device_of_reply none = raise Error.token_not_found
  device_of_reply (some device_id) = pure device_id

  unfoldable pub get_device_by_refresh_token : String → Action S String
  unfolding device_of_reply
  get_device_by_refresh_token token_hash = do
    reply ← client.get (refresh_token_key_prefix <> token_hash)
    device_of_reply reply

  unfoldable pub delete_refresh_token : String → Action S (Unit {0})
  delete_refresh_token token_hash = client.del (refresh_token_key_prefix <> token_hash)

module _ {S : Type 0} (client : RedisClient S) (json : OrderJson) where
  unfoldable pub save_order : String → List BookFileMeta → Action S (Unit {0})
  save_order uuid files =
      client.set (upload_order_key_prefix <> uuid) (json.write_order files) upload_order_ttl

  unfoldable pub order_of_reply : Option String → Action S (List BookFileMeta)
  order_of_reply none = raise Error.upload_order_lost
  order_of_reply (some text) = elim (json.read_order text) [
    | none ↦ raise Error.bad_json
    | some files ↦ pure files
  ]

  unfoldable pub load_order : String → Action S (List BookFileMeta)
  unfolding order_of_reply
  load_order uuid = do reply ← client.get (upload_order_key_prefix <> uuid); order_of_reply reply

  unfoldable pub delete_order : String → Action S (Unit {0})
  delete_order uuid = client.del (upload_order_key_prefix <> uuid)

-- A server that answers: `content` is what it has, before a time to live is over.
pub record Answers {S : Type 0} (client : RedisClient S) : Type 0 where
  pub content : S → String → Option String
  pub reads : (key : String) (s : S) → client.get key s ≡ (ok (content s key), s)
  pub sets :
      (key value : String) (ttl : ℕ) (s : S)
      → (t : S) × (client.set key value ttl s ≡ (ok tt, t))
        × ((j : String) → content t j ≡ (if key == j then some value else content s j))
  pub dels :
      (key : String) (s : S)
      → (t : S) × (client.del key s ≡ (ok tt, t))
        × ((j : String) → content t j ≡ (if key == j then none else content s j))
