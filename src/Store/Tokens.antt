-- ===== src/Store/Tokens.antt =====
-- internal/store/memory_token_store.go. The clock is an argument.
use telebook_server.Prelude.{
  ℕ, ◌+◌, String, none, some, [], GoMap, lookup, insert, erase, ltb, if◌then◌else◌,
}
use telebook_server.Model.Errors.{Error, ok, err}
use telebook_server.Model.Action.{Action}
use telebook_server.Model.Book.{Time}

pub record MemoryRefreshToken : Type 0 where
  pub device_id : String
  pub expires : Time

pub record MemoryTokenStore : Type 0 where
  pub tokens : GoMap MemoryRefreshToken

abbrev pub new_memory_token_store : MemoryTokenStore
new_memory_token_store = record { tokens = [] }

unfoldable pub save_refresh_token : String → String → ℕ → Time → Action MemoryTokenStore (Unit {0})
save_refresh_token token_hash device_id ttl now s = (
  ok tt,
  record {
    tokens = insert token_hash (record { device_id = device_id; expires = now + ttl }) s.tokens;
  },
)

unfoldable pub get_device_by_refresh_token : String → Time → Action MemoryTokenStore String
get_device_by_refresh_token token_hash now s = elim (lookup token_hash s.tokens) [
  | none ↦ (err Error.token_not_found, s)
  | some t ↦ (if ltb t.expires now then err Error.token_not_found else ok t.device_id, s)
]

unfoldable pub delete_refresh_token : String → Action MemoryTokenStore (Unit {0})
delete_refresh_token token_hash s = (ok tt, record { tokens = erase token_hash s.tokens })
