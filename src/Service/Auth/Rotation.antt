-- ===== src/Service/Auth/Rotation.antt =====
-- What becomes of refresh tokens.
use telebook_server.Model.Book.{Time}
use telebook_server.Prelude.{
  Option, ◌+◌, String, ◌≡◌, refl, ◌∙◌, ap, false, none, some, lookup, insert, erase, ltb, ◌==◌,
  if◌then◌else◌, Option-cases, inl, inr, lookup-insert, lookup-erase, eq_refl,
}
use telebook_server.Model.Errors.{Error, Result, ok, err, Result-cases}
use telebook_server.Model.Device.{Device, RefreshResponse}
use telebook_server.Store.Tokens.{
  MemoryTokenStore, save_refresh_token, delete_refresh_token, MemoryRefreshToken,
  get_device_by_refresh_token,
}
use telebook_server.Service.Auth.{
  new_refresh_token, AuthService, AuthState, refresh, refresh_known, refresh_for,
  refresh_token_hash,
}

-- A token that the store knows for the device, until the time.
abbrev pub token_of : String → AuthState → Option MemoryRefreshToken
token_of hash s = lookup hash s.tokens.tokens

pub get_device_by_refresh_token-none :
    (hash : String) (now : Time) (s : MemoryTokenStore)
    → lookup hash s.tokens ≡ none
    → get_device_by_refresh_token hash now s ≡ (err Error.token_not_found, s)
unfolding get_device_by_refresh_token
get_device_by_refresh_token-none hash now s e = rw (e, get_device_by_refresh_token) refl

pub get_device_by_refresh_token-some :
    (hash : String) (now : Time) (s : MemoryTokenStore) (t : MemoryRefreshToken)
    → lookup hash s.tokens ≡ some t
    → get_device_by_refresh_token hash now s
      ≡ (if ltb t.expires now then err Error.token_not_found else ok t.device_id, s)
unfolding get_device_by_refresh_token
get_device_by_refresh_token-some hash now s t e = rw (e, get_device_by_refresh_token) refl

get_device_by_refresh_token-same :
    (hash : String) (now : Time) (s : MemoryTokenStore)
    → (get_device_by_refresh_token hash now s).1 ≡ s
get_device_by_refresh_token-same hash now s = elim (Option-cases (lookup hash s.tokens)) [
  | inl e ↦ ap (λ x. x.1) (get_device_by_refresh_token-none hash now s e)
  | inr (t, e) ↦ ap (λ x. x.1) (get_device_by_refresh_token-some hash now s t e)
]

pub refresh_unknown :
    (v : AuthService) (token : String) (s : AuthState)
    → token_of (v.sha256 token) s ≡ none
    → refresh v token s ≡ (err Error.invalid_refresh_token, s)
unfolding refresh refresh_token_hash refresh_known
refresh_unknown v token s e =
    rw (get_device_by_refresh_token-none (v.sha256 token) v.now s.tokens e) refl

refresh_for-ok :
    (v : AuthService) (hash : String) (d : Result Device) (s : AuthState) (r : RefreshResponse)
    → (refresh_for v hash d s).0 ≡ ok r
    → (i : String) × ((refresh_for v hash d s).1.tokens.tokens
        ≡ insert
            (v.sha256 v.random_token)
            (record { device_id = i; expires = v.now + v.refresh_ttl })
            (erase hash s.tokens.tokens))
unfolding refresh_for delete_refresh_token save_refresh_token new_refresh_token refresh_token_hash
refresh_for-ok v hash (err e) s r h = cc h
refresh_for-ok v hash (ok d) s r h = elim (Result-cases (v.issue d.id d.name v.now)) [
  | inl (e, q) ↦ cc (rw q at h)
  | inr (a, q) ↦ (d.id, rw q refl)
]

refresh_known-ok :
    (v : AuthService) (hash : String) (d : Result String) (s : AuthState) (r : RefreshResponse)
    → (refresh_known v hash d s).0 ≡ ok r
    → (i : String) × ((refresh_known v hash d s).1.tokens.tokens
        ≡ insert
            (v.sha256 v.random_token)
            (record { device_id = i; expires = v.now + v.refresh_ttl })
            (erase hash s.tokens.tokens))
unfolding refresh_known
refresh_known-ok v hash (err e) s r h = cc h
refresh_known-ok v hash (ok id) s r h = refresh_for-ok v hash _ _ r h

refresh-ok :
    (v : AuthService) (token : String) (s : AuthState) (r : RefreshResponse)
    → (refresh v token s).0 ≡ ok r
    → (i : String) × ((refresh v token s).1.tokens.tokens
        ≡ insert
            (v.sha256 v.random_token)
            (record { device_id = i; expires = v.now + v.refresh_ttl })
            (erase (v.sha256 token) s.tokens.tokens))
unfolding refresh refresh_token_hash
refresh-ok v token s r h =
    let (i, q) = refresh_known-ok v (v.sha256 token) _ _ r h in
    (i, q ∙ rw (get_device_by_refresh_token-same (v.sha256 token) v.now s.tokens) refl)

-- The same service at another call.
abbrev pub another_call : AuthService → Time → String → AuthService
another_call v now random = record v { now = now; random_token = random }

-- A refresh token serves once: after a refresh that succeeded, under a new token with another hash,
-- a refresh with the old token that comes next, at whatever time, is refused and changes nothing.
pub refresh_once :
    (v : AuthService) (token other : String) (later : Time) (s : AuthState) (r : RefreshResponse)
    → (refresh v token s).0 ≡ ok r
    → (v.sha256 v.random_token == v.sha256 token) ≡ false
    → refresh (another_call v later other) token (refresh v token s).1
      ≡ (err Error.invalid_refresh_token, (refresh v token s).1)
refresh_once v token other later s r h ne =
    let (i, q) = refresh-ok v token s r h in
    refresh_unknown (another_call v later other) token (refresh v token s).1 (
      rw q (
        rw (lookup-insert (v.sha256 v.random_token) (v.sha256 token) _ _) (
          rw ne (
            rw (lookup-erase (v.sha256 token) (v.sha256 token) s.tokens.tokens)
              (rw (eq_refl (v.sha256 token)) refl)))))
