-- ===== src/Service/Auth/Registration.antt =====
-- What a registration grants.
use telebook_server.Model.Action.{pure, attempt, lift, Action, continue}
use telebook_server.Model.Book.{Time}
use telebook_server.Prelude.{
  ◌+◌, ◌<◌, ◌≤◌, String, ◌≡◌, refl, ◌∙◌, ap, sym, Bool, true, false, none, some, lookup, arith, ltb,
  ◌==◌, is_some, Bool-cases, Option-cases, inl, inr, lookup-insert, eq_refl,
}
use telebook_server.Model.Errors.{Error, Result, ok, err, Result-cases, ok_inj}
use telebook_server.Model.Device.{Device, RefreshResponse, RegisterRequest, RegisterResponse}
use telebook_server.Store.Tokens.{delete_refresh_token, save_refresh_token, MemoryRefreshToken}
use telebook_server.Store.Devices.{DeviceTable, get_device_by_id, create_device, touch_device}
use telebook_server.Model.Action.{◌>>=◌, ◌>>◌}
use telebook_server.Service.Auth.{
  in_devices, in_tokens, new_refresh_token, AuthService, AuthState, refresh, refresh_known,
  refresh_for, register, refresh_token_hash, ensure_device, create_new, created,
}
use telebook_server.Service.Auth.Rotation.{token_of, another_call, get_device_by_refresh_token-some}

abbrev pub is_registered : String → AuthState → Bool
is_registered id s = is_some (lookup id s.devices.devices)

pub get_device_by_id-some :
    (id : String) (s : DeviceTable) (d : Device)
    → lookup id s.devices ≡ some d
    → get_device_by_id id s ≡ (ok d, s)
unfolding get_device_by_id
get_device_by_id-some id s d e = rw (e, get_device_by_id) refl

pub get_device_by_id-none :
    (id : String) (s : DeviceTable)
    → lookup id s.devices ≡ none
    → get_device_by_id id s ≡ (err Error.device_not_found, s)
unfolding get_device_by_id
get_device_by_id-none id s e = rw (e, get_device_by_id) refl

create_new-known :
    (v : AuthService) (req : RegisterRequest) (s : AuthState)
    → is_registered req.device_id s ≡ false
    → (create_new v req s).0 ≡ ok tt
    → is_registered req.device_id (create_new v req s).1 ≡ true
unfolding create_new create_device created
create_new-known v req s n h = elim (Result-cases (v.hash_password req.connection_key)) [
  | inl (e, q) ↦ cc (rw q at h)
  | inr (k, q) ↦ rw q (rw n (simp (lookup-insert, eq_refl) (ground arith)))
]

-- The state once the device of a request is known, or not.
abbrev pub ensured : AuthService → RegisterRequest → AuthState → Result (Unit {0}) × AuthState
ensured v req s = ensure_device v req (get_device_by_id req.device_id s.devices).0 s

ensured-known :
    (v : AuthService) (req : RegisterRequest) (s : AuthState)
    → (ensured v req s).0 ≡ ok tt
    → is_registered req.device_id (ensured v req s).1 ≡ true
unfolding ensure_device
ensured-known v req s h = elim (Option-cases (lookup req.device_id s.devices.devices)) [
  | inl e ↦ rw (get_device_by_id-none req.device_id s.devices e) (
      create_new-known v req s (rw e refl)
        (rw (get_device_by_id-none req.device_id s.devices e) at h))
  | inr (d, e) ↦ rw (get_device_by_id-some req.device_id s.devices d e) (rw e refl)
]

touch-known :
    (id : String) (now : Time) (s : DeviceTable)
    → is_some (lookup id s.devices) ≡ true
    → is_some (lookup id (touch_device id now s).1.devices) ≡ true
unfolding touch_device
touch-known id now s h = elim (Option-cases (lookup id s.devices)) [
  | inl e ↦ cc (rw e at h)
  | inr (d, e) ↦ rw (e, touch_device) (simp (lookup-insert, eq_refl) (ground arith))
]

-- What a registration that succeeds leaves behind.
pub record Granted (v : AuthService) (req : RegisterRequest) (r : RegisterResponse) (s : AuthState)
    : Type 0 where
  drawn : r.refresh_token ≡ v.random_token
  token :
      token_of (v.sha256 v.random_token) s
      ≡ some (record { device_id = req.device_id; expires = v.now + v.refresh_ttl })
  pub device : is_registered req.device_id s ≡ true

pub get_device_by_id-same : (id : String) (s : DeviceTable) → (get_device_by_id id s).1 ≡ s
get_device_by_id-same id s = elim (Option-cases (lookup id s.devices)) [
  | inl e ↦ ap (λ x. x.1) (get_device_by_id-none id s e)
  | inr (d, e) ↦ ap (λ x. x.1) (get_device_by_id-some id s d e)
]

-- `Register` after the device is known.
abbrev pub issue_tokens : AuthService → RegisterRequest → Action AuthState RegisterResponse
issue_tokens v req = do
  access ← lift (v.issue req.device_id req.device_name v.now)
  in_tokens (save_refresh_token ((new_refresh_token v).1) req.device_id v.refresh_ttl v.now)
  attempt (in_devices (touch_device req.device_id v.now))
  pure (record {
    access_token = access;
    refresh_token = (new_refresh_token v).0;
    device_id = req.device_id;
  })

pub register-open :
    (v : AuthService) (req : RegisterRequest) (s : AuthState)
    → (req.connection_key == v.sync_secret) ≡ true
    → register v req s ≡ continue (ensured v req s).0 (λ u. issue_tokens v req) (ensured v req s).1
unfolding register
register-open v req s k = rw k (rw (get_device_by_id-same req.device_id s.devices) refl)

register-closed :
    (v : AuthService) (req : RegisterRequest) (s : AuthState)
    → (req.connection_key == v.sync_secret) ≡ false
    → register v req s ≡ (err Error.invalid_key, s)
unfolding register
register-closed v req s k = rw k refl

issue_tokens-Granted :
    (v : AuthService) (req : RegisterRequest) (t : AuthState) (r : RegisterResponse)
    → is_registered req.device_id t ≡ true
    → (issue_tokens v req t).0 ≡ ok r
    → Granted v req r (issue_tokens v req t).1
unfolding save_refresh_token new_refresh_token refresh_token_hash
issue_tokens-Granted v req t r known h =
    elim (Result-cases (v.issue req.device_id req.device_name v.now)) [
      | inl (e, q) ↦ cc (rw q at h)
      | inr (a, q) ↦ rw q (record {
        drawn = sym (ap (λ x. x.refresh_token) (ok_inj _ r (rw q at h)));
        token = simp (lookup-insert, eq_refl) (ground arith);
        device = touch-known req.device_id v.now t.devices known;
      })
    ]

ensured-Granted :
    (v : AuthService) (req : RegisterRequest) (s : AuthState) (r : RegisterResponse)
    → (continue (ensured v req s).0 (λ u. issue_tokens v req) (ensured v req s).1).0 ≡ ok r
    → Granted v req r (continue (ensured v req s).0 (λ u. issue_tokens v req) (ensured v req s).1).1
ensured-Granted v req s r h = elim (Result-cases (ensured v req s).0) [
  | inl (e, q) ↦ cc (rw q at h)
  | inr (u, q) ↦
      rw q (issue_tokens-Granted v req (ensured v req s).1 r (ensured-known v req s q) (rw q at h))
]

pub register-Granted :
    (v : AuthService) (req : RegisterRequest) (s : AuthState) (r : RegisterResponse)
    → (register v req s).0 ≡ ok r
    → ((req.connection_key == v.sync_secret) ≡ true) × Granted v req r (register v req s).1
register-Granted v req s r h = elim (Bool-cases (req.connection_key == v.sync_secret)) [
  | inl k ↦ (
    k,
    rw (register-open v req s k) (ensured-Granted v req s r (rw (register-open v req s k) at h)),
  )
  | inr k ↦ cc (h, ap (λ x. x.0) (register-closed v req s k))
]

refresh_granted :
    (v : AuthService) (token access : String) (t : MemoryRefreshToken) (d : Device) (s : AuthState)
    → token_of (v.sha256 token) s ≡ some t
    → ltb t.expires v.now ≡ false
    → lookup t.device_id s.devices.devices ≡ some d
    → v.issue d.id d.name v.now ≡ ok access
    → (refresh v token s).0 ≡ ok (record { access_token = access; refresh_token = v.random_token })
unfolding refresh refresh_known refresh_for refresh_token_hash delete_refresh_token
    save_refresh_token new_refresh_token
refresh_granted v token access t d s e n f q =
    rw (get_device_by_refresh_token-some (v.sha256 token) v.now s.tokens t e)
      (rw n (rw (get_device_by_id-some t.device_id s.devices d f) (rw q refl)))

refresh_expired :
    (v : AuthService) (token : String) (t : MemoryRefreshToken) (s : AuthState)
    → token_of (v.sha256 token) s ≡ some t
    → ltb t.expires v.now ≡ true
    → refresh v token s ≡ (err Error.invalid_refresh_token, s)
unfolding refresh refresh_known refresh_token_hash
refresh_expired v token t s e n =
    rw (get_device_by_refresh_token-some (v.sha256 token) v.now s.tokens t e) (rw n refl)

-- A registration succeeds only with the server's connection key, and its refresh token then serves
-- exactly for its time: up to the end of it a refresh succeeds, where access tokens can be
-- signed, and after it a refresh is refused and changes nothing.
pub registered_refreshes :
    (v : AuthService) (req : RegisterRequest) (s : AuthState) (r : RegisterResponse) (later : Time)
    (other : String)
    → (register v req s).0 ≡ ok r
    → ((id name : String) → (a : String) × (v.issue id name later ≡ ok a))
    → ((req.connection_key == v.sync_secret) ≡ true)
      × (later ≤ v.now + v.refresh_ttl
          → (q : RefreshResponse) × ((refresh
                (another_call v later other)
                r.refresh_token
                (register v req s).1).0
              ≡ ok q))
      × (v.now + v.refresh_ttl < later
          → refresh (another_call v later other) r.refresh_token (register v req s).1
            ≡ (err Error.invalid_refresh_token, (register v req s).1))
registered_refreshes v req s r later other h sign =
    let (k, g) = register-Granted v req s r h in
    (
      k,
      λ l. elim (Option-cases (lookup req.device_id (register v req s).1.devices.devices)) [
        | inl e ↦ cc (rw e at g.device)
        | inr (d, e) ↦
            let (a, q) = sign d.id d.name in
            (
              _,
              refresh_granted (another_call v later other) r.refresh_token a _ d _
                  (ap (λ x. token_of (v.sha256 x) (register v req s).1) g.drawn ∙ g.token)
                  (ground arith) e q,
            )
      ],
      λ l.
          refresh_expired (another_call v later other) r.refresh_token _ _
            (ap (λ x. token_of (v.sha256 x) (register v req s).1) g.drawn ∙ g.token) (ground arith),
    )
