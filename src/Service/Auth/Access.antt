-- ===== src/Service/Auth/Access.antt =====
-- Who can register.
use telebook_server.Store.Tokens.{save_refresh_token}
use telebook_server.Prelude.{
  String, ◌≡◌, refl, ap, ◌∙◌, true, none, lookup, ◌==◌, Option-cases, inl, inr,
}
use telebook_server.Model.Errors.{ok}
use telebook_server.Model.Device.{RegisterRequest}
use telebook_server.Service.Auth.{
  new_refresh_token, AuthService, AuthState, register, ensure_device, create_new, created,
}
use telebook_server.Service.Auth.Registration.{
  ensured, issue_tokens, register-open, get_device_by_id-some, get_device_by_id-none,
}
use telebook_server.Store.Devices.{touch_device, create_device}

create_new-ok :
    (v : AuthService) (req : RegisterRequest) (s : AuthState) (key_hash : String)
    → lookup req.device_id s.devices.devices ≡ none
    → v.hash_password req.connection_key ≡ ok key_hash
    → (create_new v req s).0 ≡ ok tt
unfolding create_new create_device created
create_new-ok v req s k e h = rw h (rw e refl)

ensured-ok :
    (v : AuthService) (req : RegisterRequest) (s : AuthState) (key_hash : String)
    → v.hash_password req.connection_key ≡ ok key_hash
    → (ensured v req s).0 ≡ ok tt
unfolding ensure_device
ensured-ok v req s k h = elim (Option-cases (lookup req.device_id s.devices.devices)) [
  | inl e ↦ rw (get_device_by_id-none req.device_id s.devices e) (create_new-ok v req s k e h)
  | inr (d, e) ↦ rw (get_device_by_id-some req.device_id s.devices d e) refl
]

issue_tokens-ok :
    (v : AuthService) (req : RegisterRequest) (t : AuthState) (access : String)
    → v.issue req.device_id req.device_name v.now ≡ ok access
    → (issue_tokens v req t).0
      ≡ ok (record {
        access_token = access;
        refresh_token = v.random_token;
        device_id = req.device_id;
      })
unfolding save_refresh_token touch_device new_refresh_token
issue_tokens-ok v req t a q = rw q refl

-- Any device that names the server's connection key is registered, whether or not it was before,
-- where the key can be hashed and an access token signed: the answer has this access token, the
-- refresh token that was drawn, and the device's id.
pub register_succeeds :
    (v : AuthService) (req : RegisterRequest) (s : AuthState) (key_hash access : String)
    → (req.connection_key == v.sync_secret) ≡ true
    → v.hash_password req.connection_key ≡ ok key_hash
    → v.issue req.device_id req.device_name v.now ≡ ok access
    → (register v req s).0
      ≡ ok (record {
        access_token = access;
        refresh_token = v.random_token;
        device_id = req.device_id;
      })
register_succeeds v req s k access key h q =
    ap (λ x. x.0) (register-open v req s key)
    ∙ rw (ensured-ok v req s k h) (issue_tokens-ok v req (ensured v req s).1 access q)
