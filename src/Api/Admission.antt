-- ===== src/Api/Admission.antt =====
-- The access token of a registration, in the middleware: internal/service/jwt_service.go behind
-- internal/service/auth_service.go and internal/api/middleware.go.
use Prim.Native.String.{◌++◌ as ◌<>◌}
use text.Mathlib.TextPositions.{slice-append_left, slice-append_right, len-append}
use telebook_server.Prelude.{
  true, ◌+◌, ◌<◌, String, ◌≡◌, refl, ap, ◌∙◌, some, ◌==◌, Option-cases, inl, inr, lookup,
}
use telebook_server.Model.Errors.{ok}
use telebook_server.Model.Book.{Time}
use telebook_server.Model.Device.{RegisterRequest}
use telebook_server.Service.Auth.{AuthService, AuthState, register}
use telebook_server.Service.Auth.Access.{register_succeeds}
use telebook_server.Service.Auth.Registration.{
  register-Granted, is_registered, get_device_by_id-some,
}
use telebook_server.Service.Jwt.{JwtLibrary, JwtService, ReadsSigned, issue, parse, claims_of}
use telebook_server.Service.Jwt.Validity.{parse-issue}
use telebook_server.Api.Reply.{success}
use telebook_server.Api.Auth.{auth_middleware, claimed_device, for_device, on_auth}

-- The service that signs with the JWT service.
abbrev pub with_jwt : JwtLibrary → JwtService → AuthService → AuthService
with_jwt lib j v = record v { issue = issue lib j }

auth_middleware-bearer :
    (lib : JwtLibrary) (j : JwtService) (now : Time) (token : String) (s : AuthState)
    → auth_middleware lib j now ("Bearer " <> token) s
      ≡ for_device (claimed_device (parse lib j token now)) s
unfolding auth_middleware
auth_middleware-bearer lib j now token s =
    rw
      (
        slice-append_left "Bearer " token,
        len-append "Bearer " token,
        slice-append_right "Bearer " token,
      )
      refl

for_device-known :
    (id : String) (s : AuthState)
    → is_registered id s ≡ true
    → for_device (some id) s ≡ (success id, s)
unfolding for_device on_auth
for_device-known id s h = elim (Option-cases (lookup id s.devices.devices)) [
  | inl e ↦ cc (rw e at h)
  | inr (d, e) ↦ rw (get_device_by_id-some id s.devices d e) refl
]

-- Any device that names the server's connection key is registered, where the key can be hashed and
-- a token be signed with the server's secret; the middleware takes this token, in the state that
-- the registration left, for the device, as long as its time, rounded, has not come. The library
-- reads back what it signed.
pub registered_gets_through :
    (lib : JwtLibrary) (j : JwtService) (v : AuthService) (req : RegisterRequest) (s : AuthState)
    (key_hash access : String) (later : Time)
    → ReadsSigned lib
    → (req.connection_key == v.sync_secret) ≡ true
    → v.hash_password req.connection_key ≡ ok key_hash
    → issue lib j req.device_id req.device_name v.now ≡ ok access
    → later < lib.new_numeric_date (v.now + j.ttl)
    → ((register (with_jwt lib j v) req s).0
        ≡ ok (record {
          access_token = access;
          refresh_token = v.random_token;
          device_id = req.device_id;
        }))
      × (auth_middleware lib j later ("Bearer " <> access) (register (with_jwt lib j v) req s).1
          ≡ (success req.device_id, (register (with_jwt lib j v) req s).1))
unfolding claimed_device claims_of
registered_gets_through lib j v req s key_hash access later laws key hashed signed early =
    let r = register_succeeds (with_jwt lib j v) req s key_hash access key hashed signed in
    let t = (register (with_jwt lib j v) req s).1 in
    let (k, g) = register-Granted (with_jwt lib j v) req s _ r in
    (
      r,
      auth_middleware-bearer lib j later access t
          ∙ ap (λ c. for_device (claimed_device c) t)
              (parse-issue lib j req.device_id req.device_name access v.now later laws signed early)
          ∙ for_device-known req.device_id t g.device,
    )
