-- ===== src/Tests/TokenRuns.antt =====
-- Access tokens, and the handles of MinIO for hosts.
use telebook_server.Prelude.{
  insert, lookup, ◌<◌, String, ◌≡◌, refl, ap, sym, subst, ◌∙◌, Bool, true, false, ◌&&◌, Option,
  none, some, List, [], ◌∷◌, eqb, ltb, eq_iff, arith, ◌==◌, if◌then◌else◌, Bool-cases, inl, inr,
}
use Prim.Native.String.{◌++◌ as ◌<>◌, len, slice}
use telebook_server.Api.Authenticated.{Names, only_registered_pass}
use telebook_server.Service.Auth.{AuthState}
use telebook_server.Service.Auth.Registration.{is_registered}
use telebook_server.Api.Auth.{auth_middleware}
use telebook_server.Api.Reply.{success}
use telebook_server.Model.Errors.{Error, ok, err, ok_inj}
use telebook_server.Model.Book.{Time}
use telebook_server.Service.Auth.{register}
use telebook_server.Service.Jwt.{
  JwtLibrary, JwtService, Claims, SigningMethod, hs256, hs384, hs512, other_method, ReadsSigned,
  token_issuer, issue, claims_of,
}
use telebook_server.Api.Admission.{registered_gets_through, with_jwt}
use telebook_server.Store.Minio.{
  MinioClient, MinioSettings, HostNames, found, no_such_key, has_stat, presign_download,
  presign_existing, presign_client_for, client_for_name, cached_or_new, normalize_host, remember,
  endpoint_of, signed, has_object,
}
use telebook_server.Store.Minio.Presigning.{
  answers_as_uncached, uncached_download, downloaded, after_downloads,
}
use telebook_server.Tests.AuthRuns.{sample_auth, nobody, phone}

-- A library that signs for one device, at the time 5.
abbrev sample_claims : Claims
sample_claims = record {
  device_id = "d";
  device_name = "n";
  issuer = token_issuer;
  issued_at = 5;
  expires_at = 65;
}

abbrev is_sample : Claims → String → Bool
is_sample c key =
    c.device_id == "d"
    && c.device_name == "n"
    && c.issuer == token_issuer
    && eqb c.issued_at 5
    && eqb c.expires_at 65
    && key == "secret"

abbrev is_hs256 : SigningMethod → Bool
is_hs256 hs256 = true
is_hs256 _ = false

abbrev knows_key : Option String → Bool
knows_key none = false
knows_key (some key) = key == "secret"

abbrev sample_library : JwtLibrary
sample_library = record {
  new_numeric_date = λ t. t;
  signed_string = λ method c key.
      if is_hs256 method && is_sample c key then ok "token" else err Error.storage_error;
  parse_with_claims = λ token key_of issuer methods now.
      if token == "token" && knows_key (key_of hs256) && issuer == token_issuer && ltb now 65
      then some (sample_claims, true)
      else none;
}

sample_claims_unique : (c : Claims) (key : String) → is_sample c key ≡ true → c ≡ sample_claims
sample_claims_unique c key h =
    ground (arith, eq_iff c.device_id "d", eq_iff c.device_name "n", eq_iff c.issuer token_issuer)

sample_key : (c : Claims) (key : String) → is_sample c key ≡ true → key ≡ "secret"
sample_key c key h = ground (arith, eq_iff key "secret")

token_reads :
    (token : String) (key_of : SigningMethod → Option String) (now : Time)
    → token ≡ "token"
    → key_of hs256 ≡ some "secret"
    → now < 65
    → sample_library.parse_with_claims token key_of token_issuer (hs256 ∷ []) now
      ≡ some (sample_claims, true)
token_reads token key_of now t k early = rw (t, k) (ground arith)

sample_library-reads :
    (method : SigningMethod) (c : Claims) (key token : String)
    (key_of : SigningMethod → Option String) (now : Time)
    → sample_library.signed_string method c key ≡ ok token
    → key_of method ≡ some key
    → now < c.expires_at
    → sample_library.parse_with_claims token key_of c.issuer (method ∷ []) now ≡ some (c, true)
sample_library-reads hs256 c key token key_of now signed known early =
    elim (Bool-cases (is_sample c key)) [
      | inl e ↦
          let same = sample_claims_unique c key e in
          subst
            (λ k.
              sample_library.parse_with_claims token key_of k.issuer (hs256 ∷ []) now
              ≡ some (k, true))
            (sym same)
            (token_reads token key_of now (sym (ok_inj "token" token (rw e at signed)))
              (known ∙ ap some (sample_key c key e)) (subst (λ k. now < k.expires_at) same early))
      | inr e ↦ cc (rw e at signed)
    ]
sample_library-reads hs384 c key token key_of now signed known early = cc signed
sample_library-reads hs512 c key token key_of now signed known early = cc signed
sample_library-reads other_method c key token key_of now signed known early = cc signed

sample_library-ReadsSigned : ReadsSigned sample_library
sample_library-ReadsSigned = record { reads = sample_library-reads }

abbrev sample_jwt : JwtService
sample_jwt = record { secret = "secret"; ttl = 60 }

sample_signs : issue sample_library sample_jwt "d" "n" 5 ≡ ok "token"
unfolding issue claims_of
sample_signs = refl

registered_gets_through_example :
    ((register (with_jwt sample_library sample_jwt sample_auth) phone nobody).0
      ≡ ok (record { access_token = "token"; refresh_token = "t1"; device_id = "d" }))
    × (auth_middleware sample_library sample_jwt 64
          ("Bearer " <> "token")
          (register (with_jwt sample_library sample_jwt sample_auth) phone nobody).1
        ≡ (success "d", (register (with_jwt sample_library sample_jwt sample_auth) phone nobody).1))
registered_gets_through_example =
    registered_gets_through sample_library sample_jwt sample_auth phone nobody "hash" "token" 64
      sample_library-ReadsSigned refl refl sample_signs (ground arith)

abbrev registered : AuthState
registered = (register (with_jwt sample_library sample_jwt sample_auth) phone nobody).1

phone_passes :
    (auth_middleware sample_library sample_jwt 64 "Bearer token" registered).0 ≡ success "d"
phone_passes = ap (λ x. x.0) (registered_gets_through_example.1)

only_registered_pass_example :
    (slice "Bearer token" 0 7 ≡ "Bearer ")
    × Names sample_library sample_jwt 64 (slice "Bearer token" 7 (len "Bearer token")) "d"
    × (is_registered "d" registered ≡ true)
    × ((auth_middleware sample_library sample_jwt 64 "Bearer token" registered).1 ≡ registered)
only_registered_pass_example =
    only_registered_pass sample_library sample_jwt 64 "Bearer token" registered "d" phone_passes

-- A handle is its address, and the bucket has one object.
abbrev sample_minio : MinioClient String String
sample_minio = record {
  new_client = λ address. some address;
  bucket_exists = λ b. (ok true, b);
  make_bucket = λ b. (ok tt, b);
  stat_object = λ key b. if key == b then found 2 else no_such_key;
  new_multipart_upload = λ key b. (ok "u", b);
  put_object_part = λ key id n bytes b. (ok "e", b);
  complete_multipart_upload = λ key id parts b. (ok tt, key);
  put_object = λ key size reader b. (ok tt, key);
  open_object = λ key b. ok [];
  presigned_get_object = λ c key b. ok (some (c <> "/" <> key));
}

abbrev plain_hosts : HostNames
plain_hosts = record {
  trim_space = λ t. t;
  split_host_port = λ t. none;
  join_host_port = λ h p. h <> ":" <> p;
}

abbrev sample_settings : MinioSettings String
sample_settings = record { client = "minio"; public_port = "9000"; presign_client = none }

abbrev two_downloads : List (String × String)
two_downloads = ("k", "a") ∷ ("k", "b") ∷ []

answers_as_uncached_example :
    (presign_download sample_minio plain_hosts sample_settings "k" "a"
      (downloaded sample_minio plain_hosts sample_settings two_downloads "k")).0
    ≡ uncached_download sample_minio plain_hosts sample_settings "k" "a" "k" (ok true)
unfolding has_stat
answers_as_uncached_example =
    answers_as_uncached sample_minio plain_hosts sample_settings two_downloads "k" "a" "k"

two_downloads_sign :
    (presign_download sample_minio plain_hosts sample_settings "k" "a"
      (downloaded sample_minio plain_hosts sample_settings two_downloads "k")).0
    ≡ ok "a:9000/k"
unfolding has_stat presign_download presign_existing presign_client_for client_for_name
    cached_or_new normalize_host remember endpoint_of signed has_object lookup insert
    after_downloads
two_downloads_sign = refl
