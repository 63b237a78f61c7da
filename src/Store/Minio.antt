-- ===== src/Store/Minio.antt =====
-- internal/store/minio_object_store.go. The client of MinIO is an argument: its calls on the bucket
-- `B`, and its handles `C`, one for each address. So are the functions of the packages strings and
-- net on the name of a host. The state has the bucket and the cache of the handles.
pub mod Presigning
use telebook_server.Prelude.{
  ℕ, String, Bool, true, false, not, Option, none, some, List, [], GoMap, lookup, insert, ◌==◌,
  if◌then◌else◌,
}
use telebook_server.Prelude.Int.{ℤ}
use telebook_server.Model.Errors.{Error, Result, ok, err}
use telebook_server.Model.Action.{Action, pure, raise, lift, ◌>>=◌, ◌>>◌}
use telebook_server.Model.File.{UploadPartMeta}
use telebook_server.Store.Objects.{ObjectStore, Byte, Reader}

-- The answer of `StatObject`: the size, the code NoSuchKey, or another error.
pub data Stat : Type 0 where
  found : ℕ → Stat
  no_such_key stat_failed : Stat

pub record MinioClient (C B : Type 0) : Type 0 where
  pub new_client : String → Option C
  pub bucket_exists : Action B Bool
  pub make_bucket : Action B (Unit {0})
  pub stat_object : String → B → Stat
  pub new_multipart_upload : String → Action B String
  pub put_object_part : String → String → ℤ → List Byte → Action B String
  pub complete_multipart_upload : String → String → List UploadPartMeta → Action B (Unit {0})
  pub put_object : String → ℤ → Reader → Action B (Unit {0})
  -- opening an object does not look at it yet
  pub open_object : String → B → Result (List Byte)
  -- none is the nil URL
  pub presigned_get_object : C → String → B → Result (Option String)

pub record HostNames : Type 0 where
  pub trim_space : String → String
  pub split_host_port : String → Option String
  pub join_host_port : String → String → String

-- The fields that do not change; the bucket and the credentials are in the calls of the client.
-- `presign_client` is nil where no public address is set.
pub record MinioSettings (C : Type 0) : Type 0 where
  pub client : C
  pub public_port : String
  pub presign_client : Option C

pub record MinioState (C B : Type 0) : Type 0 where
  pub bucket : B
  pub presign_cache : GoMap C

unfoldable pub normalize_host : HostNames → String → String
normalize_host names host =
    let trimmed = names.trim_space host in
    elim (names.split_host_port trimmed) [ none ↦ trimmed | some h ↦ h ]

module _ {C B : Type 0} (api : MinioClient C B) where
  -- A public address that gives no handle is passed over.
  unfoldable pub new_minio_settings : String → String → String → Option (MinioSettings C)
  new_minio_settings endpoint public_port public_host = elim (api.new_client endpoint) [
    | none ↦ none
    | some client ↦ some (record {
      client = client;
      public_port = public_port;
      presign_client = if public_host == "" then none else api.new_client public_host;
    })
  ]

  abbrev pub on_bucket : {A : Type 0} → Action B A → Action (MinioState C B) A
  on_bucket m s = let (r, b) = m s.bucket in (r, record s { bucket = b })

  unfoldable pub ensure_bucket : Action (MinioState C B) (Unit {0})
  ensure_bucket = do
    exists ← on_bucket api.bucket_exists
    if not exists then on_bucket api.make_bucket else pure tt

  unfoldable pub has_stat : Stat → Result Bool
  has_stat (found n) = ok true
  has_stat no_such_key = ok false
  has_stat stat_failed = err Error.storage_error

  unfoldable pub has_object : String → Action (MinioState C B) Bool
  unfolding has_stat
  has_object key s = (has_stat (api.stat_object key s.bucket), s)

  unfoldable pub init_upload : String → Action (MinioState C B) String
  init_upload key = on_bucket (api.new_multipart_upload key)

  unfoldable pub upload_part : String → String → ℤ → List Byte → Action (MinioState C B) String
  upload_part key upload_id part_number bytes =
      on_bucket (api.put_object_part key upload_id part_number bytes)

  unfoldable pub complete_upload :
      String → String → List UploadPartMeta → Action (MinioState C B) (Unit {0})
  complete_upload key upload_id parts =
      on_bucket (api.complete_multipart_upload key upload_id parts)

  unfoldable pub put_object : String → ℤ → Reader → Action (MinioState C B) (Unit {0})
  put_object key size reader = on_bucket (api.put_object key size reader)

  unfoldable pub size_of_stat : Stat → Result ℕ
  size_of_stat (found n) = ok n
  size_of_stat no_such_key = err Error.object_not_found
  size_of_stat stat_failed = err Error.storage_error

  unfoldable pub object_size : String → Action (MinioState C B) ℕ
  unfolding size_of_stat
  object_size key s = (size_of_stat (api.stat_object key s.bucket), s)

  -- The object is opened and then looked at.
  unfoldable pub get_object : String → Action (MinioState C B) (List Byte × ℕ)
  unfolding size_of_stat
  get_object key s =
      (do
        bytes ← lift (api.open_object key s.bucket)
        size ← lift (size_of_stat (api.stat_object key s.bucket))
        pure (bytes, size))
        s

module _ {C B : Type 0} (api : MinioClient C B) (names : HostNames) (v : MinioSettings C) where
  -- The address that a host is reached at.
  unfoldable pub endpoint_of : String → String
  endpoint_of host = if v.public_port == "" then host else names.join_host_port host v.public_port

  -- A new handle is kept; where there is none, the inner address serves.
  unfoldable pub remember : String → Option C → MinioState C B → C × MinioState C B
  remember host none s = (v.client, s)
  remember host (some c) s = (c, record s { presign_cache = insert host c s.presign_cache })

  unfoldable pub cached_or_new : Option C → String → MinioState C B → C × MinioState C B
  unfolding endpoint_of remember
  cached_or_new (some c) host s = (c, s)
  cached_or_new none host s = remember host (api.new_client (endpoint_of host)) s

  -- A host without a name is reached at the inner address.
  unfoldable pub client_for_name : Option C → String → MinioState C B → C × MinioState C B
  unfolding cached_or_new
  client_for_name (some c) name s = (c, s)
  client_for_name none name s =
      if name == "" then (v.client, s) else cached_or_new (lookup name s.presign_cache) name s

  unfoldable pub presign_client_for : String → MinioState C B → C × MinioState C B
  unfolding client_for_name normalize_host
  presign_client_for host s = client_for_name v.presign_client (normalize_host names host) s

  -- A URL that is nil is an error.
  unfoldable pub signed : Result (Option String) → Result String
  signed (err e) = err e
  signed (ok none) = err Error.storage_error
  signed (ok (some url)) = ok url

  unfoldable pub presign_existing : String → String → Bool → Action (MinioState C B) String
  unfolding signed
  presign_existing key host false s = (err Error.object_not_found, s)
  presign_existing key host true s =
      let (c, t) = presign_client_for host s in
      (signed (api.presigned_get_object c key t.bucket), t)

  unfoldable pub presign_download : String → String → Action (MinioState C B) String
  unfolding presign_existing
  presign_download key host = do exists ← has_object api key; presign_existing key host exists

  abbrev pub minio_object_store : ObjectStore (MinioState C B)
  minio_object_store = record {
    has_object = has_object api;
    init_upload = init_upload api;
    upload_part = upload_part api;
    complete_upload = complete_upload api;
    presign_download = presign_download;
    get_object = get_object api;
    object_size = object_size api;
    put_object = put_object api;
  }
