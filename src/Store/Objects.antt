-- ===== src/Store/Objects.antt =====
-- internal/store/object_store.go: `ObjectStore` and `MemoryObjectStore`. A byte is a number; the
-- copies of byte slices that the code makes are the values themselves here.
use Prim.Native.String.{◌++◌ as ◌<>◌}
use telebook_server.Prelude.{
  ℕ, suc, String, Bool, Option, none, some, List, [], ◌∷◌, ◌++◌, GoMap, lookup, insert, erase,
  is_some, length, take, leb, decimal, if◌then◌else◌,
}
use telebook_server.Prelude.Int.{ℤ, pos, negsuc, eqz}
use telebook_server.Model.Errors.{Error, Result, ok, err}
use telebook_server.Model.Action.{Action}
use telebook_server.Model.File.{UploadPartMeta}

abbrev pub Byte : Type 0
Byte = ℕ

-- An io.Reader: the bytes that it gives, and whether it then fails instead of ending.
pub record Reader : Type 0 where
  pub content : List Byte
  pub fails : Bool

pub record ObjectStore (S : Type 0) : Type 0 where
  pub has_object : String → Action S Bool
  pub init_upload : String → Action S String
  pub upload_part : String → String → ℤ → List Byte → Action S String
  pub complete_upload : String → String → List UploadPartMeta → Action S (Unit {0})
  pub presign_download : String → String → Action S String
  pub get_object : String → Action S (List Byte × ℕ)
  pub object_size : String → Action S ℕ
  pub put_object : String → ℤ → Reader → Action S (Unit {0})

-- Go's map[int][]byte; the newest part of a number comes first.
abbrev pub PartMap : Type 0
PartMap = List (ℤ × List Byte)

unfoldable pub find_part : ℤ → PartMap → Option (List Byte)
find_part n [] = none
find_part n ((k, bytes) ∷ ps) = if eqz k n then some bytes else find_part n ps

pub record MemoryObjectStore : Type 0 where
  pub objects : GoMap (List Byte)
  pub uploads : GoMap PartMap
  pub seq : ℕ

abbrev pub new_memory_object_store : MemoryObjectStore
new_memory_object_store = record { objects = []; uploads = []; seq = 0 }

unfoldable pub has_object : String → Action MemoryObjectStore Bool
has_object key s = (ok (is_some (lookup key s.objects)), s)

unfoldable pub init_upload : String → Action MemoryObjectStore String
init_upload key s =
    let id = "mem-upload-" <> decimal (suc s.seq) in
    (ok id, record s { seq = suc s.seq; uploads = insert id [] s.uploads })

-- Go's `%d` of a part number.
unfoldable pub decimal_int : ℤ → String
decimal_int (pos n) = decimal n
decimal_int (negsuc n) = "-" <> decimal (suc n)

unfoldable pub upload_part : String → String → ℤ → List Byte → Action MemoryObjectStore String
upload_part key upload_id part_number bytes s = elim (lookup upload_id s.uploads) [
  | none ↦ (err Error.unknown_upload, s)
  | some parts ↦ (
    ok ("etag-" <> decimal_int part_number),
    record s { uploads = insert upload_id ((part_number, bytes) ∷ parts) s.uploads },
  )
]

-- The loop of `CompleteUpload`.
unfoldable pub assemble : List UploadPartMeta → PartMap → List Byte → Result (List Byte)
assemble [] parts buf = ok buf
assemble (p ∷ ps) parts buf = elim (find_part p.part_number parts) [
  | none ↦ err Error.missing_part
  | some bytes ↦ assemble ps parts (buf ++ bytes)
]

unfoldable pub store_assembled :
    String → String → Result (List Byte) → Action MemoryObjectStore (Unit {0})
store_assembled key upload_id (err e) s = (err e, s)
store_assembled key upload_id (ok buf) s =
    (ok tt, record s { objects = insert key buf s.objects; uploads = erase upload_id s.uploads })

unfoldable pub complete_upload :
    String → String → List UploadPartMeta → Action MemoryObjectStore (Unit {0})
complete_upload key upload_id parts s = elim (lookup upload_id s.uploads) [
  | none ↦ (err Error.unknown_upload, s)
  | some part_data ↦ store_assembled key upload_id (assemble parts part_data []) s
]

unfoldable pub presign_download : String → String → Action MemoryObjectStore String
presign_download key host s = (
  if is_some (lookup key s.objects) then ok ("memory://" <> key) else err Error.object_not_found,
  s,
)

unfoldable pub get_object : String → Action MemoryObjectStore (List Byte × ℕ)
get_object key s = elim (lookup key s.objects) [
  | none ↦ (err Error.object_not_found, s)
  | some bytes ↦ (ok (bytes, length bytes), s)
]

unfoldable pub object_size : String → Action MemoryObjectStore ℕ
object_size key s = elim (lookup key s.objects) [
  | none ↦ (err Error.object_not_found, s)
  | some bytes ↦ (ok (length bytes), s)
]

-- `io.ReadAll(io.LimitReader(reader, size))`: a failure after the limit is not met.
unfoldable pub read_limited : ℤ → Reader → Result (List Byte)
read_limited (negsuc n) r = ok []
read_limited (pos size) r =
    if leb size (length r.content)
    then ok (take size r.content)
    else if r.fails
    then err Error.read_error
    else ok r.content

unfoldable pub put_read : String → ℤ → Result (List Byte) → Action MemoryObjectStore (Unit {0})
put_read key size (err e) s = (err e, s)
put_read key size (ok bytes) s =
    if eqz (pos (length bytes)) size
    then (ok tt, record s { objects = insert key bytes s.objects })
    else (err Error.size_mismatch, s)

unfoldable pub put_object : String → ℤ → Reader → Action MemoryObjectStore (Unit {0})
put_object key size reader s = put_read key size (read_limited size reader) s
