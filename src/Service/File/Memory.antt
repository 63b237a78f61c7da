-- ===== src/Service/File/Memory.antt =====
-- The file service over the stores in memory.
use telebook_server.Prelude.{
  Option, ℕ, String, ◌≡◌, refl, Bool, false, none, some, List, lookup, length, Option-cases, inl,
  inr,
}
use telebook_server.Prelude.Int.{ℤ, pos, eqz}
use telebook_server.Model.Errors.{Error, Result, ok, err}
use telebook_server.Model.Action.{Action}
use telebook_server.Store.Objects.{MemoryObjectStore, Byte, object_size}
use telebook_server.Store.Objects
use telebook_server.Store.Files.{MemoryFileStore}
use telebook_server.Store.Files
use telebook_server.Service.File.{FileService, object_key, has_size}

pub record FileState : Type 0 where
  pub objects : MemoryObjectStore
  pub files : MemoryFileStore

abbrev pub in_objects : {A : Type 0} → Action MemoryObjectStore A → Action FileState A
in_objects m s = let (r, t) = m s.objects in (r, record s { objects = t })

abbrev pub in_files : {A : Type 0} → Action MemoryFileStore A → Action FileState A
in_files m s = let (r, t) = m s.files in (r, record s { files = t })

abbrev pub memory_files : FileService FileState
memory_files = record {
  objects = record {
    has_object = λ key. in_objects (Objects.has_object key);
    init_upload = λ key. in_objects (Objects.init_upload key);
    upload_part = λ key id n bytes. in_objects (Objects.upload_part key id n bytes);
    complete_upload = λ key id parts. in_objects (Objects.complete_upload key id parts);
    presign_download = λ key host. in_objects (Objects.presign_download key host);
    get_object = λ key. in_objects (Objects.get_object key);
    object_size = λ key. in_objects (Objects.object_size key);
    put_object = λ key size reader. in_objects (Objects.put_object key size reader);
  };
  files = record {
    upsert_meta = λ hash size mime. in_files (Files.upsert_meta hash size mime);
    has_hashes = λ hashes. in_files (Files.has_hashes hashes);
  };
}

-- The content that is stored for a hash.
abbrev pub content_of : String → FileState → Option (List Byte)
content_of hash s = lookup (object_key hash) s.objects.objects

abbrev pub sized : ℤ → Option (List Byte) → Bool
sized size none = false
sized size (some bytes) = eqz (pos (length bytes)) size

-- A file is stored with the declared size.
abbrev pub present : String → ℤ → FileState → Bool
present hash size s = sized size (content_of hash s)

abbrev pub size_of : Option (List Byte) → Result ℕ
size_of none = err Error.object_not_found
size_of (some bytes) = ok (length bytes)

pub object_size-eq :
    (key : String) (s : MemoryObjectStore) → object_size key s ≡ (size_of (lookup key s.objects), s)
unfolding object_size
object_size-eq key s = elim (Option-cases (lookup key s.objects)) [
  | inl e ↦ rw (e, object_size) refl
  | inr (bytes, e) ↦ rw (e, object_size) refl
]

pub has_size-sized : (size : ℤ) (o : Option (List Byte)) → has_size size (size_of o) ≡ sized size o
unfolding has_size
has_size-sized size none = refl
has_size-sized size (some bytes) = refl
