-- ===== src/Service/File/Multipart.antt =====
-- A whole upload by parts over the stores in memory: start, parts, completion, download.
use mathlib.Core.List.{append_assoc, append-nil}
use Prim.Native.String.{◌++◌ as ◌<>◌}
use telebook_server.Prelude.{
  erase, decimal, sym, ℕ, suc, ◌≤◌, String, ◌≡◌, refl, ◌∙◌, ap, false, ◌||◌, none, some, List, [],
  ◌∷◌, ◌++◌, length, arith, All, eqb, lookup, insert, lookup-insert, eq_refl,
}
use telebook_server.Prelude.Int.{ℤ, pos, is_negative}
use telebook_server.Model.Errors.{ok}
use telebook_server.Model.File.{UploadPartMeta, FileInitUploadResponse}
use telebook_server.Store.Objects.{
  MemoryObjectStore, Byte, PartMap, find_part, assemble, decimal_int,
}
use telebook_server.Store.Objects
use telebook_server.Store.Files
use telebook_server.Service.File.{
  object_key, init_upload, upload_part, complete_upload, download, below_one,
}
use telebook_server.Service.File.Memory.{FileState, memory_files, content_of}

unfoldable pub concat : List (List Byte) → List Byte
concat [] = []
concat (b ∷ bs) = b ++ concat bs

-- The client sends the parts, numbered from n + 1.
unfoldable pub send_parts : String → String → ℕ → List (List Byte) → FileState → FileState
send_parts hash id n [] s = s
send_parts hash id n (b ∷ bs) s =
    send_parts hash id (suc n) bs (upload_part memory_files hash id (pos (suc n)) b s).1

-- What the client names when it completes: the numbers of its parts, and their tags.
unfoldable pub part_list : ℕ → List (List Byte) → List UploadPartMeta
part_list n [] = []
part_list n (b ∷ bs) =
    record { part_number = pos (suc n); etag = "etag-" <> decimal_int (pos (suc n)) }
    ∷ part_list (suc n) bs

-- The parts that the store then holds.
unfoldable pushed : ℕ → List (List Byte) → PartMap → PartMap
pushed n [] ps = ps
pushed n (b ∷ bs) ps = pushed (suc n) bs ((pos (suc n), b) ∷ ps)

find_part-pushed :
    (k n : ℕ) (bs : List (List Byte)) (ps : PartMap)
    → k ≤ n
    → find_part (pos k) (pushed n bs ps) ≡ find_part (pos k) ps
unfolding pushed
find_part-pushed k n [] ps h = refl
find_part-pushed k n (b ∷ bs) ps h =
    find_part-pushed k (suc n) bs _ (omega arith) ∙ unfold find_part in ground arith

find_first :
    (n : ℕ) (b : List Byte) (ps : PartMap)
    → find_part (pos (suc n)) ((pos (suc n), b) ∷ ps) ≡ some b
unfolding find_part
find_first n b ps = ground arith

assemble-found :
    (p : UploadPartMeta) (ps : List UploadPartMeta) (m : PartMap) (buf bytes : List Byte)
    → find_part p.part_number m ≡ some bytes
    → assemble (p ∷ ps) m buf ≡ assemble ps m (buf ++ bytes)
unfolding assemble
assemble-found p ps m buf bytes e = rw (e, assemble) refl

assemble-pushed :
    (n : ℕ) (bs : List (List Byte)) (ps : PartMap) (buf : List Byte)
    → assemble (part_list n bs) (pushed n bs ps) buf ≡ ok (buf ++ concat bs)
unfolding part_list pushed concat
assemble-pushed n [] ps buf = unfold assemble in ap ok (sym (append-nil buf))
assemble-pushed n (b ∷ bs) ps buf =
    assemble-found
      (record { part_number = pos (suc n); etag = "etag-" <> decimal_int (pos (suc n)) })
      (part_list (suc n) bs) _ buf b
      (find_part-pushed (suc n) (suc n) bs ((pos (suc n), b) ∷ ps) (omega arith)
        ∙ find_first n b ps)
    ∙ assemble-pushed (suc n) bs _ (buf ++ b)
    ∙ ap ok (append_assoc buf b (concat bs))

-- An upload of the file by parts is going on, and the file is not there.
record Uploading (hash id : String) (ps : PartMap) (s : FileState) : Type 0 where
  absent : content_of hash s ≡ none
  parts : lookup id s.objects.uploads ≡ some ps

upload_part-found :
    (key id : String) (n : ℤ) (b : List Byte) (ps : PartMap) (s : MemoryObjectStore)
    → lookup id s.uploads ≡ some ps
    → Objects.upload_part key id n b s
      ≡ (ok ("etag-" <> decimal_int n), record s { uploads = insert id ((n, b) ∷ ps) s.uploads })
unfolding Objects.upload_part
upload_part-found key id n b ps s e = rw (e, Objects.upload_part) refl

-- The state after a part.
abbrev with_part : String → ℤ → List Byte → PartMap → FileState → FileState
with_part id n b ps s = record s {
  objects = record (s.objects) { uploads = insert id ((n, b) ∷ ps) s.objects.uploads };
}

below_one-suc : (n m : ℕ) → eqb m 0 ≡ false → (below_one (pos (suc n)) || eqb m 0) ≡ false
below_one-suc n m h = ground arith

upload_part-with_part :
    (hash id : String) (n : ℕ) (b : List Byte) (ps : PartMap) (s : FileState)
    → eqb (length b) 0 ≡ false
    → Uploading hash id ps s
    → (upload_part memory_files hash id (pos (suc n)) b s).1 ≡ with_part id (pos (suc n)) b ps s
unfolding upload_part Objects.has_object
upload_part-with_part hash id n b ps s l u = rw (below_one-suc n (length b) l) (
    rw u.absent
      (rw (upload_part-found (object_key hash) id (pos (suc n)) b ps s.objects u.parts) refl))

upload_part-Uploading :
    (hash id : String) (n : ℕ) (b : List Byte) (ps : PartMap) (s : FileState)
    → 1 ≤ length b
    → Uploading hash id ps s
    → Uploading hash id
        ((pos (suc n), b) ∷ ps)
        (upload_part memory_files hash id (pos (suc n)) b s).1
upload_part-Uploading hash id n b ps s l u =
    rw (upload_part-with_part hash id n b ps s (ground arith) u)
      (record { absent = u.absent; parts = simp (lookup-insert, eq_refl) (ground arith) })

send_parts-Uploading :
    (hash id : String) (n : ℕ) (bs : List (List Byte)) (ps : PartMap) (s : FileState)
    → All (λ b. 1 ≤ length b) bs
    → Uploading hash id ps s
    → Uploading hash id (pushed n bs ps) (send_parts hash id n bs s)
unfolding send_parts pushed
send_parts-Uploading hash id n [] ps s l u = u
send_parts-Uploading hash id n (b ∷ bs) ps s (l, ls) u =
    send_parts-Uploading hash id (suc n) bs _ _ ls (upload_part-Uploading hash id n b ps s l u)

-- The name of the next upload.
abbrev next_id : FileState → String
next_id s = "mem-upload-" <> decimal (suc s.objects.seq)

init_upload-Uploading :
    (hash : String) (size : ℤ) (s : FileState)
    → is_negative size ≡ false
    → content_of hash s ≡ none
    → ((init_upload memory_files hash size s).0
        ≡ ok (record { upload_id = next_id s; complete = false }))
      × Uploading hash (next_id s) [] (init_upload memory_files hash size s).1
unfolding init_upload Objects.has_object Objects.init_upload
init_upload-Uploading hash size s n a = (
  rw n (rw a refl),
  rw n (rw a (record { absent = a; parts = simp (lookup-insert, eq_refl) (ground arith) })),
)

complete_upload-found :
    (key id : String) (parts : List UploadPartMeta) (ps : PartMap) (bytes : List Byte)
    (s : MemoryObjectStore)
    → lookup id s.uploads ≡ some ps
    → assemble parts ps [] ≡ ok bytes
    → Objects.complete_upload key id parts s
      ≡ (ok tt, record s { objects = insert key bytes s.objects; uploads = erase id s.uploads })
unfolding Objects.complete_upload
complete_upload-found key id parts ps bytes s e a =
    rw (e, Objects.complete_upload) (rw a (unfold Objects.store_assembled in refl))

complete_upload-content :
    (hash id : String) (size : ℤ) (parts : List UploadPartMeta) (ps : PartMap) (bytes : List Byte)
    (s : FileState)
    → eqb (length parts) 0 ≡ false
    → lookup id s.objects.uploads ≡ some ps
    → assemble parts ps [] ≡ ok bytes
    → (t : FileState) × (complete_upload memory_files hash id size parts s ≡ (ok tt, t))
      × (content_of hash t ≡ some bytes)
unfolding complete_upload Files.upsert_meta
complete_upload-content hash id size parts ps bytes s l e a = (
  record {
    objects = record (s.objects) {
      objects = insert (object_key hash) bytes s.objects.objects;
      uploads = erase id s.objects.uploads;
    };
    files = (Files.upsert_meta hash size "" s.files).1;
  },
  rw l (rw (complete_upload-found (object_key hash) id parts ps bytes s.objects e a) refl),
  simp (lookup-insert, eq_refl) (ground arith),
)

download-content :
    (hash : String) (bytes : List Byte) (s : FileState)
    → content_of hash s ≡ some bytes
    → download memory_files hash s ≡ (ok (bytes, length bytes), s)
unfolding download Objects.get_object
download-content hash bytes s e = rw (e, Objects.get_object) refl

length-part_list :
    (n : ℕ) (bs : List (List Byte)) → 1 ≤ length bs → eqb (length (part_list n bs)) 0 ≡ false
unfolding part_list
length-part_list n [] h = absurd (omega arith)
length-part_list n (b ∷ bs) h = ground arith

-- A file that is not there comes back as it was sent: starting its upload gives a name; after its
-- parts, at least one and none empty, have been sent under the name with the numbers 1, 2, …,
-- completing the upload with these numbers succeeds, and a download gives the parts one after
-- another.
pub multipart_round_trip :
    (hash : String) (size declared : ℤ) (chunks : List (List Byte)) (s : FileState)
    → is_negative size ≡ false
    → content_of hash s ≡ none
    → 1 ≤ length chunks
    → All (λ b. 1 ≤ length b) chunks
    → (r : FileInitUploadResponse) × (t : FileState) × ((init_upload memory_files hash size s).0
        ≡ ok r)
      × (r.complete ≡ false)
      × (complete_upload memory_files hash r.upload_id declared
            (part_list 0 chunks)
            (send_parts hash r.upload_id 0 chunks (init_upload memory_files hash size s).1)
          ≡ (ok tt, t))
      × (download memory_files hash t ≡ (ok (concat chunks, length (concat chunks)), t))
multipart_round_trip hash size declared chunks s n a l ls =
    let (q, u) = init_upload-Uploading hash size s n a in
    let w = send_parts-Uploading hash (next_id s) 0 chunks [] _ ls u in
    let (t, c, d) =
      complete_upload-content hash (next_id s) declared (part_list 0 chunks) _ (concat chunks) _
        (length-part_list 0 chunks l) w.parts (assemble-pushed 0 chunks [] []) in
    (
      record { upload_id = next_id s; complete = false },
      t,
      q,
      refl,
      c,
      download-content hash (concat chunks) t d,
    )
