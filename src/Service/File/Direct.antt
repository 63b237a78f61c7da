-- ===== src/Service/File/Direct.antt =====
-- `DirectUpload` over the stores in memory, and a stored object of the wrong size.
use telebook_server.Prelude.{
  insert, GoMap, keep, eqb, String, ◌≡◌, refl, ◌∙◌, true, false, ◌||◌, some, List, [], ◌∷◌, length,
  arith, Bool-cases, inl, inr, ◌⊎◌, ◌==◌, eq_refl, lookup, lookup-insert,
}
use telebook_server.Prelude.Int.{ℤ, pos, eqz, is_negative}
use telebook_server.Model.Errors.{Error, Result, ok, err, Result-cases}
use telebook_server.Store.Objects.{Reader, Byte, read_limited}
use telebook_server.Store.Objects
use telebook_server.Store.Files
use telebook_server.Service.File.{
  object_key, direct_upload, put_and_register, init_upload, upload_part, check_files, below_one,
}
use telebook_server.Service.File.Memory.{
  sized, FileState, memory_files, present, content_of, object_size-eq, has_size-sized,
}
use telebook_server.Service.File.Checks.{check_files-eq}

-- A direct upload stores the file with its declared size, or fails and changes nothing.
abbrev pub Stores : String → ℤ → Result (Unit {0}) × FileState → FileState → Type 0
Stores hash size r s =
    ((r.0 ≡ ok tt) × (present hash size r.1 ≡ true)) ⊎ ((e : Error) × (r ≡ (err e, s)))

sized-insert :
    (key : String) (size : ℤ) (bytes : List Byte) (m : GoMap (List Byte))
    → eqz (pos (length bytes)) size ≡ true
    → sized size (lookup key (insert key bytes m)) ≡ true
sized-insert key size bytes m e = simp (lookup-insert, eq_refl, e) (ground (arith, e))

put-Stores :
    (hash : String) (size : ℤ) (reader : Reader) (s : FileState)
    → Stores hash size (put_and_register memory_files hash size reader s) s
unfolding put_and_register Objects.put_object Objects.put_read Files.upsert_meta
put-Stores hash size reader s = elim (Result-cases (read_limited size reader)) [
  | inl (e, q) ↦ rw q (inr (e, refl))
  | inr (bytes, q) ↦ rw q (elim (Bool-cases (eqz (pos (length bytes)) size)) [
    | inl b ↦ rw b (inl (refl, sized-insert (object_key hash) size bytes s.objects.objects b))
    | inr b ↦ rw b (inr (Error.size_mismatch, refl))
  ])
]

-- A direct upload either succeeds, and then the file is stored with the declared size, or fails,
-- and then nothing has changed.
pub direct_upload_exact :
    (hash : String) (size : ℤ) (reader : Reader) (s : FileState)
    → Stores hash size (direct_upload memory_files hash size reader s) s
unfolding direct_upload
direct_upload_exact hash size reader s = elim (Bool-cases (hash == "" || is_negative size)) [
  | inl b ↦ rw b (inr (Error.invalid_params, refl))
  | inr b ↦ rw b (
      rw (object_size-eq (object_key hash) s.objects) (
        rw (has_size-sized size (content_of hash s)) (elim (Bool-cases (present hash size s)) [
          | inl p ↦ rw p (inl (refl, p))
          | inr p ↦ rw p (put-Stores hash size reader s)
        ])))
]

-- Where a file is stored with another size than the declared one, the check names it as missing, but
-- starting its upload by parts answers that it is complete and gives no upload id, and any part, of
-- whatever upload, with a number of at least 1 and some bytes, is refused as the file exists.
pub damaged_file_refused :
    (hash : String) (size : ℤ) (bytes : List Byte) (s : FileState)
    → is_negative size ≡ false
    → content_of hash s ≡ some bytes
    → eqz (pos (length bytes)) size ≡ false
    → (check_files memory_files (record { hash = hash; size = size } ∷ []) s
        ≡ (ok (record { hash = hash; size = size } ∷ []), s))
      × (init_upload memory_files hash size s
          ≡ (ok (record { upload_id = ""; complete = true }), s))
      × ((id : String) (n : ℤ) (part : List Byte)
          → (below_one n || eqb (length part) 0) ≡ false
          → upload_part memory_files hash id n part s ≡ (err Error.file_exists, s))
unfolding init_upload upload_part Objects.has_object
damaged_file_refused hash size bytes s n c e = (
  check_files-eq (record { hash = hash; size = size } ∷ []) s ∙ unfold keep in rw c (rw e refl),
  rw n (rw c refl),
  λ id k part h. rw h (rw c refl),
)
