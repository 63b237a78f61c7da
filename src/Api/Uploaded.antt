-- ===== src/Api/Uploaded.antt =====
-- Direct uploads of files, and the check of them.
use telebook_server.Prelude.{
  arith, String, ◌≡◌, refl, true, false, ◌||◌, some, [], ◌∷◌, ◌==◌, Bool-cases, inl, inr, keep,
}
use telebook_server.Prelude.Int.{ℤ, is_negative}
use telebook_server.Store.Objects.{Reader}
use telebook_server.Service.File.Memory.{FileState, memory_files, present}
use telebook_server.Service.File.Checks.{check_files-eq}
use telebook_server.Service.File.Direct.{direct_upload_exact}
use telebook_server.Service.File
use telebook_server.Api.Reply.{success, respond, internal}
use telebook_server.Api.Files.{check_files_handler, file_direct_upload_handler, lacks_hash}

check-present :
    (hash : String) (size : ℤ) (s : FileState)
    → (hash == "") ≡ false
    → present hash size s ≡ true
    → check_files_handler memory_files (some (record { hash = hash; size = size } ∷ [])) s
      ≡ (success [], s)
unfolding check_files_handler lacks_hash
check-present hash size s n p =
    rw n
      (rw (check_files-eq (record { hash = hash; size = size } ∷ []) s) (unfold keep in rw p refl))

uploaded-present :
    (hash : String) (size : ℤ) (body : Reader) (s : FileState)
    → (respond internal (File.direct_upload memory_files hash size body) s).0 ≡ success tt
    → present hash size (File.direct_upload memory_files hash size body s).1 ≡ true
uploaded-present hash size body s h = elim (direct_upload_exact hash size body s) [
  | inl (o, p) ↦ p
  | inr (e, q) ↦ cc (rw q at h)
]

-- When a direct upload is answered with success, a check of the file with the same size over the
-- stores in memory then names no missing file.
pub direct_upload_is_found :
    (hash : String) (size : ℤ) (body : Reader) (s : FileState)
    → (file_direct_upload_handler memory_files hash (some size) body s).0 ≡ success tt
    → check_files_handler memory_files
        (some (record { hash = hash; size = size } ∷ []))
        (file_direct_upload_handler memory_files hash (some size) body s).1
      ≡ (success [], (file_direct_upload_handler memory_files hash (some size) body s).1)
unfolding file_direct_upload_handler
direct_upload_is_found hash size body s h = elim (Bool-cases (hash == "" || is_negative size)) [
  | inl e ↦ cc (rw e at h)
  | inr e ↦
      rw e
        (check-present hash size _ (ground arith) (uploaded-present hash size body s (rw e at h)))
]
