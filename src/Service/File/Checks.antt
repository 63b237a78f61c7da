-- ===== src/Service/File/Checks.antt =====
-- `CheckFiles` and `AllFilesComplete` over the stores in memory, against what is stored.
use mathlib.Core.List.{append_assoc, append-nil}
use telebook_server.Model.Action.{Action}
use telebook_server.Prelude.{
  String, ◌≡◌, refl, ap, Bool, true, not, ◌&&◌, ◌||◌, List, [], ◌∷◌, ◌++◌, length, keep, arith,
  if◌then◌else◌, Bool-cases, Option-cases, inl, inr, ◌==◌,
}
use telebook_server.Prelude.Int.{ℤ, pos, eqz}
use telebook_server.Model.Errors.{ok}
use telebook_server.Model.Book.{BookFileMeta}
use telebook_server.Model.File.{FileCheckItem}
use telebook_server.Service.File.{
  object_key, check_files, check_from, all_files_complete, judge_size,
}
use telebook_server.Service.File.Memory.{
  FileState, memory_files, present, size_of, content_of, object_size-eq, has_size-sized,
}

abbrev pub absent : FileState → FileCheckItem → Bool
absent s it = not (present it.hash it.size s)

check_from-eq :
    (its missing : List FileCheckItem) (s : FileState)
    → check_from memory_files its missing s ≡ (ok (missing ++ keep (absent s) its), s)
unfolding check_from keep
check_from-eq [] missing s = ground (arith, append-nil missing)
check_from-eq (it ∷ its) missing s = rw (object_size-eq (object_key it.hash) s.objects) (
    rw (has_size-sized it.size (content_of it.hash s)) (
      rw (check_from-eq its (if present it.hash it.size s then missing else missing ++ it ∷ []) s)
        (elim (Bool-cases (present it.hash it.size s)) [
          | inl e ↦ rw e refl
          | inr e ↦
              rw e (ap (λ x. (ok x, s)) (append_assoc missing (it ∷ []) (keep (absent s) its)))
        ])))

-- `CheckFiles` answers exactly the items whose object is missing or has another size, in their
-- order, and changes nothing.
pub check_files-eq :
    (items : List FileCheckItem) (s : FileState)
    → check_files memory_files items s ≡ (ok (keep (absent s) items), s)
unfolding check_files
check_files-eq items s = check_from-eq items [] s

-- A file of a book counts as complete if it has no hash, or is stored with the declared size.
abbrev pub file_complete : FileState → BookFileMeta → Bool
file_complete s f = f.hash == "" || present f.hash f.size s

unfoldable pub every : (BookFileMeta → Bool) → List BookFileMeta → Bool
every p [] = true
every p (f ∷ fs) = p f && every p fs

judge_size-eq :
    (size : ℤ) (rest : Bool) (m : Action FileState Bool) (hash : String) (s : FileState)
    → m s ≡ (ok rest, s)
    → judge_size memory_files size m (size_of (content_of hash s)) s
      ≡ (ok (present hash size s && rest), s)
unfolding judge_size
judge_size-eq size rest m hash s h = elim (Option-cases (content_of hash s)) [
  | inl e ↦ rw e refl
  | inr (bytes, e) ↦
      rw e
        (elim (Bool-cases (eqz (pos (length bytes)) size)) [ inl b ↦ rw b h | inr b ↦ rw b refl ])
]

-- `AllFilesComplete` answers whether every file that has a hash is stored with the declared size,
-- and changes nothing.
pub all_files_complete-eq :
    (fs : List BookFileMeta) (s : FileState)
    → all_files_complete memory_files fs s ≡ (ok (every (file_complete s) fs), s)
unfolding all_files_complete every
all_files_complete-eq [] s = refl
all_files_complete-eq (f ∷ fs) s = elim (Bool-cases (f.hash == "")) [
  | inl e ↦ rw e (all_files_complete-eq fs s)
  | inr e ↦ rw e (
      rw (object_size-eq (object_key f.hash) s.objects)
        (judge_size-eq f.size (every (file_complete s) fs) _ f.hash s (all_files_complete-eq fs s)))
]
