-- ===== src/Tests/FileRuns.antt =====
-- The file service over the stores in memory, at a concrete file.
use telebook_server.Service.File.Checks.{check_files-eq, absent}
use telebook_server.Service.File.Multipart.{multipart_round_trip, concat, send_parts, part_list}
use telebook_server.Model.Errors.{Error, err, ok}
use telebook_server.Model.File.{FileInitUploadResponse}
use telebook_server.Service.File.Direct.{damaged_file_refused, direct_upload_exact, Stores}
use telebook_server.Service.File.Memory.{FileState, content_of, memory_files}
use telebook_server.Prelude.{
  String, ◌≡◌, refl, true, false, none, some, List, [], ◌∷◌, length, keep, arith, lookup, eqb, ◌||◌,
}
use telebook_server.Prelude.Int.{ℤ, pos}
use telebook_server.Store.Objects.{Reader, Byte, new_memory_object_store}
use telebook_server.Store.Files.{new_memory_file_store}
use telebook_server.Service.File.{
  init_upload, upload_part, complete_upload, download, check_files, direct_upload, object_key,
  below_one,
}

abbrev no_files : FileState
no_files = record { objects = new_memory_object_store; files = new_memory_file_store }

-- The file "h" is stored with two bytes.
abbrev pub two_bytes : FileState
two_bytes = record {
  objects = record { objects = ("files/h", 1 ∷ 2 ∷ []) ∷ []; uploads = []; seq = 0 };
  files = record { files = ("h", pos 2) ∷ [] };
}

nothing_there : content_of "h" no_files ≡ none
unfolding lookup
nothing_there = refl

two_there : content_of "h" two_bytes ≡ some (1 ∷ 2 ∷ [])
unfolding lookup object_key
two_there = refl

abbrev chunks : List (List Byte)
chunks = (1 ∷ 2 ∷ []) ∷ (3 ∷ []) ∷ []

multipart_round_trip_example :
    (r : FileInitUploadResponse) × (t : FileState) × ((init_upload memory_files "h"
        (pos 3)
        no_files).0
      ≡ ok r)
    × (r.complete ≡ false)
    × (complete_upload memory_files "h" r.upload_id
          (pos 3)
          (part_list 0 chunks)
          (send_parts "h" r.upload_id 0 chunks (init_upload memory_files "h" (pos 3) no_files).1)
        ≡ (ok tt, t))
    × (download memory_files "h" t ≡ (ok (concat chunks, length (concat chunks)), t))
multipart_round_trip_example =
    multipart_round_trip "h" (pos 3) (pos 3) chunks no_files refl nothing_there (omega arith)
      (omega arith, (omega arith, tt))

check_files-eq_example :
    check_files memory_files (record { hash = "h"; size = pos 3 } ∷ []) two_bytes
    ≡ (ok (keep (absent two_bytes) (record { hash = "h"; size = pos 3 } ∷ [])), two_bytes)
check_files-eq_example = check_files-eq (record { hash = "h"; size = pos 3 } ∷ []) two_bytes

-- A reader with one byte less than declared.
abbrev short_reader : Reader
short_reader = record { content = 1 ∷ 2 ∷ []; fails = false }

direct_upload_exact_example :
    Stores "h" (pos 3) (direct_upload memory_files "h" (pos 3) short_reader two_bytes) two_bytes
direct_upload_exact_example = direct_upload_exact "h" (pos 3) short_reader two_bytes

damaged_file_refused_example :
    (check_files memory_files (record { hash = "h"; size = pos 3 } ∷ []) two_bytes
      ≡ (ok (record { hash = "h"; size = pos 3 } ∷ []), two_bytes))
    × (init_upload memory_files "h" (pos 3) two_bytes
        ≡ (ok (record { upload_id = ""; complete = true }), two_bytes))
    × ((id : String) (n : ℤ) (part : List Byte)
        → (below_one n || eqb (length part) 0) ≡ false
        → upload_part memory_files "h" id n part two_bytes ≡ (err Error.file_exists, two_bytes))
damaged_file_refused_example =
    damaged_file_refused "h" (pos 3) (1 ∷ 2 ∷ []) two_bytes refl two_there refl
