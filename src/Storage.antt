-- ===== src/Storage.antt =====
-- app/services/storage.py: the check of a stored receipt before anything is deleted, and the store
-- of a new one. `Disk` is what the code takes from the operating system, pathlib and hashlib. The
-- proofs are in the module below.
pub mod Capture
use receipt_manager.Prelude.{
  ℕ, ◌*◌, Bool, true, false, not, ◌&&◌, Option, none, some, List, [], ◌∷◌, ◌++◌, length, take, Text,
  codes, str, text_eq, ltb, ◌==◌, is_empty, if◌then◌else◌,
}

pub record Disk : Type 0 where
  pub is_inside : Text → Bool  -- `candidate.is_relative_to(root)`, both resolved
  pub contents : Text → Option Text  -- the bytes of the file at a relative path
  pub sha256 : Text → Text

pub data CaptureError : Type 0 where
  outside missing : Text → CaptureError
  wrong_size : Text → ℕ → ℕ → CaptureError
  wrong_checksum : Text → CaptureError
  empty_download : CaptureError
  truncated : ℕ → ℕ → CaptureError
  too_large : ℕ → CaptureError
  unsupported : Text → CaptureError
  not_normalized : CaptureError
  size_mismatch : ℕ → ℕ → CaptureError
  checksum_mismatch : CaptureError
  unverified : CaptureError

-- the path, or the refusal
unfoldable pub absolute_path : Disk → Text → Option CaptureError
absolute_path disk path = if disk.is_inside path then none else some (outside path)

-- `none` where it returns
unfoldable pub assert_durable : Disk → Text → Text → ℕ → Option CaptureError
assert_durable disk path expected_sha256 expected_bytes = elim (absolute_path disk path) [
  | some error ↦ some error
  | none ↦ elim (disk.contents path) [
    | none ↦ some (missing path)
    | some bytes ↦
        if not (length bytes == expected_bytes)
        then some (wrong_size path (length bytes) expected_bytes)
        else if not (text_eq (disk.sha256 bytes) expected_sha256)
        then some (wrong_checksum path)
        else none
  ]
]

abbrev pub max_receipt_bytes : ℕ
max_receipt_bytes = 32 * 1024 * 1024

-- what `images.normalize_file` leaves
pub record Normalized : Type 0 where
  pub path : Text
  pub mime : Text
  pub size : ℕ  -- `bytes`
  pub width : Option ℕ
  pub height : Option ℕ
  pub converted_from : Option Text

pub record StoredFile : Type 0 where
  pub rel_path : Text
  pub thumb_rel_path : Option Text
  pub mime : Text
  pub size : ℕ  -- `bytes`
  pub sha256 : Text
  pub width : Option ℕ
  pub height : Option ℕ
  pub converted_from : Option Text

pub data Stored : Type 0 where
  stored : StoredFile → Stored
  refused : CaptureError → Stored

-- app/services/images.py, closed over the new name of the file and its directory. `read_back` is
-- what the disk then holds at a path, or `none` where the file cannot be read
pub record Images : Type 0 where
  pub sniff_mime : Text → Option Text → Text
  pub is_supported : Text → Bool
  pub normalize_file : Text → Option Normalized
  pub read_back : Text → Text → Option Text
  pub make_thumbnail : Normalized → Option Text

module _ (disk : Disk) (images : Images) where
  -- a file that was not converted must be byte for byte what came in
  unfoldable pub checksum_differs : Option Text → Text → Text → Bool
  checksum_differs none bytes source = not (text_eq (disk.sha256 bytes) (disk.sha256 source))
  checksum_differs (some format) bytes source = false

  -- steps 4 to 6; `source` are the bytes that came in
  unfoldable pub verify_written : Text → Normalized → Stored
  verify_written source normalized = elim (images.read_back source normalized.path) [
    | none ↦ refused unverified
    | some bytes ↦
        if not (length bytes == normalized.size)
        then refused (size_mismatch (length bytes) normalized.size)
        else if checksum_differs normalized.converted_from bytes source
        then refused checksum_mismatch
        else stored (record {
          rel_path = normalized.path;
          thumb_rel_path = images.make_thumbnail normalized;
          mime = normalized.mime;
          size = normalized.size;
          sha256 = disk.sha256 bytes;
          width = normalized.width;
          height = normalized.height;
          converted_from = normalized.converted_from;
        })
  ]

  -- the guards on the download
  unfoldable pub refuse_download : Text → Option ℕ → Option CaptureError
  refuse_download bytes expected_bytes =
      if is_empty bytes
      then some empty_download
      else if (elim expected_bytes [ none ↦ false | some n ↦ not (length bytes == n) ])
      then (elim expected_bytes [ none ↦ none | some n ↦ some (truncated (length bytes) n) ])
      else if ltb max_receipt_bytes (length bytes)
      then some (too_large (length bytes))
      else none

  unfoldable pub store_receipt_bytes : Text → Option Text → Option ℕ → Stored
  store_receipt_bytes bytes original_filename expected_bytes =
      elim (refuse_download bytes expected_bytes) [
        | some error ↦ refused error
        | none ↦
            let mime = images.sniff_mime (take 4096 bytes) original_filename in
            if not (images.is_supported mime)
            then refused (unsupported mime)
            else elim (images.normalize_file bytes) [
              | none ↦ refused not_normalized
              | some normalized ↦ verify_written bytes normalized
            ]
      ]
