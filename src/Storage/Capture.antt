-- ===== src/Storage/Capture.antt =====
-- What a receipt that app/services/storage.py accepted is.
use receipt_manager.Prelude.{
  ℕ, true, Option, none, some, [], ◌∷◌, Text, arith, ◌≡◌, refl, ◌∙◌, ◌≤◌, subst, take, length,
  text_eq_refl, Bool-cases, Option-cases, inl, inr, ◌==◌,
}
use receipt_manager.Storage.{
  Disk, Images, assert_durable, absolute_path, Stored, StoredFile, Normalized, stored, refused,
  store_receipt_bytes, refuse_download, verify_written, checksum_differs, max_receipt_bytes,
}

-- the file that is stored passes the check before a deletion, if the disk still has it
abbrev pub Durable : Disk → Images → Text → Stored → Type 0
Durable disk images source (refused error) = Unit
Durable disk images source (stored file) =
    disk.is_inside file.rel_path ≡ true
    → disk.contents file.rel_path ≡ images.read_back source file.rel_path
    → assert_durable disk file.rel_path file.sha256 file.size ≡ none

module _ (disk : Disk) (images : Images) where
  passes :
      (path : Text) (bytes : Text) (size : ℕ)
      → (length bytes == size) ≡ true
      → disk.is_inside path ≡ true
      → disk.contents path ≡ some bytes
      → assert_durable disk path (disk.sha256 bytes) size ≡ none
  unfolding assert_durable absolute_path
  passes path bytes size fits inside holds =
      rw (inside, absolute_path, assert_durable, holds, fits, text_eq_refl (disk.sha256 bytes)) refl

  verify_written-Durable :
      (source : Text) (normalized : Normalized)
      → Durable disk images source (verify_written disk images source normalized)
  unfolding verify_written
  verify_written-Durable source normalized =
      elim (Option-cases (images.read_back source normalized.path)) [
        | inl e ↦ rw (e, verify_written) tt
        | inr (bytes, e) ↦ elim (Bool-cases (length bytes == normalized.size)) [
          | inr f ↦ rw (e, verify_written, f) tt
          | inl f ↦
              elim (Bool-cases
                (checksum_differs disk images normalized.converted_from bytes source)) [
                  | inl g ↦ rw (e, verify_written, f, g) tt
                  | inr g ↦
                      rw (e, verify_written, f, g)
                        (λ inside same.
                          passes normalized.path bytes normalized.size f inside (same ∙ e))
                ]
        ]
      ]

  store-Durable :
      (source : Text) (filename : Option Text) (expected : Option ℕ)
      → Durable disk images source (store_receipt_bytes disk images source filename expected)
  unfolding store_receipt_bytes
  store-Durable source filename expected =
      elim (Option-cases (refuse_download disk images source expected)) [
        | inr (error, e) ↦ rw (e, store_receipt_bytes) tt
        | inl e ↦
            elim (Bool-cases
              (images.is_supported (images.sniff_mime (take 4096 source) filename))) [
                | inr f ↦ rw (e, store_receipt_bytes, f) tt
                | inl f ↦ elim (Option-cases (images.normalize_file source)) [
                  | inl g ↦ rw (e, store_receipt_bytes, f, g) tt
                  | inr (normalized, g) ↦
                      rw (e, store_receipt_bytes, f, g) (verify_written-Durable source normalized)
                ]
              ]
      ]

  -- A receipt that was accepted passes the check that is made before its message is deleted, as long
  -- as the disk still holds at its path what was read back when it was stored and the path lies
  -- under the directory of the receipts.
  pub stored_is_durable :
      (source : Text) (filename : Option Text) (expected : Option ℕ) (file : StoredFile)
      → store_receipt_bytes disk images source filename expected ≡ stored file
      → disk.is_inside file.rel_path ≡ true
      → disk.contents file.rel_path ≡ images.read_back source file.rel_path
      → assert_durable disk file.rel_path file.sha256 file.size ≡ none
  stored_is_durable source filename expected file e inside same =
      subst (Durable disk images source) e (store-Durable source filename expected) inside same

  admitted :
      (source : Text) (filename : Option Text) (expected : Option ℕ) (file : StoredFile)
      → store_receipt_bytes disk images source filename expected ≡ stored file
      → refuse_download disk images source expected ≡ none
  unfolding store_receipt_bytes
  admitted source filename expected file e =
      elim (Option-cases (refuse_download disk images source expected)) [
        | inl f ↦ f
        | inr (error, f) ↦ ground (arith, e, f)
      ]

  lengths :
      (source : Text) (declared : ℕ)
      → refuse_download disk images source (some declared) ≡ none
      → (length source ≡ declared) × (1 ≤ length source) × (length source ≤ max_receipt_bytes)
  unfolding refuse_download
  lengths [] declared e = cc
  lengths (c ∷ source) declared e = ground arith

  -- An accepted download is not empty, is of the length that was declared, and is not over the limit.
  pub accepted_length :
      (source : Text) (filename : Option Text) (declared : ℕ) (file : StoredFile)
      → store_receipt_bytes disk images source filename (some declared) ≡ stored file
      → (length source ≡ declared) × (1 ≤ length source) × (length source ≤ max_receipt_bytes)
  accepted_length source filename declared file e =
      lengths source declared (admitted source filename (some declared) file e)
