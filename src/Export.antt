-- ===== src/Export.antt =====
-- app/services/export.py: which transactions an export holds and the names of the receipts in its archive.
-- The limits of the dates come as times. `Paths` stands for pathlib, `os.path.splitext` and strftime.
pub mod Names
use receipt_manager.Engine.{Engine}
use receipt_manager.Ingest.{status_value}
use receipt_manager.Web.Receipts.{is_on}
use receipt_manager.Prelude.{
  none, some, keep, text_eq, any, codes, is_empty, leb, length, ltb, map, take, Bool, List, Option,
  Text, ℕ, [], true, false, str, if◌then◌else◌, ◌++◌, ◌∷◌, ◌==◌, ◌&&◌, ◌||◌, ◌+◌, zero, suc,
}
use receipt_manager.Models.{TransactionStatus, Attachment, Transaction}
use receipt_manager.Prelude.Sort.{sorted_by}
use receipt_manager.Unicode.{Unicode}

pub record Paths : Type 0 where
  pub iso_date : ℕ → Text
  pub suffix : Text → Text  -- `Path(path).suffix`
  pub splitext : Text → Text × Text

-- `[^a-z0-9]+` to one dash, where the character before was such a one or not
unfoldable pub dashes : Bool → Text → Text
dashes after [] = []
dashes after (c ∷ s) =
    let others = dashes true s in
    let plain = dashes false s in
    if leb 97 c && leb c 122 || leb 48 c && leb c 57
    then c ∷ plain
    else if after
    then others
    else b'-' ∷ others

unfoldable pub drop_dash : Text → Text
drop_dash [] = []
drop_dash (c ∷ s) = if c == b'-' then s else c ∷ s

unfoldable pub drop_last_dash : Text → Text
drop_last_dash [] = []
drop_last_dash (c ∷ s) =
    let rest = drop_last_dash s in if c == b'-' && is_empty s then [] else c ∷ rest

-- two dashes are never next to each other, so `strip("-")` takes one off each end
unfoldable pub slugify_merchant : Unicode → Text → Text
slugify_merchant u merchant =
    let slug = drop_last_dash (drop_dash (dashes false (u.lower merchant))) in
    take 40 (if is_empty slug then codes "unknown" else slug)

unfoldable pub is_unsafe : ℕ → Bool
is_unsafe c = any (λ d. d == c) (codes "\\/:*?\"<>|")

unfoldable pub reserved_names : List Text
reserved_names =
    codes "CON"
    ∷ codes "PRN"
    ∷ codes "AUX"
    ∷ codes "NUL"
    ∷ codes "COM1"
    ∷ codes "COM2"
    ∷ codes "COM3"
    ∷ codes "COM4"
    ∷ codes "COM5"
    ∷ codes "COM6"
    ∷ codes "COM7"
    ∷ codes "COM8"
    ∷ codes "COM9"
    ∷ codes "LPT1"
    ∷ codes "LPT2"
    ∷ codes "LPT3"
    ∷ codes "LPT4"
    ∷ codes "LPT5"
    ∷ codes "LPT6"
    ∷ codes "LPT7"
    ∷ codes "LPT8"
    ∷ codes "LPT9"
    ∷ []

unfoldable pub sanitise_filename : Unicode → Paths → Text → Text
sanitise_filename u paths filename =
    let parts = paths.splitext (map (λ c. if is_unsafe c then b'-' else c) filename) in
    (if any (text_eq (u.upper parts.0)) reserved_names then b'_' ∷ parts.0 else parts.0) ++ parts.1

unfoldable pub receipt_filename : Unicode → Paths → Transaction → Attachment → ℕ → Text
receipt_filename u paths tx att index =
    let lowered = u.lower (paths.suffix att.path) in
    let ext = if is_empty lowered then codes ".bin" else lowered in
    sanitise_filename u paths (
      paths.iso_date tx.occurred_at
      ++ (b'_' ∷ tx.short_code
          ++ (b'_' ∷ slugify_merchant u tx.merchant ++ (b'_' ∷ str index ++ ext))))

-- the order of `Transaction.attachments`
unfoldable pub older_receipt : Attachment → Attachment → Bool
older_receipt a b = leb a.received_at b.received_at

abbrev pub receipts_of : Engine → List Attachment → Transaction → List Attachment
receipts_of sql attachments tx =
    sql.order_by Attachment older_receipt (keep (is_on tx.id) attachments)

unfoldable pub is_within : Option ℕ → Option ℕ → List TransactionStatus → Transaction → Bool
is_within start end statuses tx =
    (elim start [ none ↦ true | some first ↦ leb first tx.occurred_at ])
    && ((elim end [ none ↦ true | some last ↦ leb tx.occurred_at last ]) && (elim statuses [
      | [] ↦ true
      | status ∷ more ↦ any (λ s. text_eq (status_value s) (status_value tx.status)) (status ∷ more)
    ]))

unfoldable pub occurred_first : Transaction → Transaction → Bool
occurred_first a b =
    ltb a.occurred_at b.occurred_at || a.occurred_at == b.occurred_at && leb a.id b.id

unfoldable pub iter_transactions :
    Option ℕ → Option ℕ → List TransactionStatus → List Transaction → List Transaction
iter_transactions start end statuses txs =
    sorted_by occurred_first (keep (is_within start end statuses) txs)

unfoldable pub numbered : Text × Text → ℕ → Text
numbered parts counter = parts.0 ++ (b'-' ∷ str counter ++ parts.1)

-- the loop over `counter`, with a round of fuel for each name
unfoldable pub first_unused : ℕ → List Text → Text × Text → ℕ → Text → Text
first_unused zero used parts counter name = name
first_unused (suc fuel) used parts counter name =
    let later = first_unused fuel used parts (counter + 1) (numbered parts counter) in
    if any (text_eq name) used then later else name

unfoldable pub unused_name : Paths → List Text → Text → Text
unused_name paths used base =
    first_unused (suc (suc (length used))) used (paths.splitext base) 2 base

module _ (u : Unicode) (paths : Paths) where
  unfoldable pub add_receipts :
      Transaction
      → ℕ
      → List Attachment
      → List (Text × Transaction × Attachment)
      → List (Text × Transaction × Attachment)
  add_receipts tx index [] entries = entries
  add_receipts tx index (att ∷ atts) entries =
      let name =
        unused_name paths (map (λ entry. entry.0) entries)
          (receipt_filename u paths tx att index) in
      add_receipts tx (index + 1) atts (entries ++ (name, tx, att) ∷ [])

  -- the entries of the archive, of which `used_names` holds the names
  unfoldable pub build_entries :
      Engine
      → List Attachment
      → List Transaction
      → List (Text × Transaction × Attachment)
      → List (Text × Transaction × Attachment)
  build_entries sql attachments [] entries = entries
  build_entries sql attachments (tx ∷ txs) entries =
      build_entries sql attachments txs (add_receipts tx 1 (receipts_of sql attachments tx) entries)

-- the loop that writes the files: the entries that are written, and those of `missing`. `can_write`
-- tells whether the path lies in the receipts folder, is a file and is copied without an OSError.
unfoldable pub pack :
    (Text → Bool)
    → List (Text × Transaction × Attachment)
    → List (Text × Transaction × Attachment) × List (Text × Transaction × Attachment)
pack can_write [] = ([], [])
pack can_write ((name, tx, att) ∷ entries) =
    let rest = pack can_write entries in
    if can_write att.path
    then ((name, tx, att) ∷ rest.0, rest.1)
    else (rest.0, (name, tx, att) ∷ rest.1)

unfoldable pub build_zip :
    Unicode
    → Paths
    → Engine
    → (Text → Bool)
    → List Attachment
    → List Transaction
    → List (Text × Transaction × Attachment) × List (Text × Transaction × Attachment)
build_zip u paths sql can_write attachments txs =
    pack can_write (build_entries u paths sql attachments txs [])
