-- ===== src/Tests/Archive.antt =====
-- The theorem on the archive of an export, at two receipts of one charge whose names meet.
use receipt_manager.Prelude.{text_eq, not, Bool, keep, Text, codes, List, [], ◌∷◌, some, ◌≡◌}
use receipt_manager.Export.{build_zip, Paths}
use receipt_manager.Models.{Attachment, receipt_attached, Transaction}
use receipt_manager.Export.Names.{
  build_zip-IsDistinct, charged_receipts, contents_of, names_of, IsDistinct,
}
use receipt_manager.Tests.Channel.{receipt}
use receipt_manager.Tests.Setup.{sqlite, ascii, charge}

abbrev one_name : Paths
one_name = record {
  iso_date = λ at. codes "2024-01-01";
  suffix = λ path. codes ".png";
  splitext = λ name. (name, []);
}

abbrev exported : List Transaction
exported =
    charge 1 (codes "1000") receipt_attached 10 ∷ charge 1 (codes "1000") receipt_attached 10 ∷ []

abbrev listed : List Attachment
listed = receipt 1 (some 1) ∷ record (receipt 2 (some 1)) { path = codes "lost.jpg" } ∷ []

abbrev can_write : Text → Bool
can_write path = not (text_eq path (codes "lost.jpg"))

build_zip-IsDistinct_example :
    let zip = build_zip ascii one_name sqlite can_write listed exported in
    let due = charged_receipts sqlite listed exported in
    IsDistinct (names_of zip.0)
    × (contents_of zip.0 ≡ keep (λ receipt. can_write receipt.1.path) due)
    × (contents_of zip.1 ≡ keep (λ receipt. not (can_write receipt.1.path)) due)
build_zip-IsDistinct_example = build_zip-IsDistinct ascii one_name sqlite can_write listed exported
