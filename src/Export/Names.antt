-- ===== src/Export/Names.antt =====
-- The names in the archive of an export: its loop ends, and no two receipts share a name.
use receipt_manager.Export.{
  Bool, build_zip, pack, receipt_filename, receipts_of, Attachment, add_receipts, build_entries,
  Engine, Transaction, Unicode, str, Paths, keep, text_eq, ℕ, first_unused, numbered, unused_name,
}
use receipt_manager.Prelude.{
  text_eq_refl, ◌∙◌, subst, sym, arith, str-injective, text_eq_sound, not, ◌<◌, ◌≡◌, ◌≤◌, Text, [],
  ◌∷◌, zero, suc, inl, inr, refl, Bool-cases, true, false, ◌++◌, ◌||◌, ap, any, keep, ◌+◌, map,
  length,
}
use mathlib.Core.List.{
  List, append_cancel_left, append_cancel_right, tail-eq_of_cons-eq, append_assoc, append-nil,
  map-append,
}

numbered-injective : (parts : Text × Text) (m n : ℕ) → numbered parts m ≡ numbered parts n → m ≡ n
unfolding numbered
numbered-injective parts m n h = str-injective m n (
    append_cancel_right (str m) (str n) parts.1
      (tail-eq_of_cons-eq (append_cancel_left parts.0 _ _ h)))

differ :
    (parts : Text × Text) (m n : ℕ) → m < n → text_eq (numbered parts n) (numbered parts m) ≡ false
differ parts m n h = elim (Bool-cases (text_eq (numbered parts n) (numbered parts m))) [
  | inl same ↦ ground (
    arith,
    numbered-injective parts n m (text_eq_sound (numbered parts n) (numbered parts m) same),
    h,
  )
  | inr other ↦ other
]

without : Text → List Text → List Text
without name = keep (λ t. not (text_eq name t))

any-without :
    (name other : Text) (used : List Text)
    → text_eq other name ≡ false
    → any (text_eq other) (without name used) ≡ any (text_eq other) used
unfolding any keep without
any-without name other [] h = refl
any-without name other (t ∷ used) h = elim (Bool-cases (text_eq name t)) [
  | inl same ↦
      let t' : text_eq other t ≡ false =
        subst (λ x. text_eq other x ≡ false) (text_eq_sound name t same) h in
      ground (arith, any-without name other used h)
  | inr differs ↦ ground (arith, any-without name other used h)
]

no_longer : (name : Text) (used : List Text) → length (without name used) ≤ length used
unfolding keep without
no_longer name [] = omega arith
no_longer name (t ∷ used) = ground (arith, no_longer name used)

length-without :
    (name : Text) (used : List Text)
    → any (text_eq name) used ≡ true
    → length (without name used) < length used
unfolding any keep without
length-without name [] h = cc
length-without name (t ∷ used) h = ground (arith, no_longer name used, length-without name used)

-- With as many rounds as names are left that it may meet, the loop ends at a name that is not used.
first_unused_lem :
    (fuel : ℕ) (used left : List Text) (parts : Text × Text) (counter : ℕ)
    → ((k : ℕ)
        → counter ≤ k
        → any (text_eq (numbered parts k)) used ≡ any (text_eq (numbered parts k)) left)
    → length left < fuel
    → any (text_eq (first_unused fuel used parts (counter + 1) (numbered parts counter))) used
      ≡ false
unfolding first_unused
first_unused_lem zero used left parts counter same h = elim h [ ]
first_unused_lem (suc fuel) used left parts counter same h =
    elim (Bool-cases (any (text_eq (numbered parts counter)) used)) [
      | inr free ↦ rw free free
      | inl taken ↦
          let met : any (text_eq (numbered parts counter)) left ≡ true =
            sym (same counter (omega arith)) ∙ taken in
          rw taken (
            first_unused_lem fuel used (without (numbered parts counter) left) parts (counter + 1)
              (λ k above.
                same k (omega (arith, above))
                ∙ sym (
                    any-without (numbered parts counter) (numbered parts k) left
                      (differ parts counter k (omega (arith, above)))))
              (omega (arith, length-without (numbered parts counter) left met, h)))
    ]

unused :
    (paths : Paths) (used : List Text) (base : Text)
    → any (text_eq (unused_name paths used base)) used ≡ false
unfolding unused_name first_unused
unused paths used base = elim (Bool-cases (any (text_eq base) used)) [
  | inr free ↦ rw free free
  | inl taken ↦ rw taken (
      first_unused_lem (suc (length used)) used used (paths.splitext base) 2 (λ k above. refl)
        (omega arith))
]

-- no name is twice in a list
abbrev pub IsDistinct : List Text → Type 0
IsDistinct [] = Unit
IsDistinct (name ∷ names) = (any (text_eq name) names ≡ false) × IsDistinct names

text_eq_sym : (s t : Text) → text_eq s t ≡ false → text_eq t s ≡ false
text_eq_sym s t h = elim (Bool-cases (text_eq t s)) [
  | inl same ↦
      ground (arith, subst (λ x. text_eq s x ≡ false) (text_eq_sound t s same) h, text_eq_refl s)
  | inr other ↦ other
]

none_of :
    (a name : Text) (names : List Text)
    → any (text_eq a) (names ++ name ∷ []) ≡ (any (text_eq a) names || text_eq a name)
unfolding any
none_of a name [] = ground arith
none_of a name (t ∷ names) = ground (arith, none_of a name names)

IsDistinct-append :
    (name : Text) (names : List Text)
    → IsDistinct names
    → any (text_eq name) names ≡ false
    → IsDistinct (names ++ name ∷ [])
unfolding any
IsDistinct-append name [] d h = (refl, tt)
IsDistinct-append name (t ∷ names) d h =
    let apart : text_eq t name ≡ false = text_eq_sym name t (ground (arith, h)) in
    (
      none_of t name names ∙ rw (d.0, apart) refl,
      IsDistinct-append name names d.1 (ground (arith, h)),
    )

-- the names of the entries, and what they are of
abbrev pub names_of : List (Text × Transaction × Attachment) → List Text
names_of = map (λ entry. entry.0)

abbrev pub contents_of : List (Text × Transaction × Attachment) → List (Transaction × Attachment)
contents_of = map (λ entry. (entry.1, entry.2))

-- each charge with each of its receipts
unfoldable pub charged_receipts :
    Engine → List Attachment → List Transaction → List (Transaction × Attachment)
charged_receipts sql attachments [] = []
charged_receipts sql attachments (tx ∷ txs) =
    map (λ att. (tx, att)) (receipts_of sql attachments tx) ++ charged_receipts sql attachments txs

pack-any :
    (can_write : Text → Bool) (name : Text) (entries : List (Text × Transaction × Attachment))
    → any (text_eq name) (names_of entries) ≡ false
    → any (text_eq name) (names_of (pack can_write entries).0) ≡ false
unfolding pack any
pack-any can_write name [] h = refl
pack-any can_write name ((other, tx, att) ∷ entries) h =
    ground (arith, pack-any can_write name entries)

pack-IsDistinct :
    (can_write : Text → Bool) (entries : List (Text × Transaction × Attachment))
    → IsDistinct (names_of entries)
    → IsDistinct (names_of (pack can_write entries).0)
unfolding pack
pack-IsDistinct can_write [] d = tt
pack-IsDistinct can_write ((name, tx, att) ∷ entries) d = elim (Bool-cases (can_write att.path)) [
  | inl e ↦ rw e (pack-any can_write name entries d.0, pack-IsDistinct can_write entries d.1)
  | inr e ↦ rw e (pack-IsDistinct can_write entries d.1)
]

-- what is written, and what is missing
packed :
    (can_write : Text → Bool) (entries : List (Text × Transaction × Attachment))
    → (contents_of (pack can_write entries).0
        ≡ keep (λ receipt. can_write receipt.1.path) (contents_of entries))
      × (contents_of (pack can_write entries).1
          ≡ keep (λ receipt. not (can_write receipt.1.path)) (contents_of entries))
unfolding pack keep
packed can_write [] = (refl, refl)
packed can_write ((name, tx, att) ∷ entries) =
    let rest = packed can_write entries in
    elim (Bool-cases (can_write att.path)) [
      | inl e ↦ rw e (ap (λ l. (tx, att) ∷ l) rest.0, rest.1)
      | inr e ↦ rw e (rest.0, ap (λ l. (tx, att) ∷ l) rest.1)
    ]

module _ (u : Unicode) (paths : Paths) where
  added-IsDistinct :
      (tx : Transaction) (index : ℕ) (atts : List Attachment)
      (entries : List (Text × Transaction × Attachment))
      → IsDistinct (names_of entries)
      → IsDistinct (names_of (add_receipts u paths tx index atts entries))
        × (contents_of (add_receipts u paths tx index atts entries)
            ≡ contents_of entries ++ map (λ att. (tx, att)) atts)
  unfolding add_receipts
  added-IsDistinct tx index [] entries d = (d, sym (append-nil (contents_of entries)))
  added-IsDistinct tx index (att ∷ atts) entries d =
      let name = unused_name paths (names_of entries) (receipt_filename u paths tx att index) in
      let next = added-IsDistinct tx (index + 1) atts (entries ++ (name, tx, att) ∷ []) (
        rw (map-append (λ entry. entry.0) entries ((name, tx, att) ∷ [])) (
          IsDistinct-append name (names_of entries) d
            (unused paths (names_of entries) (receipt_filename u paths tx att index)))) in
      (
        next.0,
        next.1
            ∙ ap (λ xs. xs ++ map (λ att. (tx, att)) atts)
                (map-append (λ entry. (entry.1, entry.2)) entries ((name, tx, att) ∷ []))
            ∙ append_assoc (contents_of entries) ((tx, att) ∷ []) (map (λ att. (tx, att)) atts),
      )

  built :
      (sql : Engine) (attachments : List Attachment) (txs : List Transaction)
      (entries : List (Text × Transaction × Attachment))
      → IsDistinct (names_of entries)
      → IsDistinct (names_of (build_entries u paths sql attachments txs entries))
        × (contents_of (build_entries u paths sql attachments txs entries)
            ≡ contents_of entries ++ charged_receipts sql attachments txs)
  unfolding build_entries charged_receipts
  built sql attachments [] entries d = (d, sym (append-nil (contents_of entries)))
  built sql attachments (tx ∷ txs) entries d =
      let first = added-IsDistinct tx 1 (receipts_of sql attachments tx) entries d in
      let rest =
        built sql attachments txs
          (add_receipts u paths tx 1 (receipts_of sql attachments tx) entries) first.0 in
      (
        rest.0,
        rest.1
            ∙ ap (λ xs. xs ++ charged_receipts sql attachments txs) first.1
            ∙ append_assoc (contents_of entries)
                (map (λ att. (tx, att)) (receipts_of sql attachments tx))
                (charged_receipts sql attachments txs),
      )

  -- In the archive of an export no two receipts have the same name, whatever the names of the files and of
  -- the merchants. Each receipt of each charge whose file can be written is in it once, and each one whose
  -- file cannot is listed as missing once, both in their order.
  pub build_zip-IsDistinct :
      (sql : Engine) (can_write : Text → Bool) (attachments : List Attachment)
      (txs : List Transaction)
      → let zip = build_zip u paths sql can_write attachments txs in
        let due = charged_receipts sql attachments txs in
        IsDistinct (names_of zip.0)
        × (contents_of zip.0 ≡ keep (λ receipt. can_write receipt.1.path) due)
        × (contents_of zip.1 ≡ keep (λ receipt. not (can_write receipt.1.path)) due)
  unfolding build_zip
  build_zip-IsDistinct sql can_write attachments txs =
      let entries = build_entries u paths sql attachments txs [] in
      let done = built sql attachments txs [] tt in
      (
        pack-IsDistinct can_write entries done.0,
        (packed can_write entries).0 ∙ ap (keep (λ receipt. can_write receipt.1.path)) done.1,
        (packed can_write entries).1 ∙ ap (keep (λ receipt. not (can_write receipt.1.path))) done.1,
      )
