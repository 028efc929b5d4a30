-- ===== src/Web/Settled.antt =====
-- `delete_transaction` of app/web/routes_ui.py: what becomes of the rows that do not go.
use receipt_manager.Prelude.{
  ◌∙◌, if◌then◌else◌, ℕ, ◌≡◌, refl, Bool, true, false, Option, none, List, [], ◌∷◌, keep,
  update_where, Text, Bool-cases, inl, inr, All, subst, sym,
}
use mathlib.Core.List.{Mem, mem-cons_self, mem-cons_of_mem}
use receipt_manager.Web.Delete.{removed_files, release}
use receipt_manager.Models.{Attachment}
use receipt_manager.Web.Receipts.{set_charge, is_on}

-- what becomes of a receipt of the site: on the charge or not, and whether the receipts go too
abbrev pub IsSettled :
    Bool → Bool → Attachment → List Attachment → List (Text × Option Text) → Type 0
IsSettled false delete_receipts att atts removed = Mem att atts
IsSettled true false att atts removed = Mem (record att { transaction_id = none }) atts
IsSettled true true att atts removed = Mem (att.path, att.thumb_path) removed

IsSettled-later :
    (on delete_receipts : Bool) (att a : Attachment) (atts : List Attachment)
    (f : Text × Option Text) (removed : List (Text × Option Text))
    → IsSettled on delete_receipts att atts removed
    → IsSettled on delete_receipts att (a ∷ atts) removed
      × IsSettled on delete_receipts att atts (f ∷ removed)
IsSettled-later false d att a atts f removed h = (mem-cons_of_mem a h, h)
IsSettled-later true false att a atts f removed h = (mem-cons_of_mem a h, h)
IsSettled-later true true att a atts f removed h = (h, mem-cons_of_mem f h)

All-later :
    (tx_id : ℕ) (d : Bool) (xs : List Attachment) (a : Attachment) (atts : List Attachment)
    (f : Text × Option Text) (removed : List (Text × Option Text))
    → All (λ att. IsSettled (is_on tx_id att) d att atts removed) xs
    → All (λ att. IsSettled (is_on tx_id att) d att (a ∷ atts) removed) xs
      × All (λ att. IsSettled (is_on tx_id att) d att atts (f ∷ removed)) xs
All-later tx_id d [] a atts f removed h = (tt, tt)
All-later tx_id d (x ∷ xs) a atts f removed h =
    let here = IsSettled-later (is_on tx_id x) d x a atts f removed h.0 in
    let rest = All-later tx_id d xs a atts f removed h.1 in ((here.0, rest.0), (here.1, rest.1))

IsSettled-as :
    (tx_id : ℕ) (d : Bool) (xs left after : List Attachment)
    (removed gone : List (Text × Option Text))
    → after ≡ left
    → gone ≡ removed
    → All (λ a. IsSettled (is_on tx_id a) d a left removed) xs
    → All (λ a. IsSettled (is_on tx_id a) d a after gone) xs
IsSettled-as tx_id d xs left after removed gone e f h =
    subst (λ l. All (λ a. IsSettled (is_on tx_id a) d a l gone) xs) (sym e)
      (subst (λ l. All (λ a. IsSettled (is_on tx_id a) d a left l) xs) (sym f) h)

pub settled :
    (tx_id : ℕ) (d : Bool) (atts : List Attachment)
    → All
        (λ att.
          IsSettled
            (is_on tx_id att)
            d
            att
            (release tx_id d atts)
            (if d then removed_files tx_id atts else []))
        atts
unfolding release removed_files keep update_where
settled tx_id d [] = tt
settled tx_id true (att ∷ atts) =
    let left = release tx_id true atts in
    let removed = removed_files tx_id atts in
    let file : Text × Option Text = (att.path, att.thumb_path) in
    let rest = All-later tx_id true atts att left file removed (settled tx_id true atts) in
    elim (Bool-cases (is_on tx_id att)) [
      | inl e ↦
          IsSettled-as tx_id true (att ∷ atts) left (release tx_id true (att ∷ atts))
            (file ∷ removed) (removed_files tx_id (att ∷ atts)) (rw e refl) (rw e refl)
            (rw e mem-cons_self, rest.1)
      | inr e ↦
          IsSettled-as tx_id true (att ∷ atts) (att ∷ left) (release tx_id true (att ∷ atts))
            removed (removed_files tx_id (att ∷ atts)) (rw e refl) (rw e refl)
            (rw e mem-cons_self, rest.0)
    ]
settled tx_id false (att ∷ atts) =
    let left = release tx_id false atts in
    let earlier = settled tx_id false atts in
    elim (Bool-cases (is_on tx_id att)) [
      | inl e ↦
          IsSettled-as tx_id false (att ∷ atts) (set_charge none att ∷ left)
            (release tx_id false (att ∷ atts)) [] [] (rw e refl) refl
            (
              rw e mem-cons_self,
              (All-later tx_id false atts (set_charge none att) left (att.path, none) [] earlier).0,
            )
      | inr e ↦
          IsSettled-as tx_id false (att ∷ atts) (att ∷ left) (release tx_id false (att ∷ atts)) []
            [] (rw e refl) refl
            (
              rw e mem-cons_self,
              (All-later tx_id false atts att left (att.path, none) [] earlier).0,
            )
    ]

module _ {ℓ} {A : Type ℓ} where
  -- a row that is not to go is kept
  abbrev pub IsSpared : Bool → A → List A → Type ℓ
  IsSpared true x xs = Mem x xs
  IsSpared false x xs = Unit

  IsSpared-later : (b : Bool) (x y : A) (xs : List A) → IsSpared b x xs → IsSpared b x (y ∷ xs)
  IsSpared-later true x y xs h = mem-cons_of_mem y h
  IsSpared-later false x y xs h = tt

  All-IsSpared :
      (p : A → Bool) (f : A → A) (xs kept : List A) (y : A)
      → All (λ x. IsSpared (p x) (f x) kept) xs
      → All (λ x. IsSpared (p x) (f x) (y ∷ kept)) xs
  All-IsSpared p f [] kept y h = tt
  All-IsSpared p f (x ∷ xs) kept y h =
      (IsSpared-later (p x) (f x) y kept h.0, All-IsSpared p f xs kept y h.1)

  IsSpared-as :
      (p q : A → Bool) (f : A → A) (xs left after : List A)
      → after ≡ left
      → All (λ x. IsSpared (p x) (if q x then f x else x) left) xs
      → All (λ x. IsSpared (p x) (if q x then f x else x) after) xs
  IsSpared-as p q f xs left after e h =
      subst (λ l. All (λ x. IsSpared (p x) (if q x then f x else x) l) xs) (sym e) h

  -- after an assignment to some rows and the removal of others each row that is not removed is there
  pub spared :
      (p q : A → Bool) (f : A → A) (xs : List A)
      → ((x : A) → p (f x) ≡ p x)
      → All (λ x. IsSpared (p x) (if q x then f x else x) (keep p (update_where q f xs))) xs
  unfolding keep update_where
  spared p q f [] h = tt
  spared p q f (x ∷ xs) h =
      let rest = spared p q f xs h in
      let left = keep p (update_where q f xs) in
      let new = if q x then f x else x in
      let same : p new ≡ p x = elim (Bool-cases (q x)) [ inl e ↦ rw e (h x) | inr e ↦ rw e refl ] in
      elim (Bool-cases (p x)) [
        | inl e ↦
            IsSpared-as p q f (x ∷ xs) (new ∷ left) (keep p (update_where q f (x ∷ xs)))
              (rw (same ∙ e) refl)
              (rw e mem-cons_self, All-IsSpared p (λ y. if q y then f y else y) xs left new rest)
        | inr e ↦
            IsSpared-as p q f (x ∷ xs) left (keep p (update_where q f (x ∷ xs)))
              (rw (same ∙ e) refl) (rw e tt, rest)
      ]
