-- ===== src/Bot/NewFile.antt =====
-- The loop of `_link_attachments` of app/discordbot/bot.py on one receipt that was just captured.
use receipt_manager.Prelude.{
  any-append, update_where, ℕ, ◌≡◌, refl, ◌∙◌, true, false, none, some, List, [], ◌∷◌, ◌++◌, any,
  find, ltb, arith, find-append_none, find-eq_none_of_any,
}
use receipt_manager.Bot.{
  is_doubled, breaks_photo_once, is_orphan, assign_rows, is_attachment, is_free, attach,
}
use receipt_manager.Bot.Receive.{is_free-append}
use receipt_manager.Models.{has_photo, Attachment}

pub new_row_free :
    (row : Attachment) (id : ℕ)
    → row.id ≡ id
    → row.transaction_id ≡ none
    → is_free id (row ∷ []) ≡ true
unfolding is_free find is_attachment is_orphan
new_row_free row id same orphan = ground (arith, same, orphan)

pub new_row_linked :
    (tx_id id : ℕ) (row : Attachment)
    → row.id ≡ id
    → row.transaction_id ≡ none
    → (assign_rows tx_id (id ∷ []) (row ∷ [])).0 ≡ attach tx_id row ∷ []
unfolding assign_rows update_where is_attachment
new_row_linked tx_id id row same orphan =
    rw (new_row_free row id same orphan, assign_rows) (ground (arith, same))

pub find_linked :
    (tx_id id : ℕ) (row : Attachment) (old : List Attachment)
    → any (is_attachment id) old ≡ false
    → row.id ≡ id
    → find (is_attachment id) (old ++ attach tx_id row ∷ []) ≡ some (attach tx_id row)
unfolding is_attachment find
find_linked tx_id id row old unknown same =
    find-append_none (is_attachment id) old (attach tx_id row ∷ [])
      (find-eq_none_of_any (is_attachment id) old unknown)
    ∙ (unfold attach in ground (arith, same))

pub linked_once :
    (tx_id id : ℕ) (row : Attachment) (old : List Attachment)
    → any (is_attachment id) old ≡ false
    → row.id ≡ id
    → row.transaction_id ≡ none
    → ltb 0 (assign_rows tx_id (id ∷ []) (old ++ row ∷ [])).1 ≡ true
unfolding assign_rows
linked_once tx_id id row old unknown same orphan =
    rw (is_free-append id old (row ∷ []) unknown, new_row_free row id same orphan, assign_rows) refl

-- the one new file breaks the constraint just if its photo is on the charge
pub breaks_new :
    (tx_id id : ℕ) (row : Attachment) (old : List Attachment)
    → any (is_attachment id) old ≡ false
    → row.id ≡ id
    → row.transaction_id ≡ none
    → breaks_photo_once tx_id (id ∷ []) (old ++ row ∷ []) ≡ any (has_photo tx_id row.sha256) old
unfolding breaks_photo_once is_doubled
breaks_new tx_id id row old unknown same orphan =
    let found : find (is_attachment id) (old ++ row ∷ []) ≡ some row =
      find-append_none (is_attachment id) old (row ∷ [])
        (find-eq_none_of_any (is_attachment id) old unknown)
      ∙ (unfold find is_attachment in ground (arith, same)) in
    let apart : any (has_photo tx_id row.sha256) (row ∷ []) ≡ false =
      (unfold any has_photo in ground (arith, orphan)) in
    rw
      (
        is_free-append id old (row ∷ []) unknown,
        new_row_free row id same orphan,
        breaks_photo_once,
        found,
        is_doubled,
        any-append (has_photo tx_id row.sha256) old (row ∷ []),
        apart,
      )
      (ground arith)
