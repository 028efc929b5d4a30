-- ===== src/Tests/Charges.antt =====
-- Runs of app/services/shortcode.py and app/services/matching.py, and their theorems at one table.
use receipt_manager.Prelude.{
  ℕ, ◌≡◌, ◌≢◌, refl, none, some, List, [], ◌∷◌, ◌++◌, any, find, keep, Text, text_eq, codes, str,
  arith, read_digits,
}
use receipt_manager.Models.{Transaction, new, notified, lapsed}
use receipt_manager.Shortcode.{
  has_code, next_short_code, highest_code, allocate, extract_codes, strip_codes, first_free,
  code_in_use, codes_from, match_code, match_digits, match_tail, digit_run, after_digits,
  at_boundary, sub_from, lines_from, collapse_blanks, ends_line,
}
use receipt_manager.Shortcode.Allocate.{allocate_unique, allocate_succeeds, Allocated}
use receipt_manager.Matching.{
  resolve, by, code, find_by_reply, find_by_code, first_known, recent_transactions, count_open,
  max_picker_options,
}
use receipt_manager.Matching.Resolve.{resolve-by_code, resolve_implicitly, ImplicitOutcome}
use receipt_manager.Unicode.{skip_spaces, strip, strip_right}
use receipt_manager.Tests.Setup.{sqlite, ascii, charge}

abbrev old : Transaction
old = charge 1 (codes "1000") lapsed 5

abbrev recent : Transaction
recent = charge 2 (codes "1001") notified 9

abbrev table : List Transaction
table = old ∷ recent ∷ []

next_code : next_short_code sqlite table ≡ codes "1002"
unfolding next_short_code first_free code_in_use highest_code find has_code text_eq str read_digits
next_code = refl

abbrev make : ℕ → Text → Transaction
make id code' = charge id code' new 20

-- another writer takes the code of the first attempt
abbrev beaten_once : List (List Transaction)
beaten_once = (charge 7 (codes "1002") new 12 ∷ []) ∷ [] ∷ []

allocate_unique_example : Allocated table (allocate sqlite make beaten_once table)
allocate_unique_example = allocate_unique sqlite make beaten_once table

allocate_succeeds_example : (allocate sqlite make beaten_once table).1 ≢ none
allocate_succeeds_example =
    allocate_succeeds sqlite make (λ id c. refl) beaten_once table (omega arith) (omega arith)
      (unfold any in refl)

dinner : extract_codes ascii (codes "see #1000 dinner, table 4") ≡ codes "1000" ∷ []
unfolding extract_codes codes_from match_digits match_tail match_code skip_spaces digit_run
    after_digits at_boundary
dinner = refl

note_kept : strip_codes ascii (codes "  #1000 dinner  with Sarah ") ≡ codes "dinner with Sarah"
unfolding strip_codes sub_from match_tail match_code skip_spaces digit_run after_digits at_boundary
    strip lines_from collapse_blanks strip_right ends_line keep
note_kept = refl

-- removing a code can put another together
code_left : strip_codes ascii (codes "##1042 2000") ≡ codes "# 2000"
unfolding strip_codes sub_from match_tail match_code skip_spaces digit_run after_digits at_boundary
    strip lines_from collapse_blanks strip_right ends_line keep
code_left = refl

resolve-by_code_example :
    resolve ascii sqlite 30 [] table none
      (some (codes "see " ++ (b'#' ∷ (codes "1000" ++ codes " dinner"))))
    ≡ by code old
resolve-by_code_example =
    resolve-by_code ascii sqlite 30 [] table none (codes "see ") (codes " dinner") old
      (unfold find_by_reply in refl) (unfold find has_code text_eq in refl) (unfold any in refl)
      (unfold any in refl) (omega arith) (omega arith) (refl, (refl, (refl, (refl, tt)))) refl

resolve_implicitly_example :
    ImplicitOutcome table
      (recent_transactions sqlite 30 7 max_picker_options table)
      (count_open table)
      (resolve ascii sqlite 30 [] table none (some (codes "lunch")))
resolve_implicitly_example =
    resolve_implicitly ascii sqlite 30 [] table none (some (codes "lunch"))
      (unfold find_by_reply in refl)
      (unfold find_by_code first_known extract_codes codes_from match_digits match_tail match_code
          skip_spaces digit_run after_digits at_boundary in
        refl)
