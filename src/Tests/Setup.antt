-- ===== src/Tests/Setup.antt =====
-- A database engine and character tables that meet the interfaces, and rows for the tests.
use receipt_manager.Prelude.{
  ◌-◌, ◌≤◌, ℕ, ◌+◌, ◌<◌, max, ◌≡◌, refl, Bool, true, false, ◌&&◌, ◌||◌, Option, none, some, List,
  [], ◌∷◌, any, Text, codes, read_digits, read_digits-str, leb, ◌==◌, arith,
}
use receipt_manager.Prelude.Sort.{sorted_by, count_if-sorted_by, Sorted-sorted_by}
use receipt_manager.Prelude.Int.{pos}
use receipt_manager.Engine.{Engine}
use receipt_manager.Unicode.{Unicode}
use receipt_manager.Models.{Job, Payload, JobStatus, Transaction, TransactionStatus}

abbrev pub greatest : List ℕ → ℕ
greatest [] = 0
greatest (i ∷ ids) = max i (greatest ids)

below_greatest : (k : ℕ) (ids : List ℕ) → greatest ids < k → any (λ i. i == k) ids ≡ false
unfolding any
below_greatest k [] h = refl
below_greatest k (i ∷ ids) h = ground (arith, below_greatest k ids)

pub greatest_fresh : (ids : List ℕ) → any (λ i. i == greatest ids + 1) ids ≡ false
greatest_fresh ids = below_greatest (greatest ids + 1) ids (omega arith)

-- SQLite's choice of a row id: one more than the greatest of the table
abbrev pub sqlite : Engine
sqlite = record {
  new_id = λ ids. greatest ids + 1;
  new_id_fresh = greatest_fresh;
  cast_integer = read_digits 0;
  cast_integer-str = read_digits-str;
  order_by = λ A le rows. sorted_by le rows;
  order_by_rows = λ A le p rows. count_if-sorted_by le p rows;
  order_by_sorted = λ A le rows order. Sorted-sorted_by le order rows;
}

abbrev pub ascii_digit : ℕ → Bool
ascii_digit c = leb b'0' c && leb c b'9'

abbrev pub ascii_space : ℕ → Bool
ascii_space c = c == b' ' || (leb 9 c && leb c 13)

abbrev pub ascii_word : ℕ → Bool
ascii_word c =
    ascii_digit c || (leb b'a' c && leb c b'z') || (leb b'A' c && leb c b'Z') || c == b'_'

pub digit_word : (c : ℕ) → ascii_digit c ≡ true → ascii_word c ≡ true
digit_word c h = ground arith

pub digit_space : (c : ℕ) → ascii_digit c ≡ true → ascii_space c ≡ false
digit_space c h = ground arith

pub digit_ascii : (c : ℕ) → 48 ≤ c → c ≤ 57 → ascii_digit c ≡ true
digit_ascii c h k = ground arith

abbrev pub ascii_same_letter : ℕ → ℕ → Bool
ascii_same_letter c p = c == p || c == p + 32

pub letter_plain : (c p : ℕ) → c ≤ 64 → 65 ≤ p → ascii_same_letter c p ≡ false
letter_plain c p h k = ground arith

abbrev pub ascii : Unicode
ascii = record {
  is_digit = ascii_digit;
  is_space = ascii_space;
  is_word = ascii_word;
  lower = λ s. s;
  upper = λ s. s;
  digit_value = λ c. c - 48;
  same_letter = ascii_same_letter;
  repr = λ s. s;
  digit_is_word = digit_word;
  digit_not_space = digit_space;
  hash_not_digit = refl;
  hash_not_space = refl;
  dot_not_digit = refl;
  dash_not_digit = refl;
  dot_not_space = refl;
  dash_not_space = refl;
  ascii_digit = digit_ascii;
  ascii_digit_value = λ c h k. refl;
  same_letter_plain = letter_plain;
  upper_plain = λ s h. refl;
}

abbrev pub no_payload : Payload
no_payload = record {
  transaction_id = none;
  attachment_ids = [];
  hint = [];
  user_note = [];
  message_id = [];
  content = [];
}

abbrev pub notify_payload : ℕ → Payload
notify_payload id = record no_payload { transaction_id = some id }

abbrev pub job_row : ℕ → Option Text → JobStatus → ℕ → ℕ → Payload → Job
job_row id key status attempts next_run_at payload = record {
  id = id;
  kind = codes "discord.notify";
  payload = payload;
  idempotency_key = key;
  status = status;
  attempts = attempts;
  max_attempts = 3;
  next_run_at = next_run_at;
  last_error = none;
  completed_at = none;
}

abbrev pub charge : ℕ → Text → TransactionStatus → ℕ → Transaction
charge id short_code status occurred_at = record {
  id = id;
  short_code = short_code;
  email_id = none;
  occurred_at = occurred_at;
  merchant = codes "Cafe";
  amount_minor = pos 4321;
  currency = codes "USD";
  card_ending = none;
  cardholder = none;
  status = status;
  category = none;
  category_account_id = none;
  notes = none;
  refund_of_id = none;
  notified_at = none;
  lapsed_at = none;
  matched_at = none;
  notify_message_id = none;
}
