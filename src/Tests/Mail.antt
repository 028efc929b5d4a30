-- ===== src/Tests/Mail.antt =====
-- The theorems on the mails, the merchant rules and the refunds, at concrete tables.
use receipt_manager.Prelude.{
  ◌≡◌, refl, false, none, some, List, [], ◌∷◌, codes, find, any, ◌+◌, ◌&&◌, count_if, update_where,
  contains, is_prefix, arith, text_eq, str, read_digits, keep, str_rounds,
}
use receipt_manager.Prelude.Int.{pos, negsuc, is_negative, eq_ℤ, neg}
use receipt_manager.Models.{new, notified, needs_attention, JobStatus, Transaction, Job}
use receipt_manager.Jobs.{
  belongs_to, build, enqueue, has_id, has_key, insert_job, is_outstanding, is_pending, is_running,
  requeue,
}
use receipt_manager.Jobs.Shape.{[]-IsWellFormed}
use receipt_manager.MerchantRules.{
  Search, is_silenced, file_silenced, silenced_rule, silence_merchant, apply_merchant_rules,
  add_rule_note, append_note, file_by, matches, rule_category,
}
use receipt_manager.MerchantRules.Silence.{silence_files}
use receipt_manager.Refunds.{link_refund, claims, is_linked, reverses, save_transaction}
use receipt_manager.Refunds.Links.{IsLinked, link_refund_lem}
use receipt_manager.Graph.{GraphMessage}
use receipt_manager.Ingest.{
  MailParser, MailSettings, Inbox, Ingested, created, ingest_message, sweep_lapsed, is_lapsing,
  envelope_allowed, file_message, file_charge, announce, has_internet_id, make_transaction, body_of,
  created_audit, fields_of, is_filed, make_email, notify_key, plain_body, status_value,
  text_or_empty,
}
use receipt_manager.Ingest.Filed.{IsFiled, never_drops_charge}
use receipt_manager.Ingest.Sweep.{is_lapsed, needs_work, sweep_lapses}
use receipt_manager.Shortcode.{
  allocate, has_code, next_short_code, first_free, code_in_use, highest_code,
}
use receipt_manager.Prelude.Sort.{sorted_by, insert_by}
use receipt_manager.Formatting.{money_plain, sign}
use receipt_manager.Matching.{newer_first}
use receipt_manager.Unicode.{skip_spaces, strip, strip_right}
use receipt_manager.Tests.Setup.{sqlite, ascii, charge, job_row, notify_payload}

-- a pattern that never matches
abbrev pub no_search : Search
no_search pattern text = some false

-- a parser that understands no mail
abbrev pub no_parsing : MailParser
no_parsing = record {
  html_to_text = λ s. s;
  normalize_text = λ s. s;
  parse_email =
      λ sender subject body. record { rule = none; fields = none; error = some (codes "no rule") };
}

abbrev pub settings : MailSettings
settings = record {
  filter_sender = codes "bank";
  filter_subject = [];
  default_currency = codes "USD";
  lapse_hours = 72;
}

abbrev pub message : GraphMessage
message = record {
  graph_id = codes "g";
  internet_message_id = codes "m1";
  subject = codes "alert";
  sender = codes "a bank";
  received_at = 50;
  body_html = none;
  body_text = some (codes "hello");
}

abbrev pub inbox : Inbox
inbox = record {
  emails = [];
  rules = [];
  transactions = charge 1 (codes "1000") notified 10 ∷ [];
  jobs = [];
  audit = [];
}

never_drops_charge_example :
    IsFiled ascii no_search sqlite 60 message inbox.rules inbox.jobs
      (ingest_message ascii no_search sqlite no_parsing settings [] ([] ∷ []) 60 message inbox)
unfolding any envelope_allowed strip strip_right skip_spaces contains is_prefix
never_drops_charge_example =
    never_drops_charge ascii no_search sqlite no_parsing settings [] ([] ∷ []) 60 message inbox refl
      refl refl (omega arith, tt) (tt, tt) refl []-IsWellFormed

abbrev after_mail : Inbox × Ingested
after_mail = ingest_message ascii no_search sqlite no_parsing settings [] ([] ∷ []) 60 message inbox

abbrev created_charge : Transaction
created_charge = record (charge 2 (codes "1001") needs_attention 50) {
  email_id = some 1;
  merchant = codes "(unparsed)";
  amount_minor = pos 0;
}

created_example : after_mail.1 ≡ created created_charge
unfolding any envelope_allowed strip strip_right skip_spaces contains is_prefix ingest_message
    file_message allocate find file_charge link_refund announce has_internet_id update_where
    has_code next_short_code first_free code_in_use highest_code text_eq str read_digits keep
    str_rounds sorted_by insert_by money_plain sign is_negative eq_ℤ neg apply_merchant_rules
    add_rule_note append_note file_by matches rule_category make_transaction body_of created_audit
    fields_of is_filed make_email notify_key plain_body status_value text_or_empty build enqueue
    has_id has_key insert_job is_outstanding is_pending is_running requeue newer_first claims
    is_linked reverses save_transaction
created_example = refl

sweep_lapses_example :
    let swept = sweep_lapsed settings 999999999999 inbox in
    (count_if (is_lapsing 72 999999999999) swept.0.transactions ≡ 0)
    × (count_if is_lapsed swept.0.transactions ≡ count_if is_lapsed inbox.transactions + swept.1)
    × (count_if needs_work swept.0.transactions ≡ count_if needs_work inbox.transactions)
    × (sweep_lapsed settings 999999999999 swept.0 ≡ (swept.0, 0))
sweep_lapses_example = sweep_lapses settings 999999999999 inbox

abbrev refund : Transaction
refund = record (charge 2 (codes "1001") new 20) { amount_minor = negsuc 4320 }

link_refund_lem_example :
    IsLinked
      (refund ∷ inbox.transactions)
      refund
      (link_refund sqlite (refund ∷ inbox.transactions) refund)
link_refund_lem_example = link_refund_lem sqlite (refund ∷ inbox.transactions) refund

abbrev announced_jobs : List Job
announced_jobs = job_row 1 (some (codes "notify:1")) JobStatus.pending 0 5 (notify_payload 1) ∷ []

silence_files_example :
    let rule = (silenced_rule sqlite (codes "Cafe") none none false []).0 in
    let after =
      silence_merchant ascii no_search sqlite 60
        (codes "Cafe")
        none
        none
        false
        []
        []
        inbox.transactions
        announced_jobs in
    (count_if (is_silenced ascii no_search rule []) after.transactions ≡ 0)
    × (after.affected ≡ count_if (is_silenced ascii no_search rule []) inbox.transactions)
    × (after.transactions
        ≡ update_where
            (is_silenced ascii no_search rule [])
            (file_silenced rule)
            inbox.transactions)
    × (count_if
          (λ job.
            any
              (λ tx. is_silenced ascii no_search rule [] tx && belongs_to tx.id job)
              inbox.transactions)
          after.jobs
        ≡ 0)
silence_files_example =
    silence_files ascii no_search sqlite 60 (codes "Cafe") none none false [] [] inbox.transactions
      announced_jobs
