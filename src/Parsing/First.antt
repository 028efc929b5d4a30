-- ===== src/Parsing/First.antt =====
-- `parse_email` of app/services/parsing.py: which rule a mail is read by.
use receipt_manager.Prelude.{
  ◌≡◌, ◌≤◌, refl, ◌∙◌, sym, Bool, true, false, not, ◌&&◌, none, some, List, [], ◌∷◌, ◌++◌, find,
  keep, any, count_if, Text, arith, Bool-cases, Option-cases, inl, inr, count_if-keep_and, subst,
  find_sound, any_of_count_if_zero, any_of_count_if_pos, count_if_pos_of_any, count_if_zero_of_any,
  any-eq_false_of_find,
}
use receipt_manager.Prelude.Sort.{
  IsOrder, sorted_by, find_first, count_if-sorted_by, Sorted-sorted_by, All-sorted_by,
}
use receipt_manager.Prelude.Members.{any_of_find, All-Mem, All-keep, All-find, keep_sound}
use mathlib.Core.List.{Mem}
use mathlib.Core.Bool.{true≢false}
use receipt_manager.Unicode.{Unicode}
use receipt_manager.Parsing.{ParseRule, ParseOutcome}
use receipt_manager.Parsing.Rules.{
  Searches, Dates, rule_matches_envelope, apply_rule, rule_before, no_success, try_rules,
  failure_text, parse_email,
}

rule_before-IsOrder : IsOrder rule_before
unfolding rule_before
rule_before-IsOrder = record { total = λ a b. ground arith; trans = λ a b c h k. ground arith }

abbrev pub has_fields : ParseOutcome → Bool
has_fields outcome = elim outcome.fields [ none ↦ false | some fields ↦ true ]

both : {a b : Bool} → a ≡ true → b ≡ true → a && b ≡ true
both h k = ground arith

no_success_fails :
    (tried : List ParseRule) (failures : List Text) → has_fields (no_success tried failures) ≡ false
unfolding no_success
no_success_fails [] failures = refl
no_success_fails (r ∷ rs) failures = refl

module _ (u : Unicode) (dates : Dates) (searches : Searches) where
  -- the rule's sender and subject are those of the mail, and it reads an amount from the body
  unfoldable pub reads : Text → Text → Text → ParseRule → Bool
  reads sender subject body_text rule =
      rule_matches_envelope u dates searches rule sender subject
      && has_fields (apply_rule u dates searches rule body_text)

  reads-has_fields :
      (sender subject body_text : Text) (rule : ParseRule)
      → reads sender subject body_text rule ≡ true
      → has_fields (apply_rule u dates searches rule body_text) ≡ true
  unfolding reads
  reads-has_fields sender subject body_text rule h = ground arith

  -- the loop stops at the first rule that reads the mail, whatever it has collected
  try_rules-find :
      (tried : List ParseRule) (failures : List Text) (sender subject body_text : Text)
      (rules : List ParseRule) (rule : ParseRule)
      → find (reads sender subject body_text) rules ≡ some rule
      → try_rules u dates searches tried failures sender subject body_text rules
        ≡ apply_rule u dates searches rule body_text
  unfolding try_rules find reads
  try_rules-find tried failures sender subject body_text [] rule h = cc
  try_rules-find tried failures sender subject body_text (r ∷ rs) rule h =
      let next : List Text =
        failures ++ failure_text r (apply_rule u dates searches r body_text) ∷ [] in
      ground (
        arith,
        try_rules-find tried failures sender subject body_text rs rule,
        try_rules-find (tried ++ r ∷ []) next sender subject body_text rs rule,
      )

  try_rules-none :
      (tried : List ParseRule) (failures : List Text) (sender subject body_text : Text)
      (rules : List ParseRule)
      → any (reads sender subject body_text) rules ≡ false
      → has_fields (try_rules u dates searches tried failures sender subject body_text rules)
        ≡ false
  unfolding try_rules any reads
  try_rules-none tried failures sender subject body_text [] h = no_success_fails tried failures
  try_rules-none tried failures sender subject body_text (r ∷ rs) h =
      let next : List Text =
        failures ++ failure_text r (apply_rule u dates searches r body_text) ∷ [] in
      ground (
        arith,
        try_rules-none tried failures sender subject body_text rs,
        try_rules-none (tried ++ r ∷ []) next sender subject body_text rs,
      )

  abbrev reading : Text → Text → Text → ParseRule → Bool
  reading sender subject body_text rule = rule.enabled && reads sender subject body_text rule

  abbrev in_order : List ParseRule → List ParseRule
  in_order rules = sorted_by rule_before (keep (λ rule. rule.enabled) rules)

  count_if-in_order :
      (p : ParseRule → Bool) (rules : List ParseRule)
      → count_if p (in_order rules) ≡ count_if (λ rule. rule.enabled && p rule) rules
  count_if-in_order p rules =
      count_if-sorted_by rule_before p (keep (λ rule. rule.enabled) rules)
      ∙ count_if-keep_and p (λ rule. rule.enabled) rules

  any-in_order :
      (p : ParseRule → Bool) (rules : List ParseRule)
      → any p (in_order rules) ≡ any (λ rule. rule.enabled && p rule) rules
  any-in_order p rules = elim (Bool-cases (any p (in_order rules))) [
    | inl found ↦
        let some_rule : 1 ≤ count_if (λ rule. rule.enabled && p rule) rules =
          subst (λ n. 1 ≤ n) (count_if-in_order p rules)
            (count_if_pos_of_any p (in_order rules) found) in
        found ∙ sym (any_of_count_if_pos (λ rule. rule.enabled && p rule) rules some_rule)
    | inr nothing ↦
        nothing
        ∙ sym (
            any_of_count_if_zero (λ rule. rule.enabled && p rule) rules
              (sym (count_if-in_order p rules) ∙ count_if_zero_of_any p (in_order rules) nothing))
  ]

  try_rules-reads :
      (sender subject body_text : Text) (rules : List ParseRule)
      → has_fields (try_rules u dates searches [] [] sender subject body_text rules)
        ≡ any (reads sender subject body_text) rules
  try_rules-reads sender subject body_text rules =
      elim (Option-cases (find (reads sender subject body_text) rules)) [
        | inl nothing ↦
            let never : any (reads sender subject body_text) rules ≡ false =
              any-eq_false_of_find (reads sender subject body_text) rules nothing in
            try_rules-none [] [] sender subject body_text rules never ∙ sym never
        | inr (rule, found) ↦
            rw
              (
                try_rules-find [] [] sender subject body_text rules rule found,
                any_of_find (reads sender subject body_text) rules rule found,
              )
              (reads-has_fields sender subject body_text rule
                (find_sound (reads sender subject body_text) rules rule found))
      ]

  -- A mail gives fields exactly if an enabled rule meets its sender and subject and reads an amount from
  -- its body.
  pub parse_email-reads :
      (rules : List ParseRule) (sender subject body_text : Text)
      → has_fields (parse_email u dates searches rules sender subject body_text)
        ≡ any (λ rule. rule.enabled && reads sender subject body_text rule) rules
  unfolding parse_email
  parse_email-reads rules sender subject body_text =
      try_rules-reads sender subject body_text (in_order rules)
      ∙ any-in_order (reads sender subject body_text) rules

  -- A mail that gives fields is read by an enabled rule of the list that meets its sender and subject, and
  -- no enabled rule that reads the mail too comes before that one in the order of priority and id.
  pub parse_email-first :
      (rules : List ParseRule) (sender subject body_text : Text)
      → has_fields (parse_email u dates searches rules sender subject body_text) ≡ true
      → (rule : ParseRule) × Mem rule rules
        × (rule.enabled && reads sender subject body_text rule ≡ true)
        × (parse_email u dates searches rules sender subject body_text
            ≡ apply_rule u dates searches rule body_text)
        × (count_if
              (λ other.
                other.enabled
                && (reads sender subject body_text other && not (rule_before rule other)))
              rules
            ≡ 0)
  unfolding parse_email
  parse_email-first rules sender subject body_text h =
      elim (Option-cases (find (reads sender subject body_text) (in_order rules))) [
        | inl nothing ↦ absurd (
            true≢false (
              sym h
              ∙ try_rules-none [] [] sender subject body_text (in_order rules)
                  (any-eq_false_of_find (reads sender subject body_text) (in_order rules) nothing)))
        | inr (rule, found) ↦ (
          rule,
          All-find (λ r. Mem r rules) (reads sender subject body_text) (in_order rules) rule
              (All-sorted_by rule_before (λ r. Mem r rules) (keep (λ r. r.enabled) rules)
                (All-keep (λ r. Mem r rules) (λ r. r.enabled) rules (All-Mem rules)))
              found,
          (let on : rule.enabled ≡ true =
                All-find (λ r. r.enabled ≡ true) (reads sender subject body_text) (in_order rules)
                  rule
                  (All-sorted_by rule_before (λ r. r.enabled ≡ true) (keep (λ r. r.enabled) rules)
                    (keep_sound (λ r. r.enabled) rules))
                  found in
              both on (find_sound (reads sender subject body_text) (in_order rules) rule found)),
          try_rules-find [] [] sender subject body_text (in_order rules) rule found,
          sym (
                count_if-in_order
                  (λ other. reads sender subject body_text other && not (rule_before rule other))
                  rules)
              ∙ find_first rule_before rule_before-IsOrder (reads sender subject body_text)
                  (in_order rules) rule
                  (Sorted-sorted_by rule_before rule_before-IsOrder (keep (λ r. r.enabled) rules))
                  found,
        )
      ]
