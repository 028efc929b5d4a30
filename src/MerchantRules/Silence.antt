-- ===== src/MerchantRules/Silence.antt =====
-- What `silence_merchant` of app/services/ingest.py leaves in the tables.
use receipt_manager.Prelude.{
  All, ==-refl, count_if_never, count_if-any, ℕ, ◌≤◌, ◌≡◌, refl, ap, subst, ==_iff, ◌==◌, ◌∙◌, Bool,
  true, false, not, ◌&&◌, Option, none, some, List, [], ◌∷◌, ◌++◌, find, any, keep, count_if,
  update_where, Text, arith, if◌then◌else◌, Bool-cases, inl, inr, is_empty, count_if-keep,
  count_if-append, count_if-update_none, count_if-keep_not,
}
use receipt_manager.Engine.{Engine}
use receipt_manager.Unicode.{Unicode}
use receipt_manager.Models.{Transaction, MerchantRule, Attachment, Job, Payload}
use receipt_manager.Jobs.{
  enqueue, requeue, insert_job, build, has_key, is_outstanding, belongs_to, discard_for_transaction,
  delete_job, has_id,
}
use receipt_manager.MerchantRules.{
  Search, is_silenced, file_silenced, is_stale, silence_charges, silence_jobs, silence_merchant,
  silenced_rule, withdraw, default_attempts,
}

unowned :
    (id : ℕ) (q : List Job) (job : Job)
    → job.payload.transaction_id ≡ none
    → count_if (belongs_to id) (q ++ job ∷ []) ≡ count_if (belongs_to id) q
unowned id q job h =
    count_if-append (belongs_to id) q (job ∷ []) ∙ unfold count_if belongs_to in rw h (omega arith)

module _ (sql : Engine) (id now : ℕ) (kind : Text) (payload : Payload) (key : Option Text)
    (delay attempts : ℕ) (no_tx : payload.transaction_id ≡ none) where
  -- a job with no transaction in its payload adds none to those of a transaction
  insert_job-belongs :
      (q : List Job)
      → count_if (belongs_to id) (insert_job sql now kind payload key delay attempts q).0
        ≡ count_if (belongs_to id) q
  unfolding insert_job build
  insert_job-belongs q = unowned id q _ no_tx

  requeue-belongs :
      (existing : Option Job) (q : List Job)
      → count_if (belongs_to id) (requeue sql existing now kind payload key delay attempts q).0
        ≤ count_if (belongs_to id) q
  unfolding requeue
  requeue-belongs none q = omega arith
  requeue-belongs (some existing) q = elim (Bool-cases (is_outstanding existing.status)) [
    | inl o ↦ rw o (omega arith)
    | inr f ↦ rw f (
        omega (
          arith,
          insert_job-belongs (delete_job existing.id q),
          count_if-keep (belongs_to id) (λ job. not (has_id existing.id job)) q,
        ))
  ]

  enqueue-belongs :
      (q : List Job)
      → count_if (belongs_to id) (enqueue sql now kind payload key delay attempts q).0
        ≤ count_if (belongs_to id) q
  unfolding enqueue
  enqueue-belongs q = elim (Bool-cases (any (has_key key) q)) [
    | inl taken ↦ rw taken (requeue-belongs (find (has_key key) q) q)
    | inr free ↦ rw free (omega (arith, insert_job-belongs q))
  ]

withdraw-belongs :
    (sql : Engine) (id now : ℕ) (message : Option Text) (q : List Job)
    → count_if (belongs_to id) (withdraw sql now message q) ≤ count_if (belongs_to id) q
unfolding withdraw
withdraw-belongs sql id now none q = omega arith
withdraw-belongs sql id now (some m) q = elim (Bool-cases (is_empty m)) [
  | inl e ↦ rw e (omega arith)
  | inr f ↦ rw f (enqueue-belongs sql id now _ _ _ 0 default_attempts refl q)
]

silence_jobs-belongs :
    (sql : Engine) (id now : ℕ) (tx : Transaction) (q : List Job)
    → (count_if (belongs_to id) (silence_jobs sql now tx q) ≤ count_if (belongs_to id) q)
      × (count_if (belongs_to tx.id) (silence_jobs sql now tx q) ≡ 0)
unfolding silence_jobs discard_for_transaction
silence_jobs-belongs sql id now tx q =
    let rest : List Job = keep (λ job. not (belongs_to tx.id job)) q in
    (
      omega (
        arith,
        withdraw-belongs sql id now tx.notify_message_id rest,
        count_if-keep (belongs_to id) (λ job. not (belongs_to tx.id job)) q,
      ),
      omega (
        arith,
        withdraw-belongs sql tx.id now tx.notify_message_id rest,
        count_if-keep_not (belongs_to tx.id) (λ job. not (belongs_to tx.id job)) q
            (λ j e. ground arith),
      ),
    )

module _ (u : Unicode) (search : Search) (sql : Engine) (now : ℕ) (rule : MerchantRule)
    (attachments : List Attachment) where
  abbrev filed : Transaction → Bool
  filed = is_silenced u search rule attachments

  abbrev jobs_after : Transaction → List Job → List Job
  jobs_after tx q = if filed tx then silence_jobs sql now tx q else q

  jobs_after-belongs :
      (id : ℕ) (tx : Transaction) (q : List Job)
      → (count_if (belongs_to id) (jobs_after tx q) ≤ count_if (belongs_to id) q)
        × (filed tx ≡ true → count_if (belongs_to tx.id) (jobs_after tx q) ≡ 0)
  jobs_after-belongs id tx q = elim (Bool-cases (filed tx)) [
    | inl f ↦
        rw f
          ((silence_jobs-belongs sql id now tx q).0, λ _. (silence_jobs-belongs sql id now tx q).1)
    | inr n ↦ rw n (omega arith, λ e. cc)
  ]

  silence_charges-rows :
      (txs : List Transaction) (q : List Job)
      → (silence_charges u search sql now rule attachments txs q).0
        ≡ update_where filed (file_silenced rule) txs
  unfolding silence_charges update_where
  silence_charges-rows [] q = refl
  silence_charges-rows (tx ∷ txs) q =
      ap (λ r. (if filed tx then file_silenced rule tx else tx) ∷ r)
        (silence_charges-rows txs (jobs_after tx q))

  silence_charges-count :
      (txs : List Transaction) (q : List Job)
      → (silence_charges u search sql now rule attachments txs q).2 ≡ count_if filed txs
  unfolding silence_charges count_if
  silence_charges-count [] q = refl
  silence_charges-count (tx ∷ txs) q = ground (arith, silence_charges-count txs (jobs_after tx q))

  silence_charges-jobs :
      (id : ℕ) (txs : List Transaction) (q : List Job)
      → count_if (belongs_to id) (silence_charges u search sql now rule attachments txs q).1
        ≤ count_if (belongs_to id) q
  unfolding silence_charges
  silence_charges-jobs id [] q = omega arith
  silence_charges-jobs id (tx ∷ txs) q =
      omega (arith, silence_charges-jobs id txs (jobs_after tx q), (jobs_after-belongs id tx q).0)

  withdrawn :
      (id : ℕ) (txs : List Transaction) (q : List Job)
      → any (λ tx. filed tx && tx.id == id) txs ≡ true
      → count_if (belongs_to id) (silence_charges u search sql now rule attachments txs q).1 ≡ 0
  unfolding silence_charges any
  withdrawn id [] q h = cc
  withdrawn id (tx ∷ txs) q h = elim (Bool-cases (filed tx && tx.id == id)) [
    | inl here ↦
        omega (arith, silence_charges-jobs id txs (jobs_after tx q), none_left id tx q here)
    | inr later ↦ withdrawn id txs (jobs_after tx q) (ground arith)
  ]
    where
      none_left :
          (i : ℕ) (t : Transaction) (jobs : List Job)
          → filed t && t.id == i ≡ true
          → count_if (belongs_to i) (jobs_after t jobs) ≡ 0
      none_left i t jobs e =
          subst (λ k. count_if (belongs_to k) (jobs_after t jobs) ≡ 0)
            ((==_iff t.id i).0 (ground arith)) ((jobs_after-belongs i t jobs).1 (ground arith))

settled :
    (p : Transaction → Bool) (f : Transaction → Transaction) (tx : Transaction)
    → p (f tx) ≡ false
    → p (if p tx then f tx else tx) ≡ false
settled p f tx h = elim (Bool-cases (p tx)) [ inl e ↦ rw e h | inr e ↦ rw e e ]

not_stale :
    (u : Unicode) (search : Search) (rule : MerchantRule) (attachments : List Attachment)
    (tx : Transaction)
    → is_silenced u search rule attachments (file_silenced rule tx) ≡ false
unfolding is_silenced file_silenced is_stale
not_stale u search rule attachments tx = refl

none_belongs :
    (p : Transaction → Bool) (jobs : List Job) (txs : List Transaction)
    → ((id : ℕ) → any (λ tx. p tx && tx.id == id) txs ≡ true → count_if (belongs_to id) jobs ≡ 0)
    → All (λ tx. count_if (λ job. p tx && belongs_to tx.id job) jobs ≡ 0) txs
unfolding any
none_belongs p jobs [] h = tt
none_belongs p jobs (tx ∷ txs) h = (
  elim (Bool-cases (p tx)) [
    | inl e ↦ rw e (h tx.id (rw (e, ==-refl tx.id) refl))
    | inr e ↦ rw e (count_if_never jobs)
  ],
  none_belongs p jobs txs (λ id k. h id (ground (arith, k))),
)

-- After `silence_merchant` no outstanding charge without a receipt is left that the rule matches.
-- The charges that were such, as many as it returns, are filed by the rule and every other row is
-- as it was: so is each with a receipt. No job about a filed charge is left in the queue.
pub silence_files :
    (u : Unicode) (search : Search) (sql : Engine) (now : ℕ) (pattern : Text)
    (category note : Option Text) (is_regex : Bool) (rules : List MerchantRule)
    (attachments : List Attachment) (txs : List Transaction) (q : List Job)
    → let rule = (silenced_rule sql pattern category note is_regex rules).0 in
      let after =
        silence_merchant u search sql now pattern category note is_regex rules attachments txs q in
      (count_if (is_silenced u search rule attachments) after.transactions ≡ 0)
      × (after.affected ≡ count_if (is_silenced u search rule attachments) txs)
      × (after.transactions
          ≡ update_where (is_silenced u search rule attachments) (file_silenced rule) txs)
      × (count_if
            (λ job.
              any (λ tx. is_silenced u search rule attachments tx && belongs_to tx.id job) txs)
            after.jobs
          ≡ 0)
unfolding silence_merchant
silence_files u search sql now pattern category note is_regex rules attachments txs q =
    let rule : MerchantRule = (silenced_rule sql pattern category note is_regex rules).0 in
    let silenced : Transaction → Bool = is_silenced u search rule attachments in
    (
      rw (silence_charges-rows u search sql now rule attachments txs q) (
          count_if-update_none silenced silenced (file_silenced rule) txs (λ tx.
            settled silenced (file_silenced rule) tx (not_stale u search rule attachments tx))),
      silence_charges-count u search sql now rule attachments txs q,
      silence_charges-rows u search sql now rule attachments txs q,
      count_if-any (λ tx job. silenced tx && belongs_to tx.id job) txs
          (silence_charges u search sql now rule attachments txs q).1
          (none_belongs silenced (silence_charges u search sql now rule attachments txs q).1 txs
            (λ id h. withdrawn u search sql now rule attachments id txs q h)),
    )
