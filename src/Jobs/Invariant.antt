-- ===== src/Jobs/Invariant.antt =====
-- The life of the queue of app/services/jobs.py as a step relation: any operation, by any caller,
-- in any order, with a crash and a restart among them.
use receipt_manager.Prelude.{ℕ, refl, Option, List, [], arith, Text, Option-cases, inl, inr, find}
use receipt_manager.Engine.{Engine}
use receipt_manager.Models.{Job, Payload}
use receipt_manager.Jobs.{
  Outcome, has_id, start, complete, finish, enqueue, claim, reset_orphaned_jobs, run_one, outcome,
  discard_for_transaction, revive_dead,
}
use receipt_manager.Jobs.Shape.{
  IsWellFormed, []-IsWellFormed, update_where-IsWellFormed, keep-IsWellFormed,
}
use receipt_manager.Jobs.Enqueue.{enqueue-IsWellFormed}

module _ (sql : Engine) (handlers : Text → Option (Payload → Outcome)) where
  -- one operation on the table; `restart` is the crash of the process and its next start
  pub data Step (q : List Job) : List Job → Type 0 where
    enqueued :
        (now : ℕ) (kind : Text) (payload : Payload) (key : Option Text) (delay max_attempts : ℕ)
        → Step q (enqueue sql now kind payload key delay max_attempts q).0
    claimed : (limit now : ℕ) → Step q (claim sql limit now q).0
    ran :
        (id : ℕ) (kind : Text) (payload : Payload) (now : ℕ)
        → Step q (run_one handlers id kind payload now q)
    restarted : (now : ℕ) → Step q (reset_orphaned_jobs now q).0
    revived : (now : ℕ) → Step q (revive_dead now q).0
    discarded : (tx_id : ℕ) → Step q (discard_for_transaction tx_id q).0

  pub data Reach (q : List Job) : List Job → Type 0 where
    here : Reach q q
    next : {r s : List Job} → Reach q r → Step r s → Reach q s

finish-IsWellFormed :
    (id now : ℕ) (error : Option Text) {q : List Job}
    → IsWellFormed q
    → IsWellFormed (finish id error now q)
unfolding finish
finish-IsWellFormed id now error {q} h = elim (Option-cases (find (has_id id) q)) [
  | inl gone ↦ rw (gone, finish) h
  | inr (job, e) ↦
      rw (e, finish)
        (update_where-IsWellFormed (has_id id) (complete error now)
          (λ j. unfold complete in ground arith) (λ j. unfold complete in ground arith) h)
]

module _ (sql : Engine) (handlers : Text → Option (Payload → Outcome)) where
  -- Every operation on the queue keeps its ids distinct and at most one row on each key.
  pub Step-IsWellFormed : {q r : List Job} → Step sql handlers q r → IsWellFormed q → IsWellFormed r
  unfolding claim start run_one reset_orphaned_jobs revive_dead discard_for_transaction
  Step-IsWellFormed {q} (enqueued now kind payload key delay max_attempts) h =
      enqueue-IsWellFormed sql now kind payload key delay max_attempts q h
  Step-IsWellFormed (claimed limit now) h =
      update_where-IsWellFormed _ start (λ j. refl) (λ j. refl) h
  Step-IsWellFormed (ran id kind payload now) h =
      finish-IsWellFormed id now (outcome handlers kind payload) h
  Step-IsWellFormed (restarted now) h = update_where-IsWellFormed _ _ (λ j. refl) (λ j. refl) h
  Step-IsWellFormed (revived now) h = update_where-IsWellFormed _ _ (λ j. refl) (λ j. refl) h
  Step-IsWellFormed (discarded tx_id) h = keep-IsWellFormed _ h

  -- Every table that the operations reach from the empty one, in any order and with any crashes,
  -- has distinct ids and at most one row on each key.
  pub Reach-IsWellFormed : {q : List Job} → Reach sql handlers [] q → IsWellFormed q
  Reach-IsWellFormed here = []-IsWellFormed
  Reach-IsWellFormed (next r st) = Step-IsWellFormed st (Reach-IsWellFormed r)
