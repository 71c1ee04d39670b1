-- ===== src/Cleanup/Invariant.antt =====
-- The states that the methods reach, in any interleaving, and what holds of all of them.
use mcplica.Common.{ℕ, ◌≡◌, Bool, Option, some, List, [], ok, Text}
use mcplica.Cleanup.Target.{TargetType, CleanupTarget}
use mcplica.Cleanup.Job.{CleanupJob}
use mcplica.Cleanup.{State, NewJob, create_job, add_target, finalize_empty_job}
use mcplica.Cleanup.Claim.{Locks, claim_due_targets, cutoff_of}
use mcplica.Cleanup.Settle.{mark_completed, Failure, mark_failed, make_job_due}
use mcplica.Cleanup.Accounts.{IsConsistent}
use mcplica.Cleanup.SettledAccounts.{
  mark_completed-IsConsistent, mark_failed-IsConsistent, make_job_due-IsConsistent,
}
use mcplica.Cleanup.ClaimedAccounts.{claim_turns-IsConsistent}
use mcplica.Cleanup.NewAccounts.{
  create_job-IsConsistent, add_target-IsConsistent, finalize_empty_job-IsConsistent,
}

-- The transactions of the repository that write.
pub data Step (s : State) : State → Type 0 where
  job_created : {s' : State} (c : NewJob) (j : CleanupJob) → create_job c s ≡ ok (j, s') → Step s s'
  target_added :
      {s' : State} (now i j : ℕ) (key : Text) (type : TargetType) (at : ℕ)
      → add_target now i j key type at s ≡ ok s'
      → Step s s'
  emptied : (wall j : ℕ) → Step s (finalize_empty_job wall j s)
  targets_claimed :
      {s' : State} (now wall : ℕ) (eligible_at : Option ℕ) (lease_seconds : ℕ) (fresh : ℕ → ℕ)
      (locks : List Locks) (limit : ℕ) (ts : List CleanupTarget)
      → claim_due_targets now wall eligible_at lease_seconds fresh locks limit s ≡ some (ts, s')
      → Step s s'
  target_completed :
      (now wall i : ℕ) (skipped : Bool) (owner : Option (ℕ × ℕ))
      → Step s (mark_completed now wall i skipped owner s).1
  target_failed :
      (now wall i : ℕ) (e : Failure) (token attempt : ℕ)
      → Step s (mark_failed now wall i e token attempt s).1
  made_due : (now wall j : ℕ) → Step s (make_job_due now wall j s)

pub data Reach (s : State) : State → Type 0 where
  nothing : Reach s s
  more : {s' s'' : State} → Reach s s' → Step s' s'' → Reach s s''

pub Step-IsConsistent : {s s' : State} → Step s s' → IsConsistent s → IsConsistent s'
Step-IsConsistent {s} (job_created c j h) v = create_job-IsConsistent c s h v
Step-IsConsistent {s} (target_added now i j key type at h) v =
    add_target-IsConsistent now i j key type at s h v
Step-IsConsistent {s} (emptied wall j) v = finalize_empty_job-IsConsistent wall j s v
Step-IsConsistent {s} (targets_claimed now wall at lease fresh locks limit ts h) v =
    claim_turns-IsConsistent now wall (cutoff_of wall at) lease fresh locks limit s h v
Step-IsConsistent {s} (target_completed now wall i skipped owner) v =
    mark_completed-IsConsistent now wall i skipped owner s v
Step-IsConsistent {s} (target_failed now wall i e token attempt) v =
    mark_failed-IsConsistent now wall i e token attempt s v
Step-IsConsistent {s} (made_due now wall j) v = make_job_due-IsConsistent now wall j s v

abbrev pub empty : State
empty = record { jobs = []; targets = [] }

-- On every state that the methods reach from the empty tables, in any interleaving, the counters of
-- each job are the numbers of its targets: in total, completed, skipped and failed. Identifiers are
-- unique, each target has its job, and exactly the running targets have a token and a lease.
pub Reach-IsAccounted : {s : State} → Reach empty s → IsConsistent s
Reach-IsAccounted nothing = record {
  job_keys = tt;
  target_keys = tt;
  accounts = tt;
  owners = tt;
  references = tt;
}
Reach-IsAccounted (more r h) = Step-IsConsistent h (Reach-IsAccounted r)
