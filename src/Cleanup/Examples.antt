-- ===== src/Cleanup/Examples.antt =====
-- A source is deleted: its object is captured, claimed and deleted.
use mcplica.Common.{ℕ, ◌++◌, ◌≡◌, refl, true, false, none, some, [], ◌∷◌, Text, codes, ok, All}
use mcplica.Common.Table.{find, update}
use mcplica.Cleanup.Target.{object, CleanupTarget, target_id, is_terminal_target}
use mcplica.Cleanup.Job.{JobKind, CleanupJob, find_by_key}
use mcplica.Cleanup.{State, NewJob, new_job, create_job, new_target, add_target, finalize_empty_job}
use mcplica.Cleanup.Capture.{capture}
use mcplica.Cleanup.Claim.{
  Locks, first_due, due_job, due_target, turn, start_target, claim, claim_turns,
  lock_claimed_target,
}
use mcplica.Cleanup.Settle.{
  count_status, error_target, job_status, refreshed, refresh_job, settle_target, complete_target,
  mark_completed, mark_failed, fail_target,
}
use mcplica.Cleanup.Accounts.{IsConsistent}
use mcplica.Cleanup.Invariant.{
  job_created, target_added, targets_claimed, target_completed, Reach, nothing, more, empty,
  Reach-IsAccounted,
}
use mcplica.Cleanup.Finality.{terminal_stays}
use mcplica.Cleanup.Captured.{HasOwnKey, IsCaptured, capture_complete}
use mcplica.Cleanup.Worker.{
  Raised, Settings, finish, delete_claimed, attempt, process, process_claimed, record_failure,
  append_terminal_audit,
}
use mcplica.Cleanup.Deletion.{IsClaimed, MayDelete, IsSettled, attempt_deletes, process_settles}

-- Opens the operations, for the runs below.
runs : ℕ
unfolding find update find_by_key new_job create_job new_target add_target finalize_empty_job
    capture first_due due_job due_target turn start_target claim claim_turns lock_claimed_target
    count_status error_target job_status refreshed refresh_job settle_target complete_target
    mark_completed mark_failed fail_target finish delete_claimed attempt process process_claimed
    record_failure append_terminal_audit
runs = 0

abbrev request : NewJob
request = record {
  new_id = 1;
  kind = JobKind.source_delete;
  idempotency_key = codes "source-delete:5";
  project_id = some 7;
  requested_by = some 2;
  request_id = none;
}

abbrev hash : Text → Text
hash t = t

abbrev print : ℕ → Text
print n = n ∷ []

abbrev made : State
made = record { jobs = new_job request ∷ []; targets = [] }

abbrev target : CleanupTarget
target = new_target 3 11 1 (codes "k") (object (codes "o")) 4

abbrev filled : State
filled = record {
  jobs = record (new_job request) { total_targets = 1 } ∷ [];
  targets = target ∷ [];
}

abbrev free : Locks
free = record { job_locked = λ i. false; target_locked = λ i. false }

abbrev running : CleanupTarget
running = start_target 5 6 60 99 target

abbrev taken : State
taken = claim 5 6 60 99 target filled

abbrev done : State
done = (mark_completed 7 8 11 false (some (99, 1)) taken).1

is_filled : Reach empty filled
unfolding runs
is_filled =
    more (more nothing (job_created request (new_job request) refl))
      (target_added 3 11 1 (codes "k") (object (codes "o")) 4 refl)

is_done : Reach empty done
unfolding runs
is_done =
    more
      (more is_filled
        (targets_claimed {s' = taken} 5 6 none 60 (λ n. 99) (free ∷ []) 1 (running ∷ []) refl))
      (target_completed 7 8 11 false (some (99, 1)))

Reach-IsAccounted_example : IsConsistent done
Reach-IsAccounted_example = Reach-IsAccounted is_done

is_completed : find target_id 11 done.targets ≡ some (complete_target 7 false running)
unfolding runs
is_completed = refl

is_final : is_terminal_target (complete_target 7 false running).status ≡ true
unfolding runs
is_final = refl

terminal_stays_example : find target_id 11 done.targets ≡ some (complete_target 7 false running)
terminal_stays_example = terminal_stays 11 is_done nothing is_completed is_final

abbrev captured : State
captured = record {
  jobs = record (new_job request) { total_targets = 1 } ∷ [];
  targets = new_target 3 20 1 (hash (codes "object" ++ 0 ∷ codes "o")) (object (codes "o")) 4 ∷ [];
}

is_captured :
    capture hash print 3 4 (λ n. 20) request (object (codes "o") ∷ []) empty
    ≡ ok (find (λ (j : CleanupJob). j.id) 1 captured.jobs, captured)
unfolding runs
is_captured = refl

capture_complete_example :
    (j : CleanupJob) × (s1 : State) × (create_job request empty ≡ ok (j, s1))
    × All (IsCaptured hash print j.id captured) (object (codes "o") ∷ [])
    × All (HasOwnKey hash print) captured.targets
capture_complete_example =
    capture_complete hash print 3 4 (λ n. 20) request (object (codes "o") ∷ []) empty is_captured tt

attempt_deletes_example :
    All
      (MayDelete (λ t. false) (λ t. none) 7 99 running taken)
      (attempt (λ t. false) (λ t. none) 6 7 8 99 running taken).deletions
attempt_deletes_example = attempt_deletes (λ t. false) (λ t. none) 6 7 8 99 running taken

abbrev settings : Settings
settings = record { interval_seconds = 30; max_attempts = 5 }

is_own : running.execution_token ≡ some 99
unfolding runs
is_own = refl

is_held : IsClaimed 7 running.id 99 running.attempt_count taken running
unfolding runs
is_held = record { row = refl; runs = refl; owner = refl; lease = refl }

is_still : find target_id running.id taken.targets ≡ some running
unfolding runs
is_still = refl

process_settles_example :
    (u : CleanupTarget) × (find target_id running.id
        (process
          (λ t. false)
          (λ t. some (Raised.other (codes "OSError")))
          6
          7
          8
          9
          10
          settings
          (λ s. s)
          running
          taken).0.targets
      ≡ some u)
    × IsSettled 10 running.attempt_count 5 u
process_settles_example =
    process_settles (λ t. false) (λ t. some (Raised.other (codes "OSError"))) 6 7 8 9 10 99 settings
      (λ s. s) running taken is_own is_held is_still
