-- ===== src/Cleanup/ClaimedAccounts.antt =====
-- Claims keep the accounts: an open target stays open.
use mcplica.Common.{ℕ, zero, suc, ◌≡◌, refl, ap, false, some, List, [], ◌∷◌, All, inl, inr}
use mcplica.Common.Table.{
  find, update, UniqueKeys, UniqueKeys-update, All-update_found, All-update, find_of_mem,
}
use mcplica.Cleanup.Target.{CleanupTarget, target_id, is_terminal_target}
use mcplica.Cleanup.Job.{CleanupJob, job_id}
use mcplica.Cleanup.{State}
use mcplica.Cleanup.Claim.{Locks, start_job, start_target, claim, claim_turns, turn}
use mcplica.Cleanup.Due.{Turn-cases, turn-claimed, is_due-open, with_claim-some}
use mcplica.Cleanup.Accounts.{
  IsAccounted, IsOwned, HasJob, IsConsistent, SameCounts, IsAccounted-SameCounts, update-SameCounts,
  HasJob-update,
}
use mcplica.Cleanup.SettledAccounts.{HasJob-at}

-- A job that changes and keeps its counters.
job-IsAccounted :
    (ts us : List CleanupTarget) (i : ℕ) (f : CleanupJob → CleanupJob) (jobs : List CleanupJob)
    → ((j : ℕ) → SameCounts j ts us)
    → ((j k : CleanupJob) → k ≡ f j → SameCounts k.id ts us → IsAccounted ts j → IsAccounted us k)
    → UniqueKeys job_id jobs
    → All (IsAccounted ts) jobs
    → All (IsAccounted us) (update job_id i f jobs)
job-IsAccounted ts us i f jobs same keeps u a =
    All-update job_id (IsAccounted ts) (IsAccounted us) i f jobs
      (λ j k e. keeps j (f j) refl (same (f j).id) k)
      (λ j k n. IsAccounted-SameCounts ts us j j (same j.id) k refl refl refl refl refl) u a

pub claim-IsConsistent :
    (now wall lease_seconds token : ℕ) (t : CleanupTarget) (s : State)
    → find target_id t.id s.targets ≡ some t
    → is_terminal_target t.status ≡ false
    → IsConsistent s
    → IsConsistent (claim now wall lease_seconds token t s)
unfolding claim
claim-IsConsistent now wall lease_seconds token t s at p c =
    let f : CleanupTarget → CleanupTarget = start_target now wall lease_seconds token in
    let us : List CleanupTarget = update target_id t.id f s.targets in
    record {
      job_keys = UniqueKeys-update job_id t.job_id start_job s.jobs (λ j. refl) c.job_keys;
      target_keys =
          UniqueKeys-update target_id t.id f s.targets (λ x. (unfold start_target in refl))
            c.target_keys;
      accounts =
          job-IsAccounted s.targets us t.job_id start_job s.jobs
            (λ j.
              update-SameCounts t.id f s.targets j at (unfold start_target in refl)
                (inl (p, (unfold start_target in refl))))
            (λ j k e n a.
              IsAccounted-SameCounts s.targets us j k n a (ap job_id e)
                (ap (λ x. x.total_targets) e) (ap (λ x. x.completed_targets) e)
                (ap (λ x. x.skipped_targets) e) (ap (λ x. x.failed_targets) e))
            c.job_keys c.accounts;
      owners =
          All-update_found target_id IsOwned t.id f s.targets at
            (unfold start_target in record { token = refl; lease = refl }) c.owners;
      references =
          HasJob-update t.job_id start_job s.jobs us (λ j. refl)
            (All-update_found target_id (HasJob s.jobs) t.id f s.targets at
              (unfold start_target in HasJob-at s.jobs s.targets t.id c.references at)
              c.references);
    }

pub claim_turns-IsConsistent :
    (now wall cutoff lease_seconds : ℕ) (fresh : ℕ → ℕ) (locks : List Locks) (limit : ℕ) (s : State)
    {ts : List CleanupTarget} {s' : State}
    → claim_turns now wall cutoff lease_seconds fresh locks limit s ≡ some (ts, s')
    → IsConsistent s
    → IsConsistent s'
unfolding claim_turns
claim_turns-IsConsistent now wall cutoff lease_seconds fresh locks zero s {ts} {s'} h c =
    let k : some ([], s) ≡ some (ts, s') = h in let same : s' ≡ s = cc in rw same c
claim_turns-IsConsistent now wall cutoff lease_seconds fresh [] (suc n) s h c = cc
claim_turns-IsConsistent now wall cutoff lease_seconds fresh (l ∷ locks) (suc n) s {ts} {s'} h c =
    elim (Turn-cases (turn l cutoff s)) [
      | inl e ↦
          let k : some ([], s) ≡ some (ts, s') = rw (e, claim_turns) at h in
          let same : s' ≡ s = cc in rw same c
      | inr (inl e) ↦
          claim_turns-IsConsistent now wall cutoff lease_seconds fresh locks (suc n) s
            (rw (e, claim_turns) at h) c
      | inr (inr (t, e)) ↦
          let (m, due, free) = turn-claimed l cutoff s e in
          let token : ℕ = fresh n in
          let s'' : State = claim now wall lease_seconds token t s in
          let (us, rest, front) =
            with_claim-some (start_target now wall lease_seconds token t)
              (claim_turns now wall cutoff lease_seconds fresh locks n s'')
              (rw (e, claim_turns) at h) in
          claim_turns-IsConsistent now wall cutoff lease_seconds fresh locks n s'' rest (
            claim-IsConsistent now wall lease_seconds token t s
              (find_of_mem target_id s.targets c.target_keys m) (is_due-open cutoff t due) c)
    ]
