-- ===== src/Cleanup/SettledAccounts.antt =====
-- The end of an attempt keeps the accounts: the job is counted again.
use mcplica.Common.{
  ℕ, ◌≡◌, refl, sym, subst, Bool, true, false, not, ◌&&◌, Option, some, List, map, arith, ◌==◌,
  is_some, leb, if◌then◌else◌, All, All-map, All-of_mem, All-mem, All-of-map, Bool-cases, inl, inr,
  Option-cases, Pointwise-map,
}
use mcplica.Common.Table.{
  find, update, UniqueKeys-update, All-update_found, UniqueKeys-of_Pointwise, All-update,
  key_of_find, mem_of_find,
}
use mcplica.Cleanup.Target.{TargetStatus, CleanupTarget, target_id, is_terminal_target, is_running}
use mcplica.Cleanup.Job.{CleanupJob, job_id}
use mcplica.Cleanup.{State}
use mcplica.Cleanup.Claim.{is_attempt}
use mcplica.Cleanup.Settle.{
  refreshed, settle_target, refresh_job, complete_target, mark_completed, Failure, fail_target,
  mark_failed, is_shown, awaits_attempt, make_due, make_job_due,
}
use mcplica.Cleanup.Accounts.{
  IsAccounted, IsOwned, HasJob, IsConsistent, IsAccounted-SameCounts, update-SameCounts,
  map-SameCounts, HasJob-update,
}

pub HasJob-at :
    (jobs : List CleanupJob) (ts : List CleanupTarget) (i : ℕ) {t : CleanupTarget}
    → All (HasJob jobs) ts
    → find target_id i ts ≡ some t
    → HasJob jobs t
HasJob-at jobs ts i a at = All-mem (HasJob jobs) ts a (mem_of_find target_id i ts at)

-- The job of a target that changed is counted again, so that every job has its numbers.
settle_target-IsConsistent :
    (wall : ℕ) (t : CleanupTarget) (f : CleanupTarget → CleanupTarget) (s : State)
    → find target_id t.id s.targets ≡ some t
    → ((x : CleanupTarget) → (f x).id ≡ x.id)
    → ((x : CleanupTarget) → (f x).job_id ≡ x.job_id)
    → IsOwned (f t)
    → IsConsistent s
    → IsConsistent (settle_target wall t f s)
unfolding settle_target refresh_job
settle_target-IsConsistent wall t f s at ids jobs own c =
    let targets : List CleanupTarget = update target_id t.id f s.targets in
    record {
      job_keys =
          UniqueKeys-update job_id t.job_id (refreshed wall targets) s.jobs
            (λ j. (unfold refreshed in refl)) c.job_keys;
      target_keys = UniqueKeys-update target_id t.id f s.targets ids c.target_keys;
      accounts =
          All-update job_id (IsAccounted s.targets) (IsAccounted targets) t.job_id
            (refreshed wall targets) s.jobs
            (λ j a e.
              (unfold refreshed in
                record { total = refl; completed = refl; skipped = refl; failed = refl }))
            (λ j a n.
              IsAccounted-SameCounts s.targets targets j j
                (update-SameCounts t.id f s.targets j.id at (jobs t) (inr (ground arith))) a refl
                refl refl refl refl)
            c.job_keys c.accounts;
      owners = All-update_found target_id IsOwned t.id f s.targets at own c.owners;
      references =
          HasJob-update t.job_id (refreshed wall targets) s.jobs targets
            (λ j. (unfold refreshed in refl))
            (All-update_found target_id (HasJob s.jobs) t.id f s.targets at
              (subst (λ k. is_some (find job_id k s.jobs) ≡ true) (sym (jobs t))
                (HasJob-at s.jobs s.targets t.id c.references at))
              c.references);
    }

pub find-own :
    (ts : List CleanupTarget) (i : ℕ) {t : CleanupTarget}
    → find target_id i ts ≡ some t
    → find target_id t.id ts ≡ some t
find-own ts i {t} at =
    subst (λ j. find target_id j ts ≡ some t) (sym (key_of_find target_id i ts at)) at

pub mark_completed-IsConsistent :
    (now wall i : ℕ) (skipped : Bool) (owner : Option (ℕ × ℕ)) (s : State)
    → IsConsistent s
    → IsConsistent (mark_completed now wall i skipped owner s).1
unfolding mark_completed
mark_completed-IsConsistent now wall i skipped owner s v =
    elim (Option-cases (find target_id i s.targets)) [
      | inl e ↦ rw (e, mark_completed) v
      | inr (t, e) ↦ elim (Bool-cases (is_terminal_target t.status)) [
        | inl p ↦ rw (e, mark_completed, p) v
        | inr p ↦ elim (Bool-cases (is_running t.status && not (is_shown owner t))) [
          | inl q ↦ rw (e, mark_completed, p, q) v
          | inr q ↦
              rw (e, mark_completed, p, q)
                (settle_target-IsConsistent wall t (complete_target now skipped) s
                  (find-own s.targets i e) (λ x. (unfold complete_target in refl))
                  (λ x. (unfold complete_target in refl))
                  (unfold complete_target in record { token = done skipped; lease = done skipped })
                  v)
        ]
      ]
    ]
  where
    done :
        (b : Bool)
        → is_running (if b then TargetStatus.skipped_referenced else TargetStatus.completed) ≡ false
    done b = ground arith

pub mark_failed-IsConsistent :
    (now wall i : ℕ) (e : Failure) (token attempt : ℕ) (s : State)
    → IsConsistent s
    → IsConsistent (mark_failed now wall i e token attempt s).1
unfolding mark_failed
mark_failed-IsConsistent now wall i e token attempt s v =
    elim (Option-cases (find target_id i s.targets)) [
      | inl h ↦ rw (h, mark_failed) v
      | inr (t, h) ↦ elim (Bool-cases (is_running t.status && is_attempt token attempt t)) [
        | inr q ↦ rw (h, mark_failed, q) v
        | inl q ↦
            rw (h, mark_failed, q)
              (settle_target-IsConsistent wall t (fail_target now wall e) s (find-own s.targets i h)
                (λ x. (unfold fail_target in refl)) (λ x. (unfold fail_target in refl))
                (unfold fail_target in record { token = done t; lease = done t }) v)
      ]
    ]
  where
    done :
        (t : CleanupTarget)
        → is_running (
            if leb e.max_attempts t.attempt_count
            then TargetStatus.failed
            else TargetStatus.retrying)
          ≡ false
    done t = ground arith

make_due-kept :
    (now wall j : ℕ) (t : CleanupTarget)
    → ((make_due now wall j t).id ≡ t.id)
      × ((make_due now wall j t).job_id ≡ t.job_id)
      × ((make_due now wall j t).status ≡ t.status)
      × ((make_due now wall j t).execution_token ≡ t.execution_token)
      × ((make_due now wall j t).lease_expires_at ≡ t.lease_expires_at)
make_due-kept now wall j t = ground arith

make_due-IsOwned :
    (now wall j : ℕ) (t : CleanupTarget) → IsOwned t → IsOwned (make_due now wall j t)
make_due-IsOwned now wall j t o = record {
  token = ground (arith, o.token);
  lease = ground (arith, o.lease);
}

make_due-HasJob :
    (now wall j : ℕ) (jobs : List CleanupJob) (t : CleanupTarget)
    → HasJob jobs t
    → HasJob jobs (make_due now wall j t)
make_due-HasJob now wall j jobs t h = elim (Bool-cases (t.job_id == j && awaits_attempt t.status)) [
  | inl e ↦ rw e h
  | inr e ↦ rw e h
]

pub make_job_due-IsConsistent :
    (now wall j : ℕ) (s : State) → IsConsistent s → IsConsistent (make_job_due now wall j s)
unfolding make_job_due
make_job_due-IsConsistent now wall j s v =
    let f : CleanupTarget → CleanupTarget = make_due now wall j in
    record {
      job_keys = v.job_keys;
      target_keys =
          UniqueKeys-of_Pointwise target_id s.targets (map f s.targets)
            (Pointwise-map (λ x y. x.id ≡ y.id) f s.targets
              (All-of_mem (λ x. x.id ≡ (f x).id) s.targets
                (λ x m. sym (make_due-kept now wall j x).0)))
            v.target_keys;
      accounts =
          All-map
            (λ x a.
              IsAccounted-SameCounts s.targets (map f s.targets) x x
                (map-SameCounts f s.targets x.id (λ t. (make_due-kept now wall j t).1)
                  (λ t. (make_due-kept now wall j t).2))
                a refl refl refl refl refl)
            s.jobs v.accounts;
      owners =
          All-of-map IsOwned IsOwned f s.targets (λ t o. make_due-IsOwned now wall j t o) v.owners;
      references =
          All-of-map (HasJob s.jobs) (HasJob s.jobs) f s.targets
            (λ t h. make_due-HasJob now wall j s.jobs t h) v.references;
    }
