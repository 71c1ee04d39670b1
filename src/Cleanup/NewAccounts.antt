-- ===== src/Cleanup/NewAccounts.antt =====
-- New jobs and targets keep the accounts.
use mcplica.Common.{
  ℕ, ◌+◌, ◌≡◌, refl, sym, Bool, true, false, ◌&&◌, none, List, [], ◌∷◌, ◌++◌, arith, ◌==◌, is_some,
  any, if◌then◌else◌, count_p-append, count_p-zero, All, All-map, All-append, Bool-cases, inl, inr,
  Option-cases, ok, err, Text,
}
use mcplica.Common.Table.{
  find, update, UniqueKeys-update, UniqueKeys-concat, All-update, find-append,
}
use mcplica.Cleanup.Target.{
  TargetStatus, TargetType, CleanupTarget, target_id, is_completed, is_skipped, is_failed,
}
use mcplica.Cleanup.Job.{CleanupJob, job_id, find_by_key}
use mcplica.Cleanup.{
  State, integrity_error, NewJob, new_job, create_job, new_target, is_duplicate, add_target,
  one_target_more, finish_empty, finalize_empty_job,
}
use mcplica.Cleanup.Settle.{count_status, any_status}
use mcplica.Cleanup.Accounts.{IsAccounted, IsOwned, HasJob, IsConsistent, HasJob-update}

-- A job without a row has no target.
unused_job-count :
    (p : TargetStatus → Bool) (j : ℕ) (jobs : List CleanupJob) (ts : List CleanupTarget)
    → find job_id j jobs ≡ none
    → All (HasJob jobs) ts
    → count_status p j ts ≡ 0
unfolding count_status
unused_job-count p j jobs ts n a =
    count_p-zero (λ t. t.job_id == j && p t.status) ts (All-map (λ t h. other t h) ts a)
  where
    other : (t : CleanupTarget) → HasJob jobs t → (t.job_id == j && p t.status) ≡ false
    other t h = elim (Bool-cases (t.job_id == j)) [
      | inr e ↦ rw e refl
      | inl e ↦
          let same : t.job_id ≡ j = ground arith in let k : false ≡ true = rw (same, n) at h in cc
    ]

HasJob-append :
    (jobs new : List CleanupJob) (ts : List CleanupTarget)
    → All (HasJob jobs) ts
    → All (HasJob (jobs ++ new)) ts
HasJob-append jobs new ts a = All-map (λ t h. still t h) ts a
  where
    still : (t : CleanupTarget) → HasJob jobs t → HasJob (jobs ++ new) t
    still t h = elim (Option-cases (find job_id t.job_id jobs)) [
      | inl e ↦ let k : false ≡ true = rw e at h in cc
      | inr (j, e) ↦ rw (find-append job_id t.job_id jobs new e) refl
    ]

pub create_job-IsConsistent :
    (c : NewJob) (s : State) {j : CleanupJob} {s' : State}
    → create_job c s ≡ ok (j, s')
    → IsConsistent s
    → IsConsistent s'
unfolding create_job
create_job-IsConsistent c s {j} {s'} h v =
    elim (Option-cases (find_by_key c.idempotency_key s.jobs)) [
      | inr (x, e) ↦
          let k : ok (x, s) ≡ ok (j, s') = rw (e, create_job) at h in
          let same : s' ≡ s = cc in rw same v
      | inl e ↦ elim (Option-cases (find job_id c.new_id s.jobs)) [
        | inr (x, d) ↦ let k : err integrity_error ≡ ok (j, s') = rw (e, create_job, d) at h in cc
        | inl d ↦
            let k : ok (new_job c, record s { jobs = s.jobs ++ new_job c ∷ [] }) ≡ ok (j, s') =
              rw (e, create_job, d) at h in
            let same : s' ≡ record s { jobs = s.jobs ++ new_job c ∷ [] } = cc in
            rw same record {
              job_keys =
                  (unfold new_job in UniqueKeys-concat job_id s.jobs (new_job c) d v.job_keys);
              target_keys = v.target_keys;
              accounts = All-append (IsAccounted s.targets) s.jobs (new_job c ∷ []) v.accounts (
                (unfold new_job in
                    record {
                      total =
                          sym
                            (unused_job-count any_status c.new_id s.jobs s.targets d v.references);
                      completed =
                          sym (
                            unused_job-count is_completed c.new_id s.jobs s.targets d v.references);
                      skipped =
                          sym
                            (unused_job-count is_skipped c.new_id s.jobs s.targets d v.references);
                      failed =
                          sym (unused_job-count is_failed c.new_id s.jobs s.targets d v.references);
                    }),
                tt,
              );
              owners = v.owners;
              references = HasJob-append s.jobs (new_job c ∷ []) s.targets v.references;
            }
      ]
    ]

-- A pending target of a job counts for this job, in the total only.
count_status-append :
    (p : TargetStatus → Bool) (j : ℕ) (ts : List CleanupTarget) (t : CleanupTarget)
    → count_status p j (ts ++ t ∷ [])
      ≡ count_status p j ts + (if t.job_id == j && p t.status then 1 else 0)
unfolding count_status
count_status-append p j ts t =
    ground (arith, count_p-append (λ x. x.job_id == j && p x.status) ts (t ∷ []))

added-IsAccounted :
    (ts : List CleanupTarget) (t : CleanupTarget) {j : CleanupJob} (k : CleanupJob)
    → IsAccounted ts j
    → t.status ≡ TargetStatus.pending
    → k.total_targets ≡ j.total_targets + (if t.job_id == k.id then 1 else 0)
    → k.completed_targets ≡ j.completed_targets
    → k.skipped_targets ≡ j.skipped_targets
    → k.failed_targets ≡ j.failed_targets
    → k.id ≡ j.id
    → IsAccounted (ts ++ t ∷ []) k
added-IsAccounted ts t {j} k a p x1 x2 x3 x4 i = record {
  total = ground (arith, a.total, count_status-append any_status k.id ts t);
  completed = ground (arith, a.completed, count_status-append is_completed k.id ts t);
  skipped = ground (arith, a.skipped, count_status-append is_skipped k.id ts t);
  failed = ground (arith, a.failed, count_status-append is_failed k.id ts t);
}

pub add_target-IsConsistent :
    (now i j : ℕ) (key : Text) (type : TargetType) (at : ℕ) (s : State) {s' : State}
    → add_target now i j key type at s ≡ ok s'
    → IsConsistent s
    → IsConsistent s'
unfolding add_target
add_target-IsConsistent now i j key type at s {s'} h v =
    elim (Bool-cases (any (is_duplicate j key) s.targets)) [
      | inl e ↦
          let k : ok s ≡ ok s' = rw (e, add_target) at h in let same : s' ≡ s = cc in rw same v
      | inr e ↦ elim (Option-cases (find target_id i s.targets)) [
        | inr (x, d) ↦ let k : err integrity_error ≡ ok s' = rw (e, add_target, d) at h in cc
        | inl d ↦ elim (Bool-cases (is_some (find job_id j s.jobs))) [
          | inr n ↦ let k : err integrity_error ≡ ok s' = rw (e, add_target, d, n) at h in cc
          | inl n ↦
              let t : CleanupTarget = new_target now i j key type at in
              let us : List CleanupTarget = s.targets ++ t ∷ [] in
              let s'' : State = record {
                jobs = update job_id j one_target_more s.jobs;
                targets = us;
              } in
              let k : ok s'' ≡ ok s' = rw (e, add_target, d, n) at h in
              let same : s' ≡ s'' = cc in
              rw same record {
                job_keys = UniqueKeys-update job_id j one_target_more s.jobs (λ x. refl) v.job_keys;
                target_keys =
                    (unfold new_target in UniqueKeys-concat target_id s.targets t d v.target_keys);
                accounts =
                    All-update job_id (IsAccounted s.targets) (IsAccounted us) j one_target_more
                      s.jobs
                      (λ x a q.
                        (unfold new_target in
                          added-IsAccounted s.targets t (one_target_more x) a refl (ground arith)
                            refl refl refl refl))
                      (λ x a q.
                        (unfold new_target in
                          added-IsAccounted s.targets t x a refl (ground arith) refl refl refl
                            refl))
                      v.job_keys v.accounts;
                owners =
                    All-append IsOwned s.targets (t ∷ []) v.owners
                      ((unfold new_target in record { token = refl; lease = refl }), tt);
                references =
                    HasJob-update j one_target_more s.jobs us (λ x. refl)
                      (All-append (HasJob s.jobs) s.targets (t ∷ []) v.references
                        ((unfold new_target in n), tt));
              }
        ]
      ]
    ]

pub finalize_empty_job-IsConsistent :
    (wall j : ℕ) (s : State) → IsConsistent s → IsConsistent (finalize_empty_job wall j s)
unfolding finalize_empty_job
finalize_empty_job-IsConsistent wall j s v = record {
  job_keys = UniqueKeys-update job_id j (finish_empty wall) s.jobs kept v.job_keys;
  target_keys = v.target_keys;
  accounts =
      All-update job_id (IsAccounted s.targets) (IsAccounted s.targets) j (finish_empty wall) s.jobs
        (λ x a e. still x a) (λ x a n. a) v.job_keys v.accounts;
  owners = v.owners;
  references = HasJob-update j (finish_empty wall) s.jobs s.targets kept v.references;
}
  where
    kept : (x : CleanupJob) → (finish_empty wall x).id ≡ x.id
    kept x = ground arith

    still : (x : CleanupJob) → IsAccounted s.targets x → IsAccounted s.targets (finish_empty wall x)
    still x a = elim (Bool-cases (x.total_targets == 0)) [
      | inl e ↦ rw e record {
        total = a.total;
        completed = a.completed;
        skipped = a.skipped;
        failed = a.failed;
      }
      | inr e ↦ rw e a
    ]
