-- ===== src/Cleanup/Accounts.antt =====
-- The counters of the jobs against the targets, and what each kind of change does to both.
use mcplica.Common.{
  ℕ, ◌≡◌, refl, sym, ap, ◌∙◌, Bool, true, false, ◌&&◌, Option, none, some, List, map, arith, ◌==◌,
  is_some, if◌then◌else◌, count_p-map, All, All-map, ◌⊎◌,
}
use mathlib.Core.Option
use mcplica.Common.Table.{find, update, UniqueKeys, count_p-update, find-update}
use mcplica.Cleanup.Target.{
  CleanupTarget, target_id, is_terminal_target, is_running, is_completed, is_skipped, is_failed,
}
use mcplica.Cleanup.Job.{CleanupJob, job_id}
use mcplica.Cleanup.{State}
use mcplica.Cleanup.Settle.{count_status, any_status}

-- The counters of a job are the numbers of its targets with each status.
pub record IsAccounted (ts : List CleanupTarget) (j : CleanupJob) : Type 0 where
  pub total : j.total_targets ≡ count_status any_status j.id ts
  pub completed : j.completed_targets ≡ count_status is_completed j.id ts
  pub skipped : j.skipped_targets ≡ count_status is_skipped j.id ts
  pub failed : j.failed_targets ≡ count_status is_failed j.id ts

-- `ck_cleanup_targets_execution_owner_shape`
pub record IsOwned (t : CleanupTarget) : Type 0 where
  pub token : is_running t.status ≡ is_some t.execution_token
  pub lease : is_running t.status ≡ is_some t.lease_expires_at

abbrev pub HasJob : List CleanupJob → CleanupTarget → Type 0
HasJob jobs t = is_some (find job_id t.job_id jobs) ≡ true

pub record IsConsistent (s : State) : Type 0 where
  pub job_keys : UniqueKeys job_id s.jobs
  pub target_keys : UniqueKeys target_id s.targets
  pub accounts : All (IsAccounted s.targets) s.jobs
  pub owners : All IsOwned s.targets
  pub references : All (HasJob s.jobs) s.targets

-- No job's numbers have changed.
pub record SameCounts (j : ℕ) (ts us : List CleanupTarget) : Type 0 where
  pub total : count_status any_status j us ≡ count_status any_status j ts
  pub completed : count_status is_completed j us ≡ count_status is_completed j ts
  pub skipped : count_status is_skipped j us ≡ count_status is_skipped j ts
  pub failed : count_status is_failed j us ≡ count_status is_failed j ts

pub IsAccounted-SameCounts :
    (ts us : List CleanupTarget) (j k : CleanupJob)
    → SameCounts k.id ts us
    → IsAccounted ts j
    → k.id ≡ j.id
    → k.total_targets ≡ j.total_targets
    → k.completed_targets ≡ j.completed_targets
    → k.skipped_targets ≡ j.skipped_targets
    → k.failed_targets ≡ j.failed_targets
    → IsAccounted us k
IsAccounted-SameCounts ts us j k c a i x1 x2 x3 x4 = record {
  total = x1 ∙ a.total ∙ ap (λ n. count_status any_status n ts) (sym i) ∙ sym c.total;
  completed = x2 ∙ a.completed ∙ ap (λ n. count_status is_completed n ts) (sym i) ∙ sym c.completed;
  skipped = x3 ∙ a.skipped ∙ ap (λ n. count_status is_skipped n ts) (sym i) ∙ sym c.skipped;
  failed = x4 ∙ a.failed ∙ ap (λ n. count_status is_failed n ts) (sym i) ∙ sym c.failed;
}

-- An open target that stays open, or a target of another job.
pub update-SameCounts :
    (i : ℕ) (f : CleanupTarget → CleanupTarget) (ts : List CleanupTarget) {t : CleanupTarget}
    (j : ℕ)
    → find target_id i ts ≡ some t
    → (f t).job_id ≡ t.job_id
    → ((is_terminal_target t.status ≡ false) × (is_terminal_target (f t).status ≡ false))
      ⊎ ((t.job_id == j) ≡ false)
    → SameCounts j ts (update target_id i f ts)
unfolding count_status
update-SameCounts i f ts {t} j at e h = record {
  total =
      count_p-update target_id (λ t. t.job_id == j && any_status t.status) i f ts at (ground arith);
  completed =
      count_p-update target_id (λ t. t.job_id == j && is_completed t.status) i f ts at
        (ground arith);
  skipped =
      count_p-update target_id (λ t. t.job_id == j && is_skipped t.status) i f ts at (ground arith);
  failed =
      count_p-update target_id (λ t. t.job_id == j && is_failed t.status) i f ts at (ground arith);
}

pub map-SameCounts :
    (f : CleanupTarget → CleanupTarget) (ts : List CleanupTarget) (j : ℕ)
    → ((t : CleanupTarget) → (f t).job_id ≡ t.job_id)
    → ((t : CleanupTarget) → (f t).status ≡ t.status)
    → SameCounts j ts (map f ts)
unfolding count_status
map-SameCounts f ts j e h = record {
  total = count_p-map (λ t. t.job_id == j && any_status t.status) f ts (λ t. rw (e t) refl);
  completed =
      count_p-map (λ t. t.job_id == j && is_completed t.status) f ts (λ t. rw (e t, h t) refl);
  skipped = count_p-map (λ t. t.job_id == j && is_skipped t.status) f ts (λ t. rw (e t, h t) refl);
  failed = count_p-map (λ t. t.job_id == j && is_failed t.status) f ts (λ t. rw (e t, h t) refl);
}

pub find-update_job :
    (i j : ℕ) (f : CleanupJob → CleanupJob) (jobs : List CleanupJob)
    → ((x : CleanupJob) → (f x).id ≡ x.id)
    → is_some (find job_id j (update job_id i f jobs)) ≡ is_some (find job_id j jobs)
find-update_job i j f jobs h =
    rw (find-update job_id i j f jobs h) (same (find job_id j jobs) (i == j))
  where
    same :
        (o : Option CleanupJob) (b : Bool) → is_some (if b then Option.map f o else o) ≡ is_some o
    same none b = ground arith
    same (some x) b = ground arith

pub HasJob-update :
    (i : ℕ) (f : CleanupJob → CleanupJob) (jobs : List CleanupJob) (ts : List CleanupTarget)
    → ((x : CleanupJob) → (f x).id ≡ x.id)
    → All (HasJob jobs) ts
    → All (HasJob (update job_id i f jobs)) ts
HasJob-update i f jobs ts h a = All-map (λ t e. find-update_job i t.job_id f jobs h ∙ e) ts a
