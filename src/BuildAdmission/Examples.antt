-- ===== src/BuildAdmission/Examples.antt =====
-- Three Builds and two slots: concrete runs, and the theorems at them.
use Prim.Native.Nat.{max}
use mcplica.Common.{
  ℕ, ◌+◌, ◌-◌, ◌≤◌, ◌≡◌, refl, Bool, false, not, ◌&&◌, none, List, [], ◌∷◌, map, arith, ◌==◌,
  length, min, count_p, take, sort, filter, ◌++◌,
}
use mcplica.Common.Table.{find, update, write_back}
use mcplica.BuildStatus.{BuildStatus, queued, indexing, is_terminal}
use mcplica.BuildAdmission.{
  Build, Claim, active_count, is_candidate, release_stale, clear_admission, candidates,
  comes_before, rank, admit, admit_each, claim_each, claim_of, claim_available, begin_or_renew,
  release, mark_enqueued, extend_lease, lost, is_active, update_owned, stamp_enqueued,
}
use mcplica.BuildAdmission.Concurrency.{concurrency_bound, claims_fill_slots}
use mcplica.BuildAdmission.Leases.{stale_worker_refused}
use mcplica.BuildAdmission.Invariant.{here, next, claimed, requested, IsBounded, Reach-IsBounded}
use mcplica.BuildAdmission.Overview.{
  overview, overview_complete, Entry, acquired_first, waiting_first, is_waiting, ShowActive,
  ShowWaiting,
}
use mcplica.BuildAdmission.Delivery.{
  dispatch_once, deliver, deliver_one, build_admitted, admission_enqueue_failed,
}

abbrev new_build : ℕ → ℕ → BuildStatus → Build
new_build i created status = record {
  id = i;
  project_id = i;
  requested_by = 9;
  status = status;
  created_at = created;
  cancellation_requested_at = none;
  admission_token = none;
  admission_acquired_at = none;
  admission_enqueued_at = none;
  admission_heartbeat_at = none;
  admission_lease_expires_at = none;
  admission_released_at = none;
  admission_attempt_count = 0;
}

abbrev waiting : List Build
waiting = new_build 1 3 queued ∷ new_build 2 2 queued ∷ new_build 3 4 indexing ∷ []

abbrev tokens : ℕ → ℕ
tokens k = 100 + k

abbrev nobody : ℕ → Bool
nobody i = false

abbrev admitted_rows : List Build
admitted_rows = (claim_available 10 2 30 tokens nobody waiting).1

-- Opens the operations, for the runs below.
runs : ℕ
unfolding claim_available release_stale clear_admission active_count candidates comes_before rank
    admit_each admit claim_each claim_of write_back find update begin_or_renew extend_lease
runs = 0

-- The Build under way goes first, then the older one; the third waits.
claimed_ids :
    map (λ (c : Claim). c.build_id) (claim_available 10 2 30 tokens nobody waiting).0 ≡ 3 ∷ 2 ∷ []
unfolding runs
claimed_ids = refl

concurrency_bound_example :
    active_count 10 (claim_available 10 2 30 tokens nobody waiting).1
    ≤ max 2 (active_count 10 waiting)
concurrency_bound_example = concurrency_bound 10 2 30 tokens nobody waiting (omega arith)

claims_fill_slots_example :
    length (claim_available 10 2 30 tokens nobody waiting).0
    ≡ min
        (2 - active_count 10 (map (release_stale 10) waiting))
        (count_p (λ b. is_candidate b && not (nobody b.id)) (map (release_stale 10) waiting))
claims_fill_slots_example = claims_fill_slots 10 2 30 tokens nobody waiting

-- Build 3 holds the token 100.
abbrev admitted_build : Build
admitted_build = admit 10 40 100 (new_build 3 4 indexing)

stale_worker_refused_example :
    ((begin_or_renew 20 3 99 30 admitted_rows).0.state ≡ lost)
    × ((begin_or_renew 20 3 99 30 admitted_rows).1 ≡ admitted_rows)
    × (release 20 3 99 admitted_rows ≡ (false, admitted_rows))
    × (mark_enqueued 20 3 99 admitted_rows ≡ (false, admitted_rows))
unfolding runs
stale_worker_refused_example =
    stale_worker_refused 20 3 99 30 admitted_rows admitted_build refl (ground arith)

abbrev one : List Build
one = new_build 1 3 queued ∷ []

Reach-IsBounded_example :
    IsBounded 2 (record { clock = 10; rows = (claim_available 10 2 30 tokens nobody one).1 })
unfolding runs
Reach-IsBounded_example = Reach-IsBounded (
    next (next here (requested (new_build 1 3 queued) refl refl))
      (claimed 10 30 tokens nobody (omega arith)))

overview_complete_example :
    let o = overview 10 2 5 waiting in
    let active = sort acquired_first (filter (is_active 10) waiting) in
    let queue = sort waiting_first (filter (is_waiting 10) waiting) in
    (o.effective_concurrency ≡ length active)
    × (o.waiting_count ≡ length queue)
    × (length active + length queue ≡ count_p (λ b. not (is_terminal b.status)) waiting)
    × ((es : List Entry) × (fs : List Entry) × (o.entries ≡ es ++ fs)
        × ShowActive active es
        × ShowWaiting 1 (take 5 queue) fs)
overview_complete_example = overview_complete 10 2 5 waiting (refl, (refl, (refl, tt)))

-- Build 3 is refused and Build 2 is taken; the last event stands first.
dispatched_events :
    (dispatch_once 10 2 30 tokens nobody (λ k. 11) (λ i t. i == 2) waiting).events
    ≡ build_admitted 2 1 2 ∷ admission_enqueue_failed 3 1 ∷ []
unfolding runs dispatch_once deliver deliver_one mark_enqueued release update_owned stamp_enqueued
dispatched_events = refl
