-- ===== src/BuildAdmission/Delivery.antt =====
-- `BuildAdmissionDispatcher.dispatch_once` of backend/app/services/build_admission.py: the claims are
-- committed, then each is delivered to the queue. The queue (Redis) is a parameter: whether it takes
-- the Build with this token. `clock k` is the database time of the k-th transaction after the claims.
pub mod Audited
use mcplica.Common.{
  ℕ, ◌+◌, ◌-◌, ◌≤◌, ◌≡◌, ◌≢◌, ◌∙◌, ap, refl, Bool, true, false, none, some, List, [], ◌∷◌, arith,
  if◌then◌else◌, is_some, length, map, count_p, All, Bool-cases, inl, inr,
}
use mcplica.Common.Table.{find, update, UniqueKeys, find-update}
use mcplica.BuildAdmission.Concurrency.{claims_fill_slots}
use mcplica.BuildAdmission.Claims.{HoldsClaim, claimed_id, claim_available-HoldsClaim}
use mcplica.BuildAdmission.{
  Build, id_of, Claim, active_count, release_stale, claim_available, mark_enqueued, release,
  update_owned, stamp_enqueued, clear_admission,
}

-- The audit events of the cycle.
pub data Event : Type 0 where
  admission_enqueue_failed : (build_id attempt : ℕ) → Event
  build_admitted : (build_id attempt configured_concurrency : ℕ) → Event

pub record Delivered : Type 0 where
  pub enqueued : ℕ
  pub events : List Event
  pub rows : List Build

-- One round of the loop.
unfoldable pub deliver_one : ℕ → ℕ → (ℕ → ℕ → Bool) → Claim → Delivered → Delivered
deliver_one configured now takes c d =
    if takes c.build_id c.token
    then (let (marked, rows') = mark_enqueued now c.build_id c.token d.rows in
        if marked
        then record {
          enqueued = d.enqueued + 1;
          events = build_admitted c.build_id c.attempt_count configured ∷ d.events;
          rows = rows';
        }
        else record d { rows = rows' })
    else (let (freed, rows') = release now c.build_id c.token d.rows in
        if freed
        then record d {
          events = admission_enqueue_failed c.build_id c.attempt_count ∷ d.events;
          rows = rows';
        }
        else record d { rows = rows' })

unfoldable pub deliver : ℕ → (ℕ → ℕ) → (ℕ → ℕ → Bool) → ℕ → List Claim → Delivered → Delivered
deliver configured clock takes k [] d = d
deliver configured clock takes k (c ∷ cs) d =
    deliver configured clock takes (k + 1) cs (deliver_one configured (clock k) takes c d)

unfoldable pub dispatch_once :
    ℕ → ℕ → ℕ → (ℕ → ℕ) → (ℕ → Bool) → (ℕ → ℕ) → (ℕ → ℕ → Bool) → List Build → Delivered
dispatch_once now configured lease fresh locked clock takes rows =
    let (claims, rows') = claim_available now configured lease fresh locked rows in
    deliver configured clock takes 0 claims (record { enqueued = 0; events = []; rows = rows' })
