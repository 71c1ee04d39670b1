-- ===== src/BuildAdmission.antt =====
-- Leases for globally bounded Build execution: backend/app/repositories/build_admission.py. A method
-- is one transaction, a function from the table to its result and the table that it commits; the
-- advisory lock of `lock_dispatch` makes the calls of `claim_available` follow one another. `now` is
-- the database time of the transaction, `fresh k` the k-th `uuid4()`, and `locked` tells the rows that
-- SKIP LOCKED passes over. Of a Build the columns are kept that admission reads or writes.
pub mod Concurrency
pub mod Leases
pub mod Invariant
pub mod Overview
pub mod Changes
pub mod Claims
pub mod Delivery
mod Examples
use mcplica.Common.{
  ℕ, ◌+◌, ◌-◌, Bool, true, false, not, ◌&&◌, ◌||◌, Option, none, some, List, [], ◌∷◌, map, leb, ltb,
  ◌==◌, is_just, is_some, if◌then◌else◌, filter, take, sort, length,
}
use mcplica.Common.Table.{find, update, write_back}
use mcplica.BuildStatus.{BuildStatus, is_terminal, is_queued}

pub record Build : Type 0 where
  pub id : ℕ
  pub project_id : ℕ
  pub requested_by : ℕ
  pub status : BuildStatus
  pub created_at : ℕ
  pub cancellation_requested_at : Option ℕ
  pub admission_token : Option ℕ
  pub admission_acquired_at : Option ℕ
  pub admission_enqueued_at : Option ℕ
  pub admission_heartbeat_at : Option ℕ
  pub admission_lease_expires_at : Option ℕ
  pub admission_released_at : Option ℕ
  pub admission_attempt_count : ℕ

abbrev pub id_of : Build → ℕ
id_of b = b.id

-- `lease_expires_at <= now` and `lease_expires_at > now`: of NULL, neither holds.
abbrev pub has_expired : ℕ → Option ℕ → Bool
has_expired now none = false
has_expired now (some expires) = leb expires now

abbrev pub is_live : ℕ → Option ℕ → Bool
is_live now none = false
is_live now (some expires) = ltb now expires

-- The five columns that a release writes.
unfoldable pub clear_admission : ℕ → Build → Build
clear_admission now b = record b {
  admission_token = none;
  admission_enqueued_at = none;
  admission_heartbeat_at = none;
  admission_lease_expires_at = none;
  admission_released_at = some now;
}

-- The first UPDATE of `claim_available`: terminal and expired reservations are released.
unfoldable pub release_stale : ℕ → Build → Build
unfolding clear_admission
release_stale now b =
    if is_some b.admission_token
      && (is_terminal b.status || has_expired now b.admission_lease_expires_at)
    then clear_admission now b
    else b

-- A reservation that counts against the concurrency.
abbrev pub is_active : ℕ → Build → Bool
is_active now b =
    is_some b.admission_token
    && (is_live now b.admission_lease_expires_at && not (is_terminal b.status))

unfoldable pub active_count : ℕ → List Build → ℕ
active_count now rows = length (filter (is_active now) rows)

-- The ORDER BY: requested cancellations first, then builds under way, then by age.
unfoldable pub rank : Build → ℕ × ℕ
rank b = (if is_some b.cancellation_requested_at then 0 else 1, if is_queued b.status then 1 else 0)

unfoldable pub comes_before : Build → Build → Bool
unfolding rank
comes_before a b =
    ltb (rank a).0 (rank b).0
    || ((rank a).0 == (rank b).0
        && (ltb (rank a).1 (rank b).1
            || ((rank a).1 == (rank b).1
                && (ltb a.created_at b.created_at
                    || (a.created_at == b.created_at && leb a.id b.id)))))

abbrev pub is_candidate : Build → Bool
is_candidate b = not (is_terminal b.status) && not (is_some b.admission_token)

unfoldable pub candidates : (ℕ → Bool) → ℕ → List Build → List Build
candidates locked available rows =
    take available (sort comes_before (filter (λ b. is_candidate b && not (locked b.id)) rows))

unfoldable pub admit : ℕ → ℕ → ℕ → Build → Build
admit now expires token b = record b {
  admission_token = some token;
  admission_acquired_at = some now;
  admission_enqueued_at = none;
  admission_heartbeat_at = some now;
  admission_lease_expires_at = some expires;
  admission_released_at = none;
  admission_attempt_count = b.admission_attempt_count + 1;
}

-- `BuildAdmissionClaim` of backend/app/domain/build_admission.py.
pub record Claim : Type 0 where
  pub build_id : ℕ
  pub project_id : ℕ
  pub requested_by : ℕ
  pub status : BuildStatus
  pub token : ℕ
  pub attempt_count : ℕ
  pub lease_expires_at : ℕ
  pub cancellation_requested : Bool

unfoldable pub claim_of : ℕ → ℕ → Build → Claim
claim_of expires token b = record {
  build_id = b.id;
  project_id = b.project_id;
  requested_by = b.requested_by;
  status = b.status;
  token = token;
  attempt_count = b.admission_attempt_count + 1;
  lease_expires_at = expires;
  cancellation_requested = is_some b.cancellation_requested_at;
}

-- The loop over the candidates, `k` counting its rounds: the admitted rows, and the claims.
unfoldable pub admit_each : ℕ → ℕ → (ℕ → ℕ) → ℕ → List Build → List Build
admit_each now expires fresh k [] = []
admit_each now expires fresh k (b ∷ bs) =
    admit now expires (fresh k) b ∷ admit_each now expires fresh (k + 1) bs

unfoldable pub claim_each : ℕ → (ℕ → ℕ) → ℕ → List Build → List Claim
claim_each expires fresh k [] = []
claim_each expires fresh k (b ∷ bs) =
    claim_of expires (fresh k) b ∷ claim_each expires fresh (k + 1) bs

unfoldable pub claim_available :
    ℕ → ℕ → ℕ → (ℕ → ℕ) → (ℕ → Bool) → List Build → List Claim × List Build
claim_available now configured_concurrency lease fresh locked rows =
    let swept = map (release_stale now) rows in
    let available = configured_concurrency - active_count now swept in
    if available == 0
    then ([], swept)
    else let chosen = candidates locked available swept in
      (
        claim_each (now + lease) fresh 0 chosen,
        write_back id_of (admit_each now (now + lease) fresh 0 chosen) swept,
      )

-- UPDATE … WHERE id = build_id AND admission_token = token; true if a row was hit.
update_owned : ℕ → ℕ → (Build → Build) → List Build → Bool × List Build
update_owned i token f rows = elim (find id_of i rows) [
  | none ↦ (false, rows)
  | some b ↦
      if is_just b.admission_token token then (true, update id_of i f rows) else (false, rows)
]

stamp_enqueued : ℕ → Build → Build
stamp_enqueued now b = record b { admission_enqueued_at = some now }

pub mark_enqueued : ℕ → ℕ → ℕ → List Build → Bool × List Build
unfolding update_owned
mark_enqueued now i token rows = update_owned i token (stamp_enqueued now) rows

pub release : ℕ → ℕ → ℕ → List Build → Bool × List Build
unfolding update_owned
release now i token rows = update_owned i token (clear_admission now) rows

-- `BuildLeaseState` and `BuildLeaseRenewal`.
pub data LeaseState : Type 0 where
  owned cancellation_requested lost : LeaseState

pub record Renewal : Type 0 where
  pub state : LeaseState
  pub lease_expires_at : Option ℕ

abbrev pub owns_lease : ℕ → ℕ → Build → Bool
owns_lease now token b =
    is_just b.admission_token token
    && (is_live now b.admission_lease_expires_at && not (is_terminal b.status))

pub extend_lease : ℕ → ℕ → Build → Build
extend_lease now expires b = record b {
  admission_heartbeat_at = some now;
  admission_lease_expires_at = some expires;
}

pub begin_or_renew : ℕ → ℕ → ℕ → ℕ → List Build → Renewal × List Build
begin_or_renew now i token lease rows = elim (find id_of i rows) [
  | none ↦ (record { state = lost; lease_expires_at = none }, rows)
  | some b ↦
      if not (owns_lease now token b)
      then (record { state = lost; lease_expires_at = none }, rows)
      else if is_some b.cancellation_requested_at
      then (
        record { state = cancellation_requested; lease_expires_at = b.admission_lease_expires_at },
        rows,
      )
      else (
        record { state = owned; lease_expires_at = some (now + lease) },
        update id_of i (extend_lease now (now + lease)) rows,
      )
]
