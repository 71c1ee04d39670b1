-- ===== src/BuildAdmission/Overview.antt =====
-- `overview` of backend/app/repositories/build_admission.py: the admitted and running Builds, and the
-- waiting ones with their places in the queue.
use mcplica.Common.{
  ℕ, ◌+◌, ◌≡◌, refl, Bool, true, false, not, ◌&&◌, ◌||◌, Option, none, some, List, [], ◌∷◌, ◌++◌,
  arith, leb, ltb, ◌==◌, is_some, if◌then◌else◌, filter, take, sort, length, length-sort,
  length-filter, count_p, All, map, Empty,
}
use mcplica.BuildStatus.{BuildStatus, is_terminal, is_queued}
use mcplica.BuildAdmission.{Build, is_active, has_expired}

-- `BuildAdmissionState` and `QueuedBuildAdmission`.
pub data AdmissionState : Type 0 where
  waiting admitted running : AdmissionState

pub record Entry : Type 0 where
  pub build_id : ℕ
  pub project_id : ℕ
  pub status : BuildStatus
  pub state : AdmissionState
  pub position : Option ℕ
  pub admitted_at : Option ℕ
  pub lease_expires_at : Option ℕ

pub record AdmissionOverview : Type 0 where
  pub configured_concurrency : ℕ
  pub effective_concurrency : ℕ
  pub waiting_count : ℕ
  pub entries : List Entry

-- The WHERE clause of the waiting Builds.
abbrev pub is_waiting : ℕ → Build → Bool
is_waiting now b =
    not (is_terminal b.status)
    && (not (is_some b.admission_token) || has_expired now b.admission_lease_expires_at)

-- `admission_acquired_at`; NULL sorts last, as in PostgreSQL.
abbrev acquired_leq : Option ℕ → Option ℕ → Bool → Bool
acquired_leq none none tie = tie
acquired_leq none (some b) tie = false
acquired_leq (some a) none tie = true
acquired_leq (some a) (some b) tie = ltb a b || (a == b && tie)

pub acquired_first : Build → Build → Bool
acquired_first a b = acquired_leq a.admission_acquired_at b.admission_acquired_at (leb a.id b.id)

-- Builds under way first, then by age; unlike the ORDER BY of `claim_available`, cancellations do not
-- come first here.
pub waiting_first : Build → Build → Bool
waiting_first a b =
    ltb (place a) (place b)
    || (place a == place b
        && (ltb a.created_at b.created_at || (a.created_at == b.created_at && leb a.id b.id)))
  where
    place : Build → ℕ
    place b = if is_queued b.status then 1 else 0

active_entry : Build → Entry
active_entry b = record {
  build_id = b.id;
  project_id = b.project_id;
  status = b.status;
  state = if is_queued b.status then admitted else running;
  position = none;
  admitted_at = b.admission_acquired_at;
  lease_expires_at = b.admission_lease_expires_at;
}

-- `enumerate(waiting_models, start=position)`
waiting_entries : ℕ → List Build → List Entry
waiting_entries position [] = []
waiting_entries position (b ∷ bs) =
    record {
      build_id = b.id;
      project_id = b.project_id;
      status = b.status;
      state = waiting;
      position = some position;
      admitted_at = none;
      lease_expires_at = none;
    }
    ∷ waiting_entries (position + 1) bs

pub overview : ℕ → ℕ → ℕ → List Build → AdmissionOverview
unfolding active_entry
overview now configured_concurrency limit rows =
    let active = sort acquired_first (filter (is_active now) rows) in
    let queue = sort waiting_first (filter (is_waiting now) rows) in
    record {
      configured_concurrency = configured_concurrency;
      effective_concurrency = length active;
      waiting_count = length queue;
      entries = map active_entry active ++ waiting_entries 1 (take limit queue);
    }

-- The CHECK constraint of the table: a token and a lease come together.
abbrev pub HasLeaseWithToken : Build → Type 0
HasLeaseWithToken b = is_some b.admission_token ≡ is_some b.admission_lease_expires_at

partition :
    (now : ℕ) (rows : List Build)
    → All HasLeaseWithToken rows
    → count_p (is_active now) rows + count_p (is_waiting now) rows
      ≡ count_p (λ b. not (is_terminal b.status)) rows
partition now [] h = omega arith
partition now (b ∷ rows) h = ground (arith, partition now rows h.1, h.0)

-- An entry shows a Build.
pub record Shows (in_state : AdmissionState) (place : Option ℕ) (b : Build) (e : Entry)
    : Type 0 where
  pub build_id : e.build_id ≡ b.id
  pub project_id : e.project_id ≡ b.project_id
  pub status : e.status ≡ b.status
  pub state : e.state ≡ in_state
  pub position : e.position ≡ place

-- The entries show the Builds one by one: those with a reservation by their status and without a place,
-- with the time and the lease of the reservation; the waiting ones with their places from `k`.
abbrev pub ShowActive : List Build → List Entry → Type 0
ShowActive [] [] = Unit
ShowActive [] (e ∷ es) = Empty
ShowActive (b ∷ bs) [] = Empty
ShowActive (b ∷ bs) (e ∷ es) =
    (Shows (if is_queued b.status then admitted else running) none b e
      × (e.admitted_at ≡ b.admission_acquired_at)
      × (e.lease_expires_at ≡ b.admission_lease_expires_at))
    × ShowActive bs es

abbrev pub ShowWaiting : ℕ → List Build → List Entry → Type 0
ShowWaiting k [] [] = Unit
ShowWaiting k [] (e ∷ es) = Empty
ShowWaiting k (b ∷ bs) [] = Empty
ShowWaiting k (b ∷ bs) (e ∷ es) = Shows waiting (some k) b e × ShowWaiting (k + 1) bs es

active_entry-ShowActive : (bs : List Build) → ShowActive bs (map active_entry bs)
unfolding active_entry
active_entry-ShowActive [] = tt
active_entry-ShowActive (b ∷ bs) = (
  (
    record { build_id = refl; project_id = refl; status = refl; state = refl; position = refl },
    refl,
    refl,
  ),
  active_entry-ShowActive bs,
)

waiting_entries-ShowWaiting : (k : ℕ) (bs : List Build) → ShowWaiting k bs (waiting_entries k bs)
unfolding waiting_entries
waiting_entries-ShowWaiting k [] = tt
waiting_entries-ShowWaiting k (b ∷ bs) = (
  record { build_id = refl; project_id = refl; status = refl; state = refl; position = refl },
  waiting_entries-ShowWaiting (k + 1) bs,
)

-- The overview accounts for every Build that is not terminal: it is active or waiting and not both,
-- where each row meets the CHECK constraint on token and lease. The entries show all active Builds,
-- by the time of their admission, then the first `limit` waiting ones in the order of the queue with
-- their places from 1; each entry with its Build's identifier, project and status.
pub overview_complete :
    (now configured limit : ℕ) (rows : List Build)
    → All HasLeaseWithToken rows
    → let o = overview now configured limit rows in
      let active = sort acquired_first (filter (is_active now) rows) in
      let queue = sort waiting_first (filter (is_waiting now) rows) in
      (o.effective_concurrency ≡ length active)
      × (o.waiting_count ≡ length queue)
      × (length active + length queue ≡ count_p (λ b. not (is_terminal b.status)) rows)
      × ((es : List Entry) × (fs : List Entry) × (o.entries ≡ es ++ fs)
          × ShowActive active es
          × ShowWaiting 1 (take limit queue) fs)
unfolding overview
overview_complete now configured limit rows h =
    let active = sort acquired_first (filter (is_active now) rows) in
    let queue = sort waiting_first (filter (is_waiting now) rows) in
    (
      refl,
      refl,
      omega (
        arith,
        partition now rows h,
        length-sort acquired_first (filter (is_active now) rows),
        length-sort waiting_first (filter (is_waiting now) rows),
        length-filter (is_active now) rows,
        length-filter (is_waiting now) rows,
      ),
      (
        map active_entry active,
        waiting_entries 1 (take limit queue),
        refl,
        active_entry-ShowActive active,
        waiting_entries-ShowWaiting 1 (take limit queue),
      ),
    )
