-- ===== src/BuildLifecycle/Evolution.antt =====
-- What a method may do to a row, whichever it is.
use mcplica.Common.{
  ℕ, ◌≡◌, refl, ap, ◌∙◌, ◌≤◌, Bool, true, false, not, arith, is_some, Result-cases, inl, inr, ok,
  err, raise_if, raise_if-eq-ok,
}
use mcplica.BuildStatus.{BuildStatus, failed, cancelled, is_terminal, next_status}
use mcplica.BuildStatus.Pipeline.{stage}
use mcplica.BuildAdmission.{clear_admission}
use mcplica.BuildAdmission.Invariant.{LeavesAdmission}
use mcplica.BuildLifecycle.Row.{
  BuildRow, row_id, status_of, is_status, is_complete, ready_complete, is_requested, invalid_state,
  value_error,
}
use mcplica.BuildLifecycle.{
  is_next, enter, StageValues, write_values, become_failed, ask_cancellation, become_cancelled,
}

abbrev pub is_cancelled : BuildStatus → Bool
is_cancelled cancelled = true
is_cancelled _ = false

abbrev pub is_failed : BuildStatus → Bool
is_failed failed = true
is_failed _ = false

-- The CHECK constraints of the table on status, completion, error, cancellation and lease.
pub record SatisfiesChecks (r : BuildRow) : Type 0 where
  pub completion : is_terminal (status_of r) ≡ is_some r.completed_at
  pub complete : ready_complete r ≡ true
  pub failure : is_failed (status_of r) ≡ true → is_some r.error_code ≡ true
  pub acknowledged :
      is_some r.cancellation_acknowledged_at ≡ true
      → (is_some r.base.cancellation_requested_at ≡ true) × (is_cancelled (status_of r) ≡ true)
  pub cancellation :
      is_cancelled (status_of r) ≡ true → is_some r.cancellation_acknowledged_at ≡ true
  pub lease : is_some r.base.admission_token ≡ is_some r.base.admission_lease_expires_at

pub is_status_sound : (s t : BuildStatus) → not (is_status s t) ≡ false → s ≡ t
is_status_sound s t h = ground arith

-- What stays of a Build once it is terminal.
pub record SameOutcome (x y : BuildRow) : Type 0 where
  pub status : status_of y ≡ status_of x
  pub completed : y.completed_at ≡ x.completed_at
  pub error_code : y.error_code ≡ x.error_code
  pub manifest_sha256 : y.manifest_sha256 ≡ x.manifest_sha256
  pub artifact_sha256 : y.artifact_sha256 ≡ x.artifact_sha256
  pub artifact_storage_key : y.artifact_storage_key ≡ x.artifact_storage_key
  pub acknowledged : y.cancellation_acknowledged_at ≡ x.cancellation_acknowledged_at

pub record Evolves (x y : BuildRow) : Type 0 where
  pub same_id : row_id x ≡ row_id y
  pub same_project : y.base.project_id ≡ x.base.project_id
  pub same_sequence : y.sequence ≡ x.sequence
  pub keeps_request : is_requested x ≡ true → is_requested y ≡ true
  pub keeps_checks : SatisfiesChecks x → SatisfiesChecks y
  pub final : is_terminal (status_of x) ≡ true → SameOutcome x y
  pub admission : LeavesAdmission x.base y.base

pub Evolves-refl : (r : BuildRow) → Evolves r r
Evolves-refl r = ground arith

pub become_failed-Evolves :
    (wall : ℕ) (code summary : _) (r : BuildRow)
    → is_terminal (status_of r) ≡ false
    → Evolves r (become_failed wall code summary r)
unfolding become_failed clear_admission
become_failed-Evolves wall code summary r h = ground arith

pub become_cancelled-Evolves :
    (wall : ℕ) (r : BuildRow)
    → is_terminal (status_of r) ≡ false
    → is_requested r ≡ true
    → Evolves r (become_cancelled wall r)
unfolding become_cancelled clear_admission
become_cancelled-Evolves wall r h q = ground arith

pub ask_cancellation-Evolves :
    (wall requested_by : ℕ) (r : BuildRow)
    → is_terminal (status_of r) ≡ false
    → Evolves r (ask_cancellation wall requested_by r)
unfolding ask_cancellation is_complete
ask_cancellation-Evolves wall requested_by r h = ground arith

pub write_values-Evolves :
    (v : StageValues) (r : BuildRow)
    → is_terminal (status_of r) ≡ false
    → Evolves r (write_values v r)
unfolding write_values is_complete
write_values-Evolves (StageValues.canonical_snapshot id) r h = ground arith
write_values-Evolves (StageValues.embedding model dimensions) r h = ground arith
write_values-Evolves (StageValues.enrichment json sha256) r h = ground arith
write_values-Evolves (StageValues.manifest sha256 key) r h = ground arith
write_values-Evolves (StageValues.artifact sha256 key) r h = ground arith

not_stopped : (t : BuildStatus) → stage t ≤ 8 → (is_failed t ≡ false) × (is_cancelled t ≡ false)
not_stopped BuildStatus.failed h = absurd (omega arith)
not_stopped BuildStatus.cancelled h = absurd (omega arith)
not_stopped BuildStatus.queued h = (refl, refl)
not_stopped _ h = (refl, refl)

pub is_next_ok :
    (expected target : BuildStatus) {u : Unit {0}}
    → is_next expected target ≡ ok u
    → next_status expected ≡ ok target
unfolding is_next
is_next_ok expected target h = elim (Result-cases (next_status expected)) [
  | inl (s, e) ↦
      let k : raise_if (not (is_status s target)) invalid_state ≡ ok _ = rw (e, is_next) at h in
      let same =
        is_status_sound s target (raise_if-eq-ok (not (is_status s target)) invalid_state k) in
      e ∙ ap (λ (t : BuildStatus). ok t) same
  | inr (x, e) ↦ let k : err value_error ≡ ok _ = rw (e, is_next) at h in cc
]

pub enter-Evolves :
    (wall : ℕ) (expected target : BuildStatus) (r : BuildRow)
    → is_terminal (status_of r) ≡ false
    → is_requested r ≡ false
    → stage target ≤ 8
    → ready_complete (enter wall expected target r) ≡ true
    → Evolves r (enter wall expected target r)
unfolding enter clear_admission
enter-Evolves wall expected target r h q s c = let (f, g) = not_stopped target s in ground arith
