-- ===== src/BuildAdmission/Delivery/Audited.antt =====
-- What a dispatch cycle of the admissions leaves in the table and in the audit, whatever the queue refuses.
use mcplica.Common.{ℕ, ◌≡◌, Bool, true, false, none, some, List, [], ◌∷◌, if◌then◌else◌, is_some}
use mcplica.Common.Table.{find}
use mcplica.BuildAdmission.{Build, id_of, Claim, stamp_enqueued, clear_admission}
use mcplica.BuildAdmission.Delivery.{Event, admission_enqueue_failed, build_admitted}

-- What the audit says of a claim, and of all of them, the last first.
abbrev pub outcome_of : ℕ → (ℕ → ℕ → Bool) → Claim → Event
outcome_of configured takes c =
    if takes c.build_id c.token
    then build_admitted c.build_id c.attempt_count configured
    else admission_enqueue_failed c.build_id c.attempt_count

abbrev pub outcomes : ℕ → (ℕ → ℕ → Bool) → List Claim → List Event → List Event
outcomes configured takes [] es = es
outcomes configured takes (c ∷ cs) es =
    outcomes configured takes cs (outcome_of configured takes c ∷ es)

abbrev pub is_taken : (ℕ → ℕ → Bool) → Claim → Bool
is_taken takes c = takes c.build_id c.token

-- The Build of a claim after the cycle: enqueued under the token of the claim, or released.
pub record IsDelivered (takes : ℕ → ℕ → Bool) (rows : List Build) (c : Claim) : Type 0 where
  pub row : Build
  pub at : find id_of c.build_id rows ≡ some row
  pub enqueued :
      is_taken takes c ≡ true
      → (row.admission_token ≡ some c.token) × (is_some row.admission_enqueued_at ≡ true)
  pub released :
      is_taken takes c ≡ false
      → (row.admission_token ≡ none) × (row.admission_lease_expires_at ≡ none)

-- The round on a Build that has the token of the claim.
delivered_row : ℕ → (ℕ → ℕ → Bool) → Claim → Build → Build
delivered_row now takes c b =
    if is_taken takes c then stamp_enqueued now b else clear_admission now b
