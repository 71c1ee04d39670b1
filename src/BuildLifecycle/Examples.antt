-- ===== src/BuildLifecycle/Examples.antt =====
-- One Build from its request to its cancellation, and a stranger's attempts.
use mcplica.Common.{
  ℕ, arith, inl, ◌≡◌, refl, none, some, List, [], ◌∷◌, ◌++◌, false, codes, Text, ok, err,
}
use mcplica.Common.Table.{find, update, write_back}
use mcplica.BuildStatus.{BuildStatus}
use mcplica.BuildAdmission.{
  clear_admission, release_stale, active_count, rank, comes_before, candidates, admit, admit_each,
  claim_of, claim_each, claim_available,
}
use mcplica.BuildAdmission.Changes.{claimed}
use mcplica.BuildAdmission.Invariant
use mcplica.BuildLifecycle.Row.{
  BuildRow, row_id, is_complete, execution_ownership_lost, cancellation_requested,
}
use mcplica.BuildLifecycle.Create.{NewBuild, create, new_build, max_sequence, latest_ready}
use mcplica.BuildLifecycle.{
  transition, StageValues, set_values, fail, request_cancellation, acknowledge_cancellation,
  require_owner, update_where, become_cancelled, ask_cancellation,
}
use mcplica.BuildLifecycle.Evolution.{SameOutcome}
use mcplica.BuildLifecycle.Invariant.{
  Method, created, asked, acknowledged, method, admission, Reach, nothing, more, IsConsistent,
  Reach-IsConsistent,
}
use mcplica.BuildLifecycle.Outcome.{outcome_stays, admission_state, Method-admission_step}
use mcplica.BuildLifecycle.Fencing.{stale_builder_refused, cancellation_wins, IsCancelledFrom}

abbrev request : NewBuild
request = record {
  build_id = 1;
  project_id = 7;
  requested_by = 2;
  analysis_model = codes "a";
  validation_model = codes "v";
  embedding_model = none;
  prompt_bundle_version = codes "1";
}

-- Opens the operations, for the runs below.
runs : ℕ
unfolding create new_build max_sequence latest_ready find update transition request_cancellation
    acknowledge_cancellation require_owner update_where become_cancelled ask_cancellation
    is_complete clear_admission release_stale active_count rank comes_before candidates admit
    admit_each claim_of claim_each claim_available write_back
runs = 0

abbrev requested_rows : List BuildRow
requested_rows = new_build 5 request [] ∷ []

-- The row with the reservation of token 99 from time 10 to 50.
abbrev reserved_from : BuildRow → BuildRow
reserved_from r = record r { base = admit 10 50 99 r.base }

abbrev reserved : BuildRow
reserved = reserved_from (new_build 5 request [])

abbrev asked_row : BuildRow
asked_row = ask_cancellation 20 2 reserved

abbrev ended : List BuildRow
ended = become_cancelled 30 asked_row ∷ []

made : Method [] requested_rows
unfolding runs
made = created 5 request refl

all_reached : Reach [] ended
unfolding runs
all_reached =
    more
      (more
        (more (more nothing (method made))
          (admission {rows' = reserved ∷ []} (claimed 10 2 40 (λ k. 99) (λ i. false)) (refl, tt)))
        (method (asked 20 1 2 refl)))
      (method (acknowledged 29 30 1 99 refl))

-- The next Build of the project, and its reservation.
abbrev second : BuildRow
second = new_build 40 (record request { build_id = 2 }) ended

abbrev second_reserved : BuildRow
second_reserved = record second { base = admit 45 75 100 second.base }

abbrev later : List BuildRow
later = become_cancelled 30 asked_row ∷ second_reserved ∷ []

later_reached : Reach ended later
unfolding runs
later_reached =
    more
      (more nothing
        (method (created {rows' = ended ++ second ∷ []} 40 (record request { build_id = 2 }) refl)))
      (admission {rows' = later} (claimed 45 2 30 (λ k. 100) (λ i. false)) (refl, (refl, tt)))

Reach-IsConsistent_example : IsConsistent ended
Reach-IsConsistent_example = Reach-IsConsistent all_reached

outcome_stays_example :
    (y : BuildRow) × (find row_id 1 later ≡ some y) × SameOutcome (become_cancelled 30 asked_row) y
unfolding runs
outcome_stays_example =
    outcome_stays 1 (become_cancelled 30 asked_row) all_reached later_reached refl refl

Method-admission_step_example :
    Invariant.Step 2 (admission_state 5 []) (admission_state 5 requested_rows)
Method-admission_step_example = Method-admission_step 2 5 made

stale_builder_refused_example :
    ((expected target : BuildStatus)
      → transition 20 20 1 expected target 98 (reserved ∷ []) ≡ err execution_ownership_lost)
    × ((v : StageValues) → set_values 20 1 98 v (reserved ∷ []) ≡ err execution_ownership_lost)
    × ((code summary : Text)
        → fail 20 20 1 code summary 98 (reserved ∷ []) ≡ err execution_ownership_lost)
    × (acknowledge_cancellation 20 20 1 98 (reserved ∷ []) ≡ err execution_ownership_lost)
unfolding runs
stale_builder_refused_example =
    stale_builder_refused 20 20 1 98 (reserved ∷ [])
      (record { row = reserved; at = refl; has_lost = inl (λ e. ground arith) })

cancellation_wins_example :
    ((expected target : BuildStatus)
      → transition 29 30 1 expected target 99 (asked_row ∷ []) ≡ err cancellation_requested)
    × ((v : StageValues) → set_values 29 1 99 v (asked_row ∷ []) ≡ err cancellation_requested)
    × ((code summary : Text)
        → fail 29 30 1 code summary 99 (asked_row ∷ []) ≡ err cancellation_requested)
    × ((acknowledge_cancellation 29 30 1 99 (asked_row ∷ [])
          ≡ ok (update row_id 1 (become_cancelled 30) (asked_row ∷ [])))
        × IsCancelledFrom 30 asked_row (become_cancelled 30 asked_row))
unfolding runs
cancellation_wins_example = cancellation_wins 29 30 1 99 (asked_row ∷ []) asked_row refl refl refl
