-- ===== src/BuildLifecycle/Fencing.antt =====
-- Who may write a Build, and what a requested cancellation leaves open.
use mcplica.Common.{
  ℕ, ◌≤◌, ◌≡◌, ◌≢◌, ◌⊎◌, inl, inr, ap, Option, is_just, refl, Bool, true, false, not, ◌&&◌, none,
  some, List, arith, ok, err, Text,
}
use mcplica.Common.Table.{find, update}
use mcplica.BuildStatus.{BuildStatus, is_terminal, cancelled}
use mcplica.BuildAdmission.{owns_lease, clear_admission}
use mcplica.BuildLifecycle.Row.{
  BuildRow, row_id, status_of, is_requested, is_owned_by, execution_ownership_lost,
  cancellation_requested,
}
use mcplica.BuildLifecycle.{
  require_owner, transition, StageValues, stage_update, set_values, fail, acknowledge_cancellation,
  become_cancelled, update_where,
}

-- The Build is found, and has ended, or its reservation has another token or none, or its lease has
-- run out.
abbrev pub HasLost : ℕ → ℕ → BuildRow → Type 0
HasLost now token r =
    (r.base.admission_token ≢ some token)
    ⊎ ((e : ℕ) × (r.base.admission_lease_expires_at ≡ some e) × (e ≤ now))
    ⊎ (is_terminal (status_of r) ≡ true)

pub record IsStranger (now i token : ℕ) (rows : List BuildRow) : Type 0 where
  pub row : BuildRow
  pub at : find row_id i rows ≡ some row
  pub has_lost : HasLost now token row

other_token : (o : Option ℕ) (t : ℕ) → o ≢ some t → is_just o t ≡ false
other_token none t h = refl
other_token (some s) t h = ground (arith, ap {B = Option ℕ} some {x = s} {y = t})

HasLost-owns_lease :
    (now token : ℕ) (r : BuildRow) → HasLost now token r → owns_lease now token r.base ≡ false
HasLost-owns_lease now token r (inl other) =
    rw (other_token r.base.admission_token token other) refl
HasLost-owns_lease now token r (inr (inl (e, at, le))) = ground arith
HasLost-owns_lease now token r (inr (inr ended)) = ground arith

require_owner_stranger :
    (now i token : ℕ) (allow : Bool) (rows : List BuildRow) (r : BuildRow)
    → find row_id i rows ≡ some r
    → owns_lease now token r.base ≡ false
    → require_owner now i token allow rows ≡ err execution_ownership_lost
unfolding require_owner
require_owner_stranger now i token allow rows r at h = rw (at, require_owner, h) refl

require_owner_asked :
    (now i token : ℕ) (rows : List BuildRow) (r : BuildRow)
    → find row_id i rows ≡ some r
    → owns_lease now token r.base ≡ true
    → is_requested r ≡ true
    → require_owner now i token false rows ≡ err cancellation_requested
unfolding require_owner
require_owner_asked now i token rows r at h q = rw (at, require_owner, h, q) refl

require_owner_allowed :
    (now i token : ℕ) (rows : List BuildRow) (r : BuildRow)
    → find row_id i rows ≡ some r
    → owns_lease now token r.base ≡ true
    → require_owner now i token true rows ≡ ok r
unfolding require_owner
require_owner_allowed now i token rows r at h = rw (at, require_owner, h) (ground arith)

acknowledged :
    (now wall i token : ℕ) (rows : List BuildRow) (r : BuildRow)
    → find row_id i rows ≡ some r
    → owns_lease now token r.base ≡ true
    → is_requested r ≡ true
    → update_where i
        (λ s. is_owned_by token s && (not (is_terminal (status_of s)) && is_requested s))
        (become_cancelled wall)
        rows
      ≡ ok (some (update row_id i (become_cancelled wall) rows))
unfolding update_where become_cancelled
acknowledged now wall i token rows r at owns asked = rw (at, update_where) (ground arith)

-- For a caller that is not the owner of a Build - it has ended, is reserved under another token or under
-- none, or the lease has run out - every method that a worker calls answers with the loss of the
-- ownership, and commits nothing.
pub stale_builder_refused :
    (now wall i token : ℕ) (rows : List BuildRow)
    → IsStranger now i token rows
    → ((expected target : BuildStatus)
        → transition now wall i expected target token rows ≡ err execution_ownership_lost)
      × ((v : StageValues) → set_values now i token v rows ≡ err execution_ownership_lost)
      × ((code summary : Text)
          → fail now wall i code summary token rows ≡ err execution_ownership_lost)
      × (acknowledge_cancellation now wall i token rows ≡ err execution_ownership_lost)
unfolding transition set_values stage_update fail acknowledge_cancellation
stale_builder_refused now wall i token rows stranger =
    let refused : (allow : Bool)
        → require_owner now i token allow rows ≡ err execution_ownership_lost =
      λ allow.
        require_owner_stranger now i token allow rows stranger.row stranger.at
          (HasLost-owns_lease now token stranger.row stranger.has_lost) in
    (
      λ expected target. rw (refused false) refl,
      λ v. rw (refused false) refl,
      λ code summary. rw (refused false) refl,
      rw (refused true) refl,
    )

-- The cancellation as the worker's last write: released, completed, and without stored results.
pub record IsCancelledFrom (wall : ℕ) (x y : BuildRow) : Type 0 where
  pub status : status_of y ≡ cancelled
  pub token : y.base.admission_token ≡ none
  pub completed : y.completed_at ≡ some wall
  pub acknowledged : y.cancellation_acknowledged_at ≡ some wall
  pub no_manifest : y.manifest_storage_key ≡ none
  pub no_artifact : y.artifact_storage_key ≡ none
  pub same_sequence : y.sequence ≡ x.sequence

become_cancelled_lem : (wall : ℕ) (r : BuildRow) → IsCancelledFrom wall r (become_cancelled wall r)
unfolding become_cancelled clear_admission
become_cancelled_lem wall r = ground arith

-- Once the cancellation of a Build is requested, its owner can only acknowledge it: transitions,
-- values and failures are refused, and the acknowledgement cancels the Build.
pub cancellation_wins :
    (now wall i token : ℕ) (rows : List BuildRow) (r : BuildRow)
    → find row_id i rows ≡ some r
    → owns_lease now token r.base ≡ true
    → is_requested r ≡ true
    → ((expected target : BuildStatus)
        → transition now wall i expected target token rows ≡ err cancellation_requested)
      × ((v : StageValues) → set_values now i token v rows ≡ err cancellation_requested)
      × ((code summary : Text)
          → fail now wall i code summary token rows ≡ err cancellation_requested)
      × ((acknowledge_cancellation now wall i token rows
            ≡ ok (update row_id i (become_cancelled wall) rows))
          × IsCancelledFrom wall r (become_cancelled wall r))
unfolding transition set_values stage_update fail acknowledge_cancellation
cancellation_wins now wall i token rows r at owns asked =
    let refused = require_owner_asked now i token rows r at owns asked in
    (
      λ expected target. rw refused refl,
      λ v. rw refused refl,
      λ code summary. rw refused refl,
      (
        rw
            (
              require_owner_allowed now i token rows r at owns,
              acknowledged now wall i token rows r at owns asked,
            )
            refl,
        become_cancelled_lem wall r,
      ),
    )
