-- ===== src/BuildLifecycle/Steps.antt =====
-- Each method that writes a Build lets every row of the table evolve.
use mcplica.Common.{
  ℕ, ◌≡◌, refl, Bool, true, false, not, ◌&&◌, Option, none, some, List, arith, All-of_mem,
  Pointwise, Pointwise-refl, Bool-cases, Option-cases, inl, inr, ok, err, >>=-eq-ok, Text,
}
use mcplica.Common.Table.{find, update, Pointwise-update}
use mcplica.BuildStatus.{BuildStatus, is_terminal}
use mcplica.BuildStatus.Pipeline.{next_status-stage}
use mcplica.BuildLifecycle.Row.{
  BuildRow, row_id, status_of, is_status, ready_complete, is_owned_by, is_requested, invalid_state,
  integrity_error,
}
use mcplica.BuildLifecycle.{
  update_where, require_owner, is_next, enter, transition, stage_update, StageValues, stage_of,
  write_values, set_values, become_failed, fail, ask_cancellation, request_cancellation,
  become_cancelled, acknowledge_cancellation, exactly_one, or_unchanged, or_cancelled,
}
use mcplica.BuildLifecycle.Evolution.{
  Evolves, Evolves-refl, become_failed-Evolves, become_cancelled-Evolves, ask_cancellation-Evolves,
  write_values-Evolves, enter-Evolves, is_next_ok, is_status_sound,
}

abbrev pub Evolve : List BuildRow → List BuildRow → Type 0
Evolve rows rows' = Pointwise Evolves rows rows'

unchanged-Evolve : (rows : List BuildRow) → Evolve rows rows
unchanged-Evolve rows =
    Pointwise-refl Evolves rows (All-of_mem (λ r. Evolves r r) rows (λ r m. Evolves-refl r))

update-Evolve :
    (i : ℕ) (f : BuildRow → BuildRow) (rows : List BuildRow) {r : BuildRow}
    → find row_id i rows ≡ some r
    → Evolves r (f r)
    → Evolve rows (update row_id i f rows)
update-Evolve i f rows at e =
    Pointwise-update row_id Evolves i f rows
      (All-of_mem (λ r. Evolves r r) rows (λ r m. Evolves-refl r)) at e

-- What is known of an UPDATE with a row count of one.
update_where_hit :
    (i : ℕ) (p : BuildRow → Bool) (f : BuildRow → BuildRow) (rows rows' : List BuildRow)
    → update_where i p f rows ≡ ok (some rows')
    → (r : BuildRow) × (find row_id i rows ≡ some r)
      × (p r ≡ true)
      × (ready_complete (f r) ≡ true)
      × (rows' ≡ update row_id i f rows)
unfolding update_where
update_where_hit i p f rows rows' h = elim (Option-cases (find row_id i rows)) [
  | inl e ↦ let k : ok none ≡ ok (some rows') = rw (e, update_where) at h in cc
  | inr (r, e) ↦ elim (Bool-cases (p r)) [
    | inr q ↦ let k : ok none ≡ ok (some rows') = rw (e, update_where, q) at h in cc
    | inl q ↦ elim (Bool-cases (ready_complete (f r))) [
      | inr c ↦
          let k : err integrity_error ≡ ok (some rows') = rw (e, update_where, q, c) at h in cc
      | inl c ↦
          let k : ok (some (update row_id i f rows)) ≡ ok (some rows') =
            rw (e, update_where, q, c) at h in
          (r, e, q, c, cc)
    ]
  ]
]

update_where-Evolve :
    (i : ℕ) (p : BuildRow → Bool) (f : BuildRow → BuildRow) (rows rows' : List BuildRow)
    → ((r : BuildRow) → p r ≡ true → ready_complete (f r) ≡ true → Evolves r (f r))
    → update_where i p f rows ≡ ok (some rows')
    → Evolve rows rows'
update_where-Evolve i p f rows rows' evolves h =
    let (r, at, q, c, is) = update_where_hit i p f rows rows' h in
    rw is (update-Evolve i f rows at (evolves r q c))

exactly_one_ok :
    (o : Option (List BuildRow)) (rows' : List BuildRow) → exactly_one o ≡ ok rows' → o ≡ some rows'
exactly_one_ok none rows' h = cc
exactly_one_ok (some rows) rows' h = cc

open_of_status :
    (r : BuildRow) (s : BuildStatus)
    → is_status (status_of r) s ≡ true
    → is_terminal s ≡ false
    → is_terminal (status_of r) ≡ false
open_of_status r s h t = rw (is_status_sound (status_of r) s (ground arith)) t

pub transition-Evolve :
    (now wall i : ℕ) (expected target : BuildStatus) (token : ℕ) (rows rows' : List BuildRow)
    → transition now wall i expected target token rows ≡ ok rows'
    → Evolve rows rows'
unfolding transition
transition-Evolve now wall i expected target token rows rows' h =
    let p = λ (r : BuildRow).
      is_owned_by token r && (is_status (status_of r) expected && not (is_requested r)) in
    let (r, q, h1) = >>=-eq-ok (require_owner now i token false rows) _ h in
    let (u, n, h2) = >>=-eq-ok (is_next expected target) _ h1 in
    let (updated, k, h3) = >>=-eq-ok (update_where i p (enter wall expected target) rows) _ h2 in
    let hit : update_where i p (enter wall expected target) rows ≡ ok (some rows') =
      rw (exactly_one_ok updated rows' h3) at k in
    let (o, later, small) = next_status-stage expected target (is_next_ok expected target n) in
    update_where-Evolve i p (enter wall expected target) rows rows'
      (λ s q c.
        enter-Evolves wall expected target s (open_of_status s expected (ground arith) o)
          (ground arith) small c)
      hit

open_stage : (v : StageValues) → is_terminal (stage_of v) ≡ false
open_stage (StageValues.canonical_snapshot id) = refl
open_stage (StageValues.embedding model dimensions) = refl
open_stage (StageValues.enrichment json sha256) = refl
open_stage (StageValues.manifest sha256 key) = refl
open_stage (StageValues.artifact sha256 key) = refl

pub set_values-Evolve :
    (now i token : ℕ) (v : StageValues) (rows rows' : List BuildRow)
    → set_values now i token v rows ≡ ok rows'
    → Evolve rows rows'
unfolding set_values stage_update
set_values-Evolve now i token v rows rows' h =
    let p = λ (r : BuildRow).
      is_owned_by token r && (is_status (status_of r) (stage_of v) && not (is_requested r)) in
    let (r, q, h1) = >>=-eq-ok (require_owner now i token false rows) _ h in
    let (updated, k, h2) = >>=-eq-ok (update_where i p (write_values v) rows) _ h1 in
    let hit : update_where i p (write_values v) rows ≡ ok (some rows') =
      rw (exactly_one_ok updated rows' h2) at k in
    update_where-Evolve i p (write_values v) rows rows'
      (λ s q c.
        write_values-Evolves v s (open_of_status s (stage_of v) (ground arith) (open_stage v)))
      hit

or_unchanged-Evolve :
    (rows : List BuildRow) (o : Option (List BuildRow))
    → ((rows' : List BuildRow) → o ≡ some rows' → Evolve rows rows')
    → Evolve rows (or_unchanged rows o)
or_unchanged-Evolve rows none f = unchanged-Evolve rows
or_unchanged-Evolve rows (some rows') f = f rows' refl

pub fail-Evolve :
    (now wall i : ℕ) (code summary : Text) (token : ℕ) (rows rows' : List BuildRow)
    → fail now wall i code summary token rows ≡ ok rows'
    → Evolve rows rows'
unfolding fail
fail-Evolve now wall i code summary token rows rows' h =
    let p = λ (r : BuildRow).
      is_owned_by token r && (not (is_terminal (status_of r)) && not (is_requested r)) in
    let (r, q, h1) = >>=-eq-ok (require_owner now i token false rows) _ h in
    let (updated, k, h2) =
      >>=-eq-ok (update_where i p (become_failed wall code summary) rows) _ h1 in
    let is : rows' ≡ or_unchanged rows updated = cc in
    rw is (
      or_unchanged-Evolve rows updated (λ after e.
        update_where-Evolve i p (become_failed wall code summary) rows after
          (λ s q c. become_failed-Evolves wall code summary s (ground arith)) (rw e at k)))

pub request_cancellation-Evolve :
    (wall i requested_by : ℕ) (rows rows' : List BuildRow)
    → request_cancellation wall i requested_by rows ≡ ok rows'
    → Evolve rows rows'
unfolding request_cancellation
request_cancellation-Evolve wall i requested_by rows rows' h =
    elim (Option-cases (find row_id i rows)) [
      | inl e ↦ let k : err invalid_state ≡ ok rows' = rw (e, request_cancellation) at h in cc
      | inr (r, e) ↦ elim (Bool-cases (is_terminal (status_of r))) [
        | inl t ↦ let k : err invalid_state ≡ ok rows' = rw (e, request_cancellation, t) at h in cc
        | inr t ↦ elim (Bool-cases (is_requested r)) [
          | inl q ↦
              let k : ok rows ≡ ok rows' = rw (e, request_cancellation, t, q) at h in
              let same : rows' ≡ rows = cc in rw same (unchanged-Evolve rows)
          | inr q ↦
              let k : ok (update row_id i (ask_cancellation wall requested_by) rows) ≡ ok rows' =
                rw (e, request_cancellation, t, q) at h in
              let same : rows' ≡ update row_id i (ask_cancellation wall requested_by) rows = cc in
              rw same (
                update-Evolve i (ask_cancellation wall requested_by) rows e
                  (ask_cancellation-Evolves wall requested_by r t))
        ]
      ]
    ]

or_cancelled-Evolve :
    (i : ℕ) (rows rows' : List BuildRow) (o : Option (List BuildRow))
    → or_cancelled i rows o ≡ ok rows'
    → ((after : List BuildRow) → o ≡ some after → Evolve rows after)
    → Evolve rows rows'
or_cancelled-Evolve i rows rows' (some after) h f =
    let same : rows' ≡ after = cc in rw same (f after refl)
or_cancelled-Evolve i rows rows' none h f = elim (Option-cases (find row_id i rows)) [
  | inl e ↦ let k : err invalid_state ≡ ok rows' = rw (e, or_cancelled) at h in cc
  | inr (r, e) ↦ elim (Bool-cases (is_status (status_of r) BuildStatus.cancelled)) [
    | inl c ↦
        let k : ok rows ≡ ok rows' = rw (e, or_cancelled, c) at h in
        let same : rows' ≡ rows = cc in rw same (unchanged-Evolve rows)
    | inr c ↦ let k : err invalid_state ≡ ok rows' = rw (e, or_cancelled, c) at h in cc
  ]
]

pub acknowledge_cancellation-Evolve :
    (now wall i token : ℕ) (rows rows' : List BuildRow)
    → acknowledge_cancellation now wall i token rows ≡ ok rows'
    → Evolve rows rows'
unfolding acknowledge_cancellation
acknowledge_cancellation-Evolve now wall i token rows rows' h =
    let p = λ (r : BuildRow).
      is_owned_by token r && (not (is_terminal (status_of r)) && is_requested r) in
    let (r, q, h1) = >>=-eq-ok (require_owner now i token true rows) _ h in
    let (updated, k, h2) = >>=-eq-ok (update_where i p (become_cancelled wall) rows) _ h1 in
    or_cancelled-Evolve i rows rows' updated h2 (λ after e.
      update_where-Evolve i p (become_cancelled wall) rows after
        (λ s q c. become_cancelled-Evolves wall s (ground arith) (ground arith)) (rw e at k))
