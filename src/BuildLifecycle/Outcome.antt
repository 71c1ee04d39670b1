-- ===== src/BuildLifecycle/Outcome.antt =====
-- The outcome of a Build is final, and the methods keep to what the admission of Builds expects.
use mcplica.Common.{
  ◌⊎◌, ℕ, ◌≡◌, refl, sym, ap, ◌∙◌, subst, true, none, some, List, [], ◌∷◌, ◌++◌, map, arith,
  Pointwise, inl, inr,
}
use mcplica.Common.Table.{find, UniqueKeys, find-Pointwise, find-append}
use mcplica.BuildStatus.{is_terminal}
use mcplica.BuildAdmission.{Build, id_of}
use mcplica.BuildAdmission.Invariant
use mcplica.BuildAdmission.Invariant.{LeavesAdmission, State}
use mcplica.BuildLifecycle.Row.{BuildRow, row_id, status_of}
use mcplica.BuildLifecycle.Create.{new_build}
use mcplica.BuildLifecycle.Evolution.{SameOutcome, Evolves}
use mcplica.BuildLifecycle.Steps.{
  Evolve, transition-Evolve, set_values-Evolve, fail-Evolve, request_cancellation-Evolve,
  acknowledge_cancellation-Evolve,
}
use mcplica.BuildLifecycle.Invariant.{
  Method, created, transitioned, valued, failed, asked, acknowledged, OnlyAdmission,
  Admission-OnlyAdmission, Reach-IsConsistent, Step, method, admission, Reach, nothing, more,
  create_ok,
}

-- A method either creates a row behind the others, or lets all rows evolve.
Method-cases :
    {rows rows' : List BuildRow}
    → Method rows rows'
    → ((r : BuildRow) × (rows' ≡ rows ++ r ∷ [])
        × (find row_id (row_id r) rows ≡ none)
        × (r.base.admission_token ≡ none))
      ⊎ Evolve rows rows'
Method-cases {rows} {rows'} (created now c h) =
    let (idle, fresh, is) = create_ok now c rows rows' h in
    inl (new_build now c rows, is, unfold new_build in fresh, unfold new_build in refl)
Method-cases {rows} {rows'} (transitioned now wall i expected target token h) =
    inr (transition-Evolve now wall i expected target token rows rows' h)
Method-cases {rows} {rows'} (valued now i token values h) =
    inr (set_values-Evolve now i token values rows rows' h)
Method-cases {rows} {rows'} (failed now wall i code summary token h) =
    inr (fail-Evolve now wall i code summary token rows rows' h)
Method-cases {rows} {rows'} (asked wall i requested_by h) =
    inr (request_cancellation-Evolve wall i requested_by rows rows' h)
Method-cases {rows} {rows'} (acknowledged now wall i token h) =
    inr (acknowledge_cancellation-Evolve now wall i token rows rows' h)

SameOutcome-refl : (r : BuildRow) → SameOutcome r r
SameOutcome-refl r = ground arith

SameOutcome-trans : (x y z : BuildRow) → SameOutcome x y → SameOutcome y z → SameOutcome x z
SameOutcome-trans x y z a b = ground arith

rebased-SameOutcome :
    (x : BuildRow) (b : Build) → b.status ≡ x.base.status → SameOutcome x (record x { base = b })
rebased-SameOutcome x b h = ground arith

-- The row after a step, of a Build with an outcome.
Step-outcome :
    {rows rows' : List BuildRow} (i : ℕ) (x : BuildRow)
    → Step rows rows'
    → UniqueKeys row_id rows
    → find row_id i rows ≡ some x
    → is_terminal (status_of x) ≡ true
    → (y : BuildRow) × (find row_id i rows' ≡ some y) × SameOutcome x y
Step-outcome {rows} {rows'} i x (method m) u at t = elim (Method-cases m) [
  | inl (r, is, _, _) ↦
      (x, rw is (find-append row_id i rows (r ∷ []) {x = x} at), SameOutcome-refl x)
  | inr p ↦
      let (y, at', e) =
        find-Pointwise row_id Evolves i rows rows' {x = x} (λ a b e. e.same_id) p at in
      (y, at', e.final t)
]
Step-outcome {rows} {rows'} i x (admission a p) u at t =
    let (y, at', o) =
      find-Pointwise row_id OnlyAdmission i rows rows' {x = x} (λ a b o. o.change.same_id)
        (Admission-OnlyAdmission rows rows' a p u) at in
    (
      y,
      at',
      subst (λ z. SameOutcome x z) (sym o.rest) (rebased-SameOutcome x y.base o.change.same_status),
    )

Reach-append :
    {rows rows' rows'' : List BuildRow} → Reach rows rows' → Reach rows' rows'' → Reach rows rows''
Reach-append r nothing = r
Reach-append r (more s t) = more (Reach-append r s) t

-- On a table that methods and admissions reach from the empty one: a Build that is READY, FAILED or
-- CANCELLED stays so, with its completion time, error, manifest and artifact, whatever methods and
-- admissions follow.
pub outcome_stays :
    {rows rows' : List BuildRow} (i : ℕ) (x : BuildRow)
    → Reach [] rows
    → Reach rows rows'
    → find row_id i rows ≡ some x
    → is_terminal (status_of x) ≡ true
    → (y : BuildRow) × (find row_id i rows' ≡ some y) × SameOutcome x y
outcome_stays i x before nothing at t = (x, at, SameOutcome-refl x)
outcome_stays i x before (more r s) at t =
    let (y, at', same) = outcome_stays i x before r at t in
    let keys = (Reach-IsConsistent (Reach-append before r)).keys in
    let (z, at'', same') = Step-outcome i y s keys at' (rw same.status t) in
    (z, at'', SameOutcome-trans x y z same same')

-- The bases of the rows, at the admission's time.
abbrev pub admission_state : ℕ → List BuildRow → State
admission_state clock rows = record { clock = clock; rows = map (λ r. r.base) rows }

bases-LeavesAdmission :
    (rows rows' : List BuildRow)
    → Evolve rows rows'
    → Pointwise LeavesAdmission (map (λ r. r.base) rows) (map (λ r. r.base) rows')
bases-LeavesAdmission [] [] p = tt
bases-LeavesAdmission [] (y ∷ ys) p = elim p [ ]
bases-LeavesAdmission (x ∷ xs) [] p = elim p [ ]
bases-LeavesAdmission (x ∷ xs) (y ∷ ys) p = (p.0.admission, bases-LeavesAdmission xs ys p.1)

map-concat :
    (rows : List BuildRow) (r : BuildRow)
    → map (λ (s : BuildRow). s.base) (rows ++ r ∷ [])
      ≡ map (λ (s : BuildRow). s.base) rows ++ r.base ∷ []
map-concat [] r = refl
map-concat (s ∷ rows) r = ap (λ (t : List Build). s.base ∷ t) (map-concat rows r)

find-bases :
    (i : ℕ) (rows : List BuildRow)
    → find row_id i rows ≡ none
    → find id_of i (map (λ r. r.base) rows) ≡ none
unfolding find
find-bases i [] h = refl
find-bases i (s ∷ rows) h = ground (arith, find-bases i rows)

-- Every method is a step of the system whose reservations are bounded: the request of a Build, or a
-- change of Builds that leaves token and lease or gives the token up, and no outcome.
pub Method-admission_step :
    (configured clock : ℕ) {rows rows' : List BuildRow}
    → Method rows rows'
    → Invariant.Step configured (admission_state clock rows) (admission_state clock rows')
Method-admission_step configured clock {rows} {rows'} m = elim (Method-cases m) [
  | inl (r, is, fresh, idle) ↦
      let after : map (λ (s : BuildRow). s.base) rows'
          ≡ map (λ (s : BuildRow). s.base) rows ++ r.base ∷ [] =
        ap (λ (t : List BuildRow). map (λ (s : BuildRow). s.base) t) is ∙ map-concat rows r in
      subst
        (λ t.
          Invariant.Step configured (admission_state clock rows)
            (record { clock = clock; rows = t }))
        (sym after) (Invariant.requested r.base (find-bases (row_id r) rows fresh) idle)
  | inr p ↦ Invariant.changed (map (λ r. r.base) rows') (bases-LeavesAdmission rows rows' p)
]
