-- ===== src/BuildLifecycle/Invariant.antt =====
-- The tables that the methods reach, in any interleaving with the admission of Builds, and what holds
-- of all of them.
use mcplica.Common.{
  ℕ, ◌≤◌, ◌≡◌, ◌≢◌, refl, sym, subst, Bool, true, false, none, List, [], ◌∷◌, ◌++◌, map, arith, any,
  ◌==◌, All, All-append, All-Pointwise, All-map, Pointwise, Pointwise-weaken, count_p,
  count_p-Pointwise, count_p-append, Bool-cases, inl, inr, ok, Text,
}
use mcplica.Common.Table.{find, UniqueKeys, UniqueKeys-of_Pointwise, UniqueKeys-concat}
use mcplica.BuildStatus.{BuildStatus, is_terminal}
use mcplica.BuildAdmission.{Build, id_of}
use mcplica.BuildAdmission.Changes.{Admission, AdmissionChange, Admission-AdmissionChange}
use mcplica.BuildLifecycle.Row.{BuildRow, row_id, status_of, is_complete}
use mcplica.BuildLifecycle.Create.{NewBuild, create, new_build, is_active_in, max_sequence}
use mcplica.BuildLifecycle.{
  StageValues, transition, set_values, fail, request_cancellation, acknowledge_cancellation,
}
use mcplica.BuildLifecycle.Evolution.{SatisfiesChecks, Evolves}
use mcplica.BuildLifecycle.Steps.{
  Evolve, transition-Evolve, set_values-Evolve, fail-Evolve, request_cancellation-Evolve,
  acknowledge_cancellation-Evolve,
}

-- A method that returned.
pub data Method (rows : List BuildRow) : List BuildRow → Type 0 where
  created :
      {rows' : List BuildRow} (now : ℕ) (c : NewBuild)
      → create now c rows ≡ ok rows'
      → Method rows rows'
  transitioned :
      {rows' : List BuildRow} (now wall i : ℕ) (expected target : BuildStatus) (token : ℕ)
      → transition now wall i expected target token rows ≡ ok rows'
      → Method rows rows'
  valued :
      {rows' : List BuildRow} (now i token : ℕ) (v : StageValues)
      → set_values now i token v rows ≡ ok rows'
      → Method rows rows'
  failed :
      {rows' : List BuildRow} (now wall i : ℕ) (code summary : Text) (token : ℕ)
      → fail now wall i code summary token rows ≡ ok rows'
      → Method rows rows'
  asked :
      {rows' : List BuildRow} (wall i requested_by : ℕ)
      → request_cancellation wall i requested_by rows ≡ ok rows'
      → Method rows rows'
  acknowledged :
      {rows' : List BuildRow} (now wall i token : ℕ)
      → acknowledge_cancellation now wall i token rows ≡ ok rows'
      → Method rows rows'

abbrev pub bases : List BuildRow → List Build
bases rows = map (λ r. r.base) rows

-- Beside a method, a transaction of the admission: it writes the columns of `base`, and the other
-- columns of the rows stay.
pub data Step (rows : List BuildRow) : List BuildRow → Type 0 where
  method : {rows' : List BuildRow} → Method rows rows' → Step rows rows'
  admission :
      {rows' : List BuildRow}
      → Admission (bases rows) (bases rows')
      → Pointwise (λ x y. y ≡ record x { base = y.base }) rows rows'
      → Step rows rows'

pub data Reach (rows : List BuildRow) : List BuildRow → Type 0 where
  nothing : Reach rows rows
  more : {rows' rows'' : List BuildRow} → Reach rows rows' → Step rows' rows'' → Reach rows rows''

-- UNIQUE (project_id, sequence)
abbrev pub Differs : BuildRow → BuildRow → Type 0
Differs x y = x.base.project_id ≡ y.base.project_id → x.sequence ≢ y.sequence

abbrev pub UniqueSequences : List BuildRow → Type 0
UniqueSequences [] = Unit
UniqueSequences (r ∷ rs) = All (Differs r) rs × UniqueSequences rs

pub record IsConsistent (rows : List BuildRow) : Type 0 where
  pub keys : UniqueKeys row_id rows
  pub sequences : UniqueSequences rows
  pub checks : All SatisfiesChecks rows
  pub one_active : (p : ℕ) → count_p (is_active_in p) rows ≤ 1

-- The part of a change that keeps the table consistent.
record Keeps (x y : BuildRow) : Type 0 where
  same_id : row_id x ≡ row_id y
  same_project : y.base.project_id ≡ x.base.project_id
  same_sequence : y.sequence ≡ x.sequence
  keeps_checks : SatisfiesChecks x → SatisfiesChecks y
  stays_terminal : is_terminal (status_of x) ≡ true → is_terminal (status_of y) ≡ true

UniqueSequences-Keeps :
    (xs ys : List BuildRow) → Pointwise Keeps xs ys → UniqueSequences xs → UniqueSequences ys
UniqueSequences-Keeps [] [] p u = tt
UniqueSequences-Keeps [] (y ∷ ys) p u = elim p [ ]
UniqueSequences-Keeps (x ∷ xs) [] p u = elim p [ ]
UniqueSequences-Keeps (x ∷ xs) (y ∷ ys) p u = (
  All-Pointwise Keeps (Differs x) (Differs y) (λ a b k d. ground arith) xs ys p.1 u.0,
  UniqueSequences-Keeps xs ys p.1 u.1,
)

Keeps-IsConsistent :
    (rows rows' : List BuildRow)
    → Pointwise Keeps rows rows'
    → IsConsistent rows
    → IsConsistent rows'
Keeps-IsConsistent rows rows' p v = record {
  keys =
      UniqueKeys-of_Pointwise row_id rows rows' (Pointwise-weaken (λ x y k. k.same_id) rows rows' p)
        v.keys;
  sequences = UniqueSequences-Keeps rows rows' p v.sequences;
  checks =
      All-Pointwise Keeps SatisfiesChecks SatisfiesChecks (λ x y k. k.keeps_checks) rows rows' p
        v.checks;
  one_active = λ q. omega (
    arith,
    v.one_active q,
    count_p-Pointwise (is_active_in q) (is_active_in q) rows rows'
        (Pointwise-weaken (λ x y k. λ h. ground (arith, k.stays_terminal)) rows rows' p),
  );
}

Evolves-Keeps : (x y : BuildRow) → Evolves x y → Keeps x y
Evolves-Keeps x y e = record {
  same_id = e.same_id;
  same_project = e.same_project;
  same_sequence = e.same_sequence;
  keeps_checks = e.keeps_checks;
  stays_terminal = e.admission.stays_terminal;
}

-- What the admission does to a row.
pub record OnlyAdmission (x y : BuildRow) : Type 0 where
  pub rest : y ≡ record x { base = y.base }
  pub change : AdmissionChange x.base y.base

UniqueKeys-bases : (rows : List BuildRow) → UniqueKeys row_id rows → UniqueKeys id_of (bases rows)
UniqueKeys-bases [] u = tt
UniqueKeys-bases (r ∷ rows) u = (fresh rows u.0, UniqueKeys-bases rows u.1)
  where
    fresh :
        (xs : List BuildRow)
        → All (λ y. row_id r ≢ row_id y) xs
        → All (λ b. r.base.id ≢ id_of b) (bases xs)
    fresh [] h = tt
    fresh (x ∷ xs) h = (h.0, fresh xs h.1)

Pointwise-OnlyAdmission :
    (rows rows' : List BuildRow)
    → Pointwise (λ x y. y ≡ record x { base = y.base }) rows rows'
    → Pointwise AdmissionChange (bases rows) (bases rows')
    → Pointwise OnlyAdmission rows rows'
Pointwise-OnlyAdmission [] [] p c = tt
Pointwise-OnlyAdmission [] (y ∷ ys) p c = elim p [ ]
Pointwise-OnlyAdmission (x ∷ xs) [] p c = elim p [ ]
Pointwise-OnlyAdmission (x ∷ xs) (y ∷ ys) p c =
    (record { rest = p.0; change = c.0 }, Pointwise-OnlyAdmission xs ys p.1 c.1)

pub Admission-OnlyAdmission :
    (rows rows' : List BuildRow)
    → Admission (bases rows) (bases rows')
    → Pointwise (λ x y. y ≡ record x { base = y.base }) rows rows'
    → UniqueKeys row_id rows
    → Pointwise OnlyAdmission rows rows'
Admission-OnlyAdmission rows rows' a p u =
    Pointwise-OnlyAdmission rows rows' p (Admission-AdmissionChange a (UniqueKeys-bases rows u))

rebased-Keeps :
    (x : BuildRow) (b : Build) → AdmissionChange x.base b → Keeps x (record x { base = b })
unfolding is_complete
rebased-Keeps x b c = ground (arith, c.keeps_lease)

OnlyAdmission-Keeps : (x y : BuildRow) → OnlyAdmission x y → Keeps x y
OnlyAdmission-Keeps x y o = subst (λ z. Keeps x z) (sym o.rest) (rebased-Keeps x y.base o.change)

max_sequence-le :
    (p : ℕ) (rows : List BuildRow)
    → All (λ r. r.base.project_id ≡ p → r.sequence ≤ max_sequence p rows) rows
unfolding max_sequence
max_sequence-le p [] = tt
max_sequence-le p (r ∷ rows) =
    (λ e. ground arith, All-map (λ s h e. ground (arith, h e)) rows (max_sequence-le p rows))

UniqueSequences-concat :
    (rows : List BuildRow) (r : BuildRow)
    → All (λ s. Differs s r) rows
    → UniqueSequences rows
    → UniqueSequences (rows ++ r ∷ [])
UniqueSequences-concat [] r d u = (tt, tt)
UniqueSequences-concat (s ∷ rows) r d u =
    (All-append (Differs s) rows (r ∷ []) u.0 (d.0, tt), UniqueSequences-concat rows r d.1 u.1)

count_p-none :
    (p : BuildRow → Bool) (rows : List BuildRow) → any p rows ≡ false → count_p p rows ≡ 0
count_p-none p [] h = refl
count_p-none p (r ∷ rows) h = ground (arith, count_p-none p rows)

new_build-SatisfiesChecks :
    (now : ℕ) (c : NewBuild) (rows : List BuildRow) → SatisfiesChecks (new_build now c rows)
unfolding new_build
new_build-SatisfiesChecks now c rows = ground arith

pub create_ok :
    (now : ℕ) (c : NewBuild) (rows rows' : List BuildRow)
    → create now c rows ≡ ok rows'
    → (any (is_active_in c.project_id) rows ≡ false)
      × (find row_id c.build_id rows ≡ none)
      × (rows' ≡ rows ++ new_build now c rows ∷ [])
unfolding create
create_ok now c rows rows' h = ground arith

new_build-Differs :
    (now : ℕ) (c : NewBuild) (rows : List BuildRow) (s : BuildRow)
    → (s.base.project_id ≡ c.project_id → s.sequence ≤ max_sequence c.project_id rows)
    → Differs s (new_build now c rows)
unfolding new_build
new_build-Differs now c rows s le e = ground (arith, le e)

count_one : (p : ℕ) (r : BuildRow) → count_p (is_active_in p) (r ∷ []) ≤ 1
count_one p r = ground arith

one_more :
    (now : ℕ) (c : NewBuild) (rows : List BuildRow) (p : ℕ)
    → any (is_active_in c.project_id) rows ≡ false
    → count_p (is_active_in p) rows ≤ 1
    → count_p (is_active_in p) (rows ++ new_build now c rows ∷ []) ≤ 1
unfolding new_build
one_more now c rows p idle le = elim (Bool-cases (c.project_id == p)) [
  | inl e ↦
      let same : c.project_id ≡ p = ground arith in
      let none_active = count_p-none (is_active_in p) rows (rw same at idle) in
      omega (
        arith,
        none_active,
        count_p-append (is_active_in p) rows (new_build now c rows ∷ []),
        count_one p (new_build now c rows),
      )
  | inr e ↦ ground (arith, le, count_p-append (is_active_in p) rows (new_build now c rows ∷ []))
]

Evolve-IsConsistent :
    (rows rows' : List BuildRow) → Evolve rows rows' → IsConsistent rows → IsConsistent rows'
Evolve-IsConsistent rows rows' p v =
    Keeps-IsConsistent rows rows' (Pointwise-weaken Evolves-Keeps rows rows' p) v

created-IsConsistent :
    (now : ℕ) (c : NewBuild) (rows rows' : List BuildRow)
    → create now c rows ≡ ok rows'
    → IsConsistent rows
    → IsConsistent rows'
created-IsConsistent now c rows rows' h v =
    let (idle, fresh, is) = create_ok now c rows rows' h in
    let r = new_build now c rows in
    rw is (record {
      keys = UniqueKeys-concat row_id rows r (unfold new_build in fresh) v.keys;
      sequences =
          UniqueSequences-concat rows r
            (All-map (λ s le. new_build-Differs now c rows s le) rows
              (max_sequence-le c.project_id rows))
            v.sequences;
      checks =
          All-append SatisfiesChecks rows (r ∷ []) v.checks
            (new_build-SatisfiesChecks now c rows, tt);
      one_active = λ p. one_more now c rows p idle (v.one_active p);
    })

Method-IsConsistent :
    {rows rows' : List BuildRow} → Method rows rows' → IsConsistent rows → IsConsistent rows'
Method-IsConsistent {rows} {rows'} (created now c h) v = created-IsConsistent now c rows rows' h v
Method-IsConsistent {rows} {rows'} (transitioned now wall i expected target token h) v =
    Evolve-IsConsistent rows rows' (transition-Evolve now wall i expected target token rows rows' h)
      v
Method-IsConsistent {rows} {rows'} (valued now i token values h) v =
    Evolve-IsConsistent rows rows' (set_values-Evolve now i token values rows rows' h) v
Method-IsConsistent {rows} {rows'} (failed now wall i code summary token h) v =
    Evolve-IsConsistent rows rows' (fail-Evolve now wall i code summary token rows rows' h) v
Method-IsConsistent {rows} {rows'} (asked wall i requested_by h) v =
    Evolve-IsConsistent rows rows' (request_cancellation-Evolve wall i requested_by rows rows' h) v
Method-IsConsistent {rows} {rows'} (acknowledged now wall i token h) v =
    Evolve-IsConsistent rows rows' (acknowledge_cancellation-Evolve now wall i token rows rows' h) v

Step-IsConsistent :
    {rows rows' : List BuildRow} → Step rows rows' → IsConsistent rows → IsConsistent rows'
Step-IsConsistent (method m) v = Method-IsConsistent m v
Step-IsConsistent {rows} {rows'} (admission a p) v =
    Keeps-IsConsistent rows rows'
      (Pointwise-weaken OnlyAdmission-Keeps rows rows'
        (Admission-OnlyAdmission rows rows' a p v.keys))
      v

-- On every table that the methods and the admission reach from the empty one, in any interleaving:
-- identifiers are unique, so are the sequence numbers of a project, every row meets the CHECK
-- constraints on status, completion, error, cancellation and lease, and no project has two active
-- Builds.
pub Reach-IsConsistent : {rows : List BuildRow} → Reach [] rows → IsConsistent rows
Reach-IsConsistent nothing = record {
  keys = tt;
  sequences = tt;
  checks = tt;
  one_active = λ p. omega arith;
}
Reach-IsConsistent (more r s) = Step-IsConsistent s (Reach-IsConsistent r)
