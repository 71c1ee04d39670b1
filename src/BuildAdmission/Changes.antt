-- ===== src/BuildAdmission/Changes.antt =====
-- What the admission of Builds does to the rows of the table: the methods of
-- backend/app/repositories/build_admission.py keep every other column of a Build, and token and lease together.
use mcplica.Common.{
  ℕ, ◌+◌, ◌-◌, ◌≡◌, Bool, true, not, ◌&&◌, some, List, [], ◌∷◌, map, arith, ◌==◌, is_just, is_some,
  filter, sort, All, All-mem, All-of_mem, All-sort, All-take, All-filter, Pointwise, Pointwise-map,
  Pointwise-refl, Bool-cases, Option-cases, inl, inr,
}
use mcplica.Common.Table.{
  find, update, write_back, replacement, UniqueKeys, find_of_mem, mem_of_find, key_of_find,
  Pointwise-update,
}
use mcplica.BuildAdmission.{
  Build, id_of, release_stale, clear_admission, admit, admit_each, candidates, comes_before,
  is_candidate, active_count, claim_available, mark_enqueued, release, begin_or_renew, update_owned,
  stamp_enqueued, extend_lease, owns_lease,
}
use mcplica.BuildAdmission.Concurrency.{UniqueKeys-sweep}

-- One transaction of the admission on the table of Builds.
pub data Admission (rows : List Build) : List Build → Type 0 where
  claimed :
      (now configured lease : ℕ) (fresh : ℕ → ℕ) (locked : ℕ → Bool)
      → Admission rows (claim_available now configured lease fresh locked rows).1
  enqueued : (now i token : ℕ) → Admission rows (mark_enqueued now i token rows).1
  released : (now i token : ℕ) → Admission rows (release now i token rows).1
  renewed : (now i token lease : ℕ) → Admission rows (begin_or_renew now i token lease rows).1

-- What such a transaction keeps of a row.
pub record AdmissionChange (x y : Build) : Type 0 where
  pub same_id : x.id ≡ y.id
  pub same_project : y.project_id ≡ x.project_id
  pub same_status : y.status ≡ x.status
  pub same_request : y.cancellation_requested_at ≡ x.cancellation_requested_at
  pub keeps_lease :
      is_some x.admission_token ≡ is_some x.admission_lease_expires_at
      → is_some y.admission_token ≡ is_some y.admission_lease_expires_at

AdmissionChange-refl : (b : Build) → AdmissionChange b b
AdmissionChange-refl b = ground arith

AdmissionChange-trans :
    (a b c : Build) → AdmissionChange a b → AdmissionChange b c → AdmissionChange a c
AdmissionChange-trans a b c p q = ground arith

unchanged : (rows : List Build) → Pointwise AdmissionChange rows rows
unchanged rows =
    Pointwise-refl AdmissionChange rows
      (All-of_mem (λ b. AdmissionChange b b) rows (λ b m. AdmissionChange-refl b))

admit-AdmissionChange :
    (now expires token : ℕ) (b : Build) → AdmissionChange b (admit now expires token b)
unfolding admit
admit-AdmissionChange now expires token b = ground arith

release_stale-AdmissionChange : (now : ℕ) (b : Build) → AdmissionChange b (release_stale now b)
unfolding release_stale clear_admission
release_stale-AdmissionChange now b = ground arith

clear_admission-AdmissionChange : (now : ℕ) (b : Build) → AdmissionChange b (clear_admission now b)
unfolding clear_admission
clear_admission-AdmissionChange now b = ground arith

stamp_enqueued-AdmissionChange : (now : ℕ) (b : Build) → AdmissionChange b (stamp_enqueued now b)
unfolding stamp_enqueued
stamp_enqueued-AdmissionChange now b = ground arith

extend_lease-AdmissionChange :
    (now expires token : ℕ) (b : Build)
    → owns_lease now token b ≡ true
    → AdmissionChange b (extend_lease now expires b)
unfolding extend_lease
extend_lease-AdmissionChange now expires token b h = ground arith

update_found :
    (i : ℕ) (f : Build → Build) (rows : List Build) {b : Build}
    → find id_of i rows ≡ some b
    → AdmissionChange b (f b)
    → Pointwise AdmissionChange rows (update id_of i f rows)
update_found i f rows at c =
    Pointwise-update id_of AdmissionChange i f rows
      (All-of_mem (λ b. AdmissionChange b b) rows (λ b m. AdmissionChange-refl b)) at c

update_owned-AdmissionChange :
    (i token : ℕ) (f : Build → Build) (rows : List Build)
    → ((b : Build) → AdmissionChange b (f b))
    → Pointwise AdmissionChange rows (update_owned i token f rows).1
unfolding update_owned
update_owned-AdmissionChange i token f rows c = elim (Option-cases (find id_of i rows)) [
  | inl e ↦ rw (e, update_owned) (unchanged rows)
  | inr (b, e) ↦ elim (Bool-cases (is_just b.admission_token token)) [
    | inl o ↦ rw (e, update_owned, o) (update_found i f rows e (c b))
    | inr o ↦ rw (e, update_owned, o) (unchanged rows)
  ]
]

begin_or_renew-AdmissionChange :
    (now i token lease : ℕ) (rows : List Build)
    → Pointwise AdmissionChange rows (begin_or_renew now i token lease rows).1
unfolding begin_or_renew
begin_or_renew-AdmissionChange now i token lease rows = elim (Option-cases (find id_of i rows)) [
  | inl e ↦ rw (e, begin_or_renew) (unchanged rows)
  | inr (b, e) ↦ elim (Bool-cases (owns_lease now token b)) [
    | inr o ↦ rw (e, begin_or_renew, o) (unchanged rows)
    | inl o ↦ elim (Bool-cases (is_some b.cancellation_requested_at)) [
      | inl c ↦ rw (e, begin_or_renew, o, c) (unchanged rows)
      | inr c ↦
          rw (e, begin_or_renew, o, c)
            (update_found i (extend_lease now (now + lease)) rows e
              (extend_lease-AdmissionChange now (now + lease) token b o))
    ]
  ]
]

-- A row of the table, admitted.
IsAdmittedFrom : List Build → Build → Type 0
IsAdmittedFrom rows y = (b : Build) × (find id_of b.id rows ≡ some b) × (AdmissionChange b y)

admit_each-IsAdmittedFrom :
    (now expires : ℕ) (fresh : ℕ → ℕ) (k : ℕ) (rows bs : List Build)
    → All (λ b. find id_of b.id rows ≡ some b) bs
    → All (IsAdmittedFrom rows) (admit_each now expires fresh k bs)
unfolding admit_each IsAdmittedFrom
admit_each-IsAdmittedFrom now expires fresh k rows [] h = tt
admit_each-IsAdmittedFrom now expires fresh k rows (b ∷ bs) h = (
  (b, h.0, admit-AdmissionChange now expires (fresh k) b),
  admit_each-IsAdmittedFrom now expires fresh (k + 1) rows bs h.1,
)

pub candidates-of_rows :
    (P : Build → Type 0) (locked : ℕ → Bool) (available : ℕ) (rows : List Build)
    → All P rows
    → All P (candidates locked available rows)
unfolding candidates
candidates-of_rows P locked available rows h =
    let test = λ (b : Build). is_candidate b && not (locked b.id) in
    All-take P available (sort comes_before (filter test rows))
      (All-sort comes_before P (filter test rows) (All-filter P test rows h))

write_back-AdmissionChange :
    (admitted rows : List Build)
    → UniqueKeys id_of rows
    → All (IsAdmittedFrom rows) admitted
    → Pointwise AdmissionChange rows (write_back id_of admitted rows)
unfolding write_back IsAdmittedFrom
write_back-AdmissionChange admitted rows u h =
    Pointwise-map AdmissionChange (λ x. replacement x (find id_of x.id admitted)) rows
      (All-of_mem (λ x. AdmissionChange x (replacement x (find id_of x.id admitted))) rows
        (λ x m. elim (Option-cases (find id_of x.id admitted)) [
          | inl e ↦ rw e (AdmissionChange-refl x)
          | inr (y, e) ↦
              let (b, at, c) =
                All-mem (IsAdmittedFrom rows) admitted h (mem_of_find id_of x.id admitted e) in
              let same : y.id ≡ x.id = key_of_find id_of x.id admitted e in
              let at' : find id_of x.id rows ≡ some b = rw (← same, ← c.same_id) at in
              let at'' : find id_of x.id rows ≡ some x = find_of_mem id_of rows u m in
              let is : b ≡ x = cc in rw e (rw is at c)
        ]))

claim_available-AdmissionChange :
    (now configured lease : ℕ) (fresh : ℕ → ℕ) (locked : ℕ → Bool) (rows : List Build)
    → UniqueKeys id_of rows
    → Pointwise AdmissionChange rows (claim_available now configured lease fresh locked rows).1
unfolding claim_available
claim_available-AdmissionChange now configured lease fresh locked rows u =
    let swept = map (release_stale now) rows in
    let available = configured - active_count now swept in
    let chosen = candidates locked available swept in
    let sweeps : Pointwise AdmissionChange rows swept =
      Pointwise-map AdmissionChange (release_stale now) rows (
        All-of_mem (λ b. AdmissionChange b (release_stale now b)) rows
          (λ b m. release_stale-AdmissionChange now b)) in
    let keys : UniqueKeys id_of swept = UniqueKeys-sweep now rows u in
    let own =
      All-of_mem (λ b. find id_of b.id swept ≡ some b) swept
        (λ b m. find_of_mem id_of swept keys m) in
    elim (Bool-cases (available == 0)) [
      | inl full ↦ rw full sweeps
      | inr room ↦ rw room (
          Pointwise-trans rows swept
            (write_back id_of (admit_each now (now + lease) fresh 0 chosen) swept) sweeps
            (write_back-AdmissionChange (admit_each now (now + lease) fresh 0 chosen) swept keys (
              admit_each-IsAdmittedFrom now (now + lease) fresh 0 swept chosen (
                candidates-of_rows (λ b. find id_of b.id swept ≡ some b) locked available swept
                  own))))
    ]
  where
    Pointwise-trans :
        (xs ys zs : List Build)
        → Pointwise AdmissionChange xs ys
        → Pointwise AdmissionChange ys zs
        → Pointwise AdmissionChange xs zs
    Pointwise-trans [] [] [] p q = tt
    Pointwise-trans [] [] (z ∷ zs) p q = elim q [ ]
    Pointwise-trans [] (y ∷ ys) zs p q = elim p [ ]
    Pointwise-trans (x ∷ xs) [] zs p q = elim p [ ]
    Pointwise-trans (x ∷ xs) (y ∷ ys) [] p q = elim q [ ]
    Pointwise-trans (x ∷ xs) (y ∷ ys) (z ∷ zs) p q =
        (AdmissionChange-trans x y z p.0 q.0, Pointwise-trans xs ys zs p.1 q.1)

-- Every transaction of the admission changes a table with unique identifiers row by row.
pub Admission-AdmissionChange :
    {rows rows' : List Build}
    → Admission rows rows'
    → UniqueKeys id_of rows
    → Pointwise AdmissionChange rows rows'
unfolding mark_enqueued release
Admission-AdmissionChange {rows} (claimed now configured lease fresh locked) u =
    claim_available-AdmissionChange now configured lease fresh locked rows u
Admission-AdmissionChange {rows} (enqueued now i token) u =
    update_owned-AdmissionChange i token (stamp_enqueued now) rows
      (stamp_enqueued-AdmissionChange now)
Admission-AdmissionChange {rows} (released now i token) u =
    update_owned-AdmissionChange i token (clear_admission now) rows
      (clear_admission-AdmissionChange now)
Admission-AdmissionChange {rows} (renewed now i token lease) u =
    begin_or_renew-AdmissionChange now i token lease rows
