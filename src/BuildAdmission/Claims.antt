-- ===== src/BuildAdmission/Claims.antt =====
-- The claims of `claim_available` and the rows that it commits: each claim names another Build, whose row
-- has the token of the claim.
use mcplica.Common.{
  ℕ, ◌+◌, ◌-◌, ◌≡◌, ◌≢◌, refl, Bool, not, ◌&&◌, some, List, [], ◌∷◌, map, arith, ◌==◌, filter, sort,
  All, All-of_mem, Bool-cases, inl, inr,
}
use mcplica.Common.Table.{find, write_back, UniqueKeys, find_of_mem}
use mcplica.Common.Keys.{UniqueKeys-take, UniqueKeys-filter, UniqueKeys-sort, find-write_back}
use mcplica.BuildAdmission.{
  Build, Claim, id_of, release_stale, admit, admit_each, claim_of, claim_each, candidates,
  comes_before, is_candidate, active_count, claim_available,
}
use mcplica.BuildAdmission.Concurrency.{UniqueKeys-sweep}
use mcplica.BuildAdmission.Changes.{candidates-of_rows}

UniqueKeys-candidates :
    (locked : ℕ → Bool) (available : ℕ) (rows : List Build)
    → UniqueKeys id_of rows
    → UniqueKeys id_of (candidates locked available rows)
unfolding candidates
UniqueKeys-candidates locked available rows u =
    let test = λ (b : Build). is_candidate b && not (locked b.id) in
    UniqueKeys-take id_of available (sort comes_before (filter test rows))
      (UniqueKeys-sort id_of comes_before (filter test rows) (UniqueKeys-filter id_of test rows u))

-- The Build of the claim has its token.
abbrev pub HoldsClaim : List Build → Claim → Type 0
HoldsClaim rows c =
    (b : Build) × (find id_of c.build_id rows ≡ some b) × (b.admission_token ≡ some c.token)

abbrev pub claimed_id : Claim → ℕ
claimed_id c = c.build_id

other_claims :
    (i expires : ℕ) (fresh : ℕ → ℕ) (k : ℕ) (bs : List Build)
    → All (λ y. i ≢ id_of y) bs
    → All (λ c. i ≢ claimed_id c) (claim_each expires fresh k bs)
unfolding claim_each claim_of
other_claims i expires fresh k [] h = tt
other_claims i expires fresh k (b ∷ bs) h = (h.0, other_claims i expires fresh (k + 1) bs h.1)

distinct_claims :
    (expires : ℕ) (fresh : ℕ → ℕ) (k : ℕ) (bs : List Build)
    → UniqueKeys id_of bs
    → UniqueKeys claimed_id (claim_each expires fresh k bs)
unfolding claim_each claim_of
distinct_claims expires fresh k [] u = tt
distinct_claims expires fresh k (b ∷ bs) u =
    (other_claims b.id expires fresh (k + 1) bs u.0, distinct_claims expires fresh (k + 1) bs u.1)

behind :
    (x : Build) (rows : List Build) (cs : List Claim)
    → All (λ c. id_of x ≢ claimed_id c) cs
    → All (HoldsClaim rows) cs
    → All (HoldsClaim (x ∷ rows)) cs
unfolding find
behind x rows [] d h = tt
behind x rows (c ∷ cs) d h =
    let (b, at, token) = h.0 in ((b, ground arith, token), behind x rows cs d.1 h.1)

admitted_hold :
    (now expires : ℕ) (fresh : ℕ → ℕ) (k : ℕ) (bs : List Build)
    → UniqueKeys id_of bs
    → All (HoldsClaim (admit_each now expires fresh k bs)) (claim_each expires fresh k bs)
unfolding claim_each claim_of admit_each admit find
admitted_hold now expires fresh k [] u = tt
admitted_hold now expires fresh k (b ∷ bs) u = (
  (admit now expires (fresh k) b, ground arith, refl),
  behind (admit now expires (fresh k) b) (admit_each now expires fresh (k + 1) bs)
      (claim_each expires fresh (k + 1) bs) (other_claims b.id expires fresh (k + 1) bs u.0)
      (admitted_hold now expires fresh (k + 1) bs u.1),
)

-- A claim of rows that are written back, where the table has its Build.
written_back_holds :
    (admitted rows : List Build) (c : Claim) (x : Build)
    → find id_of c.build_id rows ≡ some x
    → HoldsClaim admitted c
    → HoldsClaim (write_back id_of admitted rows) c
written_back_holds admitted rows c x at (b, found, token) =
    (b, find-write_back id_of c.build_id admitted rows at found, token)

written_back_hold :
    (admitted rows : List Build) (expires : ℕ) (fresh : ℕ → ℕ) (k : ℕ) (bs : List Build)
    → All (λ b. find id_of b.id rows ≡ some b) bs
    → All (HoldsClaim admitted) (claim_each expires fresh k bs)
    → All (HoldsClaim (write_back id_of admitted rows)) (claim_each expires fresh k bs)
unfolding claim_each claim_of
written_back_hold admitted rows expires fresh k [] own h = tt
written_back_hold admitted rows expires fresh k (b ∷ bs) own h = (
  written_back_holds admitted rows (claim_of expires (fresh k) b) b own.0 h.0,
  written_back_hold admitted rows expires fresh (k + 1) bs own.1 h.1,
)

pub claim_available-HoldsClaim :
    (now configured lease : ℕ) (fresh : ℕ → ℕ) (locked : ℕ → Bool) (rows : List Build)
    → UniqueKeys id_of rows
    → let (claims, rows') = claim_available now configured lease fresh locked rows in
      UniqueKeys claimed_id claims × All (HoldsClaim rows') claims
unfolding claim_available
claim_available-HoldsClaim now configured lease fresh locked rows u =
    let swept = map (release_stale now) rows in
    let available = configured - active_count now swept in
    let chosen = candidates locked available swept in
    let keys : UniqueKeys id_of swept = UniqueKeys-sweep now rows u in
    let chosen_keys = UniqueKeys-candidates locked available swept keys in
    let own =
      candidates-of_rows (λ b. find id_of b.id swept ≡ some b) locked available swept
        (All-of_mem (λ b. find id_of b.id swept ≡ some b) swept
          (λ b m. find_of_mem id_of swept keys m)) in
    elim (Bool-cases (available == 0)) [
      | inl full ↦ rw full (tt, tt)
      | inr room ↦ rw room (
        distinct_claims (now + lease) fresh 0 chosen chosen_keys,
        written_back_hold (admit_each now (now + lease) fresh 0 chosen) swept (now + lease) fresh 0
            chosen own (admitted_hold now (now + lease) fresh 0 chosen chosen_keys),
      )
    ]
