-- ===== src/BuildAdmission/Concurrency.antt =====
-- The number of live reservations never passes the configured concurrency.
use Prim.Native.Nat.{max}
use mcplica.Common.{
  ℕ, ◌+◌, ◌-◌, ◌≤◌, ◌≡◌, refl, ap, ◌∙◌, Bool, true, not, ◌&&◌, ◌||◌, Option, none, some, List, [],
  ◌∷◌, map, arith, ◌==◌, is_some, filter, sort, length, All-of_mem, Pointwise-map, Bool-cases, inl,
  inr, ◌⊎◌, count_p, count_p-map-le, count_p-le-add, length-filter, length-take, length-sort, min,
  or-eq-true,
}
use mcplica.Common.Table.{
  find, write_back, UniqueKeys, UniqueKeys-of_Pointwise, count_replaced-le, replacement,
  UniqueKeys-write_back,
}
use mcplica.BuildAdmission.{
  Build, id_of, is_active, active_count, release_stale, candidates, comes_before, is_candidate,
  admit_each, claim_each, claim_available,
}

release_stale-active :
    (t now : ℕ) (b : Build) → is_active t (release_stale now b) ≡ true → is_active t b ≡ true
unfolding release_stale
release_stale-active t now b h = ground arith

id-release_stale : (now : ℕ) (b : Build) → b.id ≡ (release_stale now b).id
unfolding release_stale
id-release_stale now b = ground arith

active_count_sweep :
    (t now : ℕ) (rows : List Build)
    → active_count t (map (release_stale now) rows) ≤ active_count t rows
unfolding active_count
active_count_sweep t now rows =
    rw (length-filter, length-filter)
      (count_p-map-le (is_active t) (is_active t) (release_stale now) rows (
        All-of_mem (λ b. is_active t (release_stale now b) ≡ true → is_active t b ≡ true) rows
          (λ b m. release_stale-active t now b)))

pub UniqueKeys-sweep :
    (now : ℕ) (rows : List Build)
    → UniqueKeys id_of rows
    → UniqueKeys id_of (map (release_stale now) rows)
UniqueKeys-sweep now rows u =
    UniqueKeys-of_Pointwise id_of rows (map (release_stale now) rows)
      (Pointwise-map (λ x y. id_of x ≡ id_of y) (release_stale now) rows
        (All-of_mem (λ b. id_of b ≡ id_of (release_stale now b)) rows
          (λ b m. id-release_stale now b)))
      u

-- Each row that is written back adds at most one live reservation.
active_count-write_back :
    (t : ℕ) (claimed rows : List Build)
    → UniqueKeys id_of rows
    → active_count t (write_back id_of claimed rows) ≤ active_count t rows + length claimed
unfolding active_count write_back
active_count-write_back t claimed rows u =
    let replaced = λ (b : Build). is_some (find id_of b.id claimed) in
    let either = λ (b : Build). is_active t b || replaced b in
    let mapped =
      count_p-map-le (is_active t) either (λ b. replacement b (find id_of b.id claimed)) rows
        (All-of_mem
          (λ b. is_active t (replacement b (find id_of b.id claimed)) ≡ true → either b ≡ true) rows
          (λ b m h. split b (find id_of b.id claimed) h)) in
    let added = count_p-le-add either (is_active t) replaced rows (
      All-of_mem (λ b. either b ≡ true → (is_active t b ≡ true) ⊎ (replaced b ≡ true)) rows
        (λ b m. or-eq-true (is_active t b) (replaced b))) in
    rw (length-filter, length-filter)
      (omega (arith, mapped, added, count_replaced-le id_of claimed rows u))
  where
    split :
        (b : Build) (o : Option Build)
        → is_active t (replacement b o) ≡ true
        → (is_active t b || is_some o) ≡ true
    split b none h = ground arith
    split b (some c) h = ground arith

length-admit_each :
    (now expires : ℕ) (fresh : ℕ → ℕ) (k : ℕ) (bs : List Build)
    → length (admit_each now expires fresh k bs) ≡ length bs
unfolding admit_each
length-admit_each now expires fresh k [] = refl
length-admit_each now expires fresh k (b ∷ bs) =
    omega (arith, length-admit_each now expires fresh (k + 1) bs)

length-claim_each :
    (expires : ℕ) (fresh : ℕ → ℕ) (k : ℕ) (bs : List Build)
    → length (claim_each expires fresh k bs) ≡ length bs
unfolding claim_each
length-claim_each expires fresh k [] = refl
length-claim_each expires fresh k (b ∷ bs) =
    omega (arith, length-claim_each expires fresh (k + 1) bs)

length-candidates :
    (locked : ℕ → Bool) (available : ℕ) (rows : List Build)
    → length (candidates locked available rows)
      ≡ min available (count_p (λ b. is_candidate b && not (locked b.id)) rows)
unfolding candidates
length-candidates locked available rows =
    let test = λ (b : Build). is_candidate b && not (locked b.id) in
    length-take available (sort comes_before (filter test rows))
    ∙ ap (min available) (length-sort comes_before (filter test rows) ∙ length-filter test rows)

-- After `claim_available` the live reservations number at most the configured concurrency, or what
-- they numbered before if that was more.
pub concurrency_bound :
    (now configured lease : ℕ) (fresh : ℕ → ℕ) (locked : ℕ → Bool) (rows : List Build)
    → UniqueKeys id_of rows
    → active_count now (claim_available now configured lease fresh locked rows).1
      ≤ max configured (active_count now rows)
unfolding claim_available
concurrency_bound now configured lease fresh locked rows u =
    let swept = map (release_stale now) rows in
    let available = configured - active_count now swept in
    let chosen = candidates locked available swept in
    let claimed = admit_each now (now + lease) fresh 0 chosen in
    let kept = active_count_sweep now now rows in
    elim (Bool-cases (available == 0)) [
      | inl full ↦ rw full (omega arith)
      | inr room ↦ rw room (
          omega (
            arith,
            kept,
            active_count-write_back now claimed swept (UniqueKeys-sweep now rows u),
            length-admit_each now (now + lease) fresh 0 chosen,
            length-candidates locked available swept,
          ))
    ]

-- `claim_available` leaves no free slot unused: it claims exactly as many builds as there are free
-- slots and waiting builds that nobody else has locked, whichever is fewer.
pub claims_fill_slots :
    (now configured lease : ℕ) (fresh : ℕ → ℕ) (locked : ℕ → Bool) (rows : List Build)
    → let swept = map (release_stale now) rows in
      length (claim_available now configured lease fresh locked rows).0
      ≡ min
          (configured - active_count now swept)
          (count_p (λ b. is_candidate b && not (locked b.id)) swept)
unfolding claim_available
claims_fill_slots now configured lease fresh locked rows =
    let swept = map (release_stale now) rows in
    let available = configured - active_count now swept in
    let chosen = candidates locked available swept in
    elim (Bool-cases (available == 0)) [
      | inl full ↦ rw full (ground arith)
      | inr room ↦ rw room (
          length-claim_each (now + lease) fresh 0 chosen ∙ length-candidates locked available swept)
    ]

pub claim_available-UniqueKeys :
    (now configured lease : ℕ) (fresh : ℕ → ℕ) (locked : ℕ → Bool) (rows : List Build)
    → UniqueKeys id_of rows
    → UniqueKeys id_of (claim_available now configured lease fresh locked rows).1
unfolding claim_available
claim_available-UniqueKeys now configured lease fresh locked rows u =
    let swept = map (release_stale now) rows in
    let available = configured - active_count now swept in
    let claimed = admit_each now (now + lease) fresh 0 (candidates locked available swept) in
    elim (Bool-cases (available == 0)) [
      | inl full ↦ rw full (UniqueKeys-sweep now rows u)
      | inr room ↦ rw room (UniqueKeys-write_back id_of claimed swept (UniqueKeys-sweep now rows u))
    ]
