-- ===== src/BuildAdmission/Invariant.antt =====
-- The bound on the live reservations, under every interleaving of the dispatcher, the workers and the
-- rest of the program.
use mcplica.Common.{
  ◌⊎◌, ℕ, ◌+◌, ◌≤◌, ◌≡◌, refl, Bool, true, none, some, List, [], ◌∷◌, ◌++◌, arith, is_just, is_some,
  All-of_mem, Pointwise, Pointwise-refl, Bool-cases, Option-cases, inl, inr, count_p, length-filter,
  count_p-Pointwise, count_p-append, Pointwise-weaken,
}
use mcplica.Common.Table.{
  find, update, UniqueKeys, UniqueKeys-of_Pointwise, UniqueKeys-concat, Pointwise-update,
}
use mcplica.BuildAdmission.{
  Build, id_of, is_active, active_count, claim_available, mark_enqueued, release, begin_or_renew,
  update_owned, owns_lease, extend_lease, clear_admission, stamp_enqueued,
}
use mcplica.BuildAdmission.Concurrency.{concurrency_bound, claim_available-UniqueKeys}
use mcplica.BuildStatus.{is_terminal}

-- The table and the latest database time that a transaction has read.
pub record State : Type 0 where
  pub clock : ℕ
  pub rows : List Build

-- A change of a Build by the rest of the program: token and lease stay or the token is given up, and
-- a terminal status is not left.
pub record LeavesAdmission (x y : Build) : Type 0 where
  pub same_id : x.id ≡ y.id
  pub same_lease :
      ((y.admission_token ≡ x.admission_token)
        × (y.admission_lease_expires_at ≡ x.admission_lease_expires_at))
      ⊎ (y.admission_token ≡ none)
  pub stays_terminal : is_terminal x.status ≡ true → is_terminal y.status ≡ true

-- One transaction, at a time that is not before the last.
pub data Step (configured : ℕ) (s : State) : State → Type 0 where
  claimed :
      (now lease : ℕ) (fresh : ℕ → ℕ) (locked : ℕ → Bool)
      → s.clock ≤ now
      → Step configured s (record {
        clock = now;
        rows = (claim_available now configured lease fresh locked s.rows).1;
      })
  enqueued :
      (now i token : ℕ)
      → s.clock ≤ now
      → Step configured s (record { clock = now; rows = (mark_enqueued now i token s.rows).1 })
  released :
      (now i token : ℕ)
      → s.clock ≤ now
      → Step configured s (record { clock = now; rows = (release now i token s.rows).1 })
  renewed :
      (now i token lease : ℕ)
      → s.clock ≤ now
      → Step configured s
          (record { clock = now; rows = (begin_or_renew now i token lease s.rows).1 })
  requested :
      (b : Build)
      → find id_of b.id s.rows ≡ none
      → b.admission_token ≡ none
      → Step configured s (record s { rows = s.rows ++ b ∷ [] })
  changed :
      (rows' : List Build)
      → Pointwise LeavesAdmission s.rows rows'
      → Step configured s (record s { rows = rows' })

pub data Reach (configured : ℕ) (s : State) : State → Type 0 where
  here : Reach configured s s
  next : {t u : State} → Reach configured s t → Step configured t u → Reach configured s u

abbrev pub empty : State
empty = record { clock = 0; rows = [] }

pub record IsBounded (configured : ℕ) (s : State) : Type 0 where
  pub keys : UniqueKeys id_of s.rows
  pub bound : active_count s.clock s.rows ≤ configured

-- A change from time `t` to time `now` that makes no row active.
abbrev Calms : ℕ → ℕ → Build → Build → Type 0
Calms t now x y = (x.id ≡ y.id) × (is_active now y ≡ true → is_active t x ≡ true)

Calms-IsBounded :
    (configured now : ℕ) (s : State) (rows' : List Build)
    → Pointwise (Calms s.clock now) s.rows rows'
    → IsBounded configured s
    → IsBounded configured (record { clock = now; rows = rows' })
unfolding active_count
Calms-IsBounded configured now s rows' p v = record {
  keys =
      UniqueKeys-of_Pointwise id_of s.rows rows' (Pointwise-weaken (λ x y r. r.0) s.rows rows' p)
        v.keys;
  bound = rw (length-filter (is_active now) rows') (
      omega (
        arith,
        v.bound,
        length-filter (is_active s.clock) s.rows,
        count_p-Pointwise (is_active now) (is_active s.clock) s.rows rows'
            (Pointwise-weaken (λ x y r. r.1) s.rows rows' p),
      ));
}

Calms-refl : (t now : ℕ) (b : Build) → t ≤ now → Calms t now b b
Calms-refl t now b h = (refl, λ a. ground arith)

unchanged-Calms : (t now : ℕ) (rows : List Build) → t ≤ now → Pointwise (Calms t now) rows rows
unchanged-Calms t now rows h =
    Pointwise-refl (Calms t now) rows
      (All-of_mem (λ b. Calms t now b b) rows (λ b m. Calms-refl t now b h))

update-Calms :
    (t now i : ℕ) (f : Build → Build) (rows : List Build) {b : Build}
    → t ≤ now
    → find id_of i rows ≡ some b
    → Calms t now b (f b)
    → Pointwise (Calms t now) rows (update id_of i f rows)
update-Calms t now i f rows h at c =
    Pointwise-update id_of (Calms t now) i f rows
      (All-of_mem (λ b. Calms t now b b) rows (λ b m. Calms-refl t now b h)) at c

update_owned-Calms :
    (t now i token : ℕ) (f : Build → Build) (rows : List Build)
    → t ≤ now
    → ((b : Build) → Calms t now b (f b))
    → Pointwise (Calms t now) rows (update_owned i token f rows).1
unfolding update_owned
update_owned-Calms t now i token f rows h c = elim (Option-cases (find id_of i rows)) [
  | inl e ↦ rw (e, update_owned) (unchanged-Calms t now rows h)
  | inr (b, e) ↦ elim (Bool-cases (is_just b.admission_token token)) [
    | inl o ↦ rw (e, update_owned, o) (update-Calms t now i f rows h e (c b))
    | inr o ↦ rw (e, update_owned, o) (unchanged-Calms t now rows h)
  ]
]

begin_or_renew-Calms :
    (t now i token lease : ℕ) (rows : List Build)
    → t ≤ now
    → Pointwise (Calms t now) rows (begin_or_renew now i token lease rows).1
unfolding begin_or_renew extend_lease
begin_or_renew-Calms t now i token lease rows h = elim (Option-cases (find id_of i rows)) [
  | inl e ↦ rw (e, begin_or_renew) (unchanged-Calms t now rows h)
  | inr (b, e) ↦ elim (Bool-cases (owns_lease now token b)) [
    | inr o ↦ rw (e, begin_or_renew, o) (unchanged-Calms t now rows h)
    | inl o ↦ elim (Bool-cases (is_some b.cancellation_requested_at)) [
      | inl c ↦ rw (e, begin_or_renew, o, c) (unchanged-Calms t now rows h)
      | inr c ↦
          rw (e, begin_or_renew, o, c)
            (update-Calms t now i (extend_lease now (now + lease)) rows h e
              (refl, λ a. ground arith))
    ]
  ]
]

requested-IsBounded :
    (configured : ℕ) (s : State) (b : Build)
    → find id_of b.id s.rows ≡ none
    → b.admission_token ≡ none
    → IsBounded configured s
    → IsBounded configured (record s { rows = s.rows ++ b ∷ [] })
unfolding active_count
requested-IsBounded configured s b fresh idle v = record {
  keys = UniqueKeys-concat id_of s.rows b fresh v.keys;
  bound = rw (length-filter (is_active s.clock) (s.rows ++ b ∷ [])) (
      omega (
        arith,
        v.bound,
        length-filter (is_active s.clock) s.rows,
        count_p-append (is_active s.clock) s.rows (b ∷ []),
        inactive,
      ));
}
  where
    inactive : count_p (is_active s.clock) (b ∷ []) ≡ 0
    inactive = ground arith

claimed-IsBounded :
    (configured : ℕ) (s : State) (now lease : ℕ) (fresh : ℕ → ℕ) (locked : ℕ → Bool)
    → s.clock ≤ now
    → IsBounded configured s
    → IsBounded configured (record {
      clock = now;
      rows = (claim_available now configured lease fresh locked s.rows).1;
    })
claimed-IsBounded configured s now lease fresh locked h v =
    let later = Calms-IsBounded configured now s s.rows (unchanged-Calms s.clock now s.rows h) v in
    record {
      keys = claim_available-UniqueKeys now configured lease fresh locked s.rows v.keys;
      bound =
          omega
            (arith, later.bound, concurrency_bound now configured lease fresh locked s.rows v.keys);
    }

stamp_enqueued-Calms : (t now : ℕ) (b : Build) → t ≤ now → Calms t now b (stamp_enqueued now b)
unfolding stamp_enqueued
stamp_enqueued-Calms t now b h = (refl, λ a. ground arith)

clear_admission-Calms : (t now : ℕ) (b : Build) → Calms t now b (clear_admission now b)
unfolding clear_admission
clear_admission-Calms t now b = (refl, λ a. ground arith)

bound_of_empty : {configured : ℕ} → active_count 0 [] ≤ configured
unfolding active_count
bound_of_empty = omega arith

-- Every transaction keeps the keys and the bound.
pub Step-IsBounded :
    {configured : ℕ} {s t : State}
    → Step configured s t
    → IsBounded configured s
    → IsBounded configured t
unfolding mark_enqueued release
Step-IsBounded {configured} {s} (claimed now lease fresh locked h) v =
    claimed-IsBounded configured s now lease fresh locked h v
Step-IsBounded {configured} {s} (enqueued now i token h) v =
    Calms-IsBounded configured now s _
      (update_owned-Calms s.clock now i token (stamp_enqueued now) s.rows h
        (λ b. stamp_enqueued-Calms s.clock now b h))
      v
Step-IsBounded {configured} {s} (released now i token h) v =
    Calms-IsBounded configured now s _
      (update_owned-Calms s.clock now i token (clear_admission now) s.rows h
        (λ b. clear_admission-Calms s.clock now b))
      v
Step-IsBounded {configured} {s} (renewed now i token lease h) v =
    Calms-IsBounded configured now s _ (begin_or_renew-Calms s.clock now i token lease s.rows h) v
Step-IsBounded {configured} {s} (requested b fresh idle) v =
    requested-IsBounded configured s b fresh idle v
Step-IsBounded {configured} {s} (changed rows' p) v =
    Calms-IsBounded configured s.clock s rows'
      (Pointwise-weaken (λ x y r. (r.same_id, λ a. ground (arith, r.same_lease, r.stays_terminal)))
        s.rows rows' p)
      v

-- Under every interleaving of dispatch cycles, workers (heartbeats, releases) and changes of Builds by
-- the rest of the program, with one configured concurrency: identifiers stay unique, and at the time
-- of each transaction at most that many Builds hold a live reservation.
pub Reach-IsBounded :
    {configured : ℕ} {s : State} → Reach configured empty s → IsBounded configured s
Reach-IsBounded here = record { keys = tt; bound = bound_of_empty }
Reach-IsBounded (next r s) = Step-IsBounded s (Reach-IsBounded r)
