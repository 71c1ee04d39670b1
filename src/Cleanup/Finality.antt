-- ===== src/Cleanup/Finality.antt =====
-- A target that is completed, skipped or failed stays as it is.
use mcplica.Common.{
  ℕ, zero, suc, ◌≡◌, refl, sym, ap, Bool, true, false, not, ◌&&◌, Option, some, List, [], ◌∷◌, ◌++◌,
  map, arith, ◌==◌, is_some, any, All-of_mem, Bool-cases, inl, inr, Option-cases, ok, err, Text,
  Pointwise, Pointwise-refl, Pointwise-map,
}
use mcplica.Common.Table.{find, update, Pointwise-update, find-Pointwise, find-append, find_of_mem}
use mcplica.Cleanup.Target.{TargetType, CleanupTarget, target_id, is_terminal_target, is_running}
use mcplica.Cleanup.Job.{CleanupJob, job_id, find_by_key}
use mcplica.Cleanup.{
  State, integrity_error, NewJob, new_job, create_job, is_duplicate, new_target, one_target_more,
  add_target, finalize_empty_job,
}
use mcplica.Cleanup.Claim.{Locks, start_target, claim, claim_turns, cutoff_of, turn, is_attempt}
use mcplica.Cleanup.Settle.{
  settle_target, refresh_job, complete_target, mark_completed, is_shown, Failure, fail_target,
  mark_failed, make_due, awaits_attempt, make_job_due,
}
use mcplica.Cleanup.Due.{Turn-cases, turn-claimed, is_due-open, with_claim-some}
use mcplica.Cleanup.Accounts.{IsConsistent}
use mcplica.Cleanup.SettledAccounts.{find-own}
use mcplica.Cleanup.ClaimedAccounts.{claim-IsConsistent}
use mcplica.Cleanup.Invariant.{
  Step, job_created, target_added, emptied, targets_claimed, target_completed, target_failed,
  made_due, Reach, nothing, more, empty, Step-IsConsistent, Reach-IsAccounted,
}

-- A row and what it has become.
abbrev pub IsKept : CleanupTarget → CleanupTarget → Type 0
IsKept x y = (x.id ≡ y.id) × (is_terminal_target x.status ≡ true → y ≡ x)

unchanged : (ts : List CleanupTarget) → Pointwise IsKept ts ts
unchanged ts = Pointwise-refl IsKept ts (All-of_mem (λ x. IsKept x x) ts (λ x m. (refl, λ h. refl)))

open_update :
    (i : ℕ) (f : CleanupTarget → CleanupTarget) (ts : List CleanupTarget) {t : CleanupTarget}
    → find target_id i ts ≡ some t
    → is_terminal_target t.status ≡ false
    → (f t).id ≡ t.id
    → Pointwise IsKept ts (update target_id i f ts)
open_update i f ts at p e =
    Pointwise-update target_id IsKept i f ts
      (All-of_mem (λ x. IsKept x x) ts (λ x m. (refl, λ h. refl))) at (sym e, λ h. cc)

-- Rows that change one by one keep a final row.
kept_of_Pointwise :
    (i : ℕ) (ts us : List CleanupTarget) {t : CleanupTarget}
    → Pointwise IsKept ts us
    → find target_id i ts ≡ some t
    → is_terminal_target t.status ≡ true
    → find target_id i us ≡ some t
kept_of_Pointwise i ts us p at h =
    let (u, there, kept) = find-Pointwise target_id IsKept i ts us (λ a b r. r.0) p at in
    rw (← kept.1 h) there

abbrev Stays : ℕ → CleanupTarget → State → Type 0
Stays i t s = find target_id i s.targets ≡ some t

claim_turns-final :
    (now wall cutoff lease_seconds : ℕ) (fresh : ℕ → ℕ) (locks : List Locks) (limit : ℕ) (s : State)
    {ts : List CleanupTarget} {s' : State} (i : ℕ) {x : CleanupTarget}
    → claim_turns now wall cutoff lease_seconds fresh locks limit s ≡ some (ts, s')
    → IsConsistent s
    → is_terminal_target x.status ≡ true
    → Stays i x s
    → Stays i x s'
unfolding claim_turns claim
claim_turns-final now wall cutoff lease_seconds fresh locks zero s {ts} {s'} i h c p at =
    let k : some ([], s) ≡ some (ts, s') = h in let same : s' ≡ s = cc in rw same at
claim_turns-final now wall cutoff lease_seconds fresh [] (suc n) s i h c p at = cc
claim_turns-final now wall cutoff lease_seconds fresh (l ∷ locks) (suc n) s {ts} {s'} i {x} h c p
      at =
    elim (Turn-cases (turn l cutoff s)) [
      | inl e ↦
          let k : some ([], s) ≡ some (ts, s') = rw (e, claim_turns) at h in
          let same : s' ≡ s = cc in rw same at
      | inr (inl e) ↦
          claim_turns-final now wall cutoff lease_seconds fresh locks (suc n) s i {x = x}
            (rw (e, claim_turns) at h) c p at
      | inr (inr (t, e)) ↦
          let (m, due, free) = turn-claimed l cutoff s e in
          let token : ℕ = fresh n in
          let s'' : State = claim now wall lease_seconds token t s in
          let (us, rest, front) =
            with_claim-some (start_target now wall lease_seconds token t)
              (claim_turns now wall cutoff lease_seconds fresh locks n s'')
              (rw (e, claim_turns) at h) in
          let found = find_of_mem target_id s.targets c.target_keys m in
          let pending = is_due-open cutoff t due in
          claim_turns-final now wall cutoff lease_seconds fresh locks n s'' i {x = x} rest
            (claim-IsConsistent now wall lease_seconds token t s found pending c) p
            (kept_of_Pointwise i s.targets s''.targets
              (open_update t.id (start_target now wall lease_seconds token) s.targets found pending
                (unfold start_target in refl))
              at p)
    ]

-- The two ways in which an attempt ends change an open row.
mark_completed-IsKept :
    (now wall j : ℕ) (skipped : Bool) (owner : Option (ℕ × ℕ)) (s : State)
    → Pointwise IsKept s.targets (mark_completed now wall j skipped owner s).1.targets
unfolding mark_completed settle_target refresh_job
mark_completed-IsKept now wall j skipped owner s =
    elim (Option-cases (find target_id j s.targets)) [
      | inl e ↦ rw (e, mark_completed) (unchanged s.targets)
      | inr (t, e) ↦ elim (Bool-cases (is_terminal_target t.status)) [
        | inl p ↦ rw (e, mark_completed, p) (unchanged s.targets)
        | inr p ↦ elim (Bool-cases (is_running t.status && not (is_shown owner t))) [
          | inl q ↦ rw (e, mark_completed, p, q) (unchanged s.targets)
          | inr q ↦
              rw (e, mark_completed, p, q)
                (open_update t.id (complete_target now skipped) s.targets (find-own s.targets j e) p
                  (unfold complete_target in refl))
        ]
      ]
    ]

running_open :
    (t : CleanupTarget) (b : Bool)
    → (is_running t.status && b) ≡ true
    → is_terminal_target t.status ≡ false
running_open t b h = ground arith

mark_failed-IsKept :
    (now wall j : ℕ) (e : Failure) (token attempt : ℕ) (s : State)
    → Pointwise IsKept s.targets (mark_failed now wall j e token attempt s).1.targets
unfolding mark_failed settle_target refresh_job
mark_failed-IsKept now wall j e token attempt s = elim (Option-cases (find target_id j s.targets)) [
  | inl h ↦ rw (h, mark_failed) (unchanged s.targets)
  | inr (t, h) ↦ elim (Bool-cases (is_running t.status && is_attempt token attempt t)) [
    | inr q ↦ rw (h, mark_failed, q) (unchanged s.targets)
    | inl q ↦
        rw (h, mark_failed, q)
          (open_update t.id (fail_target now wall e) s.targets (find-own s.targets j h)
            (running_open t (is_attempt token attempt t) q) (unfold fail_target in refl))
  ]
]

make_due-IsKept : (now wall j : ℕ) (t : CleanupTarget) → IsKept t (make_due now wall j t)
make_due-IsKept now wall j t = elim (Bool-cases (t.job_id == j && awaits_attempt t.status)) [
  | inl e ↦ rw e (refl, λ h. ground arith)
  | inr e ↦ rw e (refl, λ h. refl)
]

created_targets :
    (c : NewJob) (s : State) {j : CleanupJob} {s' : State}
    → create_job c s ≡ ok (j, s')
    → s'.targets ≡ s.targets
unfolding create_job
created_targets c s {j} {s'} h = elim (Option-cases (find_by_key c.idempotency_key s.jobs)) [
  | inr (x, e) ↦ let k : ok (x, s) ≡ ok (j, s') = rw (e, create_job) at h in cc
  | inl e ↦ elim (Option-cases (find job_id c.new_id s.jobs)) [
    | inr (x, d) ↦ let k : err integrity_error ≡ ok (j, s') = rw (e, create_job, d) at h in cc
    | inl d ↦
        let k : ok (new_job c, record s { jobs = s.jobs ++ new_job c ∷ [] }) ≡ ok (j, s') =
          rw (e, create_job, d) at h in
        let same : s' ≡ record s { jobs = s.jobs ++ new_job c ∷ [] } = cc in
        ap (λ x. x.targets) same
  ]
]

pub added_targets :
    (now i j : ℕ) (key : Text) (type : TargetType) (at : ℕ) (s : State) {s' : State}
    → add_target now i j key type at s ≡ ok s'
    → (rows : List CleanupTarget) × (s'.targets ≡ s.targets ++ rows)
unfolding add_target
added_targets now i j key type at s {s'} h =
    elim (Bool-cases (any (is_duplicate j key) s.targets)) [
      | inl e ↦
          let k : ok s ≡ ok s' = rw (e, add_target) at h in
          let same : s' ≡ s = cc in ([], rw (same, append_nil s.targets) refl)
      | inr e ↦ elim (Option-cases (find target_id i s.targets)) [
        | inr (x, d) ↦ let k : err integrity_error ≡ ok s' = rw (e, add_target, d) at h in cc
        | inl d ↦ elim (Bool-cases (is_some (find job_id j s.jobs))) [
          | inr n ↦ let k : err integrity_error ≡ ok s' = rw (e, add_target, d, n) at h in cc
          | inl n ↦
              let t : CleanupTarget = new_target now i j key type at in
              let s'' : State = record {
                jobs = update job_id j one_target_more s.jobs;
                targets = s.targets ++ t ∷ [];
              } in
              let k : ok s'' ≡ ok s' = rw (e, add_target, d, n) at h in
              let same : s' ≡ s'' = cc in (t ∷ [], ap (λ x. x.targets) same)
        ]
      ]
    ]
  where
    append_nil : (ts : List CleanupTarget) → ts ++ [] ≡ ts
    append_nil [] = refl
    append_nil (t ∷ ts) = rw (append_nil ts) refl

Step-final :
    {s s' : State} (i : ℕ) {x : CleanupTarget}
    → Step s s'
    → IsConsistent s
    → is_terminal_target x.status ≡ true
    → Stays i x s
    → Stays i x s'
unfolding create_job add_target finalize_empty_job make_job_due
Step-final {s} {s'} i (job_created c j h) v p at = rw (created_targets c s h) at
Step-final {s} {s'} i {x} (target_added now k j key type t h) v p at =
    let (rows, e) = added_targets now k j key type t s h in
    rw e (find-append target_id i s.targets rows at)
Step-final {s} i (emptied wall j) v p at = at
Step-final {s} i {x} (targets_claimed now wall t lease fresh locks limit ts h) v p at =
    claim_turns-final now wall (cutoff_of wall t) lease fresh locks limit s i {x = x} h v p at
Step-final {s} i {x} (target_completed now wall j skipped owner) v p at =
    kept_of_Pointwise i s.targets (mark_completed now wall j skipped owner s).1.targets
      (mark_completed-IsKept now wall j skipped owner s) at p
Step-final {s} i {x} (target_failed now wall j e token attempt) v p at =
    kept_of_Pointwise i s.targets (mark_failed now wall j e token attempt s).1.targets
      (mark_failed-IsKept now wall j e token attempt s) at p
Step-final {s} i {x} (made_due now wall j) v p at =
    kept_of_Pointwise i s.targets (map (make_due now wall j) s.targets)
      (Pointwise-map IsKept (make_due now wall j) s.targets (
        All-of_mem (λ t. IsKept t (make_due now wall j t)) s.targets
          (λ t m. make_due-IsKept now wall j t)))
      at p

-- Once a target is completed, skipped or failed, no sequence of the methods changes a column of its
-- row or removes it.
pub terminal_stays :
    {s s' : State} (i : ℕ) {x : CleanupTarget}
    → Reach empty s
    → Reach s s'
    → find target_id i s.targets ≡ some x
    → is_terminal_target x.status ≡ true
    → find target_id i s'.targets ≡ some x
terminal_stays {s} i {x} from r at p = (follow r (Reach-IsAccounted from)).0
  where
    follow : {s' : State} → Reach s s' → IsConsistent s → Stays i x s' × IsConsistent s'
    follow nothing c = (at, c)
    follow (more r h) c =
        let (there, d) = follow r c in (Step-final i {x = x} h d p there, Step-IsConsistent h d)
