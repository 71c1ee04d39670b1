-- ===== src/Cleanup/Termination.antt =====
-- The loop of `claim_due_targets` ends.
use mcplica.Common.{
  ℕ, zero, suc, ◌≡◌, ◌≢◌, ◌≤◌, refl, subst, Bool, true, false, not, ◌&&◌, Option, none, some, List,
  [], ◌∷◌, arith, ◌==◌, is_some, length, All, Bool-cases, Option-cases, inl, inr, Memᴰ,
}
use mcplica.Common.Table.{find}
use mcplica.Cleanup.Target.{CleanupTarget}
use mcplica.Cleanup.Job.{job_id}
use mcplica.Cleanup.{State}
use mcplica.Cleanup.Claim.{
  Locks, first_due, earlier, is_due, due_job, due_target, start_target, claim, finished, held,
  claimed, turn, with_claim, claim_turns,
}
use mcplica.Cleanup.Due.{Turn-cases, first_due-mem}

earlier-is_some : (t : CleanupTarget) (o : Option CleanupTarget) → is_some (earlier t o) ≡ true
earlier-is_some t none = refl
earlier-is_some t (some u) = ground arith

first_due-is_some :
    (p : CleanupTarget → Bool) (ts : List CleanupTarget) {t : CleanupTarget}
    → Memᴰ t ts
    → p t ≡ true
    → is_some (first_due p ts) ≡ true
unfolding first_due
first_due-is_some p [] m h = elim m [ ]
first_due-is_some p (u ∷ ts) {t} (Memᴰ.head q) h =
    let e : p u ≡ true = subst (λ z. p z ≡ true) q h in
    rw (e, first_due) (earlier-is_some u (first_due p ts))
first_due-is_some p (u ∷ ts) {t} (Memᴰ.tail n) h = elim (Bool-cases (p u)) [
  | inl e ↦ rw (e, first_due) (earlier-is_some u (first_due p ts))
  | inr e ↦ rw (e, first_due) (first_due-is_some p ts n h)
]

-- Where no target is held, the job that is found has a target to claim.
free_turn :
    (l : Locks) (cutoff : ℕ) (s : State)
    → ((i : ℕ) → l.target_locked i ≡ false)
    → turn l cutoff s ≢ held
unfolding turn due_job due_target
free_turn l cutoff s free h =
    let p : CleanupTarget → Bool = λ t.
      is_due cutoff t && (is_some (find job_id t.job_id s.jobs) && not (l.job_locked t.job_id)) in
    elim (Option-cases (first_due p s.targets)) [
      | inl e ↦ let k : finished ≡ held = rw (e, turn, due_job) at h in cc
      | inr (t, e) ↦
          let q : CleanupTarget → Bool =
            λ u. is_due cutoff u && (u.job_id == t.job_id && not (l.target_locked u.id)) in
          let (m, passed) = first_due-mem p s.targets e in
          let unlocked : l.target_locked t.id ≡ false = free t.id in
          let due : is_due cutoff t ≡ true = and-left (is_due cutoff t) _ passed in
          let same : (t.job_id == t.job_id) ≡ true = ground arith in
          let good : q t ≡ true = rw (due, same, unlocked) refl in
          elim (Option-cases (first_due q s.targets)) [
            | inl n ↦ let k : false ≡ true = rw n at (first_due-is_some q s.targets m good) in cc
            | inr (u, n) ↦
                let k : claimed u ≡ held = rw (e, turn, due_job, due_target, n) at h in cc
          ]
    ]
  where
    and-left : (a b : Bool) → (a && b) ≡ true → a ≡ true
    and-left true b h = refl
    and-left false b h = cc

-- As many turns as targets may be claimed are enough, if no other transaction holds a due target
-- whose job it does not hold; each turn that finds one held makes one more necessary.
pub claim_turns_end :
    (now wall cutoff lease_seconds : ℕ) (fresh : ℕ → ℕ) (locks : List Locks) (limit : ℕ) (s : State)
    → All (λ (l : Locks). (i : ℕ) → l.target_locked i ≡ false) locks
    → limit ≤ length locks
    → is_some (claim_turns now wall cutoff lease_seconds fresh locks limit s) ≡ true
unfolding claim_turns
claim_turns_end now wall cutoff lease_seconds fresh locks zero s free h = refl
claim_turns_end now wall cutoff lease_seconds fresh [] (suc n) s free h =
    let no : ⊥ = omega (arith, h) in absurd no
claim_turns_end now wall cutoff lease_seconds fresh (l ∷ locks) (suc n) s free h =
    elim (Turn-cases (turn l cutoff s)) [
      | inl e ↦ rw (e, claim_turns) refl
      | inr (inl e) ↦ absurd (free_turn l cutoff s free.0 e)
      | inr (inr (t, e)) ↦
          let token : ℕ = fresh n in
          let rest =
            claim_turns_end now wall cutoff lease_seconds fresh locks n
              (claim now wall lease_seconds token t s) free.1 (omega (arith, h)) in
          rw (e, claim_turns)
            (still (start_target now wall lease_seconds token t)
              (claim_turns now wall cutoff lease_seconds fresh locks n
                (claim now wall lease_seconds token t s))
              rest)
    ]
  where
    still :
        (t : CleanupTarget) (o : Option (List CleanupTarget × State))
        → is_some o ≡ true
        → is_some (with_claim t o) ≡ true
    still t none k = cc
    still t (some r) k = refl
