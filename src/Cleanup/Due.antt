-- ===== src/Cleanup/Due.antt =====
-- What a turn of `claim_due_targets` finds.
use mcplica.Common.{
  ℕ, ◌≡◌, refl, Bool, true, false, not, ◌&&◌, Option, none, some, List, [], ◌∷◌, arith, ◌==◌,
  Bool-cases, ◌⊎◌, inl, inr, Option-cases, Memᴰ,
}
use mcplica.Cleanup.Target.{CleanupTarget, is_terminal_target}
use mcplica.Cleanup.{State}
use mcplica.Cleanup.Claim.{
  Locks, first_due, comes_before, is_due, due_job, due_target, Turn, finished, held, claimed, turn,
  with_claim,
}

pub first_due-mem :
    (p : CleanupTarget → Bool) (ts : List CleanupTarget) {t : CleanupTarget}
    → first_due p ts ≡ some t
    → Memᴰ t ts × (p t ≡ true)
unfolding first_due
first_due-mem p [] h = cc
first_due-mem p (u ∷ ts) {t} h = elim (Bool-cases (p u)) [
  | inr e ↦
      let k : first_due p ts ≡ some t = rw (e, first_due) at h in
      let (m, q) = first_due-mem p ts k in (Memᴰ.tail m, q)
  | inl e ↦ elim (Option-cases (first_due p ts)) [
    | inl n ↦
        let k : some u ≡ some t = rw (e, first_due, n) at h in
        let same : t ≡ u = cc in (Memᴰ.head same, rw same e)
    | inr (v, n) ↦
        let (m, q) = first_due-mem p ts n in
        elim (Bool-cases (comes_before v u)) [
          | inl b ↦
              let k : some v ≡ some t = rw (e, first_due, n, b) at h in
              let same : t ≡ v = cc in (Memᴰ.tail (rw same m), rw same q)
          | inr b ↦
              let k : some u ≡ some t = rw (e, first_due, n, b) at h in
              let same : t ≡ u = cc in (Memᴰ.head same, rw same e)
        ]
  ]
]

pub Turn-cases :
    (r : Turn) → (r ≡ finished) ⊎ ((r ≡ held) ⊎ ((t : CleanupTarget) × (r ≡ claimed t)))
Turn-cases finished = inl refl
Turn-cases held = inr (inl refl)
Turn-cases (claimed t) = inr (inr (t, refl))

-- A target that is claimed is a row of the table, due, and of a job and a target that are free.
pub turn-claimed :
    (l : Locks) (cutoff : ℕ) (s : State) {t : CleanupTarget}
    → turn l cutoff s ≡ claimed t
    → Memᴰ t s.targets × (is_due cutoff t ≡ true) × (l.target_locked t.id ≡ false)
unfolding turn due_target
turn-claimed l cutoff s {t} h = elim (Option-cases (due_job l cutoff s)) [
  | inl e ↦ let k : finished ≡ claimed t = rw (e, turn) at h in cc
  | inr (j, e) ↦ elim (Option-cases (due_target l cutoff j s)) [
    | inl d ↦ let k : held ≡ claimed t = rw (e, turn, d) at h in cc
    | inr (u, d) ↦
        let k : claimed u ≡ claimed t = rw (e, turn, d) at h in
        let same : u ≡ t = cc in
        let (m, q) =
          first_due-mem (λ x. is_due cutoff x && (x.job_id == j && not (l.target_locked x.id)))
            s.targets (rw same at d) in
        (m, ground arith, ground arith)
  ]
]

pub is_due-open :
    (cutoff : ℕ) (t : CleanupTarget) → is_due cutoff t ≡ true → is_terminal_target t.status ≡ false
is_due-open cutoff t h = ground arith

pub with_claim-some :
    (t : CleanupTarget) (r : Option (List CleanupTarget × State)) {ts : List CleanupTarget}
    {s : State}
    → with_claim t r ≡ some (ts, s)
    → (us : List CleanupTarget) × (r ≡ some (us, s)) × (ts ≡ t ∷ us)
with_claim-some t none {ts} {s} h = cc
with_claim-some t (some (us, s')) {ts} {s} h =
    let k : some (t ∷ us, s') ≡ some (ts, s) = h in
    let same : s' ≡ s = cc in let front : ts ≡ t ∷ us = cc in (us, rw same refl, front)
