-- ===== src/BuildStatus/Pipeline.antt =====
-- A Build that is not stopped walks through the whole pipeline.
use mcplica.Common.{
  ℕ, zero, suc, ◌+◌, ◌-◌, ◌≤◌, ◌≡◌, refl, true, false, Result, ok, err, ◌>>=◌, arith, Bool-cases,
  inl, inr,
}
use mcplica.BuildStatus.{BuildStatus, StatusError, is_terminal, next_status, ready, terminal}

-- The place in the pipeline, and past it for the two other ends.
abbrev pub stage : BuildStatus → ℕ
stage BuildStatus.queued = 0
stage BuildStatus.ingesting = 1
stage BuildStatus.parsing = 2
stage BuildStatus.indexing = 3
stage BuildStatus.analyzing = 4
stage BuildStatus.compiling = 5
stage BuildStatus.validating = 6
stage BuildStatus.packaging = 7
stage BuildStatus.ready = 8
stage BuildStatus.failed = 9
stage BuildStatus.cancelled = 9

-- `next_status` applied n times.
pub advance : ℕ → BuildStatus → Result StatusError BuildStatus
advance zero s = ok s
advance (suc n) s = next_status s >>= advance n

-- A status that is not terminal has a next one, exactly one stage later; a terminal status has none.
pub next_status_total :
    (s : BuildStatus)
    → (is_terminal s ≡ false → (t : BuildStatus) × (next_status s ≡ ok t) × (stage t ≡ stage s + 1))
      × (is_terminal s ≡ true → next_status s ≡ err terminal)
unfolding next_status
next_status_total BuildStatus.queued = (λ _. (BuildStatus.ingesting, refl, refl), λ e. cc)
next_status_total BuildStatus.ingesting = (λ _. (BuildStatus.parsing, refl, refl), λ e. cc)
next_status_total BuildStatus.parsing = (λ _. (BuildStatus.indexing, refl, refl), λ e. cc)
next_status_total BuildStatus.indexing = (λ _. (BuildStatus.analyzing, refl, refl), λ e. cc)
next_status_total BuildStatus.analyzing = (λ _. (BuildStatus.compiling, refl, refl), λ e. cc)
next_status_total BuildStatus.compiling = (λ _. (BuildStatus.validating, refl, refl), λ e. cc)
next_status_total BuildStatus.validating = (λ _. (BuildStatus.packaging, refl, refl), λ e. cc)
next_status_total BuildStatus.packaging = (λ _. (BuildStatus.ready, refl, refl), λ e. cc)
next_status_total BuildStatus.ready = (λ e. cc, λ _. refl)
next_status_total BuildStatus.failed = (λ e. cc, λ _. refl)
next_status_total BuildStatus.cancelled = (λ e. cc, λ _. refl)

stage_of_open : (s : BuildStatus) → is_terminal s ≡ false → stage s ≤ 7
stage_of_open BuildStatus.ready h = cc
stage_of_open BuildStatus.failed h = cc
stage_of_open BuildStatus.cancelled h = cc
stage_of_open _ h = omega arith

-- What `next_status` gives is one stage later, and READY at most.
pub next_status-stage :
    (s t : BuildStatus)
    → next_status s ≡ ok t
    → (is_terminal s ≡ false) × (stage t ≡ stage s + 1) × (stage t ≤ 8)
next_status-stage s t h = elim (Bool-cases (is_terminal s)) [
  | inl e ↦ let k = (next_status_total s).1 e in cc
  | inr e ↦
      let (u, is, later) = (next_status_total s).0 e in
      let same : t ≡ u = cc in
      let small = stage_of_open s e in (e, rw same later, rw same (omega arith))
]

-- From every status of the pipeline, `next_status` reaches READY in exactly as many steps as there
-- are stages left, and one step more is refused: the pipeline always ends.
pub pipeline_ends :
    (s : BuildStatus)
    → stage s ≤ 8
    → (advance (8 - stage s) s ≡ ok ready) × (advance (9 - stage s) s ≡ err terminal)
unfolding advance next_status
pipeline_ends BuildStatus.failed h = absurd (omega arith)
pipeline_ends BuildStatus.cancelled h = absurd (omega arith)
pipeline_ends _ h = (refl, refl)
