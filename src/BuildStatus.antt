-- ===== src/BuildStatus.antt =====
-- The status of a Build: `BuildStatus`, `PIPELINE_STATUSES`, `TERMINAL_STATUSES` and `next_status` of
-- backend/app/domain/builds.py.
pub mod Pipeline
mod Examples
use mcplica.Common.{
  ℕ, zero, suc, ◌+◌, Bool, true, false, Option, none, some, List, [], ◌∷◌, if◌then◌else◌, Result,
  ok, err,
}
use mathlib.Core.Logic.{ite}

pub data BuildStatus : Type 0 where
  queued ingesting parsing indexing analyzing compiling validating packaging : BuildStatus
  ready failed cancelled : BuildStatus

pub BuildStatus-discrete : Discrete BuildStatus
BuildStatus-discrete = hlevel

unfoldable pub pipeline_statuses : List BuildStatus
pipeline_statuses =
    queued ∷ ingesting ∷ parsing ∷ indexing ∷ analyzing ∷ compiling ∷ validating ∷ packaging ∷ ready
    ∷ []

-- `status in TERMINAL_STATUSES`
abbrev pub is_terminal : BuildStatus → Bool
is_terminal ready = true
is_terminal failed = true
is_terminal cancelled = true
is_terminal _ = false

abbrev pub is_queued : BuildStatus → Bool
is_queued queued = true
is_queued _ = false

-- The `ValueError`s: of a terminal status, of `index` on a status that is not in the tuple, and the
-- `IndexError` behind the tuple's end.
pub data StatusError : Type 0 where
  terminal not_in_pipeline past_the_end : StatusError

index_of : BuildStatus → List BuildStatus → ℕ → Option ℕ
index_of s [] i = none
index_of s (t ∷ ts) i = ite (BuildStatus-discrete t s) (some i) (index_of s ts (suc i))

element : List BuildStatus → ℕ → Result StatusError BuildStatus
element [] i = err past_the_end
element (s ∷ ss) zero = ok s
element (s ∷ ss) (suc i) = element ss i

pub next_status : BuildStatus → Result StatusError BuildStatus
unfolding pipeline_statuses index_of element BuildStatus-discrete
next_status current =
    if is_terminal current then err terminal else elim (index_of current pipeline_statuses 0) [
      | none ↦ err not_in_pipeline
      | some i ↦ element pipeline_statuses (i + 1)
    ]
