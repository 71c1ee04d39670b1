-- ===== src/RuntimeCommands/EffectState.antt =====
-- The effect state that a settings page shows: `latest_for_subject` and `list_transition` of the
-- repository, and `runtime_effect_update` of backend/app/services/deployment/effect_state.py.
use mcplica.Common.{
  ℕ, ◌≡◌, Bool, true, false, not, ◌&&◌, Option, none, some, List, arith, leb, ◌==◌, is_just,
  Option-cases, is_text, Text, inl, inr, filter, sort, All, All-filter_passed, All-sort, All-mem,
  All-of_mem, Memᴰ, first, first-none, first-some, mem-filter, mem-sort, ==_iff, All-map,
}
use mcplica.RuntimeCommands.{Command, is_effective, is_failed}

pub data EffectState : Type 0 where
  effective pending failed : EffectState

-- The three columns of the update.
pub record EffectUpdate : Type 0 where
  pub state : EffectState
  pub command_id : Option ℕ
  pub error_code : Option Text

later_first : Command → Command → Bool
later_first a b = leb b.sequence a.sequence

earlier_first : Command → Command → Bool
earlier_first a b = leb a.sequence b.sequence

unfoldable pub latest_for_subject : ℕ → Text → ℕ → List Command → Option Command
unfolding later_first
latest_for_subject project subject_type subject_id rows =
    first (λ _. true)
      (sort later_first (
        filter
          (λ m.
            m.project_id == project
            && (is_text m.subject_type subject_type && is_just m.subject_id subject_id))
          rows))

pub list_transition : ℕ → List Command → List Command
unfolding earlier_first
list_transition transition rows =
    sort earlier_first (filter (λ m. m.transition_id == transition) rows)

-- `failed or pending or latest`
abbrev or_else : Option Command → Command → Command
or_else none m = m
or_else (some p) m = p

summarize : Command → Option Command → Option Command → EffectUpdate
summarize latest failed_one unfinished =
    let selected = or_else failed_one (or_else unfinished latest) in
    record {
      state = elim failed_one [
        | some _ ↦ failed
        | none ↦ elim unfinished [ some _ ↦ pending | none ↦ effective ]
      ];
      command_id = some selected.id;
      error_code = selected.last_error_code;
    }

pub runtime_effect_update : ℕ → Text → ℕ → List Command → EffectUpdate
unfolding summarize
runtime_effect_update project subject_type subject_id rows =
    elim (latest_for_subject project subject_type subject_id rows) [
      | none ↦ record { state = effective; command_id = none; error_code = none }
      | some latest ↦
          let transition = list_transition latest.transition_id rows in
          summarize latest (first (λ m. is_failed m.status) transition)
            (first (λ m. not (is_effective m.status)) transition)
    ]

not-false : (b : Bool) → not b ≡ false → b ≡ true
not-false b h = ground arith

-- The commands of a transition that the list holds are those of the table.
mem-list_transition :
    (transition : ℕ) (rows : List Command) (p : Command)
    → Memᴰ p rows
    → p.transition_id ≡ transition
    → Memᴰ p (list_transition transition rows)
unfolding list_transition
mem-list_transition transition rows p m e =
    mem-sort earlier_first (filter (λ c. c.transition_id == transition) rows) (
      mem-filter (λ c. c.transition_id == transition) rows m
        ((==_iff p.transition_id transition).1 e))

abbrev pub IsOfTransition : ℕ → List Command → Command → Type 0
IsOfTransition transition rows p = Memᴰ p rows × (p.transition_id ≡ transition)

list_transition-IsOfTransition :
    (transition : ℕ) (rows : List Command)
    → All (IsOfTransition transition rows) (list_transition transition rows)
unfolding list_transition
list_transition-IsOfTransition transition rows =
    let test = λ (m : Command). m.transition_id == transition in
    All-sort earlier_first (IsOfTransition transition rows) (filter test rows) (
      All-map (λ m h. (h.0, (==_iff m.transition_id transition).0 h.1)) (filter test rows)
        (All-filter_passed (λ m. Memᴰ m rows) test rows
          (All-of_mem (λ m. Memᴰ m rows) rows (λ m k. k))))

-- The meaning of an update, by its state: `m` is the command that it names.
abbrev pub Reports : ℕ → List Command → EffectUpdate → Command → Type 0
Reports transition rows u m =
    IsOfTransition transition rows m
    × (u.command_id ≡ some m.id)
    × (u.error_code ≡ m.last_error_code)

pub data IsReportOf (latest : Command) (rows : List Command) (u : EffectUpdate) : Type 0 where
  all_effective :
      u.state ≡ effective
      → ((p : Command) → IsOfTransition latest.transition_id rows p → is_effective p.status ≡ true)
      → IsReportOf latest rows u
  some_failed :
      (m : Command)
      → u.state ≡ failed
      → is_failed m.status ≡ true
      → Reports latest.transition_id rows u m
      → IsReportOf latest rows u
  some_unfinished :
      (m : Command)
      → u.state ≡ pending
      → is_effective m.status ≡ false
      → ((p : Command) → IsOfTransition latest.transition_id rows p → is_failed p.status ≡ false)
      → Reports latest.transition_id rows u m
      → IsReportOf latest rows u

-- With a latest command for the subject, the update reports on its whole transition: FAILED names a
-- failed command of it, PENDING names an unfinished one and none has failed, and EFFECTIVE is
-- reported only when every command of the transition is effective.
pub runtime_effect_update_exact :
    (project : ℕ) (subject_type : Text) (subject_id : ℕ) (rows : List Command) (latest : Command)
    → latest_for_subject project subject_type subject_id rows ≡ some latest
    → IsReportOf latest rows (runtime_effect_update project subject_type subject_id rows)
unfolding runtime_effect_update
runtime_effect_update_exact project subject_type subject_id rows latest e =
    rw (e, runtime_effect_update)
      (elim (Option-cases (first is_failed_one transition)) [
        | inr (m, f) ↦
            let (m_in, m_failed) = first-some is_failed_one transition f in
            some_failed m (rw (f, summarize)) m_failed
              (of_transition m m_in, rw (f, summarize), rw (f, summarize))
        | inl f ↦ elim (Option-cases (first is_unfinished transition)) [
          | inr (m, g) ↦
              let (m_in, m_unfinished) = first-some is_unfinished transition g in
              some_unfinished m (rw (f, g, summarize)) (ground arith)
                (λ p q.
                  first-none is_failed_one transition f (mem-list_transition t rows p q.0 q.1))
                (of_transition m m_in, rw (f, g, summarize), rw (f, g, summarize))
          | inl g ↦ all_effective (rw (f, g, summarize)) (λ p q.
              not-false (is_effective p.status)
                (first-none is_unfinished transition g (mem-list_transition t rows p q.0 q.1)))
        ]
      ])
  where
    t : ℕ
    t = latest.transition_id

    transition : List Command
    transition = list_transition t rows

    is_failed_one : Command → Bool
    is_failed_one m = is_failed m.status

    is_unfinished : Command → Bool
    is_unfinished m = not (is_effective m.status)

    of_transition : (m : Command) → Memᴰ m transition → IsOfTransition t rows m
    of_transition m k =
        All-mem (IsOfTransition t rows) transition (list_transition-IsOfTransition t rows) k
