-- ===== src/RuntimeCommands/Ordering.antt =====
-- The order of the commands of one lifecycle transition: a later command does not start before the
-- earlier ones are effective, on every table that the operations can reach.
use mcplica.Common.{
  ℕ, ◌<◌, ◌≡◌, ◌==◌, Bool-cases, inl, inr, refl, Bool, true, false, Option, none, some, List, [],
  ◌∷◌, ◌++◌, arith, is_just, is_some, length, Text, ◌≤◌, All, All-map, Pointwise, Pointwise-refl,
  ok,
}
use mcplica.Common.Table.{find, update, Pointwise-update}
use mcplica.RuntimeCommands.{
  Command, Status, id_of, is_effective, is_failed, has_unfinished_predecessor,
  require_execution_owner, running,
}

abbrev pub is_started : Status → Bool
is_started Status.running = true
is_started Status.effective = true
is_started _ = false

abbrev pub text_or_empty : Option Text → Text
text_or_empty none = []
text_or_empty (some t) = t

abbrev pub has_owner : Status → Bool
has_owner Status.dispatched = true
has_owner Status.running = true
has_owner _ = false

-- The CHECK constraints of the table on owner, status and error code, and the width of that column.
pub record SatisfiesChecks (m : Command) : Type 0 where
  pub owner_token : is_some m.execution_token ≡ has_owner m.status
  pub owner_lease : is_some m.lease_expires_at ≡ has_owner m.status
  pub effective_shape :
      is_effective m.status ≡ true → (is_some m.effective_at ≡ true) × (is_some m.failed_at ≡ false)
  pub failed_shape :
      is_failed m.status ≡ true → (is_some m.failed_at ≡ true) × (is_some m.last_error_code ≡ true)
  pub code_width : length (text_or_empty m.last_error_code) ≤ 128

-- What an operation may do to a row `x` of `rows`, making it `y`.
pub record Advances (rows : List Command) (x y : Command) : Type 0 where
  pub same_id : x.id ≡ y.id
  pub same_transition : y.transition_id ≡ x.transition_id
  pub same_sequence : y.sequence ≡ x.sequence
  pub final : is_effective x.status ≡ true → y ≡ x
  pub starts_in_order : is_started y.status ≡ true → has_unfinished_predecessor rows x ≡ false
  pub keeps_checks : SatisfiesChecks x → SatisfiesChecks y

-- Every started command has only effective predecessors.
abbrev pub IsOrdered : List Command → Type 0
IsOrdered rows =
    All (λ m. is_started m.status ≡ true → has_unfinished_predecessor rows m ≡ false) rows

stays_effective :
    {base : List Command} {x y : Command}
    → Advances base x y
    → is_effective x.status ≡ true
    → is_effective y.status ≡ true
stays_effective a e = rw (a.final e) e

unfinished-Pointwise :
    (base : List Command) (m m' : Command) (xs ys : List Command)
    → Pointwise (Advances base) xs ys
    → m'.transition_id ≡ m.transition_id
    → m'.sequence ≡ m.sequence
    → has_unfinished_predecessor xs m ≡ false
    → has_unfinished_predecessor ys m' ≡ false
unfolding has_unfinished_predecessor
unfinished-Pointwise base m m' [] [] p t s h = h
unfinished-Pointwise base m m' [] (y ∷ ys) p t s h = elim p [ ]
unfinished-Pointwise base m m' (x ∷ xs) [] p t s h = elim p [ ]
unfinished-Pointwise base m m' (x ∷ xs) (y ∷ ys) (a, p) t s h = ground (
  arith,
  unfinished-Pointwise base m m' xs ys p t s,
  a.same_transition,
  a.same_sequence,
  stays_effective a,
)

-- A row of another transition, or with a later sequence number, is no predecessor.
pub unfinished-concat :
    (xs : List Command) (m p : Command)
    → (m.transition_id ≡ p.transition_id → m.sequence < p.sequence)
    → has_unfinished_predecessor xs m ≡ false
    → has_unfinished_predecessor (xs ++ p ∷ []) m ≡ false
unfolding has_unfinished_predecessor
unfinished-concat [] m p s h = elim (Bool-cases (p.transition_id == m.transition_id)) [
  | inl e ↦
      let same : m.transition_id ≡ p.transition_id = ground arith in
      let later = s same in ground (arith, later)
  | inr e ↦ ground arith
]
unfinished-concat (x ∷ xs) m p s h = ground (arith, unfinished-concat xs m p s)

-- A change of rows that advances each of them keeps the order.
pub Pointwise-IsOrdered :
    (rows rows' : List Command) → Pointwise (Advances rows) rows rows' → IsOrdered rows'
Pointwise-IsOrdered rows rows' p = each rows rows' p
  where
    each :
        (xs ys : List Command)
        → Pointwise (Advances rows) xs ys
        → All (λ m. is_started m.status ≡ true → has_unfinished_predecessor rows' m ≡ false) ys
    each [] [] q = tt
    each [] (y ∷ ys) q = elim q [ ]
    each (x ∷ xs) [] q = elim q [ ]
    each (x ∷ xs) (y ∷ ys) (a, q) = (
      λ e.
          unfinished-Pointwise rows x y rows rows' p a.same_transition a.same_sequence
            (a.starts_in_order e),
      each xs ys q,
    )

pub IsOrdered-Advances : (rows : List Command) → IsOrdered rows → All (λ m. Advances rows m m) rows
IsOrdered-Advances rows h =
    All-map
      (λ m o. record {
        same_id = refl;
        same_transition = refl;
        same_sequence = refl;
        final = λ _. refl;
        starts_in_order = o;
        keeps_checks = λ c. c;
      })
      rows h

-- No row changes.
pub unchanged-Advances :
    (rows : List Command) → IsOrdered rows → Pointwise (Advances rows) rows rows
unchanged-Advances rows h = Pointwise-refl (Advances rows) rows (IsOrdered-Advances rows h)

-- The same for one row.
pub update-Advances :
    (rows : List Command) (i : ℕ) (f : Command → Command) {m : Command}
    → IsOrdered rows
    → find id_of i rows ≡ some m
    → Advances rows m (f m)
    → Pointwise (Advances rows) rows (update id_of i f rows)
update-Advances rows i f h e a =
    Pointwise-update id_of (Advances rows) i f rows (IsOrdered-Advances rows h) e a

-- The guard of an execution: the row that `require_execution_owner` returns.
pub owner_row :
    (now i token : ℕ) (rows : List Command) {m : Command}
    → require_execution_owner now i token rows ≡ ok m
    → (find id_of i rows ≡ some m)
      × (m.status ≡ running)
      × (has_unfinished_predecessor rows m ≡ false)
      × (is_just m.execution_token token ≡ true)
unfolding require_execution_owner
owner_row now i token rows h = ground arith
