-- ===== src/RuntimeCommands/Lifecycle.antt =====
-- The tables that the operations of the outbox reach, in any interleaving of dispatchers, workers
-- and requests, and what holds of all of them.
use mcplica.Common.{
  ℕ, ◌<◌, ◌≡◌, ◌≢◌, ◌⊎◌, refl, sym, Bool, true, false, none, List, [], ◌∷◌, ◌++◌, arith,
  Option-cases, All, Pointwise, ok, inl, inr, Memᴰ, All-append, All-mem,
}
use mcplica.Common.Table.{find, UniqueKeys, UniqueKeys-of_Pointwise, UniqueKeys-concat}
use mcplica.RuntimeCommands.{
  Command, NewCommand, Failure, id_of, is_effective, has_unfinished_predecessor, create, new_row,
  find_by_key, claim_for_execution, renew_execution, mark_effective, mark_failed,
  mark_dispatch_failed, claim_due_for_dispatch,
}
use mcplica.RuntimeCommands.Dispatch.{claim_due_for_dispatch-Advances}
use mcplica.RuntimeCommands.Steps.{
  claim_for_execution-Advances, renew_execution-Advances, mark_effective-Advances,
  mark_failed-Advances, mark_dispatch_failed-Advances,
}
use mcplica.RuntimeCommands.Ordering.{
  unfinished-concat, unchanged-Advances, Advances, IsOrdered, SatisfiesChecks, unchanged-Advances,
  Pointwise-IsOrdered, is_started,
}

abbrev pub sequence_of : Command → ℕ
sequence_of m = m.sequence

-- The invariant: primary keys, sequence numbers, CHECK constraints, and the order inside each
-- transition.
pub record IsValid (rows : List Command) : Type 0 where
  pub keys : UniqueKeys id_of rows
  pub sequences : UniqueKeys sequence_of rows
  pub ordered : IsOrdered rows
  pub checks : All SatisfiesChecks rows

-- A change that advances each row keeps the invariant.
pub Pointwise-IsValid :
    (rows rows' : List Command)
    → IsValid rows
    → Pointwise (Advances rows) rows rows'
    → IsValid rows'
Pointwise-IsValid rows rows' v p = record {
  keys = UniqueKeys-of_Pointwise id_of rows rows' (same_ids rows rows' p) v.keys;
  sequences =
      UniqueKeys-of_Pointwise sequence_of rows rows' (same_sequences rows rows' p) v.sequences;
  ordered = Pointwise-IsOrdered rows rows' p;
  checks = kept rows rows' p v.checks;
}
  where
    same_ids :
        (xs ys : List Command)
        → Pointwise (Advances rows) xs ys
        → Pointwise (λ x y. x.id ≡ y.id) xs ys
    same_ids [] [] q = tt
    same_ids [] (y ∷ ys) q = elim q [ ]
    same_ids (x ∷ xs) [] q = elim q [ ]
    same_ids (x ∷ xs) (y ∷ ys) (a, q) = (a.same_id, same_ids xs ys q)

    same_sequences :
        (xs ys : List Command)
        → Pointwise (Advances rows) xs ys
        → Pointwise (λ x y. x.sequence ≡ y.sequence) xs ys
    same_sequences [] [] q = tt
    same_sequences [] (y ∷ ys) q = elim q [ ]
    same_sequences (x ∷ xs) [] q = elim q [ ]
    same_sequences (x ∷ xs) (y ∷ ys) (a, q) = (sym a.same_sequence, same_sequences xs ys q)

    kept :
        (xs ys : List Command)
        → Pointwise (Advances rows) xs ys
        → All SatisfiesChecks xs
        → All SatisfiesChecks ys
    kept [] [] q c = tt
    kept [] (y ∷ ys) q c = elim q [ ]
    kept (x ∷ xs) [] q c = elim q [ ]
    kept (x ∷ xs) (y ∷ ys) (a, q) (c, cs) = (a.keeps_checks c, kept xs ys q cs)

-- What the identity column gives to a new command of transition `t`: a number that no row has, above
-- those of the transition; rows of other transitions may be committed out of order.
abbrev pub IsNextFor : ℕ → ℕ → Command → Type 0
IsNextFor t sequence p = (sequence ≢ p.sequence) × (p.transition_id ≡ t → p.sequence < sequence)

-- One transaction of the outbox, with any arguments, at any time.
pub data Step (rows : List Command) : List Command → Type 0 where
  created :
      (now sequence : ℕ) (c : NewCommand)
      → All (IsNextFor c.transition_id sequence) rows
      → find id_of c.command_id rows ≡ none
      → Step rows (create now sequence c rows).1
  dispatch_claimed :
      (now : ℕ) (fresh : ℕ → ℕ) (locked : ℕ → Bool) (limit lease : ℕ)
      → Step rows (claim_due_for_dispatch now fresh locked limit lease rows).1
  execution_claimed :
      (now i token lease : ℕ) → Step rows (claim_for_execution now i token lease rows).1
  renewed : (now i token lease : ℕ) → Step rows (renew_execution now i token lease rows).1
  marked_effective :
      (now i token : ℕ) {rows' : List Command}
      → mark_effective now i token rows ≡ ok rows'
      → Step rows rows'
  marked_failed :
      (now i token : ℕ) (f : Failure) {rows' : List Command}
      → mark_failed now i token f rows ≡ ok rows'
      → Step rows rows'
  dispatch_failed :
      (now i token : ℕ) (f : Failure) → Step rows (mark_dispatch_failed now i token f rows).1

pub data Reach (rows : List Command) : List Command → Type 0 where
  here : Reach rows rows
  next : {rows' rows'' : List Command} → Reach rows rows' → Step rows' rows'' → Reach rows rows''

fresh_sequence :
    (t sequence : ℕ) (rows : List Command)
    → All (IsNextFor t sequence) rows
    → find sequence_of sequence rows ≡ none
unfolding find
fresh_sequence t sequence [] h = refl
fresh_sequence t sequence (x ∷ rows) h = ground (arith, h.0.0, fresh_sequence t sequence rows h.1)

create-IsValid :
    (now sequence : ℕ) (c : NewCommand) (rows : List Command)
    → All (IsNextFor c.transition_id sequence) rows
    → find id_of c.command_id rows ≡ none
    → IsValid rows
    → IsValid (create now sequence c rows).1
unfolding create new_row
create-IsValid now sequence c rows later fresh v =
    elim (Option-cases (find_by_key c.idempotency_key rows)) [
      | inl e ↦
          let m = new_row now sequence c in
          rw (e, create)
            (record {
              keys = UniqueKeys-concat id_of rows m fresh v.keys;
              sequences =
                  UniqueKeys-concat sequence_of rows m
                    (fresh_sequence c.transition_id sequence rows later) v.sequences;
              ordered =
                  All-append _ rows (m ∷ []) (later_ordered rows v.ordered later) (λ q. cc, tt);
              checks = All-append SatisfiesChecks rows (m ∷ []) v.checks (ground arith, tt);
            })
      | inr (m, e) ↦ rw (e, create) v
    ]
  where
    later_ordered :
        (xs : List Command)
        → All (λ m. is_started m.status ≡ true → has_unfinished_predecessor rows m ≡ false) xs
        → All (IsNextFor c.transition_id sequence) xs
        → All
            (λ m.
              is_started m.status ≡ true
              → has_unfinished_predecessor (rows ++ new_row now sequence c ∷ []) m ≡ false)
            xs
    later_ordered [] h k = tt
    later_ordered (x ∷ xs) (h, hs) (k, ks) =
        (λ e. unfinished-concat rows x (new_row now sequence c) k.1 (h e), later_ordered xs hs ks)

-- A transaction advances the rows that there are, or it adds one.
pub Step-cases :
    {rows rows' : List Command}
    → IsValid rows
    → Step rows rows'
    → Pointwise (Advances rows) rows rows'
      ⊎ ((m : Command) × (rows' ≡ rows ++ m ∷ []) × IsValid rows')
Step-cases {rows} v (created now sequence c later fresh) =
    elim (Option-cases (find_by_key c.idempotency_key rows)) [
      | inl e ↦ inr (
        new_row now sequence c,
        unfold create in rw (e, create),
        create-IsValid now sequence c rows later fresh v,
      )
      | inr (m, e) ↦ unfold create in rw (e, create) (inl (unchanged-Advances rows v.ordered))
    ]
Step-cases {rows} v (dispatch_claimed now fresh locked limit lease) =
    inl (claim_due_for_dispatch-Advances now fresh locked limit lease rows v.keys v.ordered)
Step-cases {rows} v (execution_claimed now i token lease) =
    inl (claim_for_execution-Advances now i token lease rows v.ordered)
Step-cases {rows} v (renewed now i token lease) =
    inl (renew_execution-Advances now i token lease rows v.ordered)
Step-cases {rows} {rows'} v (marked_effective now i token e) =
    inl (mark_effective-Advances now i token rows rows' v.ordered e)
Step-cases {rows} {rows'} v (marked_failed now i token f e) =
    inl (mark_failed-Advances now i token f rows rows' v.ordered e)
Step-cases {rows} v (dispatch_failed now i token f) =
    inl (mark_dispatch_failed-Advances now i token f rows v.ordered)

-- Every transaction keeps the invariant.
pub Step-IsValid : {rows rows' : List Command} → Step rows rows' → IsValid rows → IsValid rows'
Step-IsValid {rows} {rows'} s v = elim (Step-cases v s) [
  | inl p ↦ Pointwise-IsValid rows rows' v p
  | inr (m, e, v') ↦ v'
]

pub Reach-IsValid_from :
    {rows rows' : List Command} → IsValid rows → Reach rows rows' → IsValid rows'
Reach-IsValid_from v here = v
Reach-IsValid_from v (next r s) = Step-IsValid s (Reach-IsValid_from v r)

-- On every table that the operations reach from the empty one, in any interleaving: identifiers
-- and sequence numbers are unique, every row meets the CHECK constraints (a dispatched or running row, and no other, has
-- a token and a lease; an effective row has `effective_at` and no `failed_at`; a failed row has
-- `failed_at` and an error code; a code has at most 128 characters), and no running or effective
-- command has an unfinished predecessor in its transition.
pub Reach-IsValid : {rows : List Command} → Reach [] rows → IsValid rows
Reach-IsValid r =
    Reach-IsValid_from (record { keys = tt; sequences = tt; ordered = tt; checks = tt }) r

predecessor_effective :
    (rows : List Command) (m p : Command)
    → Memᴰ p rows
    → p.transition_id ≡ m.transition_id
    → p.sequence < m.sequence
    → has_unfinished_predecessor rows m ≡ false
    → is_effective p.status ≡ true
unfolding has_unfinished_predecessor
predecessor_effective [] m p k t s h = elim k [ ]
predecessor_effective (q ∷ rows) m p (Memᴰ.head e) t s h = ground (arith, e)
predecessor_effective (q ∷ rows) m p (Memᴰ.tail k) t s h =
    ground (arith, predecessor_effective rows m p k t s)

-- On every reachable table, when a command is running or effective, each command of its transition
-- with a smaller sequence number is effective.
pub never_overtakes :
    {rows : List Command} (m p : Command)
    → Reach [] rows
    → Memᴰ m rows
    → Memᴰ p rows
    → is_started m.status ≡ true
    → p.transition_id ≡ m.transition_id
    → p.sequence < m.sequence
    → is_effective p.status ≡ true
never_overtakes {rows} m p r m_in p_in started t s =
    predecessor_effective rows m p p_in t s (All-mem _ rows (Reach-IsValid r).ordered m_in started)
