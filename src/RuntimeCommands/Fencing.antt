-- ===== src/RuntimeCommands/Fencing.antt =====
-- Tokens fence the attempts of a command: what comes with a token that the row does not carry is
-- refused and writes nothing, and what is effective stays as it is.
use mcplica.Common.{
  ℕ, ◌≡◌, ◌≢◌, refl, ap, true, false, Option, none, some, List, [], ◌∷◌, arith, ◌++◌, is_just,
  Option-cases, Pointwise, err, Text, text_eq_refl, inl, inr,
}
use mcplica.Common.Table.{find}
use mcplica.RuntimeCommands.{
  Command, NewCommand, Failure, execution_ownership_lost, lost, id_of, is_effective, create,
  new_row, find_by_key, claim_for_execution, require_execution_owner, renew_execution,
  mark_effective, mark_failed, mark_dispatch_failed,
}
use mcplica.RuntimeCommands.Ordering.{Advances}
use mcplica.RuntimeCommands.Lifecycle.{
  IsValid, Step, Step-cases, Reach, here, next, Reach-IsValid, Reach-IsValid_from,
}

is_just-false : (o : Option ℕ) (t : ℕ) → o ≢ some t → is_just o t ≡ false
is_just-false none t h = refl
is_just-false (some s) t h = ground (arith, ap {B = Option ℕ} some {x = s} {y = t})

-- A caller whose token is not the token of the row loses everywhere: no execution is claimed, the
-- lease is reported lost, neither an effect nor a failure is recorded, and the table stays as it is.
pub stale_token_refused :
    (now i token lease : ℕ) (f : Failure) (rows : List Command) (m : Command)
    → find id_of i rows ≡ some m
    → m.execution_token ≢ some token
    → (claim_for_execution now i token lease rows ≡ (none, rows))
      × ((renew_execution now i token lease rows).0.state ≡ lost)
      × ((renew_execution now i token lease rows).1 ≡ rows)
      × (mark_effective now i token rows ≡ err execution_ownership_lost)
      × (mark_failed now i token f rows ≡ err execution_ownership_lost)
      × (mark_dispatch_failed now i token f rows ≡ (false, rows))
unfolding claim_for_execution renew_execution mark_effective mark_failed mark_dispatch_failed
    require_execution_owner
stale_token_refused now i token lease f rows m at other =
    let no_match = is_just-false m.execution_token token other in
    (ground arith, ground arith, ground arith, ground arith, ground arith, ground arith)

find_by_key-concat :
    (key : Text) (rows : List Command) (m : Command)
    → find_by_key key rows ≡ none
    → m.idempotency_key ≡ key
    → find_by_key key (rows ++ m ∷ []) ≡ some m
unfolding find_by_key
find_by_key-concat key [] m h e = rw e (rw text_eq_refl)
find_by_key-concat key (x ∷ rows) m h e = ground (arith, find_by_key-concat key rows m)

create_known :
    (now sequence : ℕ) (c : NewCommand) (rows : List Command) {m : Command}
    → find_by_key c.idempotency_key rows ≡ some m
    → create now sequence c rows ≡ (m, rows)
unfolding create
create_known now sequence c rows e = rw (e, create)

create_fresh :
    (now sequence : ℕ) (c : NewCommand) (rows : List Command)
    → find_by_key c.idempotency_key rows ≡ none
    → create now sequence c rows ≡ (new_row now sequence c, rows ++ new_row now sequence c ∷ [])
unfolding create
create_fresh now sequence c rows e = rw (e, create)

-- A second `create` with an idempotency key that was used returns the row that the first returned
-- and leaves the table as it is, whatever the other arguments are.
pub create_idempotent :
    (now now' sequence sequence' : ℕ) (c c' : NewCommand) (rows : List Command)
    → c'.idempotency_key ≡ c.idempotency_key
    → create now' sequence' c' (create now sequence c rows).1 ≡ create now sequence c rows
unfolding new_row
create_idempotent now now' sequence sequence' c c' rows e =
    elim (Option-cases (find_by_key c.idempotency_key rows)) [
      | inl new ↦
          let m = new_row now sequence c in
          rw (create_fresh now sequence c rows new) (
            create_known now' sequence' c' (rows ++ m ∷ [])
              (rw e (find_by_key-concat c.idempotency_key rows m new refl)))
      | inr (m, old) ↦
          rw (create_known now sequence c rows old) (create_known now' sequence' c' rows (rw e old))
    ]

find-Pointwise :
    (base xs ys : List Command) (i : ℕ) {m : Command}
    → Pointwise (Advances base) xs ys
    → find id_of i xs ≡ some m
    → is_effective m.status ≡ true
    → find id_of i ys ≡ some m
unfolding find
find-Pointwise base [] [] i p h e = h
find-Pointwise base [] (y ∷ ys) i p h e = elim p [ ]
find-Pointwise base (x ∷ xs) [] i p h e = elim p [ ]
find-Pointwise base (x ∷ xs) (y ∷ ys) i {m} (a, p) h e =
    ground (arith, a.same_id, a.final, find-Pointwise base xs ys i {m = m} p)

find-concat :
    (xs : List Command) (p : Command) (i : ℕ) {m : Command}
    → find id_of i xs ≡ some m
    → find id_of i (xs ++ p ∷ []) ≡ some m
unfolding find
find-concat [] p i h = cc
find-concat (x ∷ xs) p i {m} h = ground (arith, find-concat xs p i {m = m})

effective_kept :
    {rows rows' : List Command} (i : ℕ) (m : Command)
    → IsValid rows
    → Step rows rows'
    → find id_of i rows ≡ some m
    → is_effective m.status ≡ true
    → find id_of i rows' ≡ some m
effective_kept {rows} {rows'} i m v s at e = elim (Step-cases v s) [
  | inl p ↦ find-Pointwise rows rows rows' i p at e
  | inr (p, is, _) ↦ rw is (find-concat rows p i at)
]

-- Effective is final: from a reachable table, no sequence of operations changes any column of an
-- effective command or removes it.
pub effective_final :
    {rows rows' : List Command} (i : ℕ) (m : Command)
    → Reach [] rows
    → Reach rows rows'
    → find id_of i rows ≡ some m
    → is_effective m.status ≡ true
    → find id_of i rows' ≡ some m
effective_final i m r here at e = at
effective_final i m r (next r' s) at e =
    effective_kept i m (Reach-IsValid_from (Reach-IsValid r) r') s (effective_final i m r r' at e) e
