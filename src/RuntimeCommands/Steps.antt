-- ===== src/RuntimeCommands/Steps.antt =====
-- Each operation of the outbox on existing rows only advances them.
use mcplica.Common.{
  ℕ, ◌+◌, ◌≡◌, true, false, ◌&&◌, List, arith, Bool-cases, Option-cases, Pointwise, ok, inl, inr,
  length-take, Result-cases, >>=-eq-ok,
}
use mcplica.Common.Table.{find, update}
use mcplica.RuntimeCommands.{
  Command, Failure, id_of, is_effective, has_unfinished_predecessor, start, claim_for_execution,
  require_execution_owner, renew_execution, mark_effective, mark_failed, mark_dispatch_failed,
  extend_lease, become_effective, apply_failure, holds_lease, is_dispatched, running, dispatched,
}
use mcplica.RuntimeCommands.Ordering.{
  Advances, IsOrdered, update-Advances, unchanged-Advances, owner_row,
}

start-Advances :
    (now lease : ℕ) (rows : List Command) (m : Command)
    → m.status ≡ dispatched
    → has_unfinished_predecessor rows m ≡ false
    → Advances rows m (start now lease m)
unfolding start
start-Advances now lease rows m e h = ground arith

extend_lease-Advances :
    (expires : ℕ) (rows : List Command) (m : Command)
    → m.status ≡ running
    → has_unfinished_predecessor rows m ≡ false
    → Advances rows m (extend_lease expires m)
unfolding extend_lease
extend_lease-Advances expires rows m e h = ground arith

become_effective-Advances :
    (now : ℕ) (rows : List Command) (m : Command)
    → m.status ≡ running
    → has_unfinished_predecessor rows m ≡ false
    → Advances rows m (become_effective now m)
unfolding become_effective
become_effective-Advances now rows m e h = ground arith

apply_failure-Advances :
    (now : ℕ) (f : Failure) (rows : List Command) (m : Command)
    → is_effective m.status ≡ false
    → Advances rows m (apply_failure now f m)
unfolding apply_failure
apply_failure-Advances now f rows m e = ground (arith, length-take 128 f.code)

pub claim_for_execution-Advances :
    (now i token lease : ℕ) (rows : List Command)
    → IsOrdered rows
    → Pointwise (Advances rows) rows (claim_for_execution now i token lease rows).1
unfolding claim_for_execution
claim_for_execution-Advances now i token lease rows o = elim (Option-cases (find id_of i rows)) [
  | inl e ↦ rw (e, claim_for_execution) (unchanged-Advances rows o)
  | inr (m, e) ↦
      let guard = is_dispatched m.status && holds_lease now token m in
      elim (Bool-cases guard) [
        | inl g ↦ elim (Bool-cases (has_unfinished_predecessor rows m)) [
          | inl b ↦ rw (e, claim_for_execution, g, b) (unchanged-Advances rows o)
          | inr b ↦
              rw (e, claim_for_execution, g, b)
                (update-Advances rows i (start now lease) o e
                  (start-Advances now lease rows m (ground arith) b))
        ]
        | inr g ↦ rw (e, claim_for_execution, g) (unchanged-Advances rows o)
      ]
]

pub renew_execution-Advances :
    (now i token lease : ℕ) (rows : List Command)
    → IsOrdered rows
    → Pointwise (Advances rows) rows (renew_execution now i token lease rows).1
unfolding renew_execution
renew_execution-Advances now i token lease rows o =
    elim (Result-cases (require_execution_owner now i token rows)) [
      | inl (m, e) ↦
          let (at, run, clear, held) = owner_row now i token rows e in
          rw (e, renew_execution)
            (update-Advances rows i (extend_lease (now + lease)) o at
              (extend_lease-Advances (now + lease) rows m run clear))
      | inr (x, e) ↦ rw (e, renew_execution) (unchanged-Advances rows o)
    ]

pub mark_effective-Advances :
    (now i token : ℕ) (rows rows' : List Command)
    → IsOrdered rows
    → mark_effective now i token rows ≡ ok rows'
    → Pointwise (Advances rows) rows rows'
unfolding mark_effective
mark_effective-Advances now i token rows rows' o h =
    let (m, e, is) = >>=-eq-ok (require_execution_owner now i token rows) _ h in
    let (at, run, clear, held) = owner_row now i token rows e in
    let same : update id_of i (become_effective now) rows ≡ rows' = cc in
    rw (← same) (
      update-Advances rows i (become_effective now) o at
        (become_effective-Advances now rows m run clear))

pub mark_failed-Advances :
    (now i token : ℕ) (f : Failure) (rows rows' : List Command)
    → IsOrdered rows
    → mark_failed now i token f rows ≡ ok rows'
    → Pointwise (Advances rows) rows rows'
unfolding mark_failed
mark_failed-Advances now i token f rows rows' o h =
    let (m, e, is) = >>=-eq-ok (require_execution_owner now i token rows) _ h in
    let (at, run, clear, held) = owner_row now i token rows e in
    let same : update id_of i (apply_failure now f) rows ≡ rows' = cc in
    rw (← same) (
      update-Advances rows i (apply_failure now f) o at
        (apply_failure-Advances now f rows m (rw run)))

pub mark_dispatch_failed-Advances :
    (now i token : ℕ) (f : Failure) (rows : List Command)
    → IsOrdered rows
    → Pointwise (Advances rows) rows (mark_dispatch_failed now i token f rows).1
unfolding mark_dispatch_failed
mark_dispatch_failed-Advances now i token f rows o = elim (Option-cases (find id_of i rows)) [
  | inl e ↦ rw (e, mark_dispatch_failed) (unchanged-Advances rows o)
  | inr (m, e) ↦
      let guard = is_dispatched m.status && holds_lease now token m in
      elim (Bool-cases guard) [
        | inl g ↦
            let f' = record f { retryable = true } in
            rw (e, mark_dispatch_failed, g)
              (update-Advances rows i (apply_failure now f') o e
                (apply_failure-Advances now f' rows m (ground arith)))
        | inr g ↦ rw (e, mark_dispatch_failed, g) (unchanged-Advances rows o)
      ]
]
