-- ===== src/RuntimeCommands/Dispatch.antt =====
-- What `claim_due_for_dispatch` claims: at most `limit` commands, each of them due in the table, in
-- the order of the query; the claimed rows change as the loop says and no others do.
use mcplica.Common.{
  ℕ, ◌+◌, ◌≡◌, ◌≢◌, refl, sym, ap, Bool, true, false, not, ◌&&◌, some, List, [], ◌∷◌, arith,
  Option-cases, All, Pointwise, inl, inr, Memᴰ, All-map, All-mem, All-of_mem, length-take, length,
  ◌≤◌, filter, sort, All-take, All-sort, All-filter_passed, and-eq-true, Pointwise-map, ◌∙◌,
}
use mcplica.Common.Table.{
  find, UniqueKeys, write_back, replacement, find_of_mem, mem_of_find, key_of_find,
}
use mcplica.Common.Keys.{UniqueKeys-take, UniqueKeys-filter, UniqueKeys-sort, find-write_back}
use mcplica.RuntimeCommands.{
  Command, Status, id_of, is_effective, has_unfinished_predecessor, is_due, due_commands, dispatch,
  dispatch_each, claim_due_for_dispatch, comes_before, lease_is_free,
}
use mcplica.RuntimeCommands.Ordering.{Advances, IsOrdered, IsOrdered-Advances}

dispatch-Advances :
    (now expires token : ℕ) (rows : List Command) (m : Command)
    → is_effective m.status ≡ false
    → Advances rows m (dispatch now expires token m)
unfolding dispatch
dispatch-Advances now expires token rows m e = ground arith

-- A row of the table that is due.
abbrev pub IsDueRow : ℕ → List Command → Command → Type 0
IsDueRow now rows m = Memᴰ m rows × (is_due now rows m ≡ true)

due_commands-IsDueRow :
    (now : ℕ) (locked : ℕ → Bool) (limit : ℕ) (rows : List Command)
    → All (IsDueRow now rows) (due_commands now locked limit rows)
unfolding due_commands
due_commands-IsDueRow now locked limit rows =
    let test = λ (m : Command). is_due now rows m && not (locked m.id) in
    All-take (IsDueRow now rows) limit (sort comes_before (filter test rows)) (
      All-sort comes_before (IsDueRow now rows) (filter test rows) (
        All-map (λ m h. (h.0, (and-eq-true (is_due now rows m) (not (locked m.id)) h.1).0))
          (filter test rows)
          (All-filter_passed (λ m. Memᴰ m rows) test rows
            (All-of_mem (λ m. Memᴰ m rows) rows (λ m k. k)))))

length-due_commands :
    (now : ℕ) (locked : ℕ → Bool) (limit : ℕ) (rows : List Command)
    → length (due_commands now locked limit rows) ≤ limit
unfolding due_commands
length-due_commands now locked limit rows = omega (arith, length-take {0})

-- The row `y` is what the loop makes of a due row of the table.
abbrev pub IsClaimOf : ℕ → ℕ → List Command → Command → Type 0
IsClaimOf now expires rows y =
    (m : Command) × (token : ℕ) × (y ≡ dispatch now expires token m) × IsDueRow now rows m

dispatch_each-IsClaimOf :
    (now expires : ℕ) (fresh : ℕ → ℕ) (k : ℕ) (rows ms : List Command)
    → All (IsDueRow now rows) ms
    → All (IsClaimOf now expires rows) (dispatch_each now expires fresh k ms)
unfolding dispatch_each
dispatch_each-IsClaimOf now expires fresh k rows [] h = tt
dispatch_each-IsClaimOf now expires fresh k rows (m ∷ ms) h =
    ((m, fresh k, refl, h.0), dispatch_each-IsClaimOf now expires fresh (k + 1) rows ms h.1)

due-not_effective :
    (now : ℕ) (rows : List Command) (m : Command)
    → is_due now rows m ≡ true
    → is_effective m.status ≡ false
unfolding is_due
due-not_effective now rows m h = ground arith

id-dispatch : (now expires token : ℕ) (m : Command) → (dispatch now expires token m).id ≡ m.id
unfolding dispatch
id-dispatch now expires token m = refl

-- With primary keys, a claim with the identifier of a row is the claim of that row.
claim_of_row :
    (now expires : ℕ) (rows : List Command) (x y : Command)
    → UniqueKeys id_of rows
    → Memᴰ x rows
    → y.id ≡ x.id
    → IsClaimOf now expires rows y
    → (token : ℕ) × (y ≡ dispatch now expires token x) × (is_due now rows x ≡ true)
claim_of_row now expires rows x y u mem e (m, token, is, due) =
    let same_id : m.id ≡ x.id = sym (id-dispatch now expires token m) ∙ ap id_of (sym is) ∙ e in
    let at_m : find id_of m.id rows ≡ some m = find_of_mem id_of rows u due.0 in
    let at_x : find id_of x.id rows ≡ some x = find_of_mem id_of rows u mem in
    let same : m ≡ x = cc in (token, rw (← same) is, rw (← same) due.1)

pub claim_due_for_dispatch-Advances :
    (now : ℕ) (fresh : ℕ → ℕ) (locked : ℕ → Bool) (limit lease : ℕ) (rows : List Command)
    → UniqueKeys id_of rows
    → IsOrdered rows
    → Pointwise (Advances rows) rows (claim_due_for_dispatch now fresh locked limit lease rows).1
unfolding claim_due_for_dispatch write_back
claim_due_for_dispatch-Advances now fresh locked limit lease rows u o =
    Pointwise-map (Advances rows) (λ x. replacement x (find id_of x.id claimed)) rows
      (All-of_mem (λ x. Advances rows x (replacement x (find id_of x.id claimed))) rows advance)
  where
    claimed : List Command
    claimed = dispatch_each now (now + lease) fresh 0 (due_commands now locked limit rows)

    claims : All (IsClaimOf now (now + lease) rows) claimed
    claims =
        dispatch_each-IsClaimOf now (now + lease) fresh 0 rows (due_commands now locked limit rows)
          (due_commands-IsDueRow now locked limit rows)

    advance :
        (x : Command) → Memᴰ x rows → Advances rows x (replacement x (find id_of x.id claimed))
    advance x mem = elim (Option-cases (find id_of x.id claimed)) [
      | inl e ↦ rw e (All-mem (λ m. Advances rows m m) rows (IsOrdered-Advances rows o) mem)
      | inr (y, e) ↦
          let (token, is, due) =
            claim_of_row now (now + lease) rows x y u mem (key_of_find id_of x.id claimed e) (
              All-mem (IsClaimOf now (now + lease) rows) claimed claims
                (mem_of_find id_of x.id claimed e)) in
          rw (e, is)
            (dispatch-Advances now (now + lease) token rows x (due-not_effective now rows x due))
    ]

length-dispatch_each :
    (now expires : ℕ) (fresh : ℕ → ℕ) (k : ℕ) (ms : List Command)
    → length (dispatch_each now expires fresh k ms) ≡ length ms
unfolding dispatch_each
length-dispatch_each now expires fresh k [] = refl
length-dispatch_each now expires fresh k (m ∷ ms) =
    omega (arith, length-dispatch_each now expires fresh (k + 1) ms)

-- The row `m` of the table was due and `y` is its claim.
pub record IsDispatchOf (now expires : ℕ) (rows : List Command) (m y : Command) : Type 0 where
  pub same_id : y.id ≡ m.id
  pub unfinished : is_effective m.status ≡ false
  pub retryable : m.retryable ≡ true
  pub due : m.next_attempt_at ≤ now
  pub lease_free : lease_is_free now m.lease_expires_at ≡ true
  pub unblocked : has_unfinished_predecessor rows m ≡ false
  pub claimed : y.status ≡ Status.dispatched
  pub counted : y.attempt_count ≡ m.attempt_count + 1
  pub leased : y.lease_expires_at ≡ some expires

IsDispatchOf-of_due :
    (now expires token : ℕ) (rows : List Command) (m : Command)
    → is_due now rows m ≡ true
    → IsDispatchOf now expires rows m (dispatch now expires token m)
unfolding is_due dispatch
IsDispatchOf-of_due now expires token rows m h = ground arith

-- A call claims at most `limit` commands; each claim is made from a row of the table that was due:
-- not effective, retryable, with a past `next_attempt_at`, no live lease and no unfinished
-- predecessor. The claim has the status DISPATCHED, one more attempt and a lease of the length asked.
pub claim_due_for_dispatch_sound :
    (now : ℕ) (fresh : ℕ → ℕ) (locked : ℕ → Bool) (limit lease : ℕ) (rows : List Command)
    → let claimed = (claim_due_for_dispatch now fresh locked limit lease rows).0 in
      (length claimed ≤ limit)
      × All (λ y. (m : Command) × Memᴰ m rows × IsDispatchOf now (now + lease) rows m y) claimed
unfolding claim_due_for_dispatch
claim_due_for_dispatch_sound now fresh locked limit lease rows =
    let due = due_commands now locked limit rows in
    (
      omega (
        arith,
        length-dispatch_each now (now + lease) fresh 0 due,
        length-due_commands now locked limit rows,
      ),
      All-map
          (λ y c. (c.0, c.3.0, rw c.2 (IsDispatchOf-of_due now (now + lease) c.1 rows c.0 c.3.1)))
          (dispatch_each now (now + lease) fresh 0 due)
          (dispatch_each-IsClaimOf now (now + lease) fresh 0 rows due
            (due_commands-IsDueRow now locked limit rows)),
    )

-- The row stands in the table, dispatched under a token until `expires`.
pub record IsDispatched (expires : ℕ) (rows : List Command) (y : Command) : Type 0 where
  pub at : find id_of y.id rows ≡ some y
  pub status : y.status ≡ Status.dispatched
  pub token : ℕ
  pub owned : y.execution_token ≡ some token
  pub lease : y.lease_expires_at ≡ some expires

dispatch_each-UniqueKeys :
    (now expires : ℕ) (fresh : ℕ → ℕ) (k : ℕ) (ms : List Command)
    → UniqueKeys id_of ms
    → UniqueKeys id_of (dispatch_each now expires fresh k ms)
unfolding dispatch_each dispatch
dispatch_each-UniqueKeys now expires fresh k [] u = tt
dispatch_each-UniqueKeys now expires fresh k (m ∷ ms) u =
    (others (k + 1) ms u.0, dispatch_each-UniqueKeys now expires fresh (k + 1) ms u.1)
  where
    others :
        (j : ℕ) (xs : List Command)
        → All (λ x. m.id ≢ id_of x) xs
        → All (λ x. m.id ≢ id_of x) (dispatch_each now expires fresh j xs)
    others j [] h = tt
    others j (x ∷ xs) h = (h.0, others (j + 1) xs h.1)

-- The claims are different rows, and the table that is committed has them.
pub claim_due_for_dispatch-IsDispatched :
    (now : ℕ) (fresh : ℕ → ℕ) (locked : ℕ → Bool) (limit lease : ℕ) (rows : List Command)
    → UniqueKeys id_of rows
    → let (claimed, rows') = claim_due_for_dispatch now fresh locked limit lease rows in
      UniqueKeys id_of claimed × All (IsDispatched (now + lease) rows') claimed
unfolding claim_due_for_dispatch due_commands
claim_due_for_dispatch-IsDispatched now fresh locked limit lease rows u =
    let test = λ (m : Command). is_due now rows m && not (locked m.id) in
    let due = due_commands now locked limit rows in
    let claimed = dispatch_each now (now + lease) fresh 0 due in
    let keys : UniqueKeys id_of claimed = dispatch_each-UniqueKeys now (now + lease) fresh 0 due (
      UniqueKeys-take id_of limit (sort comes_before (filter test rows)) (
        UniqueKeys-sort id_of comes_before (filter test rows)
          (UniqueKeys-filter id_of test rows u))) in
    let claims : All (IsClaimOf now (now + lease) rows) claimed =
      dispatch_each-IsClaimOf now (now + lease) fresh 0 rows due
        (due_commands-IsDueRow now locked limit rows) in
    (
      keys,
      All-of_mem (IsDispatched (now + lease) (write_back id_of claimed rows)) claimed (λ y m.
          is_dispatched claimed y (find_of_mem id_of claimed keys m)
            (All-mem (IsClaimOf now (now + lease) rows) claimed claims m)),
    )
  where
    is_dispatched :
        (claimed : List Command) (y : Command)
        → find id_of y.id claimed ≡ some y
        → IsClaimOf now (now + lease) rows y
        → IsDispatched (now + lease) (write_back id_of claimed rows) y
    is_dispatched claimed y found (m, token, is, due) =
        let same : y.id ≡ m.id = ap id_of is ∙ id-dispatch now (now + lease) token m in
        let there : find id_of y.id rows ≡ some m = rw same (find_of_mem id_of rows u due.0) in
        record {
          at = find-write_back id_of y.id claimed rows there found;
          status = (unfold dispatch in rw is refl);
          token = token;
          owned = (unfold dispatch in rw is refl);
          lease = (unfold dispatch in rw is refl);
        }
