-- ===== src/RuntimeCommands/Dispatcher/Delivered.antt =====
-- What a dispatch cycle of the runtime commands leaves in the table, whatever the queue refuses.
use mcplica.Common.{
  ℕ, ◌<◌, ◌≤◌, ◌+◌, ◌≡◌, ◌≢◌, ◌⊎◌, ◌∙◌, refl, ap, subst, arith, Bool, true, false, not, ◌&&◌,
  Option, none, some, List, [], ◌∷◌, length, take, All, Option-cases, inl, inr,
}
use mcplica.Common.Table.{find, update, UniqueKeys, find-update}
use mcplica.RuntimeCommands.Dispatch.{
  claim_due_for_dispatch_sound, IsDispatched, claim_due_for_dispatch-IsDispatched,
}
use mcplica.RuntimeCommands.{
  Command, id_of, Failure, dispatched, failed, is_dispatched, holds_lease, apply_failure,
  claim_due_for_dispatch, mark_dispatch_failed,
}
use mcplica.RuntimeCommands.Dispatcher.{
  Exc, domain, unexpected, dispatch_failure, deliver_one, deliver, dispatch_once,
}

-- What the dispatcher records of a refusal at `now`.
refused_row : ℕ → ℕ → Exc → Command → Command
refused_row now interval exc =
    apply_failure now (record (dispatch_failure interval exc) { retryable = true })

id-refused_row :
    (now interval : ℕ) (exc : Exc) (m : Command) → id_of (refused_row now interval exc m) ≡ id_of m
unfolding refused_row apply_failure
id-refused_row now interval exc m = refl

mark_dispatch_failed-IsDispatched :
    (now token expires : ℕ) (f : Failure) (rows : List Command) (m : Command)
    → now < expires
    → find id_of m.id rows ≡ some m
    → m.status ≡ dispatched
    → m.execution_token ≡ some token
    → m.lease_expires_at ≡ some expires
    → mark_dispatch_failed now m.id token f rows
      ≡ (true, update id_of m.id (apply_failure now (record f { retryable = true })) rows)
unfolding mark_dispatch_failed
mark_dispatch_failed-IsDispatched now token expires f rows m before at status own lease =
    let passes : not (is_dispatched m.status && holds_lease now token m) ≡ false =
      rw (status, own, lease) (ground arith) in
    rw (at, mark_dispatch_failed, passes) refl

-- One round: the queue takes the command and nothing is written, or its refusal is recorded.
deliver_one-cases :
    (interval now expires : ℕ) (queue : ℕ → ℕ → ℕ → Option Exc) (m : Command) (rows : List Command)
    → now < expires
    → (d : IsDispatched expires rows m)
    → let rows' = deliver_one interval now queue m m.execution_token rows in
      ((queue m.id d.token m.attempt_count ≡ none) × (rows' ≡ rows))
      ⊎ ((exc : Exc) × (queue m.id d.token m.attempt_count ≡ some exc)
          × (rows' ≡ update id_of m.id (refused_row now interval exc) rows))
unfolding deliver_one refused_row
deliver_one-cases interval now expires queue m rows before d =
    elim (Option-cases (queue m.id d.token m.attempt_count)) [
      | inl e ↦ inl (e, rw d.owned (rw (e, deliver_one) refl))
      | inr (exc, e) ↦
          let recorded =
            mark_dispatch_failed-IsDispatched now d.token expires (dispatch_failure interval exc)
              rows m before d.at d.status d.owned d.lease in
          inr (exc, e, rw d.owned (rw (e, deliver_one) (ap (λ z. z.1) recorded)))
    ]

-- The claimed command after the cycle.
pub record IsRefused (now interval : ℕ) (exc : Exc) (m row : Command) : Type 0 where
  pub status : row.status ≡ failed
  pub token : row.execution_token ≡ none
  pub lease : row.lease_expires_at ≡ none
  pub retryable : row.retryable ≡ true
  pub failed_at : row.failed_at ≡ some now
  pub due : row.next_attempt_at ≡ now + interval
  pub code : row.last_error_code ≡ some (take 128 (dispatch_failure interval exc).code)
  pub attempts : row.attempt_count ≡ m.attempt_count

pub record IsDelivered (interval : ℕ) (clock : ℕ → ℕ) (queue : ℕ → ℕ → ℕ → Option Exc)
    (rows : List Command) (m : Command) : Type 0 where
  pub row : Command
  pub at : find id_of m.id rows ≡ some row
  pub token : ℕ
  pub owned : m.execution_token ≡ some token
  pub accepted : queue m.id token m.attempt_count ≡ none → row ≡ m
  pub refused :
      (exc : Exc)
      → queue m.id token m.attempt_count ≡ some exc
      → (k : ℕ) × IsRefused (clock k) interval exc m row

refused_row-IsRefused :
    (now interval : ℕ) (exc : Exc) (m : Command)
    → IsRefused now interval exc m (refused_row now interval exc m)
unfolding refused_row apply_failure
refused_row-IsRefused now interval (domain c message) m = record {
  status = refl;
  token = refl;
  lease = refl;
  retryable = refl;
  failed_at = refl;
  due = (unfold dispatch_failure in refl);
  code = refl;
  attempts = refl;
}
refused_row-IsRefused now interval unexpected m = record {
  status = refl;
  token = refl;
  lease = refl;
  retryable = refl;
  failed_at = refl;
  due = (unfold dispatch_failure in refl);
  code = refl;
  attempts = refl;
}

-- The other claimed commands, when one is refused.
IsDispatched-elsewhere :
    (expires j : ℕ) (f : Command → Command) (rows ms : List Command)
    → ((m : Command) → id_of (f m) ≡ id_of m)
    → All (λ m. j ≢ id_of m) ms
    → All (IsDispatched expires rows) ms
    → All (IsDispatched expires (update id_of j f rows)) ms
IsDispatched-elsewhere expires j f rows [] same d h = tt
IsDispatched-elsewhere expires j f rows (m ∷ ms) same d h = (
  record {
    at = rw (find-update id_of j m.id f rows same) (ground (arith, h.0.at, d.0));
    status = h.0.status;
    token = h.0.token;
    owned = h.0.owned;
    lease = h.0.lease;
  },
  IsDispatched-elsewhere expires j f rows ms same d.1 h.1,
)

-- A round keeps the later claims, and the rows that it does not name.
deliver_one-elsewhere :
    (interval now expires : ℕ) (queue : ℕ → ℕ → ℕ → Option Exc) (m : Command)
    (rows ms : List Command)
    → now < expires
    → IsDispatched expires rows m
    → let rows' = deliver_one interval now queue m m.execution_token rows in
      (All (λ x. m.id ≢ id_of x) ms
        → All (IsDispatched expires rows) ms
        → All (IsDispatched expires rows') ms)
      × ((i : ℕ) → i ≢ m.id → find id_of i rows' ≡ find id_of i rows)
deliver_one-elsewhere interval now expires queue m rows ms before d =
    elim (deliver_one-cases interval now expires queue m rows before d) [
      | inl (e, same) ↦ rw same (λ o h. h, λ i n. refl)
      | inr (exc, e, same) ↦
          let f = refused_row now interval exc in
          rw same (
            λ o h.
                IsDispatched-elsewhere expires m.id f rows ms (id-refused_row now interval exc) o h,
            λ i n.
                rw (find-update id_of m.id i f rows (id-refused_row now interval exc))
                  (ground (arith, n)),
          )
    ]

deliver_elsewhere :
    (interval expires : ℕ) (clock : ℕ → ℕ) (queue : ℕ → ℕ → ℕ → Option Exc) (k i : ℕ)
    (ms rows : List Command)
    → ((j : ℕ) → clock j < expires)
    → UniqueKeys id_of ms
    → All (IsDispatched expires rows) ms
    → All (λ m. i ≢ id_of m) ms
    → find id_of i (deliver interval clock queue k ms rows) ≡ find id_of i rows
unfolding deliver
deliver_elsewhere interval expires clock queue k i [] rows before u h other = refl
deliver_elsewhere interval expires clock queue k i (m ∷ ms) rows before u h other =
    let rows' = deliver_one interval (clock k) queue m m.execution_token rows in
    let (kept, read) =
      deliver_one-elsewhere interval (clock k) expires queue m rows ms (before k) h.0 in
    deliver_elsewhere interval expires clock queue (k + 1) i ms rows' before u.1 (kept u.0 h.1)
      other.1
    ∙ read i other.0

deliver_one-IsDelivered :
    (interval expires : ℕ) (clock : ℕ → ℕ) (queue : ℕ → ℕ → ℕ → Option Exc) (k : ℕ) (m : Command)
    (rows : List Command)
    → clock k < expires
    → IsDispatched expires rows m
    → IsDelivered interval clock queue
        (deliver_one interval (clock k) queue m m.execution_token rows)
        m
deliver_one-IsDelivered interval expires clock queue k m rows before d =
    elim (deliver_one-cases interval (clock k) expires queue m rows before d) [
      | inl (e, same) ↦ record {
        row = m;
        at = rw same d.at;
        token = d.token;
        owned = d.owned;
        accepted = λ q. refl;
        refused = λ exc q. cc;
      }
      | inr (exc, e, same) ↦
          let f = refused_row (clock k) interval exc in
          record {
            row = f m;
            at =
                rw
                  (same, find-update id_of m.id m.id f rows (id-refused_row (clock k) interval exc))
                  (ground (arith, d.at));
            token = d.token;
            owned = d.owned;
            accepted = λ q. cc;
            refused = λ exc' q.
                let is : exc ≡ exc' = cc in
                (
                  k,
                  subst (λ z. IsRefused (clock k) interval z m (f m)) is
                      (refused_row-IsRefused (clock k) interval exc m),
                );
          }
    ]

deliver-IsDelivered :
    (interval expires : ℕ) (clock : ℕ → ℕ) (queue : ℕ → ℕ → ℕ → Option Exc) (k : ℕ)
    (ms rows : List Command)
    → ((j : ℕ) → clock j < expires)
    → UniqueKeys id_of ms
    → All (IsDispatched expires rows) ms
    → All (IsDelivered interval clock queue (deliver interval clock queue k ms rows)) ms
unfolding deliver
deliver-IsDelivered interval expires clock queue k [] rows before u h = tt
deliver-IsDelivered interval expires clock queue k (m ∷ ms) rows before u h =
    let rows' = deliver_one interval (clock k) queue m m.execution_token rows in
    let one = deliver_one-IsDelivered interval expires clock queue k m rows (before k) h.0 in
    let held =
      (deliver_one-elsewhere interval (clock k) expires queue m rows ms (before k) h.0).0 u.0 h.1 in
    (
      record {
        row = one.row;
        at =
            deliver_elsewhere interval expires clock queue (k + 1) m.id ms rows' before u.1 held u.0
            ∙ one.at;
        token = one.token;
        owned = one.owned;
        accepted = one.accepted;
        refused = one.refused;
      },
      deliver-IsDelivered interval expires clock queue (k + 1) ms rows' before u.1 held,
    )

-- A dispatch cycle on a table with unique identifiers that ends before its leases do: it counts its
-- claims, at most `batch_size`; each claimed command that the queue takes stays as it was claimed,
-- and each that the queue refuses is failed with the code of the refusal, without token and lease,
-- retryable, and due again after the interval.
pub dispatch_once_delivers :
    (now : ℕ) (fresh : ℕ → ℕ) (locked : ℕ → Bool) (batch_size lease interval : ℕ) (clock : ℕ → ℕ)
    (queue : ℕ → ℕ → ℕ → Option Exc) (rows : List Command)
    → UniqueKeys id_of rows
    → ((j : ℕ) → clock j < now + lease)
    → let claimed = (claim_due_for_dispatch now fresh locked batch_size lease rows).0 in
      let (count, rows') =
        dispatch_once now fresh locked batch_size lease interval clock queue rows in
      (count ≡ length claimed)
      × (count ≤ batch_size)
      × All (IsDelivered interval clock queue rows') claimed
unfolding dispatch_once
dispatch_once_delivers now fresh locked batch_size lease interval clock queue rows u before =
    let (claimed, rows') = claim_due_for_dispatch now fresh locked batch_size lease rows in
    let (keys, held) =
      claim_due_for_dispatch-IsDispatched now fresh locked batch_size lease rows u in
    (
      refl,
      (claim_due_for_dispatch_sound now fresh locked batch_size lease rows).0,
      deliver-IsDelivered interval (now + lease) clock queue 0 claimed rows' before keys held,
    )
