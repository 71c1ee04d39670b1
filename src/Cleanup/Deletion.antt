-- ===== src/Cleanup/Deletion.antt =====
-- What the cleanup worker deletes, and how each of its attempts ends.
use mcplica.Common.{
  ℕ, ◌+◌, ◌≡◌, ◌≤◌, ◌<◌, refl, ap, ◌∙◌, Bool, true, false, ◌&&◌, Option, none, some, [], arith, leb,
  All, Bool-cases, ◌⊎◌, inl, inr, Option-cases,
}
use mcplica.Common.Table.{find, find-update, key_of_find}
use mcplica.Cleanup.Target.{
  TargetStatus, TargetType, CleanupTarget, target_id, is_terminal_target, is_running,
}
use mcplica.Cleanup.{State}
use mcplica.Cleanup.Claim.{is_attempt, is_future, lock_claimed_target}
use mcplica.Cleanup.Settle.{
  settle_target, refresh_job, complete_target, mark_completed, Failure, fail_target, mark_failed,
}
use mcplica.Cleanup.SettledAccounts.{find-own}
use mcplica.Cleanup.Worker.{
  Raised, retry_delay, failure_of, committed, finish, delete_claimed, attempt, record_failure,
  Settings, process_claimed, process,
}

-- The row that a lock gives is the worker's: it runs, with the worker's token and attempt, and its
-- lease is not over.
pub record IsClaimed (wall i token attempt : ℕ) (s : State) (c : CleanupTarget) : Type 0 where
  pub row : find target_id i s.targets ≡ some c
  pub runs : is_running c.status ≡ true
  pub owner : is_attempt token attempt c ≡ true
  pub lease : is_future wall c.lease_expires_at ≡ true

pub lock_claimed_target-IsClaimed :
    (wall i token attempt : ℕ) (s : State) {c : CleanupTarget}
    → lock_claimed_target wall i token attempt s ≡ some c
    → IsClaimed wall i token attempt s c
unfolding lock_claimed_target
lock_claimed_target-IsClaimed wall i token attempt s {c} h =
    elim (Option-cases (find target_id i s.targets)) [
      | inl e ↦ let k : none ≡ some c = rw (e, lock_claimed_target) at h in cc
      | inr (t, e) ↦
          elim (Bool-cases (
            is_running t.status
            && is_attempt token attempt t
            && is_future wall t.lease_expires_at)) [
              | inr q ↦ let k : none ≡ some c = rw (e, lock_claimed_target, q) at h in cc
              | inl q ↦
                  let k : some t ≡ some c = rw (e, lock_claimed_target, q) at h in
                  let same : t ≡ c = cc in
                  let found : find target_id i s.targets ≡ some c = e ∙ ap some same in
                  let tests : (is_running c.status
                        && is_attempt token attempt c
                        && is_future wall c.lease_expires_at)
                      ≡ true =
                    rw same at q in
                  record {
                    row = found;
                    runs = ground arith;
                    owner = ground arith;
                    lease = ground arith;
                  }
            ]
    ]

lock_refused :
    (wall i token attempt : ℕ) (s : State) {c : CleanupTarget}
    → find target_id i s.targets ≡ some c
    → is_attempt token attempt c ≡ false
    → lock_claimed_target wall i token attempt s ≡ none
unfolding lock_claimed_target
lock_refused wall i token attempt s {c} at stale =
    rw (at, lock_claimed_target)
      (elim (Bool-cases (is_running c.status)) [ inl r ↦ rw (r, stale) refl | inr r ↦ rw r refl ])

failed_refused :
    (now wall i token attempt : ℕ) (e : Failure) (s : State) {c : CleanupTarget}
    → find target_id i s.targets ≡ some c
    → is_attempt token attempt c ≡ false
    → mark_failed now wall i e token attempt s ≡ (false, s)
unfolding mark_failed
failed_refused now wall i token attempt e s {c} at stale =
    rw (at, mark_failed)
      (elim (Bool-cases (is_running c.status)) [ inl r ↦ rw (r, stale) refl | inr r ↦ rw r refl ])

lock_held :
    (wall i token attempt : ℕ) (s : State) {c : CleanupTarget}
    → IsClaimed wall i token attempt s c
    → lock_claimed_target wall i token attempt s ≡ some c
unfolding lock_claimed_target
lock_held wall i token attempt s h = rw (h.row, lock_claimed_target, h.runs, h.owner, h.lease) refl

completes :
    (now wall i token attempt : ℕ) (skipped : Bool) (s : State) {c : CleanupTarget}
    → find target_id i s.targets ≡ some c
    → is_running c.status ≡ true
    → is_attempt token attempt c ≡ true
    → mark_completed now wall i skipped (some (token, attempt)) s
      ≡ (true, settle_target wall c (complete_target now skipped) s)
unfolding mark_completed
completes now wall i token attempt skipped s {c} at r o =
    let alive : is_terminal_target c.status ≡ false = ground arith in
    rw (at, mark_completed, alive, r, o) refl

fails :
    (now wall i token attempt : ℕ) (e : Failure) (s : State) {c : CleanupTarget}
    → find target_id i s.targets ≡ some c
    → is_running c.status ≡ true
    → is_attempt token attempt c ≡ true
    → mark_failed now wall i e token attempt s
      ≡ (true, settle_target wall c (fail_target now wall e) s)
unfolding mark_failed
fails now wall i token attempt e s at r o = rw (at, mark_failed, r, o) refl

own_attempt :
    (token attempt : ℕ) (c : CleanupTarget)
    → is_attempt token attempt c ≡ true
    → is_attempt token c.attempt_count c ≡ true
own_attempt token attempt c h = ground arith

complete_terminal :
    (now : ℕ) (b : Bool) (c : CleanupTarget)
    → is_terminal_target (complete_target now b c).status ≡ true
unfolding complete_target
complete_terminal now b c = ground arith

retry_delay-le : (interval attempt : ℕ) → retry_delay interval attempt ≤ 3600
unfolding retry_delay
retry_delay-le interval attempt = omega arith

-- How a failure leaves the row.
unfoldable pub IsSettled : ℕ → ℕ → ℕ → CleanupTarget → Type 0
IsSettled wall attempt max_attempts u =
    (is_terminal_target u.status ≡ true)
    ⊎ ((u.status ≡ TargetStatus.retrying)
        × (attempt < max_attempts)
        × (u.next_attempt_at ≤ wall + 3600))

failure_settles :
    (now wall : ℕ) (interval max_attempts token attempt : ℕ) (e : Raised) (c : CleanupTarget)
    → is_attempt token attempt c ≡ true
    → IsSettled wall attempt max_attempts
        (fail_target now wall (failure_of interval max_attempts attempt e) c)
unfolding fail_target IsSettled
failure_settles now wall interval max_attempts token attempt e c o =
    let same : c.attempt_count ≡ attempt = ground arith in
    elim (Bool-cases (leb max_attempts c.attempt_count)) [
      | inl l ↦ inl (rw l refl)
      | inr l ↦ inr (rw l refl, ground arith, omega (arith, retry_delay-le interval attempt))
    ]

-- The settled row is in the table.
find-settle_target :
    (wall i : ℕ) (t : CleanupTarget) (f : CleanupTarget → CleanupTarget) (s : State)
    → find target_id i s.targets ≡ some t
    → ((x : CleanupTarget) → (f x).id ≡ x.id)
    → find target_id i (settle_target wall t f s).targets ≡ some (f t)
unfolding settle_target refresh_job
find-settle_target wall i t f s at ids =
    let same : t.id ≡ i = key_of_find target_id i s.targets at in
    rw (same, find-update target_id i i f s.targets ids, at) (ground arith)

module _ (is_referenced : TargetType → Bool) (delete : TargetType → Option Raised) where
  -- A deletion is of the row's own object or generation, which nothing refers to, while the worker
  -- holds the row.
  pub record MayDelete (wall token : ℕ) (t : CleanupTarget) (s : State) (type : TargetType)
      : Type 0 where
    pub claimed : CleanupTarget
    pub is_claimed : IsClaimed wall t.id token t.attempt_count s claimed
    pub same_type : type ≡ claimed.target_type
    pub unreferenced : is_referenced type ≡ false

  -- All deletions of an attempt are of the type of the row that the worker holds at this time, with
  -- its token, its attempt and a lease that is not over, and of what nothing refers to.
  pub attempt_deletes :
      (now wall wall' token : ℕ) (t : CleanupTarget) (s : State)
      → All
          (MayDelete wall token t s)
          (attempt is_referenced delete now wall wall' token t s).deletions
  unfolding attempt delete_claimed
  attempt_deletes now wall wall' token t s =
      elim (Option-cases (lock_claimed_target wall t.id token t.attempt_count s)) [
        | inl e ↦ rw (e, attempt) tt
        | inr (c, e) ↦ elim (Bool-cases (is_referenced c.target_type)) [
          | inl q ↦ rw (e, attempt, q) tt
          | inr q ↦
              rw (e, attempt, q)
                (
                  record {
                    claimed = c;
                    is_claimed = lock_claimed_target-IsClaimed wall t.id token t.attempt_count s e;
                    same_type = refl;
                    unreferenced = q;
                  },
                  tt,
                )
        ]
      ]

  -- A worker whose token or attempt is not that of the row deletes nothing, changes nothing and
  -- reports nothing, neither in its attempt nor for a failure.
  pub stale_attempt_refused :
      (now wall wall' token : ℕ) (t : CleanupTarget) (settings : Settings) (e : Raised) (s : State)
      {c : CleanupTarget}
      → find target_id t.id s.targets ≡ some c
      → is_attempt token t.attempt_count c ≡ false
      → (attempt is_referenced delete now wall wall' token t s
          ≡ record { outcome = committed s []; deletions = [] })
        × (record_failure now wall settings.interval_seconds settings.max_attempts token t e s
            ≡ (s, []))
  unfolding attempt record_failure
  stale_attempt_refused now wall wall' token t settings e s {c} at stale = (
    rw (lock_refused wall t.id token t.attempt_count s at stale, attempt) refl,
    rw
        (
          failed_refused now wall t.id token t.attempt_count
              (failure_of settings.interval_seconds settings.max_attempts t.attempt_count e) s at
              stale,
          record_failure,
        )
        refl,
  )

  -- An attempt of the worker that holds the row settles it, even if the deletion raises, as long as
  -- nobody else has changed the row in between: the row is then final, or it waits for one of the
  -- attempts that are left, at most an hour away.
  pub process_settles :
      (now wall wall' now' wall'' token : ℕ) (settings : Settings) (elsewhere : State → State)
      (t : CleanupTarget) (s : State) {c : CleanupTarget}
      → t.execution_token ≡ some token
      → IsClaimed wall t.id token t.attempt_count s c
      → find target_id t.id (elsewhere s).targets ≡ some c
      → (u : CleanupTarget) × (find target_id t.id
            (process is_referenced delete now wall wall' now' wall'' settings elsewhere t
              s).0.targets
          ≡ some u)
        × IsSettled wall'' t.attempt_count settings.max_attempts u
  unfolding process process_claimed attempt delete_claimed finish record_failure
  process_settles now wall wall' now' wall'' token settings elsewhere t s {c} own held still =
      rw (own, process)
        (elim (Bool-cases (is_referenced c.target_type)) [
          | inl r ↦ (
            complete_target now true c,
            rw
                (
                  process_claimed,
                  attempt,
                  lock_held wall t.id token t.attempt_count s held,
                  r,
                  done true,
                )
                (in_table true),
            (unfold IsSettled in inl (complete_terminal now true c)),
          )
          | inr r ↦ elim (Option-cases (delete c.target_type)) [
            | inl d ↦ (
              complete_target now false c,
              rw
                  (
                    process_claimed,
                    attempt,
                    lock_held wall t.id token t.attempt_count s held,
                    r,
                    d,
                    done false,
                  )
                  (in_table false),
              (unfold IsSettled in inl (complete_terminal now false c)),
            )
            | inr (e, d) ↦
                let failure : Failure =
                  failure_of settings.interval_seconds settings.max_attempts t.attempt_count e in
                (
                  fail_target now' wall'' failure c,
                  rw
                      (
                        process_claimed,
                        attempt,
                        lock_held wall t.id token t.attempt_count s held,
                        r,
                        d,
                        record_failure,
                        fails now' wall'' t.id token t.attempt_count failure (elsewhere s) still
                            held.runs held.owner,
                      )
                      (find-settle_target wall'' t.id c (fail_target now' wall'' failure)
                        (elsewhere s) still (λ x. (unfold fail_target in refl))),
                  failure_settles now' wall'' settings.interval_seconds settings.max_attempts token
                      t.attempt_count e c held.owner,
                )
          ]
        ])
    where
      same : c.id ≡ t.id
      same = key_of_find target_id t.id s.targets held.row

      done :
          (b : Bool)
          → mark_completed now wall' c.id b (some (token, c.attempt_count)) s
            ≡ (true, settle_target wall' c (complete_target now b) s)
      done b =
          completes now wall' c.id token c.attempt_count b s (find-own s.targets t.id held.row)
            held.runs (own_attempt token t.attempt_count c held.owner)

      in_table :
          (b : Bool)
          → find target_id t.id (settle_target wall' c (complete_target now b) s).targets
            ≡ some (complete_target now b c)
      in_table b =
          find-settle_target wall' t.id c (complete_target now b) s held.row
            (λ x. (unfold complete_target in refl))
