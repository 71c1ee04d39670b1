-- ===== src/BuildAdmission/Leases.antt =====
-- The life of the reservations: what a worker can do with a token, and what holds of the table under
-- every interleaving of the dispatcher, the workers and the rest of the program.
use mcplica.Common.{
  ℕ, ◌+◌, ◌≡◌, ◌≢◌, refl, ap, true, false, Option, none, some, List, arith, is_just, is_some,
}
use mcplica.Common.Table.{find, update, find-update}
use mcplica.BuildAdmission.{
  Build, id_of, mark_enqueued, release, begin_or_renew, owned, cancellation_requested, lost,
  owns_lease, extend_lease,
}

is_just-false : (o : Option ℕ) (t : ℕ) → o ≢ some t → is_just o t ≡ false
is_just-false none t h = refl
is_just-false (some s) t h = ground (arith, ap {B = Option ℕ} some {x = s} {y = t})

-- A worker whose token is not the one of the Build learns that its lease is lost; it neither renews,
-- releases nor stamps the reservation of its successor.
pub stale_worker_refused :
    (now i token lease : ℕ) (rows : List Build) (b : Build)
    → find id_of i rows ≡ some b
    → b.admission_token ≢ some token
    → ((begin_or_renew now i token lease rows).0.state ≡ lost)
      × ((begin_or_renew now i token lease rows).1 ≡ rows)
      × (release now i token rows ≡ (false, rows))
      × (mark_enqueued now i token rows ≡ (false, rows))
unfolding begin_or_renew release mark_enqueued
stale_worker_refused now i token lease rows b at other =
    let no_match = is_just-false b.admission_token token other in
    (ground arith, ground arith, ground arith, ground arith)

-- The answer to a heartbeat with the token of the Build and a live lease: a requested cancellation is
-- reported and the lease is left to run out; otherwise the lease runs from now.
pub begin_or_renew_exact :
    (now i token lease : ℕ) (rows : List Build) (b : Build)
    → find id_of i rows ≡ some b
    → owns_lease now token b ≡ true
    → (is_some b.cancellation_requested_at ≡ true
        → ((begin_or_renew now i token lease rows).0.state ≡ cancellation_requested)
          × ((begin_or_renew now i token lease rows).1 ≡ rows))
      × (is_some b.cancellation_requested_at ≡ false
          → ((begin_or_renew now i token lease rows).0.state ≡ owned)
            × ((begin_or_renew now i token lease rows).0.lease_expires_at ≡ some (now + lease))
            × (find id_of i (begin_or_renew now i token lease rows).1
                ≡ some (extend_lease now (now + lease) b)))
unfolding begin_or_renew extend_lease
begin_or_renew_exact now i token lease rows b at owner = (
  λ c. (ground arith, ground arith),
  λ c.
      let e : begin_or_renew now i token lease rows ≡ (
        record { state = owned; lease_expires_at = some (now + lease) },
        update id_of i (extend_lease now (now + lease)) rows,
      ) =
        ground arith in
      rw e (
        refl,
        refl,
        rw (find-update id_of i i (extend_lease now (now + lease)) rows (λ x. refl))
            (ground (arith, at)),
      ),
)
