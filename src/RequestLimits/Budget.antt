-- ===== src/RequestLimits/Budget.antt =====
-- The budget is exact under every interleaving of the requests.
use mcplica.Common.{
  ℕ, ◌+◌, ◌-◌, ◌≡◌, ◌≤◌, ◌<◌, refl, sym, ap, subst, ◌∙◌, Option, none, some, List, [], ◌∷◌, arith,
  ltb, ◌==◌, Text, Result, ok, err, Bool-cases, Option-cases, inl, inr,
}
use mcplica.Common.Table.{find, update, key_of_find}
use mcplica.RequestLimits.{
  BodyRejected, too_large, exhausted, Parsed, Request, Server, request_id, content_length, reserve,
  admitted, open_request, begin_request, consume, cover, reserve_more, limited_receive, remove,
  finish_request,
}

unfoldable pub total : List Request → ℕ
total [] = 0
total (r ∷ rs) = r.reserved + total rs

total-update :
    (i : ℕ) (f : Request → Request) (rs : List Request) {r : Request}
    → find request_id i rs ≡ some r
    → total (update request_id i f rs) + r.reserved ≡ total rs + (f r).reserved
unfolding total find update
total-update i f [] at = cc
total-update i f (x ∷ rs) {r} at = elim (Bool-cases (x.id == i)) [
  | inl e ↦
      let k : some x ≡ some r = rw e at at in let same : x ≡ r = cc in rw (e, same) (omega arith)
  | inr e ↦ rw e (omega (arith, total-update i f rs {r = r} (rw e at at)))
]

total-remove :
    (i : ℕ) (rs : List Request) {r : Request}
    → find request_id i rs ≡ some r
    → total (remove i rs) + r.reserved ≡ total rs
unfolding total find remove
total-remove i [] at = cc
total-remove i (x ∷ rs) {r} at = elim (Bool-cases (x.id == i)) [
  | inl e ↦
      let k : some x ≡ some r = rw e at at in let same : x ≡ r = cc in rw (e, same) (omega arith)
  | inr e ↦ rw e (omega (arith, total-remove i rs {r = r} (rw e at at)))
]

find-consumed :
    (i n : ℕ) (rs : List Request) {r : Request}
    → find request_id i rs ≡ some r
    → find request_id i (update request_id i (consume n) rs) ≡ some (consume n r)
unfolding find update
find-consumed i n [] at = cc
find-consumed i n (x ∷ rs) {r} at = elim (Bool-cases (x.id == i)) [
  | inl e ↦
      let k : some x ≡ some r = rw e at at in
      let same : x ≡ r = cc in rw (e, e) (ap (λ z. some (consume n z)) same)
  | inr e ↦ rw (e, e) (find-consumed i n rs {r = r} (rw e at at))
]

module _ (capacity_bytes request_max_bytes : ℕ) where
  pub data Step (s : Server) : Server → Type 0 where
    begun :
        {t : Server} (int : Text → Parsed) (i : ℕ) (headers : List Text)
        → begin_request capacity_bytes request_max_bytes int i headers s ≡ ok t
        → Step s t
    received : (i n : ℕ) → Step s (limited_receive capacity_bytes request_max_bytes i n s).0
    finished : (i : ℕ) → Step s (finish_request i s)

  pub data Reach : Server → Type 0 where
    idle : Reach (record { reserved_bytes = 0; requests = [] })
    more : {s t : Server} → Reach s → Step s t → Reach t

  pub record IsExact (s : Server) : Type 0 where
    pub accounted : s.reserved_bytes ≡ total s.requests
    pub within : s.reserved_bytes ≤ capacity_bytes

  open_request-IsExact :
      (i declared : ℕ) (s : Server) {t : Server}
      → open_request capacity_bytes request_max_bytes i declared s ≡ ok t
      → IsExact s
      → IsExact t
  unfolding open_request reserve total
  open_request-IsExact i declared s {t} h c = elim (Bool-cases (ltb request_max_bytes declared)) [
    | inl e ↦ let k : err too_large ≡ ok t = rw (e, open_request) at h in cc
    | inr e ↦ elim (Bool-cases (declared == 0)) [
      | inl z ↦
          let k : ok (admitted i 0 s) ≡ ok t = rw (e, open_request, z) at h in
          let same : t ≡ admitted i 0 s = cc in
          rw same record { accounted = omega (arith, c.accounted); within = c.within }
      | inr z ↦ elim (Bool-cases (ltb capacity_bytes (s.reserved_bytes + declared))) [
        | inl b ↦ let k : err exhausted ≡ ok t = rw (e, open_request, z, reserve, b) at h in cc
        | inr b ↦
            let s' : Server = record s { reserved_bytes = s.reserved_bytes + declared } in
            let k : ok (admitted i declared s') ≡ ok t = rw (e, open_request, z, reserve, b) at h in
            let same : t ≡ admitted i declared s' = cc in
            rw same record { accounted = omega (arith, c.accounted); within = ground arith }
      ]
    ]
  ]

  begin_request-IsExact :
      (int : Text → Parsed) (i : ℕ) (headers : List Text) (s : Server) {t : Server}
      → begin_request capacity_bytes request_max_bytes int i headers s ≡ ok t
      → IsExact s
      → IsExact t
  unfolding begin_request
  begin_request-IsExact int i headers s {t} h c = by_length (content_length int headers) h
    where
      by_length :
          (r : Result BodyRejected (Option ℕ))
          → (elim r [
            | err e ↦ err e
            | ok none ↦ open_request capacity_bytes request_max_bytes i 0 s
            | ok (some n) ↦ open_request capacity_bytes request_max_bytes i n s
          ])
            ≡ ok t
          → IsExact t
      by_length (err e) k = cc
      by_length (ok none) k = open_request-IsExact i 0 s k c
      by_length (ok (some n)) k = open_request-IsExact i n s k c

  reserve_more-IsExact :
      (r : Request) (s : Server)
      → find request_id r.id s.requests ≡ some r
      → IsExact s
      → IsExact (reserve_more capacity_bytes request_max_bytes r s).0
  unfolding reserve_more reserve
  reserve_more-IsExact r s at c = elim (Bool-cases (ltb request_max_bytes r.consumed)) [
    | inl e ↦ rw (e, reserve_more) c
    | inr e ↦ elim (Bool-cases (ltb r.reserved r.consumed)) [
      | inr b ↦ rw (e, reserve_more, b) c
      | inl b ↦
          elim (Bool-cases (ltb capacity_bytes (s.reserved_bytes + (r.consumed - r.reserved)))) [
            | inl q ↦ rw (e, reserve_more, b, reserve, q) c
            | inr q ↦
                let sum = total-update r.id cover s.requests {r = r} at in
                let below : r.reserved < r.consumed = ground arith in
                rw (e, reserve_more, b, reserve, q)
                  record {
                    accounted = omega (arith, sum, c.accounted, below);
                    within = ground arith;
                  }
          ]
    ]
  ]

  limited_receive-IsExact :
      (i n : ℕ) (s : Server)
      → IsExact s
      → IsExact (limited_receive capacity_bytes request_max_bytes i n s).0
  unfolding limited_receive
  limited_receive-IsExact i n s c = elim (Option-cases (find request_id i s.requests)) [
    | inl e ↦ rw (e, limited_receive) c
    | inr (r, e) ↦
        let same : r.id ≡ i = key_of_find request_id i s.requests e in
        let s' : Server = record s { requests = update request_id i (consume n) s.requests } in
        let sum = total-update i (consume n) s.requests {r = r} e in
        rw (e, limited_receive)
          (reserve_more-IsExact (consume n r) s'
            (subst (λ k. find request_id k s'.requests ≡ some (consume n r)) (sym same)
              (find-consumed i n s.requests e))
            record { accounted = omega (arith, sum, c.accounted); within = c.within })
  ]

  finish_request-IsExact : (i : ℕ) (s : Server) → IsExact s → IsExact (finish_request i s)
  unfolding finish_request
  finish_request-IsExact i s c = elim (Option-cases (find request_id i s.requests)) [
    | inl e ↦ rw (e, finish_request) c
    | inr (r, e) ↦
        let sum = total-remove i s.requests {r = r} e in
        rw (e, finish_request)
          record { accounted = omega (arith, sum, c.accounted); within = omega (arith, c.within) }
  ]

  -- In any interleaving of uploads that begin_request, receive and end, rejected or not, the bytes that the
  -- budget has given away are exactly those of the uploads under way, and at most the capacity; when
  -- none is under way, all are given back.
  pub budget_exact :
      (s : Server)
      → Reach s
      → (s.reserved_bytes ≡ total s.requests)
        × (s.reserved_bytes ≤ capacity_bytes)
        × (s.requests ≡ [] → s.reserved_bytes ≡ 0)
  unfolding total
  budget_exact s r =
      ((exact r).accounted, (exact r).within, λ none_left. (exact r).accounted ∙ ap total none_left)
    where
      exact : {t : Server} → Reach t → IsExact t
      exact idle = record { accounted = refl; within = omega arith }
      exact (more {s = u} r (begun int i headers h)) =
          begin_request-IsExact int i headers u h (exact r)
      exact (more {s = u} r (received i n)) = limited_receive-IsExact i n u (exact r)
      exact (more {s = u} r (finished i)) = finish_request-IsExact i u (exact r)
