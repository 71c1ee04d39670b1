-- ===== src/RequestLimits.antt =====
-- The bound on multipart uploads: backend/app/core/request_limits.py. The requests of one server share a
-- budget of bytes; the lock of the budget makes each of its operations atomic, and between two of them any
-- other request may run. The messages of a rejection and the response that it is sent as are left out.
pub mod Budget
mod Examples
use mcplica.Common.{
  ℕ, ◌+◌, ◌-◌, Bool, true, false, not, ◌||◌, Option, none, some, List, [], ◌∷◌, ltb, ◌==◌,
  if◌then◌else◌, any, Text, text_eq, codes, Result, ok, err,
}
use mcplica.Common.Table.{find, update}

-- `_BodyRejected`
pub record BodyRejected : Type 0 where
  pub status_code : ℕ
  pub code : Text

abbrev pub too_large : BodyRejected
too_large = record { status_code = 413; code = codes "PAYLOAD_TOO_LARGE" }

abbrev pub exhausted : BodyRejected
exhausted = record { status_code = 503; code = codes "UPLOAD_CAPACITY_EXHAUSTED" }

abbrev pub invalid_length : BodyRejected
invalid_length = record { status_code = 400; code = codes "INVALID_CONTENT_LENGTH" }

-- What Python's `int` makes of a header: no number, a negative number, or another.
pub data Parsed : Type 0 where
  no_number negative : Parsed
  number : ℕ → Parsed

-- The variables of one call of the middleware.
pub record Request : Type 0 where
  pub id : ℕ
  pub consumed : ℕ
  pub reserved : ℕ

-- The budget and the calls that are under way.
pub record Server : Type 0 where
  pub reserved_bytes : ℕ
  pub requests : List Request

abbrev pub request_id : Request → ℕ
request_id r = r.id

-- `_content_length`, of the values of all headers of this name
unfoldable pub content_length : (Text → Parsed) → List Text → Result BodyRejected (Option ℕ)
content_length int [] = ok none
content_length int (value ∷ values) =
    if any (λ v. not (text_eq v value)) values then err invalid_length else elim (int value) [
      | no_number ↦ err invalid_length
      | negative ↦ err invalid_length
      | number n ↦ ok (some n)
    ]

abbrev pub admitted : ℕ → ℕ → Server → Server
admitted i amount s = record s {
  requests = record { id = i; consumed = 0; reserved = amount } ∷ s.requests;
}

abbrev pub consume : ℕ → Request → Request
consume n r = record r { consumed = r.consumed + n }

abbrev pub cover : Request → Request
cover r = record r { reserved = r.consumed }

module _ (capacity_bytes request_max_bytes : ℕ) where
  -- `_SpoolBudget.reserve`: `amount > capacity - reserved`, without the subtraction
  unfoldable pub reserve : ℕ → Server → Option Server
  reserve amount s =
      if ltb capacity_bytes (s.reserved_bytes + amount)
      then none
      else some (record s { reserved_bytes = s.reserved_bytes + amount })

  -- A call without a declared length reserves nothing yet.
  unfoldable pub open_request : ℕ → ℕ → Server → Result BodyRejected Server
  open_request i declared s =
      if ltb request_max_bytes declared
      then err too_large
      else if declared == 0
      then ok (admitted i 0 s)
      else elim (reserve declared s) [
        | none ↦ err exhausted
        | some s' ↦ ok (admitted i declared s')
      ]

  -- `__call__` up to the call of the application
  unfoldable pub begin_request :
      (Text → Parsed) → ℕ → List Text → Server → Result BodyRejected Server
  begin_request int i headers s = elim (content_length int headers) [
    | err e ↦ err e
    | ok none ↦ open_request i 0 s
    | ok (some n) ↦ open_request i n s
  ]

  -- The new count against the limits; a rejection leaves the count.
  unfoldable pub reserve_more : Request → Server → Server × Option BodyRejected
  reserve_more r s =
      if ltb request_max_bytes r.consumed
      then (s, some too_large)
      else if ltb r.reserved r.consumed
      then elim (reserve (r.consumed - r.reserved) s) [
        | none ↦ (s, some exhausted)
        | some s' ↦ (record s' { requests = update request_id r.id cover s'.requests }, none)
      ]
      else (s, none)

  -- `limited_receive`, of a message with a body of `n` bytes
  unfoldable pub limited_receive : ℕ → ℕ → Server → Server × Option BodyRejected
  limited_receive i n s = elim (find request_id i s.requests) [
    | none ↦ (s, none)
    | some r ↦
        reserve_more (consume n r)
          (record s { requests = update request_id i (consume n) s.requests })
  ]

-- `_SpoolBudget.release`; the subtraction stops at zero, as the source's `max` does
abbrev pub release_bytes : ℕ → Server → Server
release_bytes amount s = record s { reserved_bytes = s.reserved_bytes - amount }

unfoldable pub remove : ℕ → List Request → List Request
remove i [] = []
remove i (r ∷ rs) = if r.id == i then rs else r ∷ remove i rs

-- The `finally` of the call
unfoldable pub finish_request : ℕ → Server → Server
finish_request i s = elim (find request_id i s.requests) [
  | none ↦ s
  | some r ↦ record (release_bytes r.reserved s) { requests = remove i s.requests }
]
