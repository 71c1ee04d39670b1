-- ===== src/RequestLimits/Examples.antt =====
-- Two uploads that share 100 bytes, one of a declared length and one that is too greedy.
use mcplica.Common.{ℕ, ◌≡◌, ◌≤◌, refl, some, [], ◌∷◌, Text, codes}
use mcplica.Common.Table.{find, update}
use mcplica.RequestLimits.{
  exhausted, Parsed, Server, content_length, reserve, open_request, begin_request, reserve_more,
  limited_receive, remove, finish_request,
}
use mcplica.RequestLimits.Budget.{begun, received, Reach, idle, more, total, budget_exact}

-- Opens the operations, for the runs below.
runs : ℕ
unfolding find update content_length reserve open_request begin_request reserve_more limited_receive
    remove finish_request total
runs = 0

abbrev eighty : Text → Parsed
eighty t = Parsed.number 80

abbrev both : Server
both = record {
  reserved_bytes = 80;
  requests =
      record { id = 2; consumed = 0; reserved = 0 }
      ∷ record { id = 1; consumed = 0; reserved = 80 }
      ∷ [];
}

are_both : Reach 100 90 both
unfolding runs
are_both = more (more idle (begun eighty 1 (codes "80" ∷ []) refl)) (begun eighty 2 [] refl)

greedy_rejected : (limited_receive 100 90 2 30 both).1 ≡ some exhausted
unfolding runs
greedy_rejected = refl

budget_exact_example :
    ((limited_receive 100 90 2 20 both).0.reserved_bytes
      ≡ total (limited_receive 100 90 2 20 both).0.requests)
    × ((limited_receive 100 90 2 20 both).0.reserved_bytes ≤ 100)
    × ((limited_receive 100 90 2 20 both).0.requests ≡ []
        → (limited_receive 100 90 2 20 both).0.reserved_bytes ≡ 0)
budget_exact_example =
    budget_exact 100 90 (limited_receive 100 90 2 20 both).0 (more are_both (received 2 20))
