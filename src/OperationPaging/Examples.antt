-- ===== src/OperationPaging/Examples.antt =====
-- A page of three operations. ASCII case folding stands for Python's.
use mcplica.Common.{
  ℕ, ◌≡◌, Bool, true, false, none, some, List, [], ◌∷◌, length, filter, count_p, Text, codes,
  to_lower,
}
use mcplica.OperationPaging.{
  Candidate, Scope, is_changed, matches, normalized_search, normalized_method,
  page_operation_candidates,
}
use mcplica.OperationPaging.Page.{slice, page_operation_candidates_exact}

abbrev operation : ℕ → Text → Text → Bool → Candidate
operation i method text excluded = record {
  index = i;
  method = method;
  search_text = text;
  excluded_in_build = excluded;
  currently_excluded = false;
}

abbrev operations : List Candidate
operations =
    operation 0 (codes "GET") (codes "List Pets") false
    ∷ operation 1 (codes "POST") (codes "Create Pet") true
    ∷ operation 2 (codes "GET") (codes "Get Store") false
    ∷ []

page_operation_candidates_exact_example :
    let test =
      matches to_lower to_lower
        (normalized_search to_lower to_lower (some (codes " PET ")))
        (normalized_method to_lower to_lower none)
        Scope.all in
    page_operation_candidates to_lower to_lower operations (some (codes " PET ")) none Scope.all 1 5
    ≡ (
      slice 1 6 (filter test operations),
      length (filter test operations),
      count_p is_changed operations,
    )
page_operation_candidates_exact_example =
    page_operation_candidates_exact to_lower to_lower operations (some (codes " PET ")) none
      Scope.all 1 5
