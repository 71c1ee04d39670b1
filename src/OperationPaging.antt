-- ===== src/OperationPaging.antt =====
-- One page of a Build's operations: backend/app/services/builds/operation_paging.py. Python's
-- `casefold` and `upper` go by the Unicode tables, and are parameters.
pub mod Page
mod Examples
use mcplica.Common.{
  ℕ, ◌+◌, Bool, true, false, not, ◌&&◌, ◌||◌, Option, none, some, List, [], ◌∷◌, ◌++◌, leb, ltb,
  if◌then◌else◌, Text, text_eq, is_empty, strip, contains,
}

pub data Scope : Type 0 where
  all current_included current_excluded build_excluded changed : Scope

pub record Candidate : Type 0 where
  pub index : ℕ
  pub method : Text
  pub search_text : Text
  pub excluded_in_build : Bool
  pub currently_excluded : Bool

-- The property `changed`: the two flags differ.
abbrev pub is_changed : Candidate → Bool
is_changed c = if c.excluded_in_build then not c.currently_excluded else c.currently_excluded

-- The `continue`s on the scope.
abbrev pub in_scope : Scope → Candidate → Bool
in_scope all c = true
in_scope current_included c = not c.currently_excluded
in_scope current_excluded c = c.currently_excluded
in_scope build_excluded c = c.excluded_in_build
in_scope changed c = is_changed c

module _ (casefold upper : Text → Text) where
  -- `search.strip().casefold() if search else ""`
  pub normalized_search : Option Text → Text
  normalized_search none = []
  normalized_search (some s) = if is_empty s then [] else casefold (strip s)

  pub normalized_method : Option Text → Text
  normalized_method none = []
  normalized_method (some s) = if is_empty s then [] else upper (strip s)

  -- A candidate that no `continue` of the loop skips.
  pub matches : Text → Text → Scope → Candidate → Bool
  matches search method scope c =
      (is_empty search || contains search (casefold c.search_text))
      && ((is_empty method || text_eq c.method method) && in_scope scope c)

  -- The loop, with its variables `selected`, `total` and `policy_change_count`.
  page_loop :
      (Candidate → Bool) → ℕ → ℕ → List Candidate → List Candidate → ℕ → ℕ → List Candidate × ℕ × ℕ
  page_loop test offset limit [] selected total drift = (selected, total, drift)
  page_loop test offset limit (c ∷ cs) selected total drift =
      let drift' = if is_changed c then drift + 1 else drift in
      let taken =
        if test c && (leb offset total && ltb total (offset + limit))
        then selected ++ c ∷ []
        else selected in
      page_loop test offset limit cs taken (if test c then total + 1 else total) drift'

  pub page_operation_candidates :
      List Candidate → Option Text → Option Text → Scope → ℕ → ℕ → List Candidate × ℕ × ℕ
  page_operation_candidates candidates search method scope offset limit =
      page_loop (matches (normalized_search search) (normalized_method method) scope) offset limit
        candidates [] 0 0
