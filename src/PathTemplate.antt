-- ===== src/PathTemplate.antt =====
-- Path parameter expressions: packages/contracts/src/mcp_contracts/path_template.py. The index into
-- the path is the rest of the path behind it; the loop takes fuel, and the length of the path is
-- enough.
pub mod Pieces
pub mod Exact
mod Examples
use mcplica.Common.{
  ℕ, zero, suc, Bool, true, false, not, ◌&&◌, ◌||◌, Option, none, some, List, [], ◌∷◌, ◌++◌, ◌==◌,
  if◌then◌else◌, Text, is_empty, length, any, Result, ok, err,
}

-- The three `ValueError`s, and the end of the fuel.
pub data TemplateError : Type 0 where
  unmatched_closing unmatched_opening invalid_expression exhausted : TemplateError

abbrev pub opening : ℕ
opening = b'{'

abbrev pub closing : ℕ
closing = b'}'

abbrev pub slash : ℕ
slash = b'/'

abbrev pub before : ℕ → Option (Text × Text) → Option (Text × Text)
before c none = none
before c (some (name, rest)) = some (c ∷ name, rest)

-- `path.find("}", index)`, as the texts before and behind it.
pub split_at_closing : Text → Option (Text × Text)
split_at_closing [] = none
split_at_closing (c ∷ cs) = if c == closing then some ([], cs) else before c (split_at_closing cs)

pub is_invalid_name : Text → Bool
is_invalid_name name = is_empty name || (any (λ c. c == opening) name || any (λ c. c == slash) name)

-- `names.append(name)` before the rest of the loop
abbrev pub prepend : Text → Result TemplateError (List Text) → Result TemplateError (List Text)
prepend name (ok names) = ok (name ∷ names)
prepend name (err e) = err e

-- The loop's body behind an opening brace; `continue` is the rest of the loop.
pub expression :
    (Text → Result TemplateError (List Text))
    → Option (Text × Text)
    → Result TemplateError (List Text)
expression continue none = err unmatched_opening
expression continue (some (name, rest)) =
    if is_invalid_name name then err invalid_expression else prepend name (continue rest)

pub names_from : ℕ → Text → Result TemplateError (List Text)
names_from fuel [] = ok []
names_from zero (c ∷ cs) = err exhausted
names_from (suc fuel) (c ∷ cs) =
    let skipped = names_from fuel cs in
    let expanded = expression (names_from fuel) (split_at_closing cs) in
    if c == closing then err unmatched_closing else if c == opening then expanded else skipped

pub path_parameter_names : Text → Result TemplateError (List Text)
path_parameter_names path = names_from (length path) path
