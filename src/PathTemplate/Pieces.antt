-- ===== src/PathTemplate/Pieces.antt =====
-- What the accepted paths are: literals and `{name}` expressions in a row.
use mcplica.Common.{
  ℕ, suc, ◌≡◌, ◌≢◌, refl, ap, Bool, false, Option, none, some, List, [], ◌∷◌, ◌++◌, arith, ◌==◌,
  Text, is_empty, any, Result, ok, err, Bool-cases, Option-cases, Result-cases, inl, inr,
}
use mcplica.PathTemplate.{
  TemplateError, invalid_expression, opening, closing, slash, split_at_closing, is_invalid_name,
  prepend, names_from, before, expression,
}

-- A piece of a template: a character outside of braces, or an expression.
pub data Piece : Type 0 where
  char : ℕ → Piece
  parameter : Text → Piece

abbrev pub render_piece : Piece → Text → Text
render_piece (char c) rest = c ∷ rest
render_piece (parameter name) rest = opening ∷ (name ++ closing ∷ rest)

abbrev pub render : List Piece → Text
render [] = []
render (p ∷ ps) = render_piece p (render ps)

-- The names of the expressions, in order.
abbrev pub parameters : List Piece → List Text
parameters [] = []
parameters (char c ∷ ps) = parameters ps
parameters (parameter name ∷ ps) = name ∷ parameters ps

abbrev pub has : ℕ → Text → Bool
has c t = any (λ d. d == c) t

-- A character is no brace; a name is not empty and holds no brace and no slash.
abbrev pub IsPlain : Piece → Type 0
IsPlain (char c) = (c ≢ opening) × (c ≢ closing)
IsPlain (parameter name) =
    (is_empty name ≡ false)
    × (has opening name ≡ false)
    × (has closing name ≡ false)
    × (has slash name ≡ false)

pub split_at_closing-append :
    (name rest : Text)
    → has closing name ≡ false
    → split_at_closing (name ++ closing ∷ rest) ≡ some (name, rest)
unfolding split_at_closing
split_at_closing-append [] rest h = refl
split_at_closing-append (c ∷ name) rest h = ground (arith, split_at_closing-append name rest)

pub split_at_closing_sound :
    (t name rest : Text)
    → split_at_closing t ≡ some (name, rest)
    → (t ≡ name ++ closing ∷ rest) × (has closing name ≡ false)
unfolding split_at_closing
split_at_closing_sound [] name rest h = cc
split_at_closing_sound (c ∷ cs) name rest h = elim (Bool-cases (c == closing)) [
  | inl e ↦
      let k : some ([], cs) ≡ some (name, rest) = rw (e, split_at_closing) at h in ground arith
  | inr e ↦ elim (Option-cases (split_at_closing cs)) [
    | inl none_left ↦
        let k : before c none ≡ some (name, rest) = rw (e, none_left, split_at_closing) at h in cc
    | inr (found, at) ↦
        let k : some (c ∷ found.0, found.1) ≡ some (name, rest) =
          rw (e, at, split_at_closing) at h in
        let (split, clear) = split_at_closing_sound cs found.0 found.1 at in
        let n : name ≡ c ∷ found.0 = cc in
        let r : rest ≡ found.1 = cc in
        (rw (n, r) (ap (λ (t : Text). c ∷ t) split), rw n (ground arith))
  ]
]

pub valid_name :
    (name : Text)
    → is_empty name ≡ false
    → has opening name ≡ false
    → has slash name ≡ false
    → is_invalid_name name ≡ false
unfolding is_invalid_name
valid_name name e o s = ground arith

pub names_from-opening :
    (fuel : ℕ) (cs : Text)
    → names_from (suc fuel) (opening ∷ cs) ≡ expression (names_from fuel) (split_at_closing cs)
unfolding names_from
names_from-opening fuel cs = refl

pub expression_valid :
    (continue : Text → Result TemplateError (List Text)) (name rest : Text)
    → is_invalid_name name ≡ false
    → expression continue (some (name, rest)) ≡ prepend name (continue rest)
unfolding expression
expression_valid continue name rest h = rw h

pub expression_ok :
    (continue : Text → Result TemplateError (List Text)) (o : Option (Text × Text))
    (names : List Text)
    → expression continue o ≡ ok names
    → (name : Text) × (rest : Text) × (tail : List Text) × (o ≡ some (name, rest))
      × (is_invalid_name name ≡ false)
      × (continue rest ≡ ok tail)
      × (names ≡ name ∷ tail)
unfolding expression
expression_ok continue none names h = cc
expression_ok continue (some (name, rest)) names h = elim (Bool-cases (is_invalid_name name)) [
  | inl e ↦ let k : err invalid_expression ≡ ok names = rw (e, expression) at h in cc
  | inr e ↦
      let k : prepend name (continue rest) ≡ ok names = rw (e, expression) at h in
      elim (Result-cases (continue rest)) [
        | inl (tail, t) ↦
            let q : prepend name (ok tail) ≡ ok names = rw t at k in
            (name, rest, tail, refl, e, t, cc)
        | inr (x, t) ↦ let q : prepend name (err x) ≡ ok names = rw t at k in cc
      ]
]
