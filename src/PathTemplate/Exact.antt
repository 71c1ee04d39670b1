-- ===== src/PathTemplate/Exact.antt =====
-- The loop accepts exactly the rows of pieces.
use mcplica.Common.{
  ℕ, zero, suc, ◌≤◌, ◌≡◌, ◌≢◌, refl, sym, ap, ◌∙◌, false, Option, none, some, List, [], ◌∷◌, ◌++◌,
  arith, ◌==◌, Text, is_empty, length, Result, ok, err, All, Bool-cases, Result-cases, inl, inr,
  length-append,
}
use mcplica.PathTemplate.{
  TemplateError, exhausted, invalid_expression, unmatched_closing, opening, closing, slash,
  split_at_closing, is_invalid_name, prepend, names_from, expression, path_parameter_names,
}
use mcplica.PathTemplate.Pieces.{
  Piece, char, parameter, render, parameters, has, IsPlain, split_at_closing-append,
  split_at_closing_sound, valid_name, names_from-opening, expression_valid, expression_ok,
}

names_from-render :
    (fuel : ℕ) (ps : List Piece)
    → length (render ps) ≤ fuel
    → All IsPlain ps
    → names_from fuel (render ps) ≡ ok (parameters ps)
unfolding names_from
names_from-render zero [] h v = refl
names_from-render (suc fuel) [] h v = refl
names_from-render zero (char c ∷ ps) h v = absurd (omega arith)
names_from-render zero (parameter name ∷ ps) h v = absurd (omega arith)
names_from-render (suc fuel) (char c ∷ ps) h v =
    ground (arith, names_from-render fuel ps (omega arith) v.1, v.0)
names_from-render (suc fuel) (parameter name ∷ ps) h v =
    let valid = valid_name name v.0.0 v.0.1 v.0.3 in
    let rest =
      names_from-render fuel ps (omega (arith, h, length-append name (closing ∷ render ps))) v.1 in
    names_from-opening fuel (name ++ closing ∷ render ps)
    ∙ ap (expression (names_from fuel)) (split_at_closing-append name (render ps) v.0.2)
    ∙ expression_valid (names_from fuel) name (render ps) valid
    ∙ ap (prepend name) rest

-- The pieces of an accepted path.
abbrev pub IsTemplateOf : Text → List Text → List Piece → Type 0
IsTemplateOf path names ps = (render ps ≡ path) × (parameters ps ≡ names) × All IsPlain ps

name_facts :
    (name : Text)
    → is_invalid_name name ≡ false
    → (is_empty name ≡ false) × (has opening name ≡ false) × (has slash name ≡ false)
unfolding is_invalid_name
name_facts name h = ground arith

names_from_sound :
    (fuel : ℕ) (path : Text) (names : List Text)
    → names_from fuel path ≡ ok names
    → (ps : List Piece) × IsTemplateOf path names ps
unfolding names_from
names_from_sound zero [] names h = ([], (refl, cc, tt))
names_from_sound (suc fuel) [] names h = ([], (refl, cc, tt))
names_from_sound zero (c ∷ cs) names h = absurd (ground arith)
names_from_sound (suc fuel) (c ∷ cs) names h = elim (Bool-cases (c == closing)) [
  | inl e ↦ let k : err unmatched_closing ≡ ok names = rw (e, names_from) at h in cc
  | inr not_closing ↦ elim (Bool-cases (c == opening)) [
    | inr not_opening ↦
        let k : names_from fuel cs ≡ ok names = rw (not_closing, not_opening, names_from) at h in
        let (ps, (shown, named, plain)) = names_from_sound fuel cs names k in
        (
          char c ∷ ps,
          (ap (λ (t : Text). c ∷ t) shown, named, ((ground arith, ground arith), plain)),
        )
    | inl is_opening ↦
        let k : expression (names_from fuel) (split_at_closing cs) ≡ ok names =
          rw (not_closing, is_opening, names_from) at h in
        let (name, rest, tail, at, valid, later, is) =
          expression_ok (names_from fuel) (split_at_closing cs) names k in
        let (split, clear) = split_at_closing_sound cs name rest at in
        let (nonempty, no_opening, no_slash) = name_facts name valid in
        let (ps, (shown, named, plain)) = names_from_sound fuel rest tail later in
        let brace : c ≡ opening = ground arith in
        let same : opening ∷ (name ++ closing ∷ render ps) ≡ c ∷ cs =
          ap (λ (t : Text). opening ∷ (name ++ closing ∷ t)) shown
          ∙ sym (ap (λ (t : Text). opening ∷ t) split)
          ∙ ap (λ (x : ℕ). x ∷ cs) (sym brace) in
        let all_named : name ∷ parameters ps ≡ names =
          ap (λ (t : List Text). name ∷ t) named ∙ sym is in
        (parameter name ∷ ps, (same, all_named, ((nonempty, no_opening, clear, no_slash), plain)))
  ]
]

split_at_closing-shorter :
    (t name rest : Text) → split_at_closing t ≡ some (name, rest) → length rest ≤ length t
split_at_closing-shorter t name rest h =
    let (split, clear) = split_at_closing_sound t name rest h in
    rw split (omega (arith, length-append name (closing ∷ rest)))

expression-ne-exhausted :
    (continue : Text → Result TemplateError (List Text)) (o : Option (Text × Text))
    → ((name rest : Text) → o ≡ some (name, rest) → continue rest ≢ err exhausted)
    → expression continue o ≢ err exhausted
unfolding expression
expression-ne-exhausted continue none f h = cc
expression-ne-exhausted continue (some (name, rest)) f h =
    elim (Bool-cases (is_invalid_name name)) [
      | inl e ↦ let k : err invalid_expression ≡ err exhausted = rw (e, expression) at h in cc
      | inr e ↦
          let k : prepend name (continue rest) ≡ err exhausted = rw (e, expression) at h in
          elim (Result-cases (continue rest)) [
            | inl (tail, t) ↦ let q : prepend name (ok tail) ≡ err exhausted = rw t at k in cc
            | inr (x, t) ↦
                let q : prepend name (err x) ≡ err exhausted = rw t at k in
                let same : x ≡ exhausted = cc in f name rest refl (rw same at t)
          ]
    ]

names_from-ne-exhausted :
    (fuel : ℕ) (path : Text) → length path ≤ fuel → names_from fuel path ≢ err exhausted
unfolding names_from
names_from-ne-exhausted zero [] h e = cc
names_from-ne-exhausted (suc fuel) [] h e = cc
names_from-ne-exhausted zero (c ∷ cs) h e = absurd (omega arith)
names_from-ne-exhausted (suc fuel) (c ∷ cs) h e = elim (Bool-cases (c == closing)) [
  | inl q ↦ let k : err unmatched_closing ≡ err exhausted = rw (q, names_from) at e in cc
  | inr not_closing ↦ elim (Bool-cases (c == opening)) [
    | inl is_opening ↦
        expression-ne-exhausted (names_from fuel) (split_at_closing cs)
          (λ name rest at.
            names_from-ne-exhausted fuel rest
              (omega (arith, h, split_at_closing-shorter cs name rest at)))
          (rw (not_closing, is_opening, names_from) at e)
    | inr not_opening ↦
        names_from-ne-exhausted fuel cs (omega arith)
          (rw (not_closing, not_opening, names_from) at e)
  ]
]

-- The loop never runs out of fuel, and a path is accepted with these names exactly if it is a row of
-- characters other than braces and expressions `{name}` with these names, each not empty and without
-- braces and slashes.
pub path_parameter_names_exact :
    (path : Text) (names : List Text)
    → (path_parameter_names path ≢ err exhausted)
      × (path_parameter_names path ≡ ok names → (ps : List Piece) × IsTemplateOf path names ps)
      × ((ps : List Piece) → IsTemplateOf path names ps → path_parameter_names path ≡ ok names)
unfolding path_parameter_names
path_parameter_names_exact path names = (
  names_from-ne-exhausted (length path) path (omega arith),
  λ h. names_from_sound (length path) path names h,
  λ ps t. rw (← t.0, ← t.1) (names_from-render (length (render ps)) ps (omega arith) t.2),
)
