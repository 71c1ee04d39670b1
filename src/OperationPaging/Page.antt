-- ===== src/OperationPaging/Page.antt =====
-- The page is the slice of the matching candidates, and the counts are over all of them.
use mcplica.Common.{
  ℕ, zero, suc, ◌+◌, ◌-◌, ◌≤◌, ◌<◌, ◌≡◌, refl, sym, ◌∙◌, Bool, true, false, ◌&&◌, Option, List, [],
  ◌∷◌, ◌++◌, arith, leb, ltb, if◌then◌else◌, Text, Bool-cases, inl, inr, take, drop, filter,
  count_p, length, length-filter,
}
use mathlib.Core.List.{append-nil, append_assoc}
use native.Mathlib.Decide.{dec_lt}
use mcplica.OperationPaging.{
  Candidate, Scope, is_changed, matches, page_loop, page_operation_candidates, normalized_search,
  normalized_method,
}

-- `xs[offset:stop]`
abbrev pub slice {ℓ} : {A : Type ℓ} → ℕ → ℕ → List A → List A
slice offset stop xs = drop offset (take stop xs)

module _ {ℓ} {A : Type ℓ} (offset stop t : ℕ) (x : A) (xs : List A) where
  slice_before :
      t < offset
      → offset ≤ stop
      → slice (offset - t) (stop - t) (x ∷ xs) ≡ slice (offset - (t + 1)) (stop - (t + 1)) xs
  slice_before h k =
      let a : offset - t ≡ suc (offset - (t + 1)) = omega arith in
      let b : stop - t ≡ suc (stop - (t + 1)) = omega arith in rw (a, b)

  slice_inside :
      offset ≤ t
      → t < stop
      → slice (offset - t) (stop - t) (x ∷ xs) ≡ x ∷ slice (offset - (t + 1)) (stop - (t + 1)) xs
  slice_inside h k =
      let a : offset - t ≡ 0 = omega arith in
      let c : offset - (t + 1) ≡ 0 = omega arith in
      let b : stop - t ≡ suc (stop - (t + 1)) = omega arith in rw (a, b, c)

  slice_after :
      offset ≤ stop
      → stop ≤ t
      → slice (offset - t) (stop - t) (x ∷ xs) ≡ slice (offset - (t + 1)) (stop - (t + 1)) xs
  slice_after h k =
      let a : offset - t ≡ 0 = omega arith in
      let c : offset - (t + 1) ≡ 0 = omega arith in
      let b : stop - t ≡ 0 = omega arith in
      let d : stop - (t + 1) ≡ 0 = omega arith in rw (a, b, c, d)

slice_nil {ℓ} : {A : Type ℓ} (offset stop : ℕ) → slice {A = A} offset stop [] ≡ []
slice_nil zero zero = refl
slice_nil zero (suc n) = refl
slice_nil (suc m) zero = refl
slice_nil (suc m) (suc n) = refl

triple :
    {A : Type 0} {a a' : A} {b b' c c' : ℕ}
    → a ≡ a'
    → b ≡ b'
    → c ≡ c'
    → ◌≡◌ {A = A × ℕ × ℕ} (a, b, c) (a', b', c')
triple p q r = λ i. (p i, q i, r i)

counted : (b : Bool) (d n : ℕ) → (if b then d + 1 else d) + n ≡ d + (if b then suc n else n)
counted b d n = ground arith

-- One round keeps a matching candidate exactly when its place lies in the slice.
kept_round :
    (offset limit total : ℕ) (c : Candidate) (selected rest : List Candidate)
    → (if leb offset total && ltb total (offset + limit) then selected ++ c ∷ [] else selected)
        ++ slice (offset - (total + 1)) (offset + limit - (total + 1)) rest
      ≡ selected ++ slice (offset - total) (offset + limit - total) (c ∷ rest)
kept_round offset limit total c selected rest = elim (dec_lt total offset) [
  | yes before ↦
      let e : (leb offset total && ltb total (offset + limit)) ≡ false = ground arith in
      rw (e, slice_before offset (offset + limit) total c rest before (omega arith))
  | no from ↦ elim (dec_lt total (offset + limit)) [
    | yes inside ↦
        let e : (leb offset total && ltb total (offset + limit)) ≡ true = ground arith in
        rw (e, slice_inside offset (offset + limit) total c rest (omega arith) inside, append_assoc)
    | no after ↦
        let e : (leb offset total && ltb total (offset + limit)) ≡ false = ground arith in
        rw (e, slice_after offset (offset + limit) total c rest (omega arith) (omega arith))
  ]
]

module _ (casefold upper : Text → Text) where
  page_loop-slice :
      (test : Candidate → Bool) (offset limit : ℕ) (cs selected : List Candidate) (total drift : ℕ)
      → page_loop casefold upper test offset limit cs selected total drift ≡ (
        selected ++ slice (offset - total) (offset + limit - total) (filter test cs),
        total + count_p test cs,
        drift + count_p is_changed cs,
      )
  unfolding page_loop
  page_loop-slice test offset limit [] selected total drift =
      triple (sym (rw slice_nil (append-nil selected))) (omega arith) (omega arith)
  page_loop-slice test offset limit (c ∷ cs) selected total drift =
      let drift' : ℕ = if is_changed c then drift + 1 else drift in
      elim (Bool-cases (test c)) [
        | inr e ↦ rw e (
            page_loop-slice test offset limit cs selected total drift'
            ∙ triple refl refl (counted (is_changed c) drift (count_p is_changed cs)))
        | inl e ↦
            let taken : List Candidate =
              if leb offset total && ltb total (offset + limit)
              then selected ++ c ∷ []
              else selected in
            rw e (
              page_loop-slice test offset limit cs taken (total + 1) drift'
              ∙ triple (kept_round offset limit total c selected (filter test cs)) (omega arith)
                  (counted (is_changed c) drift (count_p is_changed cs)))
      ]

  -- The result is the slice `[offset:offset + limit]` of the candidates that match search, method and
  -- scope, with the number of all matches, and the number of all candidates, matching or not, whose
  -- policy has drifted.
  pub page_operation_candidates_exact :
      (candidates : List Candidate) (search method : Option Text) (scope : Scope) (offset limit : ℕ)
      → let test =
          matches casefold upper
            (normalized_search casefold upper search)
            (normalized_method casefold upper method)
            scope in
        page_operation_candidates casefold upper candidates search method scope offset limit ≡ (
          slice offset (offset + limit) (filter test candidates),
          length (filter test candidates),
          count_p is_changed candidates,
        )
  unfolding page_operation_candidates
  page_operation_candidates_exact candidates needle method scope offset limit =
      let test =
        matches casefold upper (normalized_search casefold upper needle)
          (normalized_method casefold upper method) scope in
      let a : offset - 0 ≡ offset = omega arith in
      let b : offset + limit - 0 ≡ offset + limit = omega arith in
      page_loop-slice test offset limit candidates [] 0 0
      ∙ triple (rw (a, b)) (omega (arith, length-filter test candidates)) (omega arith)
