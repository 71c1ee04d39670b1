-- ===== src/Common/Lists.antt =====
-- Lists: Python's `len`, `any`, `all`, slices and comprehensions, over the native numbers, and a
-- predicate on all elements.
use Prim.Native.Nat.{ℕ, zero, suc, ◌+◌, ◌≤◌, min}
use mathlib.Core.Path.{◌≡◌, refl}
use mathlib.Core.Logic.{◌⊎◌, inl, inr}
use mathlib.Core.Bool.{Bool, true, false, ◌&&◌, ◌||◌}
use mathlib.Core.Option.{Option, none, some}
use mathlib.Core.List.{List, [], ◌∷◌, ◌++◌, map, Memᴰ}
use native.Mathlib.Omega.{arith}
use mcplica.Common.Tests.{if◌then◌else◌, Bool-cases}

module _ {ℓ} {A : Type ℓ} where
  abbrev pub length : List A → ℕ
  length [] = 0
  length (x ∷ xs) = suc (length xs)

  abbrev pub take : ℕ → List A → List A
  take zero xs = []
  take (suc n) [] = []
  take (suc n) (x ∷ xs) = x ∷ take n xs

  abbrev pub drop : ℕ → List A → List A
  drop zero xs = xs
  drop (suc n) [] = []
  drop (suc n) (x ∷ xs) = drop n xs

  abbrev pub any : (A → Bool) → List A → Bool
  any p [] = false
  any p (x ∷ xs) = p x || any p xs

  abbrev pub all : (A → Bool) → List A → Bool
  all p [] = true
  all p (x ∷ xs) = p x && all p xs

  -- `[x for x in xs if p(x)]`
  abbrev pub filter : (A → Bool) → List A → List A
  filter p [] = []
  filter p (x ∷ xs) = let rest = filter p xs in if p x then x ∷ rest else rest

  pub length-take : (n : ℕ) (xs : List A) → length (take n xs) ≡ min n (length xs)
  length-take zero xs = omega arith
  length-take (suc n) [] = omega arith
  length-take (suc n) (x ∷ xs) = omega (arith, length-take n xs)

  pub length-append : (xs ys : List A) → length (xs ++ ys) ≡ length xs + length ys
  length-append [] ys = omega arith
  length-append (x ∷ xs) ys = omega (arith, length-append xs ys)

  pub length-filter-le : (p : A → Bool) (xs : List A) → length (filter p xs) ≤ length xs
  length-filter-le p [] = omega arith
  length-filter-le p (x ∷ xs) = ground (arith, length-filter-le p xs)

module _ {ℓ κ} {A : Type ℓ} where
  -- The predicate holds of each element; it computes to a tuple.
  abbrev pub All : (A → Type κ) → List A → Type κ
  All P [] = Unit
  All P (x ∷ xs) = P x × All P xs

  pub All-append : (P : A → Type κ) (xs ys : List A) → All P xs → All P ys → All P (xs ++ ys)
  All-append P [] ys left right = right
  All-append P (x ∷ xs) ys left right = (left.0, All-append P xs ys left.1 right)

  pub All-take : (P : A → Type κ) (n : ℕ) (xs : List A) → All P xs → All P (take n xs)
  All-take P zero xs h = tt
  All-take P (suc n) [] h = tt
  All-take P (suc n) (x ∷ xs) h = (h.0, All-take P n xs h.1)

  pub All-filter : (P : A → Type κ) (p : A → Bool) (xs : List A) → All P xs → All P (filter p xs)
  All-filter P p [] h = tt
  All-filter P p (x ∷ xs) h = elim (Bool-cases (p x)) [
    | inl e ↦ rw e (h.0, All-filter P p xs h.1)
    | inr e ↦ rw e (All-filter P p xs h.1)
  ]

  -- What the filter tests holds of all that it lets through.
  pub All-filter_passed :
      (P : A → Type κ) (p : A → Bool) (xs : List A)
      → All P xs
      → All (λ x. P x × (p x ≡ true)) (filter p xs)
  All-filter_passed P p [] h = tt
  All-filter_passed P p (x ∷ xs) h = elim (Bool-cases (p x)) [
    | inl e ↦ rw e ((h.0, e), All-filter_passed P p xs h.1)
    | inr e ↦ rw e (All-filter_passed P p xs h.1)
  ]

  pub All-map : {P Q : A → Type κ} → ((x : A) → P x → Q x) → (xs : List A) → All P xs → All Q xs
  All-map f [] h = tt
  All-map f (x ∷ xs) h = (f x h.0, All-map f xs h.1)

  pub All-of-map :
      (P Q : A → Type κ) (f : A → A) (xs : List A)
      → ((x : A) → P x → Q (f x))
      → All P xs
      → All Q (map f xs)
  All-of-map P Q f [] h a = tt
  All-of-map P Q f (x ∷ xs) h a = (h x a.0, All-of-map P Q f xs h a.1)

  pub All-mem : (P : A → Type κ) {x : A} (xs : List A) → All P xs → Memᴰ x xs → P x
  All-mem P [] h m = elim m [ ]
  All-mem P (y ∷ ys) h (Memᴰ.head e) = rw e h.0
  All-mem P (y ∷ ys) h (Memᴰ.tail m) = All-mem P ys h.1 m

  pub All-of_mem : (P : A → Type κ) (xs : List A) → ((x : A) → Memᴰ x xs → P x) → All P xs
  All-of_mem P [] f = tt
  All-of_mem P (x ∷ xs) f = (f x (Memᴰ.head refl), All-of_mem P xs (λ y m. f y (Memᴰ.tail m)))

-- A type with no element, at every level.
pub data Empty {ℓ} : Type ℓ where

module _ {ℓ κ} {A : Type ℓ} where
  -- Two lists of one length, related element by element.
  abbrev pub Pointwise : (A → A → Type κ) → List A → List A → Type κ
  Pointwise R [] [] = Unit
  Pointwise R [] (y ∷ ys) = Empty
  Pointwise R (x ∷ xs) [] = Empty
  Pointwise R (x ∷ xs) (y ∷ ys) = R x y × Pointwise R xs ys

  pub Pointwise-refl : (R : A → A → Type κ) (xs : List A) → All (λ x. R x x) xs → Pointwise R xs xs
  Pointwise-refl R [] h = tt
  Pointwise-refl R (x ∷ xs) h = (h.0, Pointwise-refl R xs h.1)

  pub Pointwise-weaken :
      {R S : A → A → Type κ}
      → ((x y : A) → R x y → S x y)
      → (xs ys : List A) → Pointwise R xs ys
      → Pointwise S xs ys
  Pointwise-weaken f [] [] p = tt
  Pointwise-weaken f [] (y ∷ ys) p = elim p [ ]
  Pointwise-weaken f (x ∷ xs) [] p = elim p [ ]
  Pointwise-weaken f (x ∷ xs) (y ∷ ys) p = (f x y p.0, Pointwise-weaken f xs ys p.1)

  -- What each pair of rows carries over.
  pub All-Pointwise {μ} :
      (R : A → A → Type κ) (P Q : A → Type μ)
      → ((x y : A) → R x y → P x → Q y)
      → (xs ys : List A) → Pointwise R xs ys
      → All P xs
      → All Q ys
  All-Pointwise R P Q f [] [] p h = tt
  All-Pointwise R P Q f [] (y ∷ ys) p h = elim p [ ]
  All-Pointwise R P Q f (x ∷ xs) [] p h = elim p [ ]
  All-Pointwise R P Q f (x ∷ xs) (y ∷ ys) p h = (f x y p.0 h.0, All-Pointwise R P Q f xs ys p.1 h.1)

  pub Pointwise-map :
      (R : A → A → Type κ) (f : A → A) (xs : List A)
      → All (λ x. R x (f x)) xs
      → Pointwise R xs (map f xs)
  Pointwise-map R f [] h = tt
  Pointwise-map R f (x ∷ xs) h = (h.0, Pointwise-map R f xs h.1)

module _ {ℓ} {A : Type ℓ} (p : A → Bool) where
  pub mem-filter : {x : A} (xs : List A) → Memᴰ x xs → p x ≡ true → Memᴰ x (filter p xs)
  mem-filter [] m h = elim m [ ]
  mem-filter {x} (y ∷ ys) (Memᴰ.head e) h = rw (← e) (rw h (Memᴰ.head refl))
  mem-filter (y ∷ ys) (Memᴰ.tail m) h = elim (Bool-cases (p y)) [
    | inl e ↦ rw e (Memᴰ.tail (mem-filter ys m h))
    | inr e ↦ rw e (mem-filter ys m h)
  ]

  -- `next((x for x in xs if p(x)), None)`
  unfoldable pub first : List A → Option A
  first [] = none
  first (x ∷ xs) = if p x then some x else first xs

  pub first-none : {x : A} (xs : List A) → first xs ≡ none → Memᴰ x xs → p x ≡ false
  unfolding first
  first-none [] h m = elim m [ ]
  first-none {x} (y ∷ ys) h (Memᴰ.head e) = ground (arith, e)
  first-none {x} (y ∷ ys) h (Memᴰ.tail m) = ground (arith, first-none {x = x} ys)

  pub first-some : {x : A} (xs : List A) → first xs ≡ some x → Memᴰ x xs × (p x ≡ true)
  unfolding first
  first-some [] h = cc
  first-some {x} (y ∷ ys) h = elim (Bool-cases (p y)) [
    | inl e ↦
        let k : some y ≡ some x = rw (e, first) at h in
        let same : x ≡ y = cc in (Memᴰ.head same, rw same e)
    | inr e ↦ let (m, q) = first-some ys (rw (e, first) at h) in (Memᴰ.tail m, q)
  ]

module _ {ℓ} {A : Type ℓ} where
  -- The number of elements that pass.
  abbrev pub count_p : (A → Bool) → List A → ℕ
  count_p p [] = 0
  count_p p (x ∷ xs) = let rest = count_p p xs in if p x then suc rest else rest

  pub length-filter : (p : A → Bool) (xs : List A) → length (filter p xs) ≡ count_p p xs
  length-filter p [] = refl
  length-filter p (x ∷ xs) = ground (arith, length-filter p xs)

  -- What passes `p` passes `q` or `r`.
  pub count_p-le-add :
      (p q r : A → Bool) (xs : List A)
      → All (λ x. p x ≡ true → (q x ≡ true) ⊎ (r x ≡ true)) xs
      → count_p p xs ≤ count_p q xs + count_p r xs
  count_p-le-add p q r [] h = omega arith
  count_p-le-add p q r (x ∷ xs) h = ground (arith, count_p-le-add p q r xs h.1, h.0)

  pub count_p-map-le :
      (p q : A → Bool) (f : A → A) (xs : List A)
      → All (λ x. p (f x) ≡ true → q x ≡ true) xs
      → count_p p (map f xs) ≤ count_p q xs
  count_p-map-le p q f [] h = omega arith
  count_p-map-le p q f (x ∷ xs) h = ground (arith, count_p-map-le p q f xs h.1, h.0)

  pub count_p-zero : (p : A → Bool) (xs : List A) → All (λ x. p x ≡ false) xs → count_p p xs ≡ 0
  count_p-zero p [] h = refl
  count_p-zero p (x ∷ xs) h = ground (arith, count_p-zero p xs h.1, h.0)

  pub count_p-Pointwise :
      (p q : A → Bool) (xs ys : List A)
      → Pointwise (λ x y. p y ≡ true → q x ≡ true) xs ys
      → count_p p ys ≤ count_p q xs
  count_p-Pointwise p q [] [] h = omega arith
  count_p-Pointwise p q [] (y ∷ ys) h = elim h [ ]
  count_p-Pointwise p q (x ∷ xs) [] h = elim h [ ]
  count_p-Pointwise p q (x ∷ xs) (y ∷ ys) h = ground (arith, count_p-Pointwise p q xs ys h.1, h.0)

  pub count_p-map :
      (p : A → Bool) (f : A → A) (xs : List A)
      → ((x : A) → p (f x) ≡ p x)
      → count_p p (map f xs) ≡ count_p p xs
  count_p-map p f [] h = refl
  count_p-map p f (x ∷ xs) h = let rest = count_p-map p f xs h in rw (h x, rest) refl

  pub count_p-append :
      (p : A → Bool) (xs ys : List A) → count_p p (xs ++ ys) ≡ count_p p xs + count_p p ys
  count_p-append p [] ys = omega arith
  count_p-append p (x ∷ xs) ys = ground (arith, count_p-append p xs ys)
