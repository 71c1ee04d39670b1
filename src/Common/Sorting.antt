-- ===== src/Common/Sorting.antt =====
-- A stable sort by a Boolean order: Python's `sorted`, and SQL's ORDER BY.
use Prim.Native.Nat.{suc}
use mathlib.Core.Path.{◌≡◌, refl}
use mathlib.Core.Logic.{◌⊎◌, inl, inr}
use mathlib.Core.Bool.{Bool, true, false}
use mathlib.Core.List.{List, [], ◌∷◌, Memᴰ}
use native.Mathlib.Omega.{arith}
use mcplica.Common.Tests.{if◌then◌else◌, Bool-cases}
use mcplica.Common.Lists.{length, All, All-map}

module _ {ℓ} {A : Type ℓ} (leq : A → A → Bool) where
  abbrev pub insert : A → List A → List A
  insert x [] = x ∷ []
  insert x (y ∷ ys) = if leq x y then x ∷ y ∷ ys else y ∷ insert x ys

  abbrev pub sort : List A → List A
  sort [] = []
  sort (x ∷ xs) = insert x (sort xs)

  pub length-insert : (x : A) (xs : List A) → length (insert x xs) ≡ suc (length xs)
  length-insert x [] = refl
  length-insert x (y ∷ ys) = ground (arith, length-insert x ys)

  pub length-sort : (xs : List A) → length (sort xs) ≡ length xs
  length-sort [] = refl
  length-sort (x ∷ xs) = omega (arith, length-insert x (sort xs), length-sort xs)

module _ {ℓ κ} {A : Type ℓ} (leq : A → A → Bool) (P : A → Type κ) where
  pub All-insert : (x : A) (xs : List A) → P x → All P xs → All P (insert leq x xs)
  All-insert x [] p h = (p, tt)
  All-insert x (y ∷ ys) p h = elim (Bool-cases (leq x y)) [
    | inl e ↦ rw e (p, h)
    | inr e ↦ rw e (h.0, All-insert x ys p h.1)
  ]

  pub All-sort : (xs : List A) → All P xs → All P (sort leq xs)
  All-sort [] h = tt
  All-sort (x ∷ xs) h = All-insert x (sort leq xs) h.0 (All-sort xs h.1)

module _ {ℓ} {A : Type ℓ} (leq : A → A → Bool) where
  -- Each element comes before all later ones.
  abbrev pub IsSorted : List A → Type 0
  IsSorted [] = Unit
  IsSorted (x ∷ xs) = All (λ y. leq x y ≡ true) xs × IsSorted xs

  module _ (total : (x y : A) → leq x y ≡ false → leq y x ≡ true)
      (trans : (x y z : A) → leq x y ≡ true → leq y z ≡ true → leq x z ≡ true) where
    pub insert-IsSorted : (x : A) (xs : List A) → IsSorted xs → IsSorted (insert leq x xs)
    insert-IsSorted x [] h = (tt, tt)
    insert-IsSorted x (y ∷ ys) h = elim (Bool-cases (leq x y)) [
      | inl e ↦ rw e ((e, All-map (λ z. trans x y z e) ys h.0), h)
      | inr e ↦
          rw e
            (All-insert leq (λ z. leq y z ≡ true) x ys (total x y e) h.0, insert-IsSorted x ys h.1)
    ]

    pub sort-IsSorted : (xs : List A) → IsSorted (sort leq xs)
    sort-IsSorted [] = tt
    sort-IsSorted (x ∷ xs) = insert-IsSorted x (sort leq xs) (sort-IsSorted xs)

module _ {ℓ} {A : Type ℓ} (leq : A → A → Bool) where
  pub mem-insert : {x y : A} (xs : List A) → (x ≡ y) ⊎ Memᴰ x xs → Memᴰ x (insert leq y xs)
  mem-insert [] (inl e) = Memᴰ.head e
  mem-insert [] (inr m) = elim m [ ]
  mem-insert {y} (z ∷ zs) (inl q) = elim (Bool-cases (leq y z)) [
    | inl e ↦ rw e (Memᴰ.head q)
    | inr e ↦ rw e (Memᴰ.tail (mem-insert zs (inl q)))
  ]
  mem-insert {y} (z ∷ zs) (inr (Memᴰ.head q)) = elim (Bool-cases (leq y z)) [
    | inl e ↦ rw e (Memᴰ.tail (Memᴰ.head q))
    | inr e ↦ rw e (Memᴰ.head q)
  ]
  mem-insert {y} (z ∷ zs) (inr (Memᴰ.tail m)) = elim (Bool-cases (leq y z)) [
    | inl e ↦ rw e (Memᴰ.tail (Memᴰ.tail m))
    | inr e ↦ rw e (Memᴰ.tail (mem-insert zs (inr m)))
  ]

  pub mem-sort : {x : A} (xs : List A) → Memᴰ x xs → Memᴰ x (sort leq xs)
  mem-sort [] m = elim m [ ]
  mem-sort (y ∷ ys) (Memᴰ.head e) = mem-insert (sort leq ys) (inl e)
  mem-sort (y ∷ ys) (Memᴰ.tail m) = mem-insert (sort leq ys) (inr (mem-sort ys m))
