-- ===== src/Common/Table.antt =====
-- A database table as the list of its rows, each with an identifier: SELECT and UPDATE by primary
-- key. The laws hold for every row type.
use mathlib.Core.Bool.{Bool, true, false}
use mathlib.Core.List.{List, [], ◌∷◌, ◌++◌, map, Memᴰ}
use mathlib.Core.Option
use mathlib.Core.Option.{Option, none, some}
use mathlib.Core.Path.{◌≡◌, refl, sym, ◌∙◌}
use mathlib.Core.Logic.{◌≢◌, ◌⊎◌, inl, inr}
use native.Mathlib.Omega.{arith}
use Prim.Native.Nat.{ℕ, ◌≤◌}
use mcplica.Common.Tests.{is_some, Option-cases, ◌==◌, if◌then◌else◌, Bool-cases}
use mcplica.Common.Lists.{
  All, All-mem, All-append, Pointwise, Pointwise-refl, Pointwise-map, count_p, count_p-zero,
  count_p-le-add, All-map, All-of_mem, length,
}

-- The row that stands in the place of `x`.
abbrev pub replacement {ℓ} : {A : Type ℓ} → A → Option A → A
replacement x none = x
replacement x (some y) = y

module _ {ℓ} {A : Type ℓ} (key : A → ℕ) where
  -- SELECT … WHERE id = i
  unfoldable pub find : ℕ → List A → Option A
  find i [] = none
  find i (x ∷ xs) = if key x == i then some x else find i xs

  -- UPDATE of the row that `find` returns
  unfoldable pub update : ℕ → (A → A) → List A → List A
  update i f [] = []
  update i f (x ∷ xs) = if key x == i then f x ∷ xs else x ∷ update i f xs

  -- PRIMARY KEY
  abbrev pub UniqueKeys : List A → Type 0
  UniqueKeys [] = Unit
  UniqueKeys (x ∷ xs) = All (λ y. key x ≢ key y) xs × UniqueKeys xs

  pub key_of_find : (i : ℕ) (xs : List A) {x : A} → find i xs ≡ some x → key x ≡ i
  unfolding find
  key_of_find i [] h = cc
  key_of_find i (y ∷ ys) {x} h = ground (arith, key_of_find i ys {x = x})

  pub mem_of_find : (i : ℕ) (xs : List A) {x : A} → find i xs ≡ some x → Memᴰ x xs
  unfolding find
  mem_of_find i [] h = cc
  mem_of_find i (y ∷ ys) {x} h = elim (Bool-cases (key y == i)) [
    | inl e ↦ Memᴰ.head (let k : some y ≡ some x = rw e at h in cc)
    | inr e ↦ Memᴰ.tail (mem_of_find i ys (rw e at h))
  ]

  pub find-update :
      (i j : ℕ) (f : A → A) (xs : List A)
      → ((x : A) → key (f x) ≡ key x)
      → find j (update i f xs) ≡ (if i == j then Option.map f (find j xs) else find j xs)
  unfolding find update
  find-update i j f [] h = ground arith
  find-update i j f (x ∷ xs) h = ground (arith, find-update i j f xs h, h x)

  pub find_of_mem : (xs : List A) {x : A} → UniqueKeys xs → Memᴰ x xs → find (key x) xs ≡ some x
  unfolding find
  find_of_mem [] u m = elim m [ ]
  find_of_mem (y ∷ ys) {x} u (Memᴰ.head e) = ground (arith, e)
  find_of_mem (y ∷ ys) {x} u (Memᴰ.tail m) =
      ground (arith, All-mem (λ z. key y ≢ key z) ys u.0 m, find_of_mem ys {x = x} u.1 m)

  -- Rows with the same identifiers in the same places.
  pub UniqueKeys-of_Pointwise :
      (xs ys : List A) → Pointwise (λ x y. key x ≡ key y) xs ys → UniqueKeys xs → UniqueKeys ys
  UniqueKeys-of_Pointwise [] [] p u = tt
  UniqueKeys-of_Pointwise [] (y ∷ ys) p u = elim p [ ]
  UniqueKeys-of_Pointwise (x ∷ xs) [] p u = elim p [ ]
  UniqueKeys-of_Pointwise (x ∷ xs) (y ∷ ys) (e, p) u =
      (fresh xs ys p u.0, UniqueKeys-of_Pointwise xs ys p u.1)
    where
      fresh :
          (us vs : List A)
          → Pointwise (λ x y. key x ≡ key y) us vs
          → All (λ z. key x ≢ key z) us
          → All (λ z. key y ≢ key z) vs
      fresh [] [] p u = tt
      fresh [] (v ∷ vs) p k = elim p [ ]
      fresh (u ∷ us) [] p k = elim p [ ]
      fresh (u ∷ us) (v ∷ vs) (d, p) k = (λ q. k.0 (e ∙ q ∙ sym d), fresh us vs p k.1)

  pub UniqueKeys-concat :
      (xs : List A) (y : A) → find (key y) xs ≡ none → UniqueKeys xs → UniqueKeys (xs ++ y ∷ [])
  unfolding find
  UniqueKeys-concat [] y h u = (tt, tt)
  UniqueKeys-concat (x ∷ xs) y h u = (
    All-append (λ z. key x ≢ key z) xs (y ∷ []) u.0 (ground arith, tt),
    UniqueKeys-concat xs y (ground arith) u.1,
  )

  -- An update of one row, as a relation between the tables before and after it.
  pub Pointwise-update {κ} :
      (R : A → A → Type κ) (i : ℕ) (f : A → A) (xs : List A) {x : A}
      → All (λ y. R y y) xs
      → find i xs ≡ some x
      → R x (f x)
      → Pointwise R xs (update i f xs)
  unfolding find update
  Pointwise-update R i f [] h e r = tt
  Pointwise-update R i f (y ∷ ys) {x} h e r = elim (Bool-cases (key y == i)) [
    | inl q ↦
        let same : some y ≡ some x = rw q at e in
        let same' : y ≡ x = cc in rw q (rw same' r, Pointwise-refl R ys h.1)
    | inr q ↦ rw q (h.0, Pointwise-update R i f ys h.1 (rw q at e) r)
  ]

  -- The row with an identifier, in a table that changes row by row.
  pub find-Pointwise {κ} :
      (R : A → A → Type κ) (i : ℕ) (xs ys : List A) {x : A}
      → ((a b : A) → R a b → key a ≡ key b)
      → Pointwise R xs ys
      → find i xs ≡ some x
      → (y : A) × (find i ys ≡ some y) × R x y
  unfolding find
  find-Pointwise R i [] ys k p h = cc
  find-Pointwise R i (a ∷ xs) [] k p h = elim p [ ]
  find-Pointwise R i (a ∷ xs) (b ∷ ys) {x} k p h = elim (Bool-cases (key a == i)) [
    | inl e ↦
        let same : some a ≡ some x = rw e at h in
        let same' : x ≡ a = cc in (b, rw (← k a b p.0, e) refl, rw same' p.0)
    | inr e ↦
        let (y, at, r) = find-Pointwise R i xs ys {x = x} k p.1 (rw e at h) in
        (y, rw (← k a b p.0, e) at, r)
  ]

  -- What a table keeps when the row with an identifier changes.
  pub All-update {κ μ} :
      (P : A → Type κ) (Q : A → Type μ) (i : ℕ) (f : A → A) (xs : List A)
      → ((x : A) → P x → key x ≡ i → Q (f x))
      → ((x : A) → P x → key x ≢ i → Q x)
      → UniqueKeys xs
      → All P xs
      → All Q (update i f xs)
  unfolding update
  All-update P Q i f [] g h u a = tt
  All-update P Q i f (x ∷ xs) g h u a = elim (Bool-cases (key x == i)) [
    | inl e ↦ let same : key x ≡ i = ground arith in rw e (g x a.0 same, others x same xs u.0 a.1)
    | inr e ↦
        let other : key x ≢ i = λ q. ground arith in
        rw e (h x a.0 other, All-update P Q i f xs g h u.1 a.1)
  ]
    where
      others :
          (x : A) → key x ≡ i → (ys : List A) → All (λ y. key x ≢ key y) ys → All P ys → All Q ys
      others x same [] d a = tt
      others x same (y ∷ ys) d a = (h y a.0 (λ q. d.0 (same ∙ sym q)), others x same ys d.1 a.1)

  pub All-update_found {κ} :
      (P : A → Type κ) (i : ℕ) (f : A → A) (xs : List A) {x : A}
      → find i xs ≡ some x
      → P (f x)
      → All P xs
      → All P (update i f xs)
  unfolding find update
  All-update_found P i f [] at p a = tt
  All-update_found P i f (y ∷ ys) {x} at p a = elim (Bool-cases (key y == i)) [
    | inl e ↦
        let same : some y ≡ some x = rw e at at in let same' : y ≡ x = cc in rw e (rw same' p, a.1)
    | inr e ↦ rw e (a.0, All-update_found P i f ys {x = x} (rw e at at) p a.1)
  ]

  pub UniqueKeys-update :
      (i : ℕ) (f : A → A) (xs : List A)
      → ((x : A) → key (f x) ≡ key x)
      → UniqueKeys xs
      → UniqueKeys (update i f xs)
  unfolding update
  UniqueKeys-update i f xs h u = UniqueKeys-of_Pointwise xs (update i f xs) (same xs) u
    where
      unchanged : (ys : List A) → Pointwise (λ x y. key x ≡ key y) ys ys
      unchanged [] = tt
      unchanged (y ∷ ys) = (refl, unchanged ys)

      same : (ys : List A) → Pointwise (λ x y. key x ≡ key y) ys (update i f ys)
      same [] = tt
      same (y ∷ ys) = elim (Bool-cases (key y == i)) [
        | inl e ↦ rw e (sym (h y), unchanged ys)
        | inr e ↦ rw e (refl, same ys)
      ]

  pub count_p-update :
      (p : A → Bool) (i : ℕ) (f : A → A) (xs : List A) {x : A}
      → find i xs ≡ some x
      → p (f x) ≡ p x
      → count_p p (update i f xs) ≡ count_p p xs
  unfolding find update
  count_p-update p i f [] at h = refl
  count_p-update p i f (y ∷ ys) {x} at h = elim (Bool-cases (key y == i)) [
    | inl e ↦
        let same : some y ≡ some x = rw e at at in
        let same' : x ≡ y = cc in let h' : p (f y) ≡ p y = rw same' at h in rw (e, h') refl
    | inr e ↦ let rest = count_p-update p i f ys {x = x} (rw e at at) h in rw (e, rest) refl
  ]

  pub find-append :
      (i : ℕ) (xs ys : List A) {x : A} → find i xs ≡ some x → find i (xs ++ ys) ≡ some x
  unfolding find
  find-append i [] ys h = cc
  find-append i (a ∷ xs) ys {x} h = ground (arith, find-append i xs ys {x = x})

  pub find-concat :
      (i : ℕ) (xs : List A) (y : A) {z : A}
      → find i (xs ++ y ∷ []) ≡ some z
      → (find i xs ≡ some z) ⊎ ((find i xs ≡ none) × (z ≡ y))
  unfolding find
  find-concat i [] y {z} h = elim (Bool-cases (key y == i)) [
    | inl e ↦ let k : some y ≡ some z = rw e at h in inr (refl, cc)
    | inr e ↦ let k : none ≡ some z = rw e at h in cc
  ]
  find-concat i (x ∷ xs) y {z} h = elim (Bool-cases (key x == i)) [
    | inl e ↦ let k : some x ≡ some z = rw e at h in inl (rw e k)
    | inr e ↦ rw e (find-concat i xs y {z = z} (rw e at h))
  ]

  -- The rows of `claimed` take the places of the rows with their identifiers.
  unfoldable pub write_back : List A → List A → List A
  write_back claimed xs = map (λ x. replacement x (find (key x) claimed)) xs

  count_key-le-one : (k : ℕ) (xs : List A) → UniqueKeys xs → count_p (λ x. k == key x) xs ≤ 1
  count_key-le-one k [] u = omega arith
  count_key-le-one k (x ∷ xs) u = elim (Bool-cases (k == key x)) [
    | inl e ↦
        let same : k ≡ key x = ground arith in
        rw
          (
            e,
            count_p-zero (λ y. k == key y) xs
                (All-map (λ y h. other k (key x) (key y) same h) xs u.0),
          )
          (omega arith)
    | inr e ↦ rw e (count_key-le-one k xs u.1)
  ]
    where
      other : (a b c : ℕ) → a ≡ b → b ≢ c → (a == c) ≡ false
      other a b c e h = ground arith

  -- At most as many rows are replaced as are written back.
  pub count_replaced-le :
      (claimed xs : List A)
      → UniqueKeys xs
      → count_p (λ x. is_some (find (key x) claimed)) xs ≤ length claimed
  unfolding find
  count_replaced-le [] xs u =
      rw (count_p-zero (λ x. false) xs (All-of_mem (λ x. false ≡ false) xs (λ x m. refl)))
        (omega arith)
  count_replaced-le (c ∷ cs) xs u = omega (
    arith,
    count_p-le-add (λ x. is_some (find (key x) (c ∷ cs))) (λ x. key c == key x)
        (λ x. is_some (find (key x) cs)) xs
        (All-of_mem
          (λ x.
            is_some (find (key x) (c ∷ cs)) ≡ true
            → ((key c == key x) ≡ true) ⊎ (is_some (find (key x) cs) ≡ true))
          xs (λ x m. split x)),
    count_key-le-one (key c) xs u,
    count_replaced-le cs xs u,
  )
    where
      split :
          (x : A)
          → is_some (find (key x) (c ∷ cs)) ≡ true
          → ((key c == key x) ≡ true) ⊎ (is_some (find (key x) cs) ≡ true)
      split x h = ground arith

  pub UniqueKeys-write_back :
      (claimed xs : List A) → UniqueKeys xs → UniqueKeys (write_back claimed xs)
  unfolding write_back
  UniqueKeys-write_back claimed xs u =
      UniqueKeys-of_Pointwise xs (map (λ x. replacement x (find (key x) claimed)) xs)
        (Pointwise-map (λ x y. key x ≡ key y) (λ x. replacement x (find (key x) claimed)) xs
          (All-of_mem (λ x. key x ≡ key (replacement x (find (key x) claimed))) xs (λ x m. same x)))
        u
    where
      same : (x : A) → key x ≡ key (replacement x (find (key x) claimed))
      same x = elim (Option-cases (find (key x) claimed)) [
        | inl e ↦ rw e
        | inr (y, e) ↦ rw e (sym (key_of_find (key x) claimed e))
      ]
