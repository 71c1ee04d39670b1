-- ===== src/Common/Keys.antt =====
-- The keys of the rows that a query selects, and the rows that a transaction writes back.
use Prim.Native.Nat.{ℕ, zero, suc}
use mathlib.Core.Path.{◌≡◌, refl, sym}
use mathlib.Core.Logic.{◌≢◌, inl, inr}
use mathlib.Core.Bool.{Bool}
use mathlib.Core.List.{List, [], ◌∷◌, map}
use mathlib.Core.Option.{some}
use mcplica.Common.Tests.{Bool-cases, Option-cases}
use mcplica.Common.Lists.{All, All-take, All-filter, All-of_mem, Pointwise-map, filter, take}
use mcplica.Common.Sorting.{insert, sort, All-insert, All-sort}
use mcplica.Common.Table.{find, write_back, replacement, UniqueKeys, find-Pointwise, key_of_find}

module _ {ℓ} {A : Type ℓ} (key : A → ℕ) where
  pub UniqueKeys-take : (n : ℕ) (bs : List A) → UniqueKeys key bs → UniqueKeys key (take n bs)
  UniqueKeys-take zero bs u = tt
  UniqueKeys-take (suc n) [] u = tt
  UniqueKeys-take (suc n) (b ∷ bs) u =
      (All-take (λ y. key b ≢ key y) n bs u.0, UniqueKeys-take n bs u.1)

  pub UniqueKeys-filter :
      (p : A → Bool) (bs : List A) → UniqueKeys key bs → UniqueKeys key (filter p bs)
  UniqueKeys-filter p [] u = tt
  UniqueKeys-filter p (b ∷ bs) u = elim (Bool-cases (p b)) [
    | inl e ↦ rw e (All-filter (λ y. key b ≢ key y) p bs u.0, UniqueKeys-filter p bs u.1)
    | inr e ↦ rw e (UniqueKeys-filter p bs u.1)
  ]

  UniqueKeys-insert :
      (leq : A → A → Bool) (b : A) (bs : List A)
      → All (λ y. key b ≢ key y) bs
      → UniqueKeys key bs
      → UniqueKeys key (insert leq b bs)
  UniqueKeys-insert leq b [] f u = (tt, tt)
  UniqueKeys-insert leq b (y ∷ ys) f u = elim (Bool-cases (leq b y)) [
    | inl e ↦ rw e (f, u)
    | inr e ↦ rw e (
      All-insert leq (λ z. key y ≢ key z) b ys (λ q. f.0 (sym q)) u.0,
      UniqueKeys-insert leq b ys f.1 u.1,
    )
  ]

  pub UniqueKeys-sort :
      (leq : A → A → Bool) (bs : List A) → UniqueKeys key bs → UniqueKeys key (sort leq bs)
  UniqueKeys-sort leq [] u = tt
  UniqueKeys-sort leq (b ∷ bs) u =
      UniqueKeys-insert leq b (sort leq bs) (All-sort leq (λ y. key b ≢ key y) bs u.0)
        (UniqueKeys-sort leq bs u.1)

  -- The row that is written back stands in the table.
  pub find-write_back :
      (i : ℕ) (written rows : List A) {x y : A}
      → find key i rows ≡ some x
      → find key i written ≡ some y
      → find key i (write_back key written rows) ≡ some y
  unfolding write_back
  find-write_back i written rows {x} {y} at found =
      let f = λ (u : A). replacement u (find key (key u) written) in
      let same : key x ≡ i = key_of_find key i rows at in
      let (z, at', is) =
        find-Pointwise key (λ u v. (key u ≡ key v) × (v ≡ f u)) i rows (map f rows) {x = x}
          (λ u v r. r.0)
          (Pointwise-map (λ u v. (key u ≡ key v) × (v ≡ f u)) f rows
            (All-of_mem (λ u. (key u ≡ key (f u)) × (f u ≡ f u)) rows (λ u m. (same_key u, refl))))
          at in
      let whole : f x ≡ y = rw (same, found) refl in rw (at', is.1, whole) refl
    where
      same_key : (u : A) → key u ≡ key (replacement u (find key (key u) written))
      same_key u = elim (Option-cases (find key (key u) written)) [
        | inl e ↦ rw e refl
        | inr (z, e) ↦ rw e (sym (key_of_find key (key u) written e))
      ]
