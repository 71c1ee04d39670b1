-- ===== src/RuntimeCommands/Exclusive.antt =====
-- The running commands of a transition, on the tables of RuntimeCommands/Lifecycle.
use mcplica.Common.{
  ℕ, ◌≤◌, ◌≡◌, ◌≢◌, ◌==◌, ◌&&◌, count_p, count_p-zero, All-of_mem, Bool-cases, refl, sym, Bool,
  true, false, List, [], ◌∷◌, arith, All, inl, inr, Memᴰ, All-mem,
}
use mcplica.Common.Table.{UniqueKeys}
use mcplica.RuntimeCommands.{Command, is_running}
use mcplica.RuntimeCommands.Lifecycle.{Reach, sequence_of, Reach-IsValid, never_overtakes}

one_sequence :
    {rows : List Command} (m p : Command)
    → Reach [] rows
    → Memᴰ m rows
    → Memᴰ p rows
    → is_running m.status ≡ true
    → is_running p.status ≡ true
    → p.transition_id ≡ m.transition_id
    → p.sequence ≡ m.sequence
one_sequence m p r m_in p_in m_runs p_runs t = ground (
  arith,
  never_overtakes m p r m_in p_in (ground arith) t,
  never_overtakes p m r p_in m_in (ground arith) (sym t),
)

-- The rows that pass a test and share their sequence number.
count_p-of_unique :
    (q : Command → Bool) (rows : List Command)
    → UniqueKeys sequence_of rows
    → ((m p : Command)
        → Memᴰ m rows
        → Memᴰ p rows
        → q m ≡ true
        → q p ≡ true
        → p.sequence ≡ m.sequence)
    → count_p q rows ≤ 1
count_p-of_unique q [] u same = omega arith
count_p-of_unique q (x ∷ rows) u same = elim (Bool-cases (q x)) [
  | inr e ↦ rw e (count_p-of_unique q rows u.1 (λ m p a b. same m p (Memᴰ.tail a) (Memᴰ.tail b)))
  | inl e ↦
      let others : All (λ y. q y ≡ false) rows =
        All-of_mem (λ y. q y ≡ false) rows (λ y m. alone y m e) in
      rw (e, count_p-zero q rows others) (omega arith)
]
  where
    alone : (y : Command) → Memᴰ y rows → q x ≡ true → q y ≡ false
    alone y m e = elim (Bool-cases (q y)) [
      | inr d ↦ d
      | inl d ↦ absurd (
          All-mem (λ z. sequence_of x ≢ sequence_of z) rows u.0 m
            (sym (same x y (Memᴰ.head refl) (Memᴰ.tail m) e d)))
    ]

abbrev pub runs_in : ℕ → Command → Bool
runs_in t m = m.transition_id == t && is_running m.status

-- On every reachable table at most one command of a transition runs.
pub running_exclusive : {rows : List Command} (t : ℕ) → Reach [] rows → count_p (runs_in t) rows ≤ 1
running_exclusive {rows} t r =
    count_p-of_unique (runs_in t) rows (Reach-IsValid r).sequences
      (λ m p a b h k. one_sequence m p r a b (ground arith) (ground arith) (ground arith))
