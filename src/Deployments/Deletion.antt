-- ===== src/Deployments/Deletion.antt =====
-- The deletion of a project: `ProjectRepository.delete` of backend/app/repositories/projects.py, with the
-- ON DELETE CASCADE of backend/app/models/deployment.py.
use mcplica.Common.{
  ℕ, ◌≡◌, ◌≢◌, refl, Bool, true, not, none, some, List, [], ◌∷◌, arith, ◌==◌, filter, Bool-cases,
  inl, inr, Memᴰ,
}
use mcplica.Common.Table.{find, UniqueKeys, find_of_mem, mem_of_find, key_of_find}
use mcplica.Deployments.Row.{Deployment, Project, State, row_id, project_key}
use mcplica.Deployments.Invariant.{IsDeletion}

is_kept : ℕ → Deployment → Bool
is_kept p d = not (d.project_id == p)

pub delete_project : ℕ → State → State
unfolding is_kept
delete_project p s = record {
  projects = filter (λ x. not (x.id == p)) s.projects;
  deployments = filter (is_kept p) s.deployments;
}

no_project :
    (p : ℕ) (ps : List Project) → find project_key p (filter (λ x. not (x.id == p)) ps) ≡ none
unfolding find
no_project p [] = refl
no_project p (x ∷ ps) = ground (arith, no_project p ps)

other_project :
    (p q : ℕ) (ps : List Project)
    → q ≢ p
    → find project_key q (filter (λ x. not (x.id == p)) ps) ≡ find project_key q ps
unfolding find
other_project p q [] n = refl
other_project p q (x ∷ ps) n = ground (arith, other_project p q ps n)

-- A row that is left.
kept_row :
    (p j : ℕ) (ds : List Deployment) (d : Deployment)
    → find row_id j ds ≡ some d
    → d.project_id ≢ p
    → find row_id j (filter (is_kept p) ds) ≡ some d
unfolding find is_kept
kept_row p j [] d at n = cc
kept_row p j (x ∷ ds) d at n = elim (Bool-cases (x.id == j)) [
  | inl e ↦
      let same : some x ≡ some d = rw e at at in
      let is : x ≡ d = cc in
      let stays : not (x.project_id == p) ≡ true = ground arith in rw (stays, e) same
  | inr e ↦
      let rest = kept_row p j ds d (rw e at at) n in
      elim (Bool-cases (not (x.project_id == p))) [ inl k ↦ rw (k, e) rest | inr k ↦ rw k rest ]
]

filtered :
    (p : ℕ) (ds : List Deployment) {d : Deployment}
    → Memᴰ d (filter (is_kept p) ds)
    → Memᴰ d ds × (d.project_id ≢ p)
unfolding is_kept
filtered p [] m = elim m [ ]
filtered p (x ∷ ds) {d} m = elim (Bool-cases (not (x.project_id == p))) [
  | inr k ↦ let (there, n) = filtered p ds {d = d} (rw k at m) in (Memᴰ.tail there, n)
  | inl k ↦
      let m' : Memᴰ d (x ∷ filter (is_kept p) ds) = rw k at m in
      elim m' [
        | Memᴰ.head e ↦ (Memᴰ.head e, rw e (λ q. ground arith))
        | Memᴰ.tail t ↦ let (there, n) = filtered p ds {d = d} t in (Memᴰ.tail there, n)
      ]
]

-- Where the identifiers are unique, the deletion leaves the other projects and their deployments as
-- they are, and nothing of its own.
pub delete_project-IsDeletion :
    (p : ℕ) (s : State) → UniqueKeys row_id s.deployments → IsDeletion p s (delete_project p s)
unfolding delete_project
delete_project-IsDeletion p s u = record {
  gone = no_project p s.projects;
  other_projects = λ q n. other_project p q s.projects n;
  cascaded = λ j d at.
      let (there, n) =
        filtered p s.deployments (mem_of_find row_id j (filter (is_kept p) s.deployments) at) in
      let key : d.id ≡ j = key_of_find row_id j (filter (is_kept p) s.deployments) at in
      (rw (← key) (find_of_mem row_id s.deployments u there), n);
  kept = λ j d at n. kept_row p j s.deployments d at n;
}
