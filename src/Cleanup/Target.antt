-- ===== src/Cleanup/Target.antt =====
-- A cleanup target: the row of backend/app/models/cleanup.py with the enumerations of
-- backend/app/domain/cleanup.py. The type of a target comes with the columns that its CHECK asks for.
use mcplica.Common.{ℕ, Bool, true, false, Option, Text, codes, List, [], ◌∷◌, ◌++◌}

pub data TargetStatus : Type 0 where
  pending running retrying completed skipped_referenced failed : TargetStatus

-- A storage key; or a collection, a project and a generation.
pub data TargetType : Type 0 where
  object : Text → TargetType
  vector_generation : Text → ℕ → ℕ → TargetType

pub record CleanupTarget : Type 0 where
  pub id : ℕ
  pub job_id : ℕ
  pub target_key : Text
  pub target_type : TargetType
  pub status : TargetStatus
  pub attempt_count : ℕ
  pub next_attempt_at : ℕ
  pub lease_expires_at : Option ℕ
  pub execution_token : Option ℕ
  pub last_error_code : Option Text
  pub last_error_summary : Option Text
  pub created_at : ℕ
  pub updated_at : ℕ

abbrev pub target_id : CleanupTarget → ℕ
target_id t = t.id

-- `_TERMINAL_TARGETS`
abbrev pub is_terminal_target : TargetStatus → Bool
is_terminal_target completed = true
is_terminal_target skipped_referenced = true
is_terminal_target failed = true
is_terminal_target _ = false

abbrev pub is_running : TargetStatus → Bool
is_running running = true
is_running _ = false

abbrev pub is_retrying : TargetStatus → Bool
is_retrying retrying = true
is_retrying _ = false

abbrev pub is_completed : TargetStatus → Bool
is_completed completed = true
is_completed _ = false

abbrev pub is_skipped : TargetStatus → Bool
is_skipped skipped_referenced = true
is_skipped _ = false

abbrev pub is_failed : TargetStatus → Bool
is_failed failed = true
is_failed _ = false

-- `_target_key` joins its parts with NUL before it hashes them; `str` prints an identifier.
abbrev pub joined_parts : List Text → Text
joined_parts [] = []
joined_parts (part ∷ []) = part
joined_parts (part ∷ part' ∷ parts) = part ++ 0 ∷ joined_parts (part' ∷ parts)

abbrev pub key_of : (Text → Text) → (ℕ → Text) → TargetType → Text
key_of sha256 str (object key) = sha256 (joined_parts (codes "object" ∷ key ∷ []))
key_of sha256 str (vector_generation collection project generation) =
    sha256
      (joined_parts (codes "vector_generation" ∷ collection ∷ str project ∷ str generation ∷ []))
