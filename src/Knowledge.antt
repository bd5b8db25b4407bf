-- ===== src/Knowledge.antt =====
-- The pure rules of knowledge extraction: knowledge/domain/exclusions.py, source_hash.py and
-- state_machine.py, and `_is_supported_knowledge_content` of
-- files/infrastructure/ingestion_repository.py, under src/s3mp/.
pub mod Exclusions
pub mod Chunking
pub mod Content
pub mod Pieces
pub mod Chunks
pub mod Evidence
mod Examples
use s3mp_backend.Prelude.{
  ℕ, Bool, true, false, not, ◌&&◌, ◌||◌, Option, none, some, List, [], ◌∷◌, ◌++◌, map, Result, ok,
  err, ◌>>=◌, ◌>>◌, raise_if, if◌then◌else◌, ◌==◌, any, filter, is_none,
}
use s3mp_backend.Prelude.Text.{Text, codes, text_eq, starts_with, strip, split, join, has, is_empty}
use s3mp_backend.Keys.{slash, is_special}
use s3mp_backend.FileRef.{match_sha256, lower_hex}

-- The messages of `InvalidExclusionPath`.
pub data ExclusionError : Type 0 where
  path_required not_app_relative traversal : ExclusionError

-- `.replace("\\", "/")`
abbrev pub forward_slashes : Text → Text
forward_slashes s = map (λ c. if c == 92 then slash else c) s

-- `part not in {".", ""}`
abbrev pub is_name : Text → Bool
is_name [] = false
is_name (c ∷ []) = not (c == b'.')
is_name (c ∷ (d ∷ s)) = true

abbrev pub is_dots : Text → Bool
is_dots s = text_eq s (codes "..")

abbrev no_parts : List Text → Bool
no_parts [] = true
no_parts (_ ∷ _) = false

-- The parts of a relative `PurePosixPath`: its segments without the empty and the "." ones.
unfoldable pub path_parts : Text → List Text
path_parts raw = filter is_name (split slash raw)

-- The checks on the stripped path with forward slashes.
unfoldable pub normalize_raw : Text → Result ExclusionError Text
unfolding path_parts
normalize_raw raw = if text_eq raw (slash ∷ []) then ok [] else (do
  raise_if (starts_with raw (slash ∷ [])) not_app_relative
  raise_if (no_parts (path_parts raw) || any is_dots (path_parts raw)) traversal
  ok (join slash (path_parts raw)))

unfoldable pub normalize_directory_path : Text → Result ExclusionError Text
unfolding normalize_raw
normalize_directory_path value = do
  raise_if (is_empty (strip value)) path_required
  normalize_raw (forward_slashes (strip value))

abbrev pub covers : Text → Text → Bool
covers [] key = true
covers (c ∷ rule) key = text_eq key (c ∷ rule) || starts_with key ((c ∷ rule) ++ (slash ∷ []))

unfoldable pub is_excluded : Text → Text → Result ExclusionError Bool
unfolding normalize_directory_path
is_excluded object_key directory_path = do
  key ← normalize_directory_path object_key
  rule ← normalize_directory_path directory_path
  ok (covers rule key)

-- `normalize_declared_sha256`; its error is `none` on the outside.
unfoldable pub normalize_declared_sha256 : Option Text → Option (Option Text)
unfolding match_sha256
normalize_declared_sha256 none = some none
normalize_declared_sha256 (some value) = elim (match_sha256 (strip value)) [
  | none ↦ none
  | some d ↦ some (some (map lower_hex d))
]

pub data TaskState : Type 0 where
  queued processing completed skipped dead_lettered : TaskState

-- `target in _TRANSITIONS[current]`
unfoldable pub task_may_become : TaskState → TaskState → Bool
task_may_become queued target = elim target [
  | processing ↦ true
  | skipped ↦ true
  | dead_lettered ↦ true
  | _ ↦ false
]
task_may_become processing target = elim target [ processing ↦ false | _ ↦ true ]
task_may_become _ target = false

-- The reasons that the store gives a task it skips.
pub data SkipReason : Type 0 where
  excluded_by_directory_rule unsupported_format duplicate_content : SkipReason

-- `KnowledgeAnalysisTaskModel`, as far as the commit of a file writes it.
pub record Task : Type 0 where
  pub id : ℕ
  pub tenant_id : ℕ
  pub source_file_id : ℕ
  pub source_application_id : ℕ
  pub source_storage_space_id : ℕ
  pub source_object_key : Text
  pub source_content_hash : Option Text
  pub source_sha256 : Option Text
  pub contract_manifest_hash : Text
  pub state : TaskState
  pub failure_reason : Option SkipReason
  pub completed_at : Option ℕ

-- `KnowledgeExtractionExclusionRuleModel`
pub record Rule : Type 0 where
  pub tenant_id : ℕ
  pub application_id : ℕ
  pub enabled : Bool
  pub directory_path : Text

abbrev last_of : List Text → Text
last_of [] = []
last_of (s ∷ []) = s
last_of (s ∷ (t ∷ ts)) = last_of (t ∷ ts)

abbrev first_of_parts : List Text → Text
first_of_parts [] = []
first_of_parts (s ∷ _) = s

abbrev one_of : Text → List Text → Bool
one_of s ts = any (λ t. text_eq s t) ts

abbrev or_blank : Option Text → Text
or_blank none = []
or_blank (some s) = s

-- `lower` is Python's `str.lower`.
module _ (lower : Text → Text) where
  -- `relative_key.rsplit(".", 1)[-1].lower() if "." in relative_key else ""`
  abbrev suffix : Text → Text
  suffix key = if has b'.' key then lower (last_of (split b'.' key)) else []

  -- `(content_type or "").lower().split(";", 1)[0].strip()`
  abbrev media_type : Option Text → Text
  media_type content_type = strip (first_of_parts (split b';' (lower (or_blank content_type))))

  unfoldable pub is_supported_knowledge_content : Text → Option Text → Bool
  is_supported_knowledge_content relative_key content_type =
      one_of (suffix relative_key) (
        codes "pdf"
        ∷ codes "docx"
        ∷ codes "xlsx"
        ∷ codes "pptx"
        ∷ codes "md"
        ∷ codes "markdown"
        ∷ codes "html"
        ∷ codes "htm"
        ∷ [])
      || one_of (media_type content_type) (
          codes "application/pdf"
          ∷ codes "application/vnd.openxmlformats-officedocument.wordprocessingml.document"
          ∷ codes "application/vnd.openxmlformats-officedocument.spreadsheetml.sheet"
          ∷ codes "application/vnd.openxmlformats-officedocument.presentationml.presentation"
          ∷ codes "text/markdown"
          ∷ codes "text/html"
          ∷ [])
