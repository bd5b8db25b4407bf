-- ===== src/Ingestion/Tasks.antt =====
-- `_enqueue_knowledge_task` of files/infrastructure/ingestion_repository.py, under src/s3mp/.
use s3mp_backend.Prelude.{
  ℕ, Bool, true, false, not, ◌&&◌, Option, none, some, List, [], ◌∷◌, Result, ok, err, ◌>>=◌,
  if◌then◌else◌, ◌==◌, any, filter,
}
use s3mp_backend.Prelude.Text.{Text, text_eq}
use s3mp_backend.Knowledge.{
  Rule, Task, TaskState, queued, skipped, completed, SkipReason, excluded_by_directory_rule,
  unsupported_format, duplicate_content, is_excluded, normalize_declared_sha256,
  is_supported_knowledge_content,
}
use s3mp_backend.Ingestion.{
  IngestionRow, FileObject, Tables, StoreError, invalid_exclusion_path, opt_text_eq,
}

-- What the transaction takes from outside the tables: the clock, the ids that the database gives,
-- the deployment's settings and the current knowledge contract.
pub record Environment : Type 0 where
  pub now : ℕ
  pub new_file_id : ℕ
  pub new_task_id : ℕ
  pub knowledge_extraction_enabled : Bool
  pub manifest_hash : Text

abbrev or_none : Option (Option Text) → Option Text
or_none none = none
or_none (some d) = d

-- `any(is_excluded(key, rule.directory_path) for rule in rules)`, which raises if a path is invalid.
unfoldable pub excluded_by : Text → List Rule → Result StoreError Bool
unfolding is_excluded
excluded_by key [] = ok false
excluded_by key (r ∷ rs) =
    let rest = excluded_by key rs in
    elim (is_excluded key r.directory_path) [
      | err _ ↦ err invalid_exclusion_path
      | ok excluded ↦ if excluded then ok true else rest
    ]

-- A finished task of the tenant with the same content under the same contract.
abbrev is_duplicate : ℕ → Text → Option Text → Task → Bool
is_duplicate tenant_id manifest none k = false
is_duplicate tenant_id manifest (some []) k = false
is_duplicate tenant_id manifest (some (c ∷ d)) k =
    k.tenant_id == tenant_id
    && (opt_text_eq k.source_sha256 (c ∷ d)
        && (text_eq k.contract_manifest_hash manifest
            && elim k.state [ completed ↦ true | _ ↦ false ]))

abbrev pub has_task : ℕ → ℕ → Text → Task → Bool
has_task tenant_id file_id manifest k =
    k.tenant_id == tenant_id
    && (k.source_file_id == file_id && text_eq k.contract_manifest_hash manifest)

abbrev skip_reason : Bool → Bool → Bool → Option SkipReason
skip_reason excluded supported duplicate =
    if excluded
    then some excluded_by_directory_rule
    else if not supported
    then some unsupported_format
    else if duplicate
    then some duplicate_content
    else none

abbrev state_of : Option SkipReason → TaskState
state_of none = queued
state_of (some _) = skipped

-- The enabled rules of the file's application.
abbrev pub rules_for : ℕ → ℕ → List Rule → List Rule
rules_for tenant_id application_id rules =
    filter (λ r. r.tenant_id == tenant_id && (r.application_id == application_id && r.enabled))
      rules

module _ {Json : Type 0} (lower : Text → Text) (e : Environment) where
  abbrev add_task : Task → Tables Json → Tables Json
  add_task k t = record t {
    tasks = k ∷ t.tasks;
    outbox = elim k.state [ queued ↦ k.id ∷ t.outbox | _ ↦ t.outbox ];
  }

  abbrev new_task : IngestionRow Json → FileObject Json → ℕ → Option SkipReason → Task
  new_task row file application_id reason = record {
    id = e.new_task_id;
    tenant_id = row.tenant_id;
    source_file_id = file.id;
    source_application_id = application_id;
    source_storage_space_id = row.storage_space_id;
    source_object_key = row.relative_key;
    source_content_hash = row.checksum;
    source_sha256 = or_none (normalize_declared_sha256 row.checksum);
    contract_manifest_hash = e.manifest_hash;
    state = state_of reason;
    failure_reason = reason;
    completed_at = elim reason [ none ↦ none | some _ ↦ some e.now ];
  }

  unfoldable pub enqueue_for :
      ℕ → IngestionRow Json → FileObject Json → Tables Json → Result StoreError (Tables Json)
  unfolding excluded_by normalize_declared_sha256 is_supported_knowledge_content
  enqueue_for application_id row file t =
      if any (has_task row.tenant_id file.id e.manifest_hash) t.tasks then ok t else (do
        excluded ← excluded_by row.relative_key (rules_for row.tenant_id application_id t.rules)
        let sha256 = or_none (normalize_declared_sha256 row.checksum)
        let duplicate = any (is_duplicate row.tenant_id e.manifest_hash sha256) t.tasks
        let supported =
            is_supported_knowledge_content lower row.relative_key row.actual_content_type
        ok (
            add_task (new_task row file application_id (skip_reason excluded supported duplicate))
              t))

  unfoldable pub enqueue_knowledge_task :
      IngestionRow Json → FileObject Json → Tables Json → Result StoreError (Tables Json)
  unfolding enqueue_for
  enqueue_knowledge_task row file t =
      if not e.knowledge_extraction_enabled
      then ok t
      else elim row.application_id [ none ↦ ok t | some a ↦ enqueue_for a row file t ]
