-- ===== src/Ingestion.antt =====
-- The ingestion of a file: files/domain/ingestion.py, the tables of
-- files/infrastructure/ingestion_models.py and files/infrastructure/models.py, and the helpers of
-- files/infrastructure/ingestion_repository.py, under src/s3mp/. A transaction is a function from
-- the tables to a result: an exception rolls back, so it returns no tables.
pub mod Intents
pub mod Tasks
pub mod Commit
pub mod Endings
pub mod Reaping
pub mod Lifecycle
pub mod Committing
pub mod Openings
pub mod Accounting
pub mod Orphans
pub mod Steps
pub mod Replay
mod Examples
use s3mp_backend.Prelude.{
  ℕ, Bool, true, false, ◌&&◌, ◌||◌, not, Option, none, some, List, [], ◌∷◌, Result, ok, err,
  if◌then◌else◌, ◌==◌, any, find, update_first,
}
use s3mp_backend.Prelude.Int.{ℤ}
use s3mp_backend.Prelude.Text.{Text, text_eq}
use s3mp_backend.Knowledge.{Task, Rule}
use s3mp_backend.Ledger.{
  Books, ApiError, resource_not_found, invalid_transition, idempotency_key_reused, opt_eq,
}

pub data IngestionStatus : Type 0 where
  initiated uploading verification_pending verified committed available failed expired
        reconciliation_required :
      IngestionStatus

-- `IngestionEventType`
pub data EventType : Type 0 where
  created upload_started upload_completed verification_started verification_passed
        verification_failed committed_event marked_available reconciliation_started
        reconciliation_succeeded reconciliation_failed expired_event failed_permanently :
      EventType

abbrev rank : IngestionStatus → ℕ
rank initiated = 0
rank uploading = 1
rank verification_pending = 2
rank verified = 3
rank committed = 4
rank available = 5
rank failed = 6
rank expired = 7
rank reconciliation_required = 8

abbrev pub status_eq : IngestionStatus → IngestionStatus → Bool
status_eq a b = rank a == rank b

-- `VALID_TRANSITIONS`
unfoldable pub valid_transitions : IngestionStatus → List IngestionStatus
valid_transitions initiated = uploading ∷ verified ∷ failed ∷ reconciliation_required ∷ expired ∷ []
valid_transitions uploading = verification_pending ∷ failed ∷ expired ∷ []
valid_transitions verification_pending = verified ∷ failed ∷ expired ∷ []
valid_transitions verified = committed ∷ failed ∷ reconciliation_required ∷ []
valid_transitions committed = available ∷ reconciliation_required ∷ []
valid_transitions available = []
valid_transitions failed = reconciliation_required ∷ []
valid_transitions expired = []
valid_transitions reconciliation_required = verified ∷ committed ∷ failed ∷ []

-- `target in VALID_TRANSITIONS.get(current, set())`
unfoldable pub may_become : IngestionStatus → IngestionStatus → Bool
unfolding valid_transitions
may_become current target = any (λ s. status_eq s target) (valid_transitions current)

-- `FileIngestionRecordModel`; `Json` is the type of JSON values.
pub record IngestionRow (Json : Type 0) : Type 0 where
  pub id : ℕ
  pub tenant_id : ℕ
  pub upload_session_id : Option ℕ
  pub multipart_session_id : Option ℕ
  pub quota_reservation_id : Option ℕ
  pub file_object_id : Option ℕ
  pub creator_principal_id : ℕ
  pub acting_principal_id : ℕ
  pub membership_id : Option ℕ
  pub storage_space_id : ℕ
  pub application_id : Option ℕ
  pub storage_namespace : Option Text
  pub profile_version : ℕ
  pub bucket : Text
  pub relative_key : Text
  pub physical_key : Text
  pub provider_target_version : ℕ
  pub provider_etag : Option Text
  pub provider_version_id : Option Text
  pub actual_size : Option ℤ
  pub actual_content_type : Option Text
  pub checksum : Option Text
  pub metadata : Option Json
  pub authorization_evidence : Json
  pub authorization_version : ℕ
  pub request_id : Option Text
  pub idempotency_key : Option Text
  pub idempotency_fingerprint : Option Text
  pub status : IngestionStatus
  pub committed_at : Option ℕ

-- The statuses of `FileObjectModel` that the store writes.
pub data FileStatus : Type 0 where
  file_available file_quarantined : FileStatus

-- `FileObjectModel`
pub record FileObject (Json : Type 0) : Type 0 where
  pub id : ℕ
  pub tenant_id : ℕ
  pub storage_space_id : ℕ
  pub application_id : Option ℕ
  pub storage_namespace : Option Text
  pub profile_version : ℕ
  pub object_key : Text
  pub provider_target_version : ℕ
  pub content_length : ℤ
  pub content_type : Text
  pub etag : Option Text
  pub checksum : Option Text
  pub public_file_ref : Option Text
  pub metadata : Option Json
  pub status : FileStatus

pub data SessionStatus : Type 0 where
  pending completed : SessionStatus

-- `UploadSessionModel` and `MultipartSessionModel`, as far as the store changes them after creation.
pub record Session : Type 0 where
  pub id : ℕ
  pub tenant_id : ℕ
  pub object_key : Text
  pub declared_length : ℤ
  pub status : SessionStatus
  pub completed_at : Option ℕ

-- `FileIngestionEventModel`, with the reason that its details give.
pub record Event : Type 0 where
  pub ingestion_record_id : ℕ
  pub tenant_id : ℕ
  pub event_type : EventType
  pub reason : Option Text

-- `AuditEventModel`
pub record AuditEvent : Type 0 where
  pub tenant_id : ℕ
  pub actor_principal_id : Option ℕ
  pub action : Text
  pub resource_type : Text
  pub resource_id : ℕ

-- The tables of one database. The outbox holds the ids of the tasks that are to be announced.
pub record Tables (Json : Type 0) : Type 0 where
  pub books : Books
  pub records : List (IngestionRow Json)
  pub files : List (FileObject Json)
  pub uploads : List Session
  pub multiparts : List Session
  pub tasks : List Task
  pub rules : List Rule
  pub outbox : List ℕ
  pub events : List Event
  pub audit : List AuditEvent

-- What a transaction raises: an `ApiError`, or the exception of the database or of a callee.
pub data StoreError : Type 0 where
  api : ApiError → StoreError
  integrity_error : StoreError
  bad_status invalid_exclusion_path : StoreError

-- `column == value`, for an optional column of texts.
abbrev pub opt_text_eq : Option Text → Text → Bool
opt_text_eq none s = false
opt_text_eq (some r) s = text_eq r s

module _ {Json : Type 0} where
  abbrev pub is_row : ℕ → ℕ → IngestionRow Json → Bool
  is_row tenant_id id r = r.tenant_id == tenant_id && r.id == id

  -- `_lock_ingestion_row`
  unfoldable pub lock_row : ℕ → ℕ → Tables Json → Result StoreError (IngestionRow Json)
  lock_row tenant_id id t = elim (find (is_row tenant_id id) t.records) [
    | none ↦ err (api resource_not_found)
    | some r ↦ ok r
  ]

  -- The locked row changed in place.
  unfoldable pub write_row :
      ℕ → ℕ → (IngestionRow Json → IngestionRow Json) → Tables Json → Tables Json
  write_row tenant_id id f t = record t { records = update_first (is_row tenant_id id) f t.records }

  -- `_validate_transition`
  unfoldable pub validate_transition :
      IngestionRow Json → IngestionStatus → Result StoreError (Unit {0})
  validate_transition row target =
      if may_become row.status target then ok tt else err (api invalid_transition)

  unfoldable pub add_event : IngestionRow Json → EventType → Option Text → Tables Json → Tables Json
  add_event row event_type reason t = record t {
    events =
        record {
          ingestion_record_id = row.id;
          tenant_id = row.tenant_id;
          event_type = event_type;
          reason = reason;
        }
        ∷ t.events;
  }

  abbrev pub set_books : Books → Tables Json → Tables Json
  set_books b t = record t { books = b }

  -- `if fingerprint:` and the search by it.
  abbrev by_fingerprint : ℕ → Option Text → Tables Json → Option (IngestionRow Json)
  by_fingerprint tenant_id none t = none
  by_fingerprint tenant_id (some []) t = none
  by_fingerprint tenant_id (some (c ∷ f)) t =
      find (λ r. r.tenant_id == tenant_id && opt_text_eq r.idempotency_fingerprint (c ∷ f))
        t.records

  -- `if idempotency_key:` and the search by it.
  abbrev by_key : ℕ → Option Text → Tables Json → Option (IngestionRow Json)
  by_key tenant_id none t = none
  by_key tenant_id (some []) t = none
  by_key tenant_id (some (c ∷ k)) t =
      find (λ r. r.tenant_id == tenant_id && opt_text_eq r.idempotency_key (c ∷ k)) t.records

  -- `_find_replay_or_conflict`
  unfoldable pub find_replay_or_conflict :
      ℕ → Option Text → Option Text → Tables Json → Result StoreError (Option (IngestionRow Json))
  find_replay_or_conflict tenant_id fingerprint idempotency_key t =
      elim (by_fingerprint tenant_id fingerprint t) [
        | some r ↦ ok (some r)
        | none ↦ elim (by_key tenant_id idempotency_key t) [
          | some _ ↦ err (api idempotency_key_reused)
          | none ↦ ok none
        ]
      ]
