-- ===== src/Ingestion/Commit.antt =====
-- `record_provider_result` and `commit_verified_file` of
-- files/infrastructure/ingestion_repository.py, under src/s3mp/.
use s3mp_backend.Prelude.{
  ℕ, Bool, true, false, ◌&&◌, ◌||◌, Option, none, some, List, [], ◌∷◌, Result, ok, err, ◌>>=◌, ◌>>◌,
  if◌then◌else◌, ◌==◌, any, update_first,
}
use s3mp_backend.Prelude.Int.{ℤ, pos}
use s3mp_backend.Prelude.Text.{Text, codes, text_eq}
use s3mp_backend.Ledger.{settle_quota, release_quota}
use s3mp_backend.FileRef.{generate_file_ref}
use s3mp_backend.Ingestion.Tasks.{Environment, enqueue_knowledge_task}
use s3mp_backend.Ingestion
use s3mp_backend.Ingestion.{
  IngestionRow, FileObject, Session, Tables, StoreError, integrity_error, invalid_exclusion_path,
  FileStatus, file_available, file_quarantined, verified, committed, reconciliation_required,
  verification_passed, committed_event, reconciliation_started, status_eq, lock_row, write_row,
  validate_transition, add_event, set_books, opt_text_eq,
}

-- What the provider reported of the stored object.
pub record ProviderResult : Type 0 where
  pub provider_etag : Option Text
  pub provider_version_id : Option Text
  pub actual_size : Option ℤ
  pub actual_content_type : Option Text
  pub checksum : Option Text

-- `size or 0`
abbrev pub or_zero : Option ℤ → ℤ
or_zero none = pos 0
or_zero (some n) = n

abbrev or_text : Option Text → Text → Text
or_text none d = d
or_text (some []) d = d
or_text (some (c ∷ s)) d = c ∷ s

abbrev complete_session : ℕ → Session → Session
complete_session now s = record s { status = Ingestion.completed; completed_at = some now }

abbrev is_session : ℕ → ℕ → Session → Bool
is_session tenant_id id s = s.tenant_id == tenant_id && s.id == id

module _ {Json : Type 0} where
  unfoldable pub record_provider_result :
      ℕ → ℕ → ProviderResult → Tables Json → Result StoreError (Tables Json)
  record_provider_result tenant_id id result t = do
    row ← lock_row tenant_id id t
    validate_transition row verified
    ok (
        add_event row verification_passed none (
          write_row tenant_id id
            (λ r. record r {
              provider_etag = result.provider_etag;
              provider_version_id = result.provider_version_id;
              actual_size = result.actual_size;
              actual_content_type = result.actual_content_type;
              checksum = result.checksum;
              status = verified;
            })
            t))

  -- The unique indexes `uq_file_object_public_file_ref` and `uq_file_object_active_key`, checked when
  -- an available row is inserted. Null references do not conflict.
  abbrev pub conflicts : FileObject Json → FileObject Json → Bool
  conflicts new old =
      elim new.public_file_ref [ none ↦ false | some ref ↦ opt_text_eq old.public_file_ref ref ]
      || (new.tenant_id == old.tenant_id
          && (new.storage_space_id == old.storage_space_id
              && (text_eq new.object_key old.object_key
                  && elim old.status [ file_available ↦ true | file_quarantined ↦ false ])))

  unfoldable pub insert_file : FileObject Json → Tables Json → Result StoreError (Tables Json)
  insert_file file t =
      if any (conflicts file) t.files
      then err integrity_error
      else ok (record t { files = file ∷ t.files })

  -- The linked upload and multipart sessions, marked completed. A multipart session has no time of
  -- completion.
  unfoldable pub settle_sessions : ℕ → IngestionRow Json → Tables Json → Tables Json
  settle_sessions now row t = record t {
    uploads = elim row.upload_session_id [
      | none ↦ t.uploads
      | some id ↦ update_first (is_session row.tenant_id id) (complete_session now) t.uploads
    ];
    multiparts = elim row.multipart_session_id [
      | none ↦ t.multiparts
      | some id ↦
          update_first (is_session row.tenant_id id)
            (λ s. record s { status = Ingestion.completed }) t.multiparts
    ];
  }

  abbrev pub add_audit : IngestionRow Json → Text → Text → ℕ → Tables Json → Tables Json
  add_audit row action resource_type resource_id t = record t {
    audit =
        record {
          tenant_id = row.tenant_id;
          actor_principal_id = some row.acting_principal_id;
          action = action;
          resource_type = resource_type;
          resource_id = resource_id;
        }
        ∷ t.audit;
  }

module _ {Json : Type 0} (encode : Text → List ℕ) (canonical_json : Option Json → Text)
    (show_uuid : ℕ → Text) (digest_text : List ℕ → Text) (lower : Text → Text)
    (e : Environment) where
  -- The file object of a verified row.
  unfoldable pub file_of : IngestionRow Json → FileObject Json
  file_of row = record {
    id = e.new_file_id;
    tenant_id = row.tenant_id;
    storage_space_id = row.storage_space_id;
    application_id = row.application_id;
    storage_namespace = row.storage_namespace;
    profile_version = row.profile_version;
    object_key = row.physical_key;
    provider_target_version = row.provider_target_version;
    content_length = or_zero row.actual_size;
    content_type = or_text row.actual_content_type (codes "application/octet-stream");
    etag = row.provider_etag;
    checksum = row.checksum;
    public_file_ref =
        generate_file_ref encode canonical_json show_uuid digest_text row.tenant_id
          row.application_id row.relative_key row.metadata row.checksum;
    metadata = row.metadata;
    status = file_available;
  }

  abbrev pub commit_row : IngestionRow Json → IngestionRow Json
  commit_row r = record r {
    file_object_id = some e.new_file_id;
    status = committed;
    committed_at = some e.now;
  }

  -- The branch where the quota does not admit the verified size.
  unfoldable pub quarantine : IngestionRow Json → Tables Json → Tables Json
  quarantine row t =
      add_audit row (codes "file.ingestion.quarantined") (codes "file_ingestion") row.id (
        add_event row reconciliation_started (some (codes "verified_size_exceeds_quota")) (
          set_books (release_quota row.tenant_id row.quota_reservation_id e.now t.books) (
            write_row row.tenant_id row.id (λ r. record r { status = reconciliation_required })
              (record t {
                files =
                    update_first (λ f. f.id == e.new_file_id)
                      (λ f. record f { status = file_quarantined }) t.files;
              }))))

  -- The branch where the size is admitted.
  unfoldable pub complete : IngestionRow Json → Tables Json → Result StoreError (Tables Json)
  complete row t = enqueue_knowledge_task lower e row (file_of row) (
      add_audit row (codes "file.ingestion.committed") (codes "file_object") e.new_file_id
        (add_event row committed_event none (settle_sessions e.now row t)))

  -- A row that may be committed, with its file inserted and its reservation settled.
  unfoldable pub commit_row_of : IngestionRow Json → Tables Json → Result StoreError (Tables Json)
  commit_row_of row t = do
    t' ← insert_file (file_of row) t
    let (settled, books) =
        settle_quota row.tenant_id row.quota_reservation_id (or_zero row.actual_size) e.now t'.books
    let t'' = set_books books (write_row row.tenant_id row.id commit_row t')
    if settled then complete row t'' else ok (quarantine row t'')

  unfoldable pub commit_verified_file : ℕ → ℕ → Tables Json → Result StoreError (Tables Json)
  unfolding commit_row_of
  commit_verified_file tenant_id id t = do
    row ← lock_row tenant_id id t
    if status_eq row.status committed
        then ok t
        else (validate_transition row committed >> commit_row_of row t)
