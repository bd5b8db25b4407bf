-- ===== src/Ingestion/Endings.antt =====
-- `fail_or_quarantine` and `expire` of files/infrastructure/ingestion_repository.py, under
-- src/s3mp/: how an ingestion ends without a file.
use s3mp_backend.Prelude.{
  ℕ, not, ◌&&◌, ◌||◌, some, Result, ok, ◌>>=◌, ◌>>◌, raise_if, if◌then◌else◌,
}
use s3mp_backend.Prelude.Text.{Text, codes}
use s3mp_backend.Ledger.{release_quota}
use s3mp_backend.Ingestion.{
  IngestionStatus, IngestionRow, Tables, StoreError, bad_status, failed, expired,
  reconciliation_required, reconciliation_started, expired_event, failed_permanently, status_eq,
  lock_row, write_row, validate_transition, add_event, set_books,
}

module _ {Json : Type 0} (now : ℕ) where
  abbrev release_for : IngestionRow Json → Tables Json → Tables Json
  release_for row t = set_books (release_quota row.tenant_id row.quota_reservation_id now t.books) t

  abbrev set_status : IngestionStatus → IngestionRow Json → IngestionRow Json
  set_status status r = record r { status = status }

  -- The status changed, the reservation released if the status is `FAILED`, and the event appended.
  unfoldable pub end_as :
      IngestionStatus → Text → ℕ → ℕ → IngestionRow Json → Tables Json → Tables Json
  end_as status reason tenant_id id row t =
      let t' = write_row tenant_id id (set_status status) t in
      if status_eq status failed
      then add_event row failed_permanently (some reason) (release_for row t')
      else add_event row reconciliation_started (some reason) t'

  unfoldable pub fail_or_quarantine :
      ℕ → ℕ → IngestionStatus → Text → Tables Json → Result StoreError (Tables Json)
  unfolding end_as
  fail_or_quarantine tenant_id id status reason t = do
    raise_if (not (status_eq status failed || status_eq status reconciliation_required)) bad_status
    row ← lock_row tenant_id id t
    if status_eq row.status status && status_eq status reconciliation_required
        then ok (add_event row reconciliation_started (some reason) t)
        else (validate_transition row status >> ok (end_as status reason tenant_id id row t))

  unfoldable pub expire_row : ℕ → ℕ → IngestionRow Json → Tables Json → Tables Json
  expire_row tenant_id id row t =
      add_event row expired_event (some (codes "session_expired"))
        (release_for row (write_row tenant_id id (set_status expired) t))

  unfoldable pub expire : ℕ → ℕ → Tables Json → Result StoreError (Tables Json)
  unfolding expire_row
  expire tenant_id id t = do
    row ← lock_row tenant_id id t
    if status_eq row.status expired
        then ok t
        else (validate_transition row expired >> ok (expire_row tenant_id id row t))
