-- ===== src/Ingestion/Intents.antt =====
-- `create_upload_intent`, `create_multipart_intent` and `begin_or_replay` of
-- files/infrastructure/ingestion_repository.py, under src/s3mp/.
use s3mp_backend.Prelude.{
  Bool, false, any, raise_if, ◌&&◌, ◌>>◌, ℕ, Option, none, some, List, ◌∷◌, Result, ok, err, ◌>>=◌,
  ◌==◌, find,
}
use s3mp_backend.Prelude.Int.{ℤ}
use s3mp_backend.Prelude.Text.{Text}
use s3mp_backend.Ledger.{Books, ApiError, invalid_transition, idempotency_key_reused, reserve_quota}
use s3mp_backend.Ingestion.{
  integrity_error, opt_text_eq, IngestionRow, Session, pending, Tables, StoreError, api, initiated,
  created, find_replay_or_conflict, add_event,
}

-- The ids that the database gives to the new rows.
pub record NewIds : Type 0 where
  pub session_id : ℕ
  pub reservation_id : ℕ
  pub ingestion_id : ℕ

-- The session that a client asks for.
pub record SessionData : Type 0 where
  pub storage_space_id : ℕ
  pub object_key : Text
  pub content_length : ℤ

-- The answer: the session's id, the ingestion's id, and whether they were there before.
pub data Answer : Type 0 where
  replayed fresh : ℕ → ℕ → Answer

abbrev as_api : {A : Type 0} → Result ApiError A → Result StoreError A
as_api (ok a) = ok a
as_api (err e) = err (api e)

abbrev new_session : ℕ → ℕ → SessionData → Session
new_session id tenant_id d = record {
  id = id;
  tenant_id = tenant_id;
  object_key = d.object_key;
  declared_length = d.content_length;
  status = pending;
  completed_at = none;
}

module _ {Json : Type 0} where
  -- `_build_ingestion_model`: the columns of the request, the linked ids, and the status `initiated`.
  abbrev pub build_row :
      ℕ → ℕ → Option ℕ → Option ℕ → Option ℕ → IngestionRow Json → IngestionRow Json
  build_row id tenant_id upload multipart reservation request = record request {
    id = id;
    tenant_id = tenant_id;
    upload_session_id = upload;
    multipart_session_id = multipart;
    quota_reservation_id = reservation;
    file_object_id = none;
    provider_etag = none;
    provider_version_id = none;
    actual_size = none;
    actual_content_type = none;
    checksum = none;
    status = initiated;
    committed_at = none;
  }

  abbrev pub add_row : IngestionRow Json → Tables Json → Tables Json
  add_row r t = record t { records = r ∷ t.records }

  -- The session that a replayed intent refers to, or the `ApiError`.
  abbrev pub replay :
      Option ℕ
      → List Session
      → IngestionRow Json
      → Tables Json
      → Result StoreError (Answer × Tables Json)
  replay none sessions existing t = err (api invalid_transition)
  replay (some id) sessions existing t = elim (find (λ s. s.id == id) sessions) [
    | none ↦ err (api invalid_transition)
    | some s ↦ ok (replayed s.id existing.id, t)
  ]

  -- The rows of a new upload session and of its ingestion.
  unfoldable pub open_upload :
      NewIds → ℕ → SessionData → IngestionRow Json → Books → Tables Json → Answer × Tables Json
  open_upload ids tenant_id d request books t =
      let row =
        build_row ids.ingestion_id tenant_id (some ids.session_id) none (some ids.reservation_id)
          request in
      (
        fresh ids.session_id ids.ingestion_id,
        add_event row created none (
            add_row row (record t {
              books = books;
              uploads = new_session ids.session_id tenant_id d ∷ t.uploads;
            })),
      )

  unfoldable pub open_multipart :
      NewIds → ℕ → SessionData → IngestionRow Json → Books → Tables Json → Answer × Tables Json
  open_multipart ids tenant_id d request books t =
      let row =
        build_row ids.ingestion_id tenant_id none (some ids.session_id) (some ids.reservation_id)
          request in
      (
        fresh ids.session_id ids.ingestion_id,
        add_event row created none (
            add_row row (record t {
              books = books;
              multiparts = new_session ids.session_id tenant_id d ∷ t.multiparts;
            })),
      )

  -- The unique constraint on tenant and fingerprint, which only a request with an empty fingerprint
  -- can meet after the search. Null fingerprints do not conflict.
  abbrev pub fingerprint_taken : ℕ → Option Text → Tables Json → Bool
  fingerprint_taken tenant_id none t = false
  fingerprint_taken tenant_id (some f) t =
      any (λ r. r.tenant_id == tenant_id && opt_text_eq r.idempotency_fingerprint f) t.records

  -- The part that the two new intents share: reserve, insert and open.
  abbrev pub with_reservation :
      NewIds
      → ℕ
      → SessionData
      → Option Text
      → Tables Json
      → (Books → Answer × Tables Json)
      → Result StoreError (Answer × Tables Json)
  with_reservation ids tenant_id d fingerprint t opened = do
    (_, books) ←
        as_api
          (reserve_quota ids.reservation_id tenant_id d.storage_space_id d.content_length t.books)
    raise_if (fingerprint_taken tenant_id fingerprint t) integrity_error
    ok (opened books)

  unfoldable pub create_upload_intent :
      NewIds
      → ℕ
      → SessionData
      → IngestionRow Json
      → Tables Json
      → Result StoreError (Answer × Tables Json)
  unfolding open_upload
  create_upload_intent ids tenant_id d request t = do
    existing ←
        find_replay_or_conflict tenant_id request.idempotency_fingerprint request.idempotency_key t
    elim existing [
      | some r ↦ replay r.upload_session_id t.uploads r t
      | none ↦
          with_reservation ids tenant_id d request.idempotency_fingerprint t
            (λ books. open_upload ids tenant_id d request books t)
    ]

  unfoldable pub create_multipart_intent :
      NewIds
      → ℕ
      → SessionData
      → IngestionRow Json
      → Tables Json
      → Result StoreError (Answer × Tables Json)
  unfolding open_multipart
  create_multipart_intent ids tenant_id d request t = do
    existing ←
        find_replay_or_conflict tenant_id request.idempotency_fingerprint request.idempotency_key t
    elim existing [
      | some r ↦ replay r.multipart_session_id t.multiparts r t
      | none ↦
          with_reservation ids tenant_id d request.idempotency_fingerprint t
            (λ books. open_multipart ids tenant_id d request books t)
    ]

  -- A new ingestion without a reservation of its own, or the one of an earlier request.
  unfoldable pub begin_or_replay :
      ℕ → ℕ → IngestionRow Json → Tables Json → Result StoreError (ℕ × Tables Json)
  begin_or_replay new_id tenant_id request t = do
    existing ←
        find_replay_or_conflict tenant_id request.idempotency_fingerprint request.idempotency_key t
    elim existing [
      | some r ↦ ok (r.id, t)
      | none ↦
          (let row =
              build_row new_id tenant_id request.upload_session_id request.multipart_session_id
                request.quota_reservation_id request in
            raise_if (fingerprint_taken tenant_id request.idempotency_fingerprint t)
              (api idempotency_key_reused)
            >> ok (new_id, add_event row created none (add_row row t)))
    ]
