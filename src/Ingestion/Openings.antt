-- ===== src/Ingestion/Openings.antt =====
-- On `create_upload_intent`, `create_multipart_intent` and `begin_or_replay` of
-- files/infrastructure/ingestion_repository.py: how they change the rows and the books.
use s3mp_backend.Prelude.{
  ℕ, ◌≡◌, refl, sym, inl, inr, Option, none, some, List, ◌∷◌, ok, ◌==◌, find, Bool-cases,
  Option-cases, Result-cases, subst,
}
use s3mp_backend.Prelude.Text.{Text}
use s3mp_backend.Ledger.{Books, reserve_quota}
use s3mp_backend.Ingestion.{
  Session, IngestionRow, Tables, initiated, created, find_replay_or_conflict, add_event,
}
use s3mp_backend.Ingestion.Intents.{
  NewIds, SessionData, Answer, create_upload_intent, create_multipart_intent, begin_or_replay,
  replay, with_reservation, fingerprint_taken, open_upload, open_multipart, build_row, add_row,
}

-- The books stay as they are, or hold one more reservation.
pub data Reserved (tenant_id : ℕ) (b b' : Books) : Type 0 where
  no_reservation : b ≡ b' → Reserved tenant_id b b'
  one_reservation :
      (new_id space_id i : ℕ) (requested : _)
      → reserve_quota new_id tenant_id space_id requested b ≡ ok (i, b')
      → Reserved tenant_id b b'

-- The tables stay as they are, or have one more row, which is `initiated`.
pub data Opened {Json : Type 0} (tenant_id : ℕ) (t t' : Tables Json) : Type 0 where
  kept : t ≡ t' → Opened tenant_id t t'
  added :
      (r : IngestionRow Json)
      → t'.records ≡ r ∷ t.records
      → r.status ≡ initiated
      → r.tenant_id ≡ tenant_id
      → Reserved tenant_id t.books t'.books
      → Opened tenant_id t t'

module _ {Json : Type 0} (ids : NewIds) (tenant_id : ℕ) (d : SessionData) (t t' : Tables Json)
    (a : Answer) where
  replay_cases :
      (session : Option ℕ) (sessions : List Session) (r : IngestionRow Json)
      → replay session sessions r t ≡ ok (a, t')
      → t ≡ t'
  replay_cases none sessions r h = absurd (cc)
  replay_cases (some id) sessions r h = elim (Option-cases (find (λ s. s.id == id) sessions)) [
    | inl e ↦ absurd (cc (rw (e, replay) at h))
    | inr (s, e) ↦ cc (rw (e, replay) at h)
  ]

  reservation_cases :
      (fingerprint : Option Text) (opened : Books → Answer × Tables Json)
      → with_reservation ids tenant_id d fingerprint t opened ≡ ok (a, t')
      → (b : Books) × Reserved tenant_id t.books b × (opened b ≡ (a, t'))
  reservation_cases fingerprint opened h =
      elim (Result-cases
        (reserve_quota ids.reservation_id tenant_id d.storage_space_id d.content_length t.books)) [
          | inr (x, e) ↦ absurd (cc (rw (e, with_reservation) at h))
          | inl ((i, b), e) ↦ elim (Bool-cases (fingerprint_taken tenant_id fingerprint t)) [
            | inl taken ↦ absurd (cc (rw (e, with_reservation, taken) at h))
            | inr untaken ↦ (
              b,
              one_reservation ids.reservation_id d.storage_space_id i d.content_length e,
              cc (rw (e, with_reservation, untaken) at h),
            )
          ]
        ]

  -- A row that is added to tables with other books.
  cases_of_open :
      (r : IngestionRow Json) (x : Answer × Tables Json) (b : Books)
      → x.1.records ≡ r ∷ t.records
      → r.status ≡ initiated
      → r.tenant_id ≡ tenant_id
      → x.1.books ≡ b
      → Reserved tenant_id t.books b
      → x ≡ (a, t')
      → Opened tenant_id t t'
  cases_of_open r x b first fresh own books reserved same =
      subst (λ (y : Answer × Tables Json). Opened tenant_id t y.1) {x = x} {y = (a, t')} same
        (added r first fresh own (subst (Reserved tenant_id t.books) (sym books) reserved))

  pub upload_cases :
      (request : IngestionRow Json)
      → create_upload_intent ids tenant_id d request t ≡ ok (a, t')
      → Opened tenant_id t t'
  unfolding create_upload_intent open_upload add_event
  upload_cases request h =
      elim (Result-cases (
        find_replay_or_conflict tenant_id request.idempotency_fingerprint request.idempotency_key
          t)) [
            | inr (x, e) ↦ absurd (cc (rw (e, create_upload_intent) at h))
            | inl (some r, e) ↦
                kept
                  (replay_cases r.upload_session_id t.uploads r (rw (e, create_upload_intent) at h))
            | inl (none, e) ↦
                let (b, reserved, same) =
                  reservation_cases request.idempotency_fingerprint _
                    (rw (e, create_upload_intent) at h) in
                cases_of_open
                  (build_row ids.ingestion_id tenant_id (some ids.session_id) none
                    (some ids.reservation_id) request)
                  (open_upload ids tenant_id d request b t) b refl refl refl refl reserved same
          ]

  pub multipart_cases :
      (request : IngestionRow Json)
      → create_multipart_intent ids tenant_id d request t ≡ ok (a, t')
      → Opened tenant_id t t'
  unfolding create_multipart_intent open_multipart add_event
  multipart_cases request h =
      elim (Result-cases (
        find_replay_or_conflict tenant_id request.idempotency_fingerprint request.idempotency_key
          t)) [
            | inr (x, e) ↦ absurd (cc (rw (e, create_multipart_intent) at h))
            | inl (some r, e) ↦ kept (
                replay_cases r.multipart_session_id t.multiparts r
                  (rw (e, create_multipart_intent) at h))
            | inl (none, e) ↦
                let (b, reserved, same) =
                  reservation_cases request.idempotency_fingerprint _
                    (rw (e, create_multipart_intent) at h) in
                cases_of_open
                  (build_row ids.ingestion_id tenant_id none (some ids.session_id)
                    (some ids.reservation_id) request)
                  (open_multipart ids tenant_id d request b t) b refl refl refl refl reserved same
          ]

module _ {Json : Type 0} (new_id tenant_id i : ℕ) (request : IngestionRow Json)
    (t t' : Tables Json) where
  pub begin_cases : begin_or_replay new_id tenant_id request t ≡ ok (i, t') → Opened tenant_id t t'
  unfolding begin_or_replay add_event
  begin_cases h =
      elim (Result-cases (
        find_replay_or_conflict tenant_id request.idempotency_fingerprint request.idempotency_key
          t)) [
            | inr (x, e) ↦ absurd (cc (rw (e, begin_or_replay) at h))
            | inl (some r, e) ↦ kept (cc (rw (e, begin_or_replay) at h))
            | inl (none, e) ↦
                elim (Bool-cases (fingerprint_taken tenant_id request.idempotency_fingerprint t)) [
                  | inl taken ↦ absurd (cc (rw (e, taken, begin_or_replay) at h))
                  | inr free ↦
                      let row =
                        build_row new_id tenant_id request.upload_session_id
                          request.multipart_session_id request.quota_reservation_id request in
                      subst (λ (y : ℕ × Tables Json). Opened tenant_id t y.1)
                        {x = (new_id, add_event row created none (add_row row t))} {y = (i, t')}
                        (cc (rw (e, free, begin_or_replay) at h))
                        (added row refl refl refl (no_reservation refl))
                ]
          ]
