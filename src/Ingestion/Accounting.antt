-- ===== src/Ingestion/Accounting.antt =====
-- On files/infrastructure/ingestion_repository.py: its transactions and the quota ledger.
use s3mp_backend.Prelude.{
  ℕ, ◌≡◌, sym, inl, inr, Option, some, List, Result, ok, if-intro, ◌&&◌, ◌||◌, Bool-cases,
  Result-cases, subst,
}
use s3mp_backend.Prelude.Int.{ℤ}
use s3mp_backend.Prelude.Text.{Text}
use s3mp_backend.Ledger.{Books, reserve_quota, settle_quota, release_quota}
use s3mp_backend.Ingestion.{
  verified, IngestionStatus, IngestionRow, Tables, StoreError, status_eq, lock_row, write_row,
  validate_transition, add_event, failed, expired, reconciliation_required, reconciliation_started,
}
use s3mp_backend.Ingestion.Tasks.{Environment}
use s3mp_backend.Ingestion.Commit.{
  ProviderResult, record_provider_result, commit_verified_file, or_zero,
}
use s3mp_backend.Ingestion.Endings.{fail_or_quarantine, expire, expire_row, end_as}
use s3mp_backend.Ingestion.Openings.{Reserved, no_reservation, one_reservation, Opened, kept, added}
use s3mp_backend.Ingestion.Committing.{CommitEnd, by_commit, by_quarantine, commit_cases}

-- A property of the books that reserving, settling and releasing keep.
pub record IsLedgerProperty (P : Books → Type 0) : Type 0 where
  pub by_reserve :
      (new_id tenant_id space_id i : ℕ) (requested : ℤ) (b b' : Books)
      → reserve_quota new_id tenant_id space_id requested b ≡ ok (i, b')
      → P b
      → P b'
  pub by_settle :
      (tenant_id : ℕ) (reservation_id : Option ℕ) (now : ℕ) (b : Books) (actual : ℤ)
      → P b
      → P (settle_quota tenant_id reservation_id actual now b).1
  pub by_release :
      (tenant_id : ℕ) (reservation_id : Option ℕ) (now : ℕ) (b : Books)
      → P b
      → P (release_quota tenant_id reservation_id now b)

module _ (P : Books → Type 0) (laws : IsLedgerProperty P) where
  module _ {Json : Type 0} where
    Fair : Tables Json → Type 0
    Fair t = P t.books

    returned-Fair :
        {x t' : Tables Json}
        → ◌≡◌ {A = Result StoreError (Tables Json)} (ok x) (ok t')
        → Fair x
        → Fair t'
    returned-Fair {x} {t'} h f = subst Fair {x = x} {y = t'} (cc h) f

    module _ (tenant_id id : ℕ) (t t' : Tables Json) (fair : P t.books) where
      -- Recording a provider result keeps the property.
      pub record-Holds :
          (result : ProviderResult)
          → record_provider_result tenant_id id result t ≡ ok t'
          → P t'.books
      unfolding record_provider_result write_row add_event Fair
      record-Holds result h = elim (Result-cases (lock_row tenant_id id t)) [
        | inr (x, e) ↦ absurd (cc (rw (e, record_provider_result) at h))
        | inl (r, e) ↦ elim (Result-cases (validate_transition r verified)) [
          | inr (x, v) ↦ absurd (cc (rw (e, v, record_provider_result) at h))
          | inl (u, v) ↦ returned-Fair {x = _} (rw (e, v, record_provider_result) at h) fair
        ]
      ]

      -- Failing or quarantining an ingestion, when it returns, keeps the property.
      pub fail-Holds :
          (now : ℕ) (status : IngestionStatus) (reason : Text)
          → fail_or_quarantine now tenant_id id status reason t ≡ ok t'
          → P t'.books
      unfolding fail_or_quarantine end_as write_row add_event Fair
      fail-Holds now status reason h =
          elim (Bool-cases (status_eq status failed || status_eq status reconciliation_required)) [
            | inr bad ↦ absurd (cc (rw (bad, fail_or_quarantine) at h))
            | inl good ↦ elim (Result-cases (lock_row tenant_id id t)) [
              | inr (x, e) ↦ absurd (cc (rw (good, e, fail_or_quarantine) at h))
              | inl (r, e) ↦
                  elim (Bool-cases
                    (status_eq r.status status && status_eq status reconciliation_required)) [
                      | inl same ↦
                          returned-Fair {x = add_event r reconciliation_started (some reason) t}
                            (rw (good, e, same, fail_or_quarantine) at h) fair
                      | inr other ↦ elim (Result-cases (validate_transition r status)) [
                        | inr (x, v) ↦ absurd (cc (rw (good, e, other, v, fail_or_quarantine) at h))
                        | inl (u, v) ↦
                            returned-Fair {x = end_as now status reason tenant_id id r t}
                              (rw (good, e, other, v, fail_or_quarantine) at h)
                              (if-intro Fair (status_eq status failed)
                                (laws.by_release r.tenant_id r.quota_reservation_id now t.books
                                  fair)
                                fair)
                      ]
                    ]
            ]
          ]

      -- Expiring an ingestion, when it returns, keeps the property.
      pub expire-Holds : (now : ℕ) → expire now tenant_id id t ≡ ok t' → P t'.books
      unfolding expire expire_row write_row add_event Fair
      expire-Holds now h = elim (Result-cases (lock_row tenant_id id t)) [
        | inr (x, e) ↦ absurd (cc (rw (e, expire) at h))
        | inl (r, e) ↦ elim (Bool-cases (status_eq r.status expired)) [
          | inl done ↦ returned-Fair {x = t} (rw (e, done, expire) at h) fair
          | inr pending ↦ elim (Result-cases (validate_transition r expired)) [
            | inr (x, v) ↦ absurd (cc (rw (e, pending, v, expire) at h))
            | inl (u, v) ↦
                returned-Fair {x = expire_row now tenant_id id r t}
                  (rw (e, pending, v, expire) at h)
                  (laws.by_release r.tenant_id r.quota_reservation_id now t.books fair)
          ]
        ]
      ]

  Reserved-Holds : (tenant_id : ℕ) (b b' : Books) → Reserved tenant_id b b' → P b → P b'
  Reserved-Holds tenant_id b b' (no_reservation same) h = subst P same h
  Reserved-Holds tenant_id b b' (one_reservation new_id space_id i requested e) h =
      laws.by_reserve new_id tenant_id space_id i requested b b' e h

  -- Answering a request to open an ingestion keeps the property.
  pub Opened-Holds :
      {Json : Type 0} (tenant_id : ℕ) (t t' : Tables Json)
      → Opened tenant_id t t'
      → P t.books
      → P t'.books
  Opened-Holds tenant_id t t' (kept same) h =
      subst (λ (x : Tables _). P x.books) {x = t} {y = t'} same h
  Opened-Holds tenant_id t t' (added r first fresh own reserved) h =
      Reserved-Holds tenant_id t.books t'.books reserved h

  module _ {Json : Type 0} (encode : Text → List ℕ) (canonical_json : Option Json → Text)
      (show_uuid : ℕ → Text) (digest_text : List ℕ → Text) (lower : Text → Text)
      (e : Environment) where
    CommitEnd-Holds :
        (r : IngestionRow Json) (t t' : Tables Json)
        → CommitEnd encode canonical_json show_uuid digest_text lower e r t t'
        → P t.books
        → P t'.books
    CommitEnd-Holds r t t' (by_commit g (_, books)) h =
        subst P (sym books) (
          laws.by_settle r.tenant_id r.quota_reservation_id e.now t.books (or_zero r.actual_size) h)
    CommitEnd-Holds r t t' (by_quarantine g (_, books)) h = subst P (sym books) (
        laws.by_release r.tenant_id r.quota_reservation_id e.now
          (settle_quota r.tenant_id r.quota_reservation_id (or_zero r.actual_size) e.now t.books).1
          (laws.by_settle r.tenant_id r.quota_reservation_id e.now t.books (or_zero r.actual_size)
            h))

    -- A commit that returns keeps the property.
    pub commit-Holds :
        (tenant_id id : ℕ) (t t' : Tables Json)
        → commit_verified_file encode canonical_json show_uuid digest_text lower e tenant_id id t
          ≡ ok t'
        → P t.books
        → P t'.books
    commit-Holds tenant_id id t t' h balanced =
        elim (commit_cases encode canonical_json show_uuid digest_text lower e tenant_id id t t'
          h) [
            | inl same ↦ subst (λ (x : Tables Json). P x.books) {x = t} {y = t'} same balanced
            | inr (r, f, v, done) ↦ CommitEnd-Holds r t t' done balanced
          ]
