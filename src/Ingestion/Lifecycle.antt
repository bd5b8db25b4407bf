-- ===== src/Ingestion/Lifecycle.antt =====
-- On files/infrastructure/ingestion_repository.py: its transactions and `VALID_TRANSITIONS` of
-- files/domain/ingestion.py.
use s3mp_backend.Prelude.{
  ℕ, if-intro, true, ◌≡◌, refl, ap, ◌∙◌, ◌⊎◌, inl, inr, some, List, Result, ok, arith, ◌&&◌, ◌||◌,
  find, update_first, Pointwise, Pointwise-refl, Pointwise-update_first, Bool-cases, Option-cases,
  Result-cases, subst, find-In,
}
use s3mp_backend.Prelude.Text.{Text}
use s3mp_backend.Ingestion.{
  IngestionStatus, IngestionRow, Tables, StoreError, may_become, status_eq, is_row, lock_row,
  write_row, validate_transition, add_event, verified, failed, expired, reconciliation_required,
}
use s3mp_backend.Ingestion.Commit.{ProviderResult, record_provider_result}
use s3mp_backend.Ingestion.Endings.{fail_or_quarantine, expire, expire_row, end_as}

module _ {Json : Type 0} where
  -- A row keeps its id and its tenant, and its status stays or takes one allowed step.
  pub record Moves (r r' : IngestionRow Json) : Type 0 where
    pub same_id : r'.id ≡ r.id
    pub same_tenant : r'.tenant_id ≡ r.tenant_id
    pub step : (r'.status ≡ r.status) ⊎ (may_become r.status r'.status ≡ true)

  Moves-refl : (r : IngestionRow Json) → Moves r r
  Moves-refl r = record { same_id = refl; same_tenant = refl; step = inl refl }

  abbrev pub Follows : Tables Json → Tables Json → Type 0
  Follows t t' = Pointwise Moves t.records t'.records

  lock-find :
      (tenant_id id : ℕ) (t : Tables Json) (r : IngestionRow Json)
      → lock_row tenant_id id t ≡ ok r
      → find (is_row tenant_id id) t.records ≡ some r
  unfolding lock_row
  lock-find tenant_id id t r h = elim (Option-cases (find (is_row tenant_id id) t.records)) [
    | inl e ↦ absurd (cc (rw (e, lock_row) at h))
    | inr (x, e) ↦ e ∙ cc (rw (e, lock_row) at h)
  ]

  -- The locked row is the one of the ids.
  pub lock-is_row :
      (tenant_id id : ℕ) (t : Tables Json) (r : IngestionRow Json)
      → lock_row tenant_id id t ≡ ok r
      → (r.tenant_id ≡ tenant_id) × (r.id ≡ id)
  lock-is_row tenant_id id t r h =
      let own = (find-In (is_row tenant_id id) r t.records (lock-find tenant_id id t r h)).1 in
      (ground (arith, own), ground (arith, own))

  pub validated :
      (r : IngestionRow Json) (target : IngestionStatus) {u : Unit {0}}
      → validate_transition r target ≡ ok u
      → may_become r.status target ≡ true
  unfolding validate_transition
  validated r target h = elim (Bool-cases (may_become r.status target)) [
    | inl e ↦ e
    | inr e ↦ absurd (cc (rw (e, validate_transition) at h))
  ]

  -- A write to the locked row that keeps its ids and takes an allowed step.
  pub write-Follows :
      (tenant_id id : ℕ) (f : IngestionRow Json → IngestionRow Json) (r : IngestionRow Json)
      (t : Tables Json)
      → lock_row tenant_id id t ≡ ok r
      → Moves r (f r)
      → Pointwise Moves t.records (update_first (is_row tenant_id id) f t.records)
  write-Follows tenant_id id f r t h m =
      Pointwise-update_first Moves Moves-refl (is_row tenant_id id) f r t.records
        (lock-find tenant_id id t r h) m

  -- A checked change of the status of the locked row.
  status-Follows :
      (tenant_id id : ℕ) (f : IngestionRow Json → IngestionRow Json) (r : IngestionRow Json)
      (target : IngestionStatus) (t : Tables Json) {u : Unit {0}}
      → lock_row tenant_id id t ≡ ok r
      → validate_transition r target ≡ ok u
      → (f r).id ≡ r.id
      → (f r).tenant_id ≡ r.tenant_id
      → (f r).status ≡ target
      → Pointwise Moves t.records (update_first (is_row tenant_id id) f t.records)
  status-Follows tenant_id id f r target t h valid same_id same_tenant s =
      write-Follows tenant_id id f r t h (record {
        same_id = same_id;
        same_tenant = same_tenant;
        step = inr (ap (may_become r.status) s ∙ validated r target valid);
      })

  -- What a transaction that returned says of the tables it returned.
  pub returned-Follows :
      (t : Tables Json) {x t' : Tables Json}
      → ◌≡◌ {A = Result StoreError (Tables Json)} (ok x) (ok t')
      → Follows t x
      → Follows t t'
  returned-Follows t {x} {t'} h f =
      subst (λ (y : Tables Json). Follows t y) {x = x} {y = t'} (cc h) f

  pub all-Moves : (rs : List (IngestionRow Json)) → Pointwise Moves rs rs
  all-Moves rs = Pointwise-refl Moves Moves-refl rs

  module _ (tenant_id id : ℕ) (t t' : Tables Json) where
    -- A recorded provider result moves rows only along `VALID_TRANSITIONS`: each row keeps its id and
    -- tenant, and its status stays or takes one allowed step.
    pub record-Follows :
        (result : ProviderResult)
        → record_provider_result tenant_id id result t ≡ ok t'
        → Follows t t'
    unfolding record_provider_result write_row add_event
    record-Follows result h = elim (Result-cases (lock_row tenant_id id t)) [
      | inr (x, e) ↦ absurd (cc (rw (e, record_provider_result) at h))
      | inl (r, e) ↦ elim (Result-cases (validate_transition r verified)) [
        | inr (x, v) ↦ absurd (cc (rw (e, v, record_provider_result) at h))
        | inl (u, v) ↦
            returned-Follows t (rw (e, v, record_provider_result) at h)
              (status-Follows tenant_id id _ r verified t e v refl refl refl)
      ]
    ]

    end_as-Follows :
        (now : ℕ) (status : IngestionStatus) (reason : Text) (r : IngestionRow Json) {u : Unit {0}}
        → lock_row tenant_id id t ≡ ok r
        → validate_transition r status ≡ ok u
        → Follows t (end_as now status reason tenant_id id r t)
    unfolding end_as write_row add_event
    end_as-Follows now status reason r e v =
        let moved =
          status-Follows tenant_id id (λ x. record x { status = status }) r status t e v refl refl
            refl in
        if-intro (Follows t) (status_eq status failed) moved moved

    -- Failing or quarantining an ingestion, when it returns, moves rows only along `VALID_TRANSITIONS`.
    pub fail-Follows :
        (now : ℕ) (status : IngestionStatus) (reason : Text)
        → fail_or_quarantine now tenant_id id status reason t ≡ ok t'
        → Follows t t'
    unfolding fail_or_quarantine add_event
    fail-Follows now status reason h =
        elim (Bool-cases (status_eq status failed || status_eq status reconciliation_required)) [
          | inr bad ↦ absurd (cc (rw (bad, fail_or_quarantine) at h))
          | inl good ↦ elim (Result-cases (lock_row tenant_id id t)) [
            | inr (x, e) ↦ absurd (cc (rw (good, e, fail_or_quarantine) at h))
            | inl (r, e) ↦
                elim (Bool-cases
                  (status_eq r.status status && status_eq status reconciliation_required)) [
                    | inl same ↦
                        returned-Follows t (rw (good, e, same, fail_or_quarantine) at h)
                          (all-Moves t.records)
                    | inr other ↦ elim (Result-cases (validate_transition r status)) [
                      | inr (x, v) ↦ absurd (cc (rw (good, e, other, v, fail_or_quarantine) at h))
                      | inl (u, v) ↦
                          returned-Follows t (rw (good, e, other, v, fail_or_quarantine) at h)
                            (end_as-Follows now status reason r e v)
                    ]
                  ]
          ]
        ]

    -- Expiring an ingestion, when it returns, moves rows only along `VALID_TRANSITIONS`.
    pub expire-Follows : (now : ℕ) → expire now tenant_id id t ≡ ok t' → Follows t t'
    unfolding expire expire_row write_row add_event
    expire-Follows now h = elim (Result-cases (lock_row tenant_id id t)) [
      | inr (x, e) ↦ absurd (cc (rw (e, expire) at h))
      | inl (r, e) ↦ elim (Bool-cases (status_eq r.status expired)) [
        | inl done ↦ returned-Follows t (rw (e, done, expire) at h) (all-Moves t.records)
        | inr pending ↦ elim (Result-cases (validate_transition r expired)) [
          | inr (x, v) ↦ absurd (cc (rw (e, pending, v, expire) at h))
          | inl (u, v) ↦
              returned-Follows t (rw (e, pending, v, expire) at h)
                (status-Follows tenant_id id _ r expired t e v refl refl refl)
        ]
      ]
    ]
