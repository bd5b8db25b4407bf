-- ===== src/Ingestion/Committing.antt =====
-- On `commit_verified_file` of files/infrastructure/ingestion_repository.py: its outcomes, and the
-- status of the rows.
use s3mp_backend.Prelude.{
  ℕ, Bool, true, false, ◌≡◌, refl, sym, ap, ◌∙◌, ◌⊎◌, inl, inr, Option, List, Result, ok,
  update_first, any, Pointwise, update_first-update_first, Bool-cases, Option-cases, Result-cases,
  subst,
}
use s3mp_backend.Prelude.Text.{Text}
use s3mp_backend.Ledger.{Books, settle_quota, release_quota}
use s3mp_backend.Ingestion.{
  IngestionStatus, IngestionRow, FileObject, Tables, StoreError, may_become, valid_transitions,
  status_eq, is_row, lock_row, write_row, validate_transition, add_event, verified, committed,
  reconciliation_required, initiated, uploading, verification_pending, available, failed, expired,
}
use s3mp_backend.Ingestion.Lifecycle.{
  Moves, Follows, write-Follows, lock-is_row, validated, all-Moves,
}
use s3mp_backend.Ingestion.Tasks.{
  Environment, enqueue_knowledge_task, enqueue_for, excluded_by, has_task, rules_for,
}
use s3mp_backend.Ingestion.Commit.{
  commit_verified_file, commit_row_of, commit_row, insert_file, conflicts, complete, quarantine,
  settle_sessions, file_of, or_zero,
}

-- A row whose size is not admitted moves to `RECONCILIATION_REQUIRED`, or stays there.
quarantined-step :
    (s : IngestionStatus)
    → may_become s committed ≡ true
    → (reconciliation_required ≡ s) ⊎ (may_become s reconciliation_required ≡ true)
unfolding may_become valid_transitions
quarantined-step verified h = inr refl
quarantined-step reconciliation_required h = inl refl
quarantined-step initiated h = absurd (cc)
quarantined-step uploading h = absurd (cc)
quarantined-step verification_pending h = absurd (cc)
quarantined-step committed h = absurd (cc)
quarantined-step available h = absurd (cc)
quarantined-step failed h = absurd (cc)
quarantined-step expired h = absurd (cc)

module _ {Json : Type 0} where
  -- The parts of the tables that a task and a file leave as they are.
  abbrev View : List (IngestionRow Json) → Books → Tables Json → Type 0
  View rs b t = (t.records ≡ rs) × (t.books ≡ b)

  returned-View :
      {x t' : Tables Json} (rs : List (IngestionRow Json)) (b : Books)
      → ◌≡◌ {A = Result StoreError (Tables Json)} (ok x) (ok t')
      → View rs b x
      → View rs b t'
  returned-View {x} {t'} rs b h e =
      subst (λ (y : Tables Json). View rs b y) {x = x} {y = t'} (cc h) e

  insert-View :
      (file : FileObject Json) (t t' : Tables Json)
      → insert_file file t ≡ ok t'
      → View t.records t.books t'
  unfolding insert_file
  insert-View file t t' h = elim (Bool-cases (any (conflicts file) t.files)) [
    | inl e ↦ absurd (cc (rw (e, insert_file) at h))
    | inr e ↦ returned-View t.records t.books (rw (e, insert_file) at h) (refl, refl)
  ]

  module _ (lower : Text → Text) (e : Environment) (row : IngestionRow Json)
      (file : FileObject Json) (t t' : Tables Json) where
    enqueue_for-View :
        (a : ℕ) → enqueue_for lower e a row file t ≡ ok t' → View t.records t.books t'
    unfolding enqueue_for
    enqueue_for-View a h =
        elim (Bool-cases (any (has_task row.tenant_id file.id e.manifest_hash) t.tasks)) [
          | inl f ↦ returned-View t.records t.books (rw (f, enqueue_for) at h) (refl, refl)
          | inr f ↦
              elim (Result-cases
                (excluded_by row.relative_key (rules_for row.tenant_id a t.rules))) [
                  | inr (x, g) ↦ absurd (cc (rw (f, g, enqueue_for) at h))
                  | inl (x, g) ↦
                      returned-View t.records t.books (rw (f, g, enqueue_for) at h) (refl, refl)
                ]
        ]

    enqueue-View : enqueue_knowledge_task lower e row file t ≡ ok t' → View t.records t.books t'
    unfolding enqueue_knowledge_task
    enqueue-View h = elim (Bool-cases e.knowledge_extraction_enabled) [
      | inr f ↦ returned-View t.records t.books (rw (f, enqueue_knowledge_task) at h) (refl, refl)
      | inl f ↦ elim (Option-cases row.application_id) [
        | inl g ↦
            returned-View t.records t.books (rw (f, g, enqueue_knowledge_task) at h) (refl, refl)
        | inr (a, g) ↦ enqueue_for-View a (rw (f, g, enqueue_knowledge_task) at h)
      ]
    ]

module _ {Json : Type 0} (encode : Text → List ℕ) (canonical_json : Option Json → Text)
    (show_uuid : ℕ → Text) (digest_text : List ℕ → Text) (lower : Text → Text)
    (e : Environment) where
  abbrev commit : IngestionRow Json → IngestionRow Json
  commit r = commit_row encode canonical_json show_uuid digest_text lower e r

  abbrev quarantine_row : IngestionRow Json → IngestionRow Json
  quarantine_row r = record (commit r) { status = reconciliation_required }

  abbrev settle : IngestionRow Json → Books → Bool × Books
  settle row b =
      settle_quota row.tenant_id row.quota_reservation_id (or_zero row.actual_size) e.now b

  -- The two ways in which a commit leaves the rows and the books.
  pub data CommitEnd (row : IngestionRow Json) (t : Tables Json) : Tables Json → Type 0 where
    by_commit :
        {t' : Tables Json}
        → ((settle row t.books).0 ≡ true)
        → View
            (update_first (is_row row.tenant_id row.id) commit t.records)
            (settle row t.books).1
            t'
        → CommitEnd row t t'
    by_quarantine :
        {t' : Tables Json}
        → ((settle row t.books).0 ≡ false)
        → View
            (update_first (is_row row.tenant_id row.id) quarantine_row t.records)
            (release_quota row.tenant_id row.quota_reservation_id e.now (settle row t.books).1)
            t'
        → CommitEnd row t t'

  pub commit-CommitEnd :
      (row : IngestionRow Json) (t t' : Tables Json)
      → commit_row_of encode canonical_json show_uuid digest_text lower e row t ≡ ok t'
      → CommitEnd row t t'
  unfolding commit_row_of quarantine complete settle_sessions write_row add_event
  commit-CommitEnd row t t' h =
      let file = file_of encode canonical_json show_uuid digest_text lower e row in
      elim (Result-cases (insert_file file t)) [
        | inr (x, f) ↦ absurd (cc (rw (f, commit_row_of) at h))
        | inl (t1, f) ↦
            let (rows, books) = insert-View file t t1 f in
            elim (Bool-cases (settle row t1.books).0) [
              | inl g ↦
                  let (rows', books') =
                    enqueue-View lower e row file _ t' (rw (f, g, commit_row_of, complete) at h) in
                  by_commit (ap (λ (b : Books). (settle row b).0) (sym books) ∙ g) (
                    rows' ∙ ap (update_first (is_row row.tenant_id row.id) commit) rows,
                    books' ∙ ap (λ (b : Books). (settle row b).1) books,
                  )
              | inr g ↦
                  let (rows', books') =
                    returned-View _ _ (rw (f, g, commit_row_of, quarantine) at h) (refl, refl) in
                  by_quarantine (ap (λ (b : Books). (settle row b).0) (sym books) ∙ g) (
                    rows'
                        ∙ update_first-update_first (is_row row.tenant_id row.id) commit
                            (λ r. record r { status = reconciliation_required }) t1.records
                            (λ r m. m)
                        ∙ ap (update_first (is_row row.tenant_id row.id) quarantine_row) rows,
                    books'
                        ∙ ap
                            (λ (b : Books).
                              release_quota row.tenant_id row.quota_reservation_id e.now
                                (settle row b).1)
                            books,
                  )
            ]
      ]

  rows-Follows :
      (r : IngestionRow Json) (t t' : Tables Json)
      → lock_row r.tenant_id r.id t ≡ ok r
      → may_become r.status committed ≡ true
      → CommitEnd r t t'
      → Follows t t'
  rows-Follows r t t' f v (by_commit g (same, _)) =
      subst (λ (rs : List (IngestionRow Json)). Pointwise Moves t.records rs) (sym same)
        (write-Follows r.tenant_id r.id commit r t f
          (record { same_id = refl; same_tenant = refl; step = inr v }))
  rows-Follows r t t' f v (by_quarantine g (same, _)) =
      subst (λ (rs : List (IngestionRow Json)). Pointwise Moves t.records rs) (sym same)
        (write-Follows r.tenant_id r.id quarantine_row r t f
          (record { same_id = refl; same_tenant = refl; step = quarantined-step r.status v }))

  -- What a commit that returned did: nothing to a row that was committed before, or one of the two
  -- outcomes to a row that may be committed.
  pub commit_cases :
      (tenant_id id : ℕ) (t t' : Tables Json)
      → commit_verified_file encode canonical_json show_uuid digest_text lower e tenant_id id t
        ≡ ok t'
      → (t ≡ t')
        ⊎ ((r : IngestionRow Json) × (lock_row r.tenant_id r.id t ≡ ok r)
            × (may_become r.status committed ≡ true)
            × CommitEnd r t t')
  unfolding commit_verified_file
  commit_cases tenant_id id t t' h = elim (Result-cases (lock_row tenant_id id t)) [
    | inr (x, f) ↦ absurd (cc (rw (f, commit_verified_file) at h))
    | inl (r, f) ↦ elim (Bool-cases (status_eq r.status committed)) [
      | inl done ↦ inl (cc (rw (f, done, commit_verified_file) at h))
      | inr more ↦ elim (Result-cases (validate_transition r committed)) [
        | inr (x, v) ↦ absurd (cc (rw (f, more, v, commit_verified_file) at h))
        | inl (u, v) ↦
            let (own_tenant, own_id) = lock-is_row tenant_id id t r f in
            inr (
              r,
              ap (λ (k : ℕ). lock_row k r.id t) own_tenant
                  ∙ ap (λ (k : ℕ). lock_row tenant_id k t) own_id
                  ∙ f,
              validated r committed v,
              commit-CommitEnd r t t' (rw (f, more, v, commit_verified_file) at h),
            )
      ]
    ]
  ]

  -- A commit that returns, whether it completes the file or finds that the quota does not admit it,
  -- moves rows only along `VALID_TRANSITIONS`.
  pub commit-Follows :
      (tenant_id id : ℕ) (t t' : Tables Json)
      → commit_verified_file encode canonical_json show_uuid digest_text lower e tenant_id id t
        ≡ ok t'
      → Follows t t'
  commit-Follows tenant_id id t t' h = elim (commit_cases tenant_id id t t' h) [
    | inl same ↦ subst (Follows t) {x = t} {y = t'} same (all-Moves t.records)
    | inr (r, f, v, done) ↦ rows-Follows r t t' f v done
  ]
