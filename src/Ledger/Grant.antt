-- ===== src/Ledger/Grant.antt =====
-- On `_reserve_quota`: how it changes the books.
use s3mp_backend.Prelude.{
  ℕ, false, ◌≡◌, ◌||◌, Option, none, some, Result, ok, arith, ◌==◌, find, filter, subst, Bool-cases,
  Option-cases, inl, inr,
}
use s3mp_backend.Prelude.Int.{ℤ, pos, ltb_ℤ}
use s3mp_backend.Ledger.{
  ApiError, Quota, Books, is_space, is_tenant_quota, is_legacy_quota, is_application_quota,
  overflows, build_snapshot, shared_pool_available, scoped_quota, charge_rows, new_reservation,
  storage_space_legacy, application_reserved, shared_pool, reserve_legacy, reserve_scoped,
  reserve_shared, reserve_quota,
}

abbrev pub pool_of : ℕ → Quota → Books → ℤ
pool_of tenant_id t b =
    shared_pool_available (build_snapshot t (filter (is_application_quota tenant_id) b.quotas))

-- The three ways in which a reservation is granted.
pub data Grant (new_id tenant_id space_id : ℕ) (requested : ℤ) (b : Books) : Books → Type 0 where
  from_legacy :
      (q : Quota)
      → find (is_legacy_quota tenant_id space_id) b.quotas ≡ some q
      → overflows requested q ≡ false
      → Grant new_id tenant_id space_id requested b (
          charge_rows tenant_id
            (λ i. i == q.id)
            (new_reservation new_id tenant_id q.id none none storage_space_legacy requested)
            b)
  from_scoped :
      (t s : Quota)
      → find (is_tenant_quota tenant_id) b.quotas ≡ some t
      → ((application_id : Option ℕ) × (scoped_quota tenant_id application_id b ≡ some s))
      → overflows requested s ≡ false
      → overflows requested t ≡ false
      → Grant new_id tenant_id space_id requested b (
          charge_rows tenant_id
            (λ i. i == t.id || i == s.id)
            (new_reservation new_id tenant_id s.id
              (some s.id)
              (some t.id)
              application_reserved
              requested)
            b)
  from_pool :
      (t : Quota)
      → find (is_tenant_quota tenant_id) b.quotas ≡ some t
      → ltb_ℤ (pool_of tenant_id t b) requested ≡ false
      → Grant new_id tenant_id space_id requested b (
          charge_rows tenant_id
            (λ i. i == t.id)
            (new_reservation new_id tenant_id t.id none (some t.id) shared_pool requested)
            b)

module _ (new_id tenant_id space_id : ℕ) (requested : ℤ) (b : Books) where
  abbrev Granted : Books → Type 0
  Granted b' = Grant new_id tenant_id space_id requested b b'

  granted :
      {x b' : Books} (i : ℕ)
      → Granted x
      → ◌≡◌ {A = Result ApiError (ℕ × Books)} (ok (new_id, x)) (ok (i, b'))
      → Granted b'
  granted {x} {b'} i g h = let e : x ≡ b' = cc in subst Granted {x = x} {y = b'} e g

  legacy_grant :
      (i : ℕ) (b' : Books)
      → reserve_legacy new_id tenant_id space_id requested b ≡ ok (i, b')
      → Granted b'
  unfolding reserve_legacy
  legacy_grant i b' h = elim (Option-cases (find (is_legacy_quota tenant_id space_id) b.quotas)) [
    | inl e ↦ absurd (cc (rw (e, reserve_legacy) at h))
    | inr (q, e) ↦ elim (Bool-cases (overflows requested q)) [
      | inl o ↦ absurd (cc (rw (e, o, reserve_legacy) at h))
      | inr o ↦ granted i (from_legacy q e o) (rw (e, o, reserve_legacy) at h)
    ]
  ]

  scoped_grant :
      (t s : Quota) (i : ℕ) (b' : Books)
      → find (is_tenant_quota tenant_id) b.quotas ≡ some t
      → ((application_id : Option ℕ) × (scoped_quota tenant_id application_id b ≡ some s))
      → reserve_scoped new_id tenant_id requested t s b ≡ ok (i, b')
      → Granted b'
  unfolding reserve_scoped
  scoped_grant t s i b' et es h =
      elim (Bool-cases (overflows requested s || overflows requested t)) [
        | inl o ↦ absurd (cc (rw (o, reserve_scoped) at h))
        | inr o ↦
            granted i (from_scoped t s et es (ground arith) (ground arith))
              (rw (o, reserve_scoped) at h)
      ]

  pool_grant :
      (t : Quota) (i : ℕ) (b' : Books)
      → find (is_tenant_quota tenant_id) b.quotas ≡ some t
      → reserve_shared new_id tenant_id requested t b ≡ ok (i, b')
      → Granted b'
  unfolding reserve_shared
  pool_grant t i b' et h = elim (Bool-cases (ltb_ℤ (pool_of tenant_id t b) requested)) [
    | inl o ↦ absurd (cc (rw (o, reserve_shared) at h))
    | inr o ↦ granted i (from_pool t et o) (rw (o, reserve_shared) at h)
  ]

  pub reserve_grant :
      (i : ℕ) (b' : Books)
      → reserve_quota new_id tenant_id space_id requested b ≡ ok (i, b')
      → Granted b' × (ltb_ℤ requested (pos 0) ≡ false)
  unfolding reserve_quota
  reserve_grant i b' h = elim (Option-cases (find (is_space tenant_id space_id) b.spaces)) [
    | inl e ↦ absurd (cc (rw (e, reserve_quota) at h))
    | inr (space, e) ↦ elim (Bool-cases (ltb_ℤ requested (pos 0))) [
      | inl n ↦ absurd (cc (rw (e, n, reserve_quota) at h))
      | inr n ↦ elim (Option-cases (find (is_tenant_quota tenant_id) b.quotas)) [
        | inl f ↦ (legacy_grant i b' (rw (e, n, f, reserve_quota) at h), n)
        | inr (t, f) ↦ elim (Option-cases (scoped_quota tenant_id space.application_id b)) [
          | inl g ↦ (pool_grant t i b' f (rw (e, n, f, g, reserve_quota) at h), n)
          | inr (s, g) ↦ (
            scoped_grant t s i b' f (space.application_id, g) (rw (e, n, f, g, reserve_quota) at h),
            n,
          )
        ]
      ]
    ]
  ]
