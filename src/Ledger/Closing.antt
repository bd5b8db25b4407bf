-- ===== src/Ledger/Closing.antt =====
-- On `_settle_quota_reservation` and `_release_quota_reservation`: how they change the books.
use s3mp_backend.Prelude.{
  ℕ, Bool, true, false, ◌≡◌, Option, none, some, arith, ◌==◌, subst, ◌⊎◌, any, length, find,
  find-In, Bool-cases, Option-cases, inl, inr,
}
use s3mp_backend.Prelude.Int.{ℤ, ◌+ℤ◌, ltb_ℤ}
use s3mp_backend.Ledger.{
  Quota, Reservation, Books, is_reserved, is_reservation, charged_rows, quota_count, held,
  settle_row, release_row, close_books, settled, released, settle_quota, release_quota,
}

-- The reservation `r` is open in the books.
pub record IsHeld (tenant_id : ℕ) (b : Books) (r : Reservation) : Type 0 where
  pub found : find (is_reservation tenant_id r.id) b.reservations ≡ some r
  pub is_open : is_reserved r.status ≡ true

abbrev pub settled_as : ℤ → ℕ → Reservation → Reservation
settled_as actual now r = record r {
  actual_bytes = some actual;
  status = settled;
  settled_at = some now;
}

abbrev pub released_at : ℕ → Reservation → Reservation
released_at now r = record r { status = released; settled_at = some now }

-- `quota.used_bytes + actual_size > quota.limit_bytes`
abbrev pub too_large : ℤ → Quota → Bool
too_large actual q = ltb_ℤ q.limit_bytes (q.used_bytes +ℤ actual)

pub held-IsHeld :
    (tenant_id : ℕ) (reservation_id : Option ℕ) (b : Books) (r : Reservation)
    → held tenant_id reservation_id b ≡ some r
    → IsHeld tenant_id b r
unfolding held
held-IsHeld tenant_id none b r h = absurd (cc)
held-IsHeld tenant_id (some id) b r h =
    elim (Option-cases (find (is_reservation tenant_id id) b.reservations)) [
      | inl e ↦ absurd (cc (rw (e, held) at h))
      | inr (x, e) ↦ elim (Bool-cases (is_reserved x.status)) [
        | inr f ↦ absurd (cc (rw (e, f, held) at h))
        | inl f ↦
            let same : x ≡ r = cc (rw (e, f, held) at h) in
            let own = (find-In (is_reservation tenant_id id) x b.reservations e).1 in
            let key : id ≡ x.id = ground (arith, own) in
            subst (IsHeld tenant_id b) {x = x} {y = r} same (record {
              found =
                  subst (λ (k : ℕ). find (is_reservation tenant_id k) b.reservations ≡ some x) key
                    e;
              is_open = f;
            })
      ]
    ]

-- The outcomes of a settlement: nothing is held, it is refused, or one open reservation is settled.
pub data Settlement (tenant_id : ℕ) (actual : ℤ) (now : ℕ) (b : Books) : Bool × Books → Type 0 where
  nothing_held : Settlement tenant_id actual now b (true, b)
  refused : Settlement tenant_id actual now b (false, b)
  admitted :
      (r : Reservation)
      → IsHeld tenant_id b r
      → (length (charged_rows tenant_id r b.quotas) ≡ quota_count r)
      → (any (too_large actual) (charged_rows tenant_id r b.quotas) ≡ false)
      → Settlement tenant_id actual now b (
        true,
        close_books tenant_id r (settle_row r.requested_bytes actual) (settled_as actual now) b,
      )

module _ (tenant_id : ℕ) (reservation_id : Option ℕ) (now : ℕ) (b : Books) where
  pub settle_outcome :
      (actual : ℤ)
      → Settlement tenant_id actual now b (settle_quota tenant_id reservation_id actual now b)
  unfolding settle_quota
  settle_outcome actual = elim (Option-cases (held tenant_id reservation_id b)) [
    | inl e ↦ rw (e, settle_quota) nothing_held
    | inr (r, e) ↦ elim (Bool-cases (length (charged_rows tenant_id r b.quotas) == quota_count r)) [
      | inr f ↦ rw (e, settle_quota) (rw f refused)
      | inl f ↦ elim (Bool-cases (any (too_large actual) (charged_rows tenant_id r b.quotas))) [
        | inl g ↦ rw (e, settle_quota) (rw f (rw g refused))
        | inr g ↦
            rw (e, settle_quota)
              (rw f
                (rw g (admitted r (held-IsHeld tenant_id reservation_id b r e) (ground arith) g)))
      ]
    ]
  ]

  pub release_outcome :
      (release_quota tenant_id reservation_id now b ≡ b)
      ⊎ ((r : Reservation) × IsHeld tenant_id b r
          × (release_quota tenant_id reservation_id now b
              ≡ close_books tenant_id r (release_row r.requested_bytes) (released_at now) b))
  unfolding release_quota
  release_outcome = elim (Option-cases (held tenant_id reservation_id b)) [
    | inl e ↦ inl (rw (e, release_quota))
    | inr (r, e) ↦ inr (r, held-IsHeld tenant_id reservation_id b r e, rw (e, release_quota))
  ]
