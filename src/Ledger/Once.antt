-- ===== src/Ledger/Once.antt =====
-- On the quota ledger: reservations that were settled or released.
use s3mp_backend.Prelude.{
  ℕ, true, false, ◌≡◌, refl, ap, ◌∙◌, Option, none, some, find, find-In, any, length, ◌==◌,
  find-update_first, Bool-cases, Option-cases, inl, inr, arith, subst, sym,
}
use s3mp_backend.Prelude.Int.{ℤ}
use s3mp_backend.Ledger.{
  charged_rows, quota_count, Quota, Reservation, Books, is_reserved, is_reservation, held,
  settle_quota, release_quota, close_books, settle_row, release_row,
}
use s3mp_backend.Ledger.Closing.{too_large, settled_as, released_at, held-IsHeld}

unheld :
    (tenant_id id : ℕ) (b : Books) (r : Reservation)
    → find (is_reservation tenant_id id) b.reservations ≡ some r
    → is_reserved r.status ≡ false
    → held tenant_id (some id) b ≡ none
unfolding held
unheld tenant_id id b r h e = rw (h, held) (rw (e) refl)

held-id :
    (tenant_id id : ℕ) (b : Books) (r : Reservation)
    → held tenant_id (some id) b ≡ some r
    → id ≡ r.id
unfolding held
held-id tenant_id id b r h =
    elim (Option-cases (find (is_reservation tenant_id id) b.reservations)) [
      | inl e ↦ absurd (cc (rw (e, held) at h))
      | inr (x, e) ↦ elim (Bool-cases (is_reserved x.status)) [
        | inr f ↦ absurd (cc (rw (e, f, held) at h))
        | inl f ↦
            let same : x ≡ r = cc (rw (e, f, held) at h) in
            let own = (find-In (is_reservation tenant_id id) x b.reservations e).1 in
            let key : id ≡ x.id = ground (arith, own) in key ∙ ap (λ (y : Reservation). y.id) same
      ]
    ]

-- A reservation whose row was closed is not held any more.
closed-held :
    (tenant_id id : ℕ) (b : Books) (r : Reservation) (f : Quota → Quota)
    (g : Reservation → Reservation)
    → held tenant_id (some id) b ≡ some r
    → is_reservation tenant_id r.id (g r) ≡ is_reservation tenant_id r.id r
    → is_reserved (g r).status ≡ false
    → held tenant_id (some id) (close_books tenant_id r f g b) ≡ none
closed-held tenant_id id b r f g h key e =
    let found = (held-IsHeld tenant_id (some id) b r h).found in
    subst (λ (k : ℕ). held tenant_id (some k) (close_books tenant_id r f g b) ≡ none)
      (sym (held-id tenant_id id b r h))
      (unheld tenant_id r.id (close_books tenant_id r f g b) (g r)
        (find-update_first (is_reservation tenant_id r.id) g r b.reservations found
          (key ∙ (find-In (is_reservation tenant_id r.id) r b.reservations found).1))
        e)

module _ (tenant_id : ℕ) (now : ℕ) where
  release-held :
      (reservation_id : Option ℕ) (b : Books)
      → held tenant_id reservation_id (release_quota tenant_id reservation_id now b) ≡ none
  unfolding release_quota held
  release-held none b = refl
  release-held (some id) b = elim (Option-cases (held tenant_id (some id) b)) [
    | inl e ↦ rw (e, release_quota) e
    | inr (r, e) ↦
        rw (e, release_quota)
          (closed-held tenant_id id b r (release_row r.requested_bytes) (released_at now) e refl
            refl)
  ]

  settle-held :
      (reservation_id : Option ℕ) (actual : ℤ) (b b' : Books)
      → settle_quota tenant_id reservation_id actual now b ≡ (true, b')
      → held tenant_id reservation_id b' ≡ none
  unfolding settle_quota held
  settle-held none actual b b' h = refl
  settle-held (some id) actual b b' h = elim (Option-cases (held tenant_id (some id) b)) [
    | inl e ↦
        let same : b ≡ b' = cc (rw (e, settle_quota) at h) in
        subst (λ (x : Books). held tenant_id (some id) x ≡ none) same e
    | inr (r, e) ↦ elim (Bool-cases (length (charged_rows tenant_id r b.quotas) == quota_count r)) [
      | inr f ↦ absurd (cc (rw (e, f, settle_quota) at h))
      | inl f ↦ elim (Bool-cases (any (too_large actual) (charged_rows tenant_id r b.quotas))) [
        | inl g ↦ absurd (cc (rw (e, f, g, settle_quota) at h))
        | inr g ↦
            subst (λ (x : Books). held tenant_id (some id) x ≡ none)
              {x = close_books tenant_id r (settle_row r.requested_bytes actual)
                (settled_as actual now) b}
              {y = b'} (cc (rw (e, f, g, settle_quota) at h))
              (closed-held tenant_id id b r (settle_row r.requested_bytes actual)
                (settled_as actual now) e refl refl)
      ]
    ]
  ]

-- Neither a settlement nor a release changes books in which the reservation is not held.
pub record IsClosed (tenant_id : ℕ) (reservation_id : Option ℕ) (b : Books) : Type 0 where
  pub settle_again :
      (actual : ℤ) (now : ℕ) → settle_quota tenant_id reservation_id actual now b ≡ (true, b)
  pub release_again : (now : ℕ) → release_quota tenant_id reservation_id now b ≡ b

held-IsClosed :
    (tenant_id : ℕ) (reservation_id : Option ℕ) (b : Books)
    → held tenant_id reservation_id b ≡ none
    → IsClosed tenant_id reservation_id b
unfolding settle_quota release_quota
held-IsClosed tenant_id reservation_id b e = record {
  settle_again = λ actual now. rw (e, settle_quota) refl;
  release_again = λ now. rw (e, release_quota) refl;
}

module _ (tenant_id : ℕ) (reservation_id : Option ℕ) (now : ℕ) (b : Books) where
  -- After a settlement that is admitted, no further settlement, whatever its size, and no release
  -- changes the books: the quota is charged once.
  pub settle_once :
      (actual : ℤ) (b' : Books)
      → settle_quota tenant_id reservation_id actual now b ≡ (true, b')
      → IsClosed tenant_id reservation_id b'
  settle_once actual b' h =
      held-IsClosed tenant_id reservation_id b'
        (settle-held tenant_id now reservation_id actual b b' h)

  -- After a release, no further settlement and no release changes the books, and a settlement of any
  -- size reports success without charging a quota.
  pub release_once :
      IsClosed tenant_id reservation_id (release_quota tenant_id reservation_id now b)
  release_once =
      held-IsClosed tenant_id reservation_id _ (release-held tenant_id now reservation_id b)
