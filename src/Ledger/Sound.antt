-- ===== src/Ledger/Sound.antt =====
-- On the quota ledger: balanced books in which no reservation asks for less than nothing. In them the
-- floor under which `reap_orphan_reservations` of files/infrastructure/ingestion_repository.py keeps no
-- reserve is never reached.
use s3mp_backend.Prelude.{
  ℕ, Bool, true, false, ◌≡◌, refl, sym, ◌&&◌, Option, some, List, [], ◌∷◌, ok, arith, ◌==◌, All,
  All-map_where, update_first, Bool-cases, inl, inr, subst,
}
use s3mp_backend.Prelude.Int.{ℤ, pos, ◌+ℤ◌, ◌-ℤ◌, ◌≤ℤ◌, int_laws}
use s3mp_backend.Ledger.Closing.{
  IsHeld, Settlement, nothing_held, refused, admitted, settle_outcome, release_outcome,
}
use s3mp_backend.Ledger.Grant.{reserve_grant, Grant, from_legacy, from_scoped, from_pool}
use s3mp_backend.Ledger.Balance.{
  IsBalanced, weighs, weight, outstanding, lower-row, charged-weighs, closed_total,
  reserve-IsBalanced, settle-IsBalanced, release-IsBalanced,
}
use s3mp_backend.Ledger.{
  Quota, Reservation, ReservationStatus, Books, zero_floor, is_reserved, charges, is_reservation,
  reap_row, reap_books, reserve_quota, settle_quota, release_quota,
}

-- No reservation asks for less than nothing.
abbrev pub AsksAll : List Reservation → Type 0
AsksAll rs = All (λ (r : Reservation). pos 0 ≤ℤ r.requested_bytes) rs

abbrev pub IsSound : Books → Type 0
IsSound b = IsBalanced b × AsksAll b.reservations

outstanding-nonneg : (q : Quota) (rs : List Reservation) → AsksAll rs → pos 0 ≤ℤ outstanding q rs
outstanding-nonneg q [] h = omega arith
outstanding-nonneg q (r ∷ rs) (asks, h) =
    let ih = outstanding-nonneg q rs h in
    elim (Bool-cases (weighs q r)) [ inl e ↦ rw e (omega int_laws) | inr e ↦ rw e (omega int_laws) ]

-- A change that leaves alone what a reservation asks for.
update_first-AsksAll :
    (p : Reservation → Bool) (g : Reservation → Reservation) (rs : List Reservation)
    → ((r : Reservation) → (g r).requested_bytes ≡ r.requested_bytes)
    → AsksAll rs
    → AsksAll (update_first p g rs)
update_first-AsksAll p g [] same h = tt
update_first-AsksAll p g (r ∷ rs) same (asks, h) = elim (Bool-cases (p r)) [
  | inl e ↦ rw e (subst (λ (a : ℤ). pos 0 ≤ℤ a) (sym (same r)) asks, h)
  | inr e ↦ rw e (asks, update_first-AsksAll p g rs same h)
]

Grant-AsksAll :
    {new_id tenant_id space_id : ℕ} {requested : ℤ} {b b' : Books}
    → pos 0 ≤ℤ requested
    → Grant new_id tenant_id space_id requested b b'
    → AsksAll b.reservations
    → AsksAll b'.reservations
Grant-AsksAll n (from_legacy q found room) h = (n, h)
Grant-AsksAll n (from_scoped t s found_t found_s room_s room_t) h = (n, h)
Grant-AsksAll n (from_pool t found room) h = (n, h)

pub reserve-IsSound :
    (new_id tenant_id space_id i : ℕ) (requested : ℤ) (b b' : Books)
    → reserve_quota new_id tenant_id space_id requested b ≡ ok (i, b')
    → IsSound b
    → IsSound b'
reserve-IsSound new_id tenant_id space_id i requested b b' h (balanced, asks) =
    let (grant, n) = reserve_grant new_id tenant_id space_id requested b i b' h in
    (
      reserve-IsBalanced new_id tenant_id space_id i requested b b' h balanced,
      Grant-AsksAll (ground (arith, n)) grant asks,
    )

Settlement-AsksAll :
    (tenant_id : ℕ) (actual : ℤ) (now : ℕ) (b : Books) {out : Bool × Books}
    → Settlement tenant_id actual now b out
    → AsksAll b.reservations
    → AsksAll out.1.reservations
Settlement-AsksAll tenant_id actual now b nothing_held h = h
Settlement-AsksAll tenant_id actual now b refused h = h
Settlement-AsksAll tenant_id actual now b (admitted r open_row count room) h =
    update_first-AsksAll (is_reservation tenant_id r.id) _ b.reservations (λ x. refl) h

module _ (tenant_id : ℕ) (reservation_id : Option ℕ) (now : ℕ) (b : Books) where
  pub settle-IsSound :
      (actual : ℤ) → IsSound b → IsSound (settle_quota tenant_id reservation_id actual now b).1
  settle-IsSound actual (balanced, asks) = (
    settle-IsBalanced tenant_id reservation_id now b actual balanced,
    Settlement-AsksAll tenant_id actual now b (settle_outcome tenant_id reservation_id now b actual)
        asks,
  )

  pub release-IsSound : IsSound b → IsSound (release_quota tenant_id reservation_id now b)
  release-IsSound (balanced, asks) = (
    release-IsBalanced tenant_id reservation_id now b balanced,
    elim (release_outcome tenant_id reservation_id now b) [
      | inl e ↦ rw e asks
      | inr (r, open_row, e) ↦
          rw e
            (update_first-AsksAll (is_reservation tenant_id r.id) _ b.reservations (λ x. refl) asks)
    ],
  )

floor-nonneg : (a : ℤ) → pos 0 ≤ℤ a → zero_floor a ≡ a
floor-nonneg a h = ground arith

-- A row of a reaped reservation: the floor changes nothing.
reaped-row :
    (q : Quota) (g : Reservation → Reservation) (r : Reservation) (before after : ℤ)
    → weighs q r ≡ true
    → after +ℤ weight q r ≡ before +ℤ pos 0
    → pos 0 ≤ℤ after
    → q.reserved_bytes ≡ before
    → zero_floor (q.reserved_bytes -ℤ r.requested_bytes) ≡ after
reaped-row q g r before after e total nonneg h =
    let same : q.reserved_bytes -ℤ r.requested_bytes ≡ after =
      lower-row q g r before after true e total h in
    rw same (floor-nonneg after nonneg)

-- Reaping an open reservation keeps the books sound, whatever closed status it gets.
pub reap_books-IsSound :
    (now : ℕ) (status : ReservationStatus) (r : Reservation) (b : Books)
    → is_reserved status ≡ false
    → IsHeld r.tenant_id b r
    → IsSound b
    → IsSound (reap_books now status r b)
reap_books-IsSound now status r b shut open_row (balanced, asks) =
    let g = λ (x : Reservation). record x { status = status; settled_at = some now } in
    let p = is_reservation r.tenant_id r.id in
    let left = update_first-AsksAll p g b.reservations (λ x. refl) asks in
    let weighing = charged-weighs r.tenant_id r g b shut open_row.is_open open_row.found in
    let total = closed_total r.tenant_id r g b shut open_row.is_open open_row.found in
    (
      All-map_where (λ q. q.reserved_bytes ≡ outstanding q b.reservations)
          (λ q. q.reserved_bytes ≡ outstanding q (update_first p g b.reservations))
          (λ q. q.tenant_id == r.tenant_id && charges r q.id) (reap_row r.requested_bytes) b.quotas
          (λ q m c e.
            reaped-row q g r _ _ (weighing q true c) (total q)
              (outstanding-nonneg q (update_first p g b.reservations) left) e)
          (λ q m c e. lower-row q g r _ _ false (weighing q false c) (total q) e) balanced,
      left,
    )
