-- ===== src/Ledger/Limits.antt =====
-- On the quota ledger: the limits of the quotas.
use s3mp_backend.Prelude.{
  ℕ, Bool, true, false, ◌≡◌, sym, Option, none, some, List, [], ◌∷◌, arith, ◌==◌, ◌&&◌, ◌||◌, ◌⊎◌,
  All, All-In, All-map_where, In, any, filter, find, find-In, In→any, In→filter, filter→In, In-All,
  ok, Bool-cases, inl, inr, subst,
}
use s3mp_backend.Prelude.Int.{ℤ, pos, ◌+ℤ◌, ◌-ℤ◌, ◌≤ℤ◌, ltb_ℤ, int_laws}
use s3mp_backend.Ledger.{
  Quota, Reservation, Books, zero_floor, sum_floor, build_snapshot, shared_pool_available,
  shared_pool_limit, shared_pool_used, shared_pool_reserved, charge_rows, is_application_quota,
  overflows, new_reservation, storage_space_legacy, application_reserved, shared_pool,
  is_scoped_quota, scoped_quota, charges, charged_rows, add_reserved, settle_row, settle_quota,
  reserve_quota,
}
use s3mp_backend.Ledger.Grant.{reserve_grant, Grant, from_legacy, from_scoped, from_pool, pool_of}
use s3mp_backend.Ledger.Closing.{
  Settlement, nothing_held, refused, admitted, too_large, settle_outcome,
}

-- What is used and what is held in reserve fit the limit together.
abbrev pub Fits : Quota → Type 0
Fits q = q.used_bytes +ℤ q.reserved_bytes ≤ℤ q.limit_bytes

abbrev pub IsNonneg : Quota → Type 0
IsNonneg q = (pos 0 ≤ℤ q.limit_bytes) × (pos 0 ≤ℤ q.used_bytes) × (pos 0 ≤ℤ q.reserved_bytes)

-- The quota id is the table's primary key.
abbrev pub IsKeyed : List Quota → Type 0
IsKeyed qs = (q q' : Quota) → In q qs → In q' qs → q.id ≡ q'.id → q ≡ q'

abbrev zero : ℤ
zero = pos 0

floor_nonneg : (a : ℤ) → zero ≤ℤ a → zero_floor a ≡ a
floor_nonneg a h = ground arith

sum_floor-Fits :
    (qs : List Quota)
    → All Fits qs
    → All IsNonneg qs
    → sum_floor (λ q. q.used_bytes) qs +ℤ sum_floor (λ q. q.reserved_bytes) qs
      ≤ℤ sum_floor (λ q. q.limit_bytes) qs
unfolding sum_floor
sum_floor-Fits [] h n = omega int_laws
sum_floor-Fits (q ∷ qs) h n = rw (floor_nonneg q.used_bytes n.0.1) (
    rw (floor_nonneg q.reserved_bytes n.0.2)
      (rw (floor_nonneg q.limit_bytes n.0.0) (omega (int_laws, sum_floor-Fits qs h.1 n.1))))

floor_bounds :
    (a : ℤ)
    → (a ≤ℤ zero_floor a) × (zero ≤ℤ zero_floor a) × ((zero_floor a ≤ℤ zero) ⊎ (zero_floor a ≤ℤ a))
floor_bounds a = ground arith

not_below : (a n : ℤ) → ltb_ℤ a n ≡ false → n ≤ℤ a
not_below a n h = ground arith

-- The arithmetic of the pool, with a name for each floor.
pool_arith :
    (tl tu tr al au ar n a b c d : ℤ)
    → tu +ℤ tr ≤ℤ tl
    → au +ℤ ar ≤ℤ al
    → (a ≤ℤ zero) ⊎ (a ≤ℤ tl -ℤ al)
    → tu -ℤ au ≤ℤ b
    → zero ≤ℤ b
    → tr -ℤ ar ≤ℤ c
    → zero ≤ℤ c
    → (d ≤ℤ zero) ⊎ (d ≤ℤ a -ℤ b -ℤ c)
    → n ≤ℤ d
    → tu +ℤ tr +ℤ n ≤ℤ tl
pool_arith tl tu tr al au ar n a b c d h1 h2 h3 h4 h5 h6 h7 h8 h9 = omega int_laws

-- What the shared pool has left is free in the tenant's quota too.
pool_room :
    (tl tu tr al au ar n : ℤ)
    → tu +ℤ tr ≤ℤ tl
    → au +ℤ ar ≤ℤ al
    → ltb_ℤ (zero_floor (zero_floor (tl -ℤ al) -ℤ zero_floor (tu -ℤ au) -ℤ zero_floor (tr -ℤ ar))) n
      ≡ false
    → tu +ℤ tr +ℤ n ≤ℤ tl
pool_room tl tu tr al au ar n fits apps room =
    let fa = floor_bounds (tl -ℤ al) in
    let fb = floor_bounds (tu -ℤ au) in
    let fc = floor_bounds (tr -ℤ ar) in
    let fd =
      floor_bounds (zero_floor (tl -ℤ al) -ℤ zero_floor (tu -ℤ au) -ℤ zero_floor (tr -ℤ ar)) in
    pool_arith tl tu tr al au ar n _ _ _ _ fits apps fa.2 fb.0 fb.1 fc.0 fc.1 fd.2
      (not_below _ n room)

module _ (tenant_id : ℕ) (b : Books) (fits : All Fits b.quotas)
    (nonneg : All IsNonneg b.quotas) where
  -- A granted draw on the shared pool fits the tenant's quota.
  pool_of-room :
      (t : Quota) (n : ℤ)
      → In t b.quotas
      → ltb_ℤ (pool_of tenant_id t b) n ≡ false
      → t.used_bytes +ℤ t.reserved_bytes +ℤ n ≤ℤ t.limit_bytes
  unfolding build_snapshot shared_pool_available shared_pool_limit shared_pool_used
      shared_pool_reserved
  pool_of-room t n m room =
      let apps = filter (is_application_quota tenant_id) b.quotas in
      let member = λ (q : Quota) (i : In q apps).
        (filter→In (is_application_quota tenant_id) q b.quotas i).0 in
      let fits' = In-All Fits apps (λ q i. All-In Fits q b.quotas fits (member q i)) in
      let nonneg' = In-All IsNonneg apps (λ q i. All-In IsNonneg q b.quotas nonneg (member q i)) in
      let (l, u, r) = All-In IsNonneg t b.quotas nonneg m in
      pool_room t.limit_bytes t.used_bytes t.reserved_bytes _ _ _ n (All-In Fits t b.quotas fits m)
        (sum_floor-Fits apps fits' nonneg')
        (rw
          (
            floor_nonneg t.limit_bytes l,
            floor_nonneg t.used_bytes u,
            floor_nonneg t.reserved_bytes r,
          )
          at room)

-- The row that a search selected is the only one with its id.
selected :
    (b : Books) (p : Quota → Bool) (t q : Quota)
    → IsKeyed b.quotas
    → find p b.quotas ≡ some t
    → In q b.quotas
    → (q.id == t.id) ≡ true
    → q ≡ t
selected b p t q keyed found m e = keyed q t m (find-In p t b.quotas found).0 (ground arith)

raise-Fits :
    (n : ℤ) (q : Quota)
    → q.used_bytes +ℤ q.reserved_bytes +ℤ n ≤ℤ q.limit_bytes
    → Fits (add_reserved n q)
raise-Fits n q h = omega (int_laws, h)

overflows-room :
    (n : ℤ) (q : Quota)
    → overflows n q ≡ false
    → q.used_bytes +ℤ q.reserved_bytes +ℤ n ≤ℤ q.limit_bytes
overflows-room n q h = ground arith

scoped_found :
    (tenant_id : ℕ) (application_id : Option ℕ) (b : Books) (s : Quota)
    → scoped_quota tenant_id application_id b ≡ some s
    → (p : Quota → Bool) × (find p b.quotas ≡ some s)
scoped_found tenant_id none b s h = absurd (cc)
scoped_found tenant_id (some a) b s h = (is_scoped_quota tenant_id a, h)

module _ (new_id tenant_id space_id : ℕ) (requested : ℤ) (b : Books) (keyed : IsKeyed b.quotas)
    (fits : All Fits b.quotas) (nonneg : All IsNonneg b.quotas) where
  raised :
      (ids : ℕ → Bool) (r : Reservation)
      → ((q : Quota)
          → In q b.quotas
          → ids q.id ≡ true
          → q.used_bytes +ℤ q.reserved_bytes +ℤ r.requested_bytes ≤ℤ q.limit_bytes)
      → All Fits (charge_rows tenant_id ids r b).quotas
  raised ids r room =
      All-map_where Fits Fits (λ q. q.tenant_id == tenant_id && ids q.id)
        (add_reserved r.requested_bytes) b.quotas
        (λ q m c f. raise-Fits r.requested_bytes q (room q m (ground arith))) (λ q m c f. f) fits

  at_row :
      (p : Quota → Bool) (t q : Quota)
      → find p b.quotas ≡ some t
      → t.used_bytes +ℤ t.reserved_bytes +ℤ requested ≤ℤ t.limit_bytes
      → In q b.quotas
      → (q.id == t.id) ≡ true
      → q.used_bytes +ℤ q.reserved_bytes +ℤ requested ≤ℤ q.limit_bytes
  at_row p t q found room m e =
      subst (λ (x : Quota). x.used_bytes +ℤ x.reserved_bytes +ℤ requested ≤ℤ x.limit_bytes)
        (sym (selected b p t q keyed found m e)) room

  Grant-Fits : {b' : Books} → Grant new_id tenant_id space_id requested b b' → All Fits b'.quotas
  Grant-Fits (from_legacy q found room) =
      raised (λ i. i == q.id)
        (new_reservation new_id tenant_id q.id none none storage_space_legacy requested)
        (λ x m e. at_row _ q x found (overflows-room requested q room) m e)
  Grant-Fits (from_scoped t s found_t found_s room_s room_t) =
      raised (λ i. i == t.id || i == s.id)
        (new_reservation new_id tenant_id s.id (some s.id) (some t.id) application_reserved
          requested)
        (λ x m e.
          let (p, found) = scoped_found tenant_id found_s.0 b s found_s.1 in
          elim (Bool-cases (x.id == t.id)) [
            | inl c ↦ at_row _ t x found_t (overflows-room requested t room_t) m c
            | inr c ↦ at_row p s x found (overflows-room requested s room_s) m (ground arith)
          ])
  Grant-Fits (from_pool t found room) =
      raised (λ i. i == t.id)
        (new_reservation new_id tenant_id t.id none (some t.id) shared_pool requested)
        (λ x m e.
          at_row _ t x found
            (pool_of-room tenant_id b fits nonneg t requested (find-In _ t b.quotas found).0 room) m
            e)

-- Where quota ids are unique, no byte count is negative and every quota is within its limit, used
-- and reserved bytes together, a granted reservation keeps every quota within its limit.
pub reserve-Fits :
    (new_id tenant_id space_id i : ℕ) (requested : ℤ) (b b' : Books)
    → IsKeyed b.quotas
    → All Fits b.quotas
    → All IsNonneg b.quotas
    → reserve_quota new_id tenant_id space_id requested b ≡ ok (i, b')
    → All Fits b'.quotas
reserve-Fits new_id tenant_id space_id i requested b b' keyed fits nonneg h =
    Grant-Fits new_id tenant_id space_id requested b keyed fits nonneg
      (reserve_grant new_id tenant_id space_id requested b i b' h).0

-- Used bytes stay within the limit.
abbrev pub UsesWithin : Quota → Type 0
UsesWithin q = q.used_bytes ≤ℤ q.limit_bytes

Settlement-UsesWithin :
    (tenant_id now : ℕ) (actual : ℤ) (b : Books) {out : Bool × Books}
    → Settlement tenant_id actual now b out
    → All UsesWithin b.quotas
    → All UsesWithin out.1.quotas
Settlement-UsesWithin tenant_id now actual b nothing_held h = h
Settlement-UsesWithin tenant_id now actual b refused h = h
Settlement-UsesWithin tenant_id now actual b (admitted r open_row count room) h =
    All-map_where UsesWithin UsesWithin (λ q. q.tenant_id == tenant_id && charges r q.id)
      (settle_row r.requested_bytes actual) b.quotas
      (λ q m c e. not_below q.limit_bytes (q.used_bytes +ℤ actual) (
        none_of (too_large actual) q (charged_rows tenant_id r b.quotas) room
          (In→filter (λ x. x.tenant_id == tenant_id && charges r x.id) q b.quotas m c)))
      (λ q m c e. e) h
  where
    none_of :
        (p : Quota → Bool) (q : Quota) (qs : List Quota) → any p qs ≡ false → In q qs → p q ≡ false
    none_of p q qs none_large m = elim (Bool-cases (p q)) [
      | inl e ↦ absurd (cc (In→any p q qs m e))
      | inr e ↦ e
    ]

-- Where no quota uses more than its limit, settling a reservation, admitted or refused, leaves no
-- quota using more than its limit.
pub settle-UsesWithin :
    (tenant_id : ℕ) (reservation_id : Option ℕ) (actual : ℤ) (now : ℕ) (b : Books)
    → All UsesWithin b.quotas
    → All UsesWithin (settle_quota tenant_id reservation_id actual now b).1.quotas
settle-UsesWithin tenant_id reservation_id actual now b =
    Settlement-UsesWithin tenant_id now actual b
      (settle_outcome tenant_id reservation_id now b actual)
