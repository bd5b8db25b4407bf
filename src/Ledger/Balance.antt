-- ===== src/Ledger/Balance.antt =====
-- On the quota ledger: the bytes that a quota holds in reserve, and its open reservations.
use s3mp_backend.Prelude.{
  ok, ℕ, Bool, true, false, ◌≡◌, refl, sym, ap, ◌∙◌, ◌&&◌, ◌||◌, Option, none, some, List, [], ◌∷◌,
  arith, if◌then◌else◌, ◌==◌, All, All-map_where, find, find-In, update_first, Bool-cases, inl, inr,
}
use s3mp_backend.Prelude.Int.{ℤ, pos, ◌+ℤ◌, ◌-ℤ◌, int_laws, parts_of_eq, +ℤ_comm, zero-+ℤ}
use s3mp_backend.Ledger.Closing.{
  Settlement, nothing_held, refused, admitted, settled_as, released_at, settle_outcome,
  release_outcome,
}
use s3mp_backend.Ledger.Grant.{reserve_grant, Grant, from_legacy, from_scoped, from_pool}
use s3mp_backend.Ledger.{
  new_reservation, storage_space_legacy, application_reserved, shared_pool, Quota, Reservation,
  Books, add_reserved, charge_rows, close_books, is_reserved, charges, is_reservation,
  reserve_quota, settle_quota, release_quota,
}

-- The reservation is open and charges the quota.
abbrev pub weighs : Quota → Reservation → Bool
weighs q r = is_reserved r.status && (q.tenant_id == r.tenant_id && charges r q.id)

abbrev pub weight : Quota → Reservation → ℤ
weight q r = if weighs q r then r.requested_bytes else pos 0

abbrev pub sum_of : (Reservation → ℤ) → List Reservation → ℤ
sum_of w [] = pos 0
sum_of w (r ∷ rs) = w r +ℤ sum_of w rs

-- What the open reservations ask of a quota.
abbrev pub outstanding : Quota → List Reservation → ℤ
outstanding q rs = sum_of (weight q) rs

abbrev pub IsBalanced : Books → Type 0
IsBalanced b = All (λ q. q.reserved_bytes ≡ outstanding q b.reservations) b.quotas

some_injective : {A : Type 0} {x y : A} → some x ≡ some y → x ≡ y
some_injective h = cc

-- Changing the row that a search finds changes a sum by the difference of the two weights.
sum_of-update_first :
    (w : Reservation → ℤ) (p : Reservation → Bool) (g : Reservation → Reservation) (r : Reservation)
    (rs : List Reservation)
    → find p rs ≡ some r
    → sum_of w (update_first p g rs) +ℤ w r ≡ sum_of w rs +ℤ w (g r)
sum_of-update_first w p g r [] h = absurd (cc)
sum_of-update_first w p g r (x ∷ rs) h = elim (Bool-cases (p x)) [
  | inl e ↦ let same : x ≡ r = some_injective (rw e at h) in rw (e, same) (omega int_laws)
  | inr e ↦
      let ih = sum_of-update_first w p g r rs (rw e at h) in
      rw e (omega (int_laws, parts_of_eq _ _ ih))
]

-- A new reservation that charges exactly the rows that are raised keeps the balance.
charge-row :
    (q : Quota) (r : Reservation) (rs : List Reservation) (c : Bool)
    → weighs q r ≡ c
    → q.reserved_bytes ≡ outstanding q rs
    → (if c then q.reserved_bytes +ℤ r.requested_bytes else q.reserved_bytes)
      ≡ outstanding q (r ∷ rs)
charge-row q r rs true e h =
    rw e (ap (λ (a : ℤ). a +ℤ r.requested_bytes) h ∙ +ℤ_comm (outstanding q rs) r.requested_bytes)
charge-row q r rs false e h = rw e (h ∙ sym (zero-+ℤ (outstanding q rs)))

-- The reservations with `r` in front balance the quotas that `ids` selects and `r` charges.
charge_rows-IsBalanced :
    (tenant_id : ℕ) (ids : ℕ → Bool) (r : Reservation) (b : Books)
    → ((q : Quota) → weighs q r ≡ (q.tenant_id == tenant_id && ids q.id))
    → IsBalanced b
    → IsBalanced (charge_rows tenant_id ids r b)
charge_rows-IsBalanced tenant_id ids r b same h =
    All-map_where (λ q. q.reserved_bytes ≡ outstanding q b.reservations)
      (λ q. q.reserved_bytes ≡ outstanding q (r ∷ b.reservations))
      (λ q. q.tenant_id == tenant_id && ids q.id) (add_reserved r.requested_bytes) b.quotas
      (λ q m c e. charge-row q r b.reservations true (same q ∙ c) e)
      (λ q m c e. charge-row q r b.reservations false (same q ∙ c) e) h

-- A row with its reserve lowered by what the reservation asked for; `used` is what it uses now.
abbrev pub lower : (Quota → ℤ) → ℤ → Quota → Quota
lower used requested q = record q {
  used_bytes = used q;
  reserved_bytes = q.reserved_bytes -ℤ requested;
}

closed-weight :
    (q : Quota) (g : Reservation → Reservation) (r : Reservation)
    → is_reserved (g r).status ≡ false
    → weight q (g r) ≡ pos 0
closed-weight q g r shut = rw shut

pub lower-row :
    (q : Quota) (g : Reservation → Reservation) (r : Reservation) (before after : ℤ) (c : Bool)
    → weighs q r ≡ c
    → after +ℤ weight q r ≡ before +ℤ pos 0
    → q.reserved_bytes ≡ before
    → (if c then q.reserved_bytes -ℤ r.requested_bytes else q.reserved_bytes) ≡ after
lower-row q g r before after true e total h =
    rw h (omega (int_laws, parts_of_eq _ _ (rw e at total)))
lower-row q g r before after false e total h =
    rw h (omega (int_laws, parts_of_eq _ _ (rw e at total)))

module _ (tenant_id : ℕ) (r : Reservation) (g : Reservation → Reservation) (b : Books)
    (shut : is_reserved (g r).status ≡ false) (held_open : is_reserved r.status ≡ true)
    (found : find (is_reservation tenant_id r.id) b.reservations ≡ some r) where
  -- The rows that are changed are those on which the open reservation weighs.
  pub charged-weighs :
      (q : Quota) (c : Bool) → (q.tenant_id == tenant_id && charges r q.id) ≡ c → weighs q r ≡ c
  charged-weighs q c e =
      let own = (find-In (is_reservation tenant_id r.id) r b.reservations found).1 in
      let t : r.tenant_id ≡ tenant_id = ground (arith, own) in rw (held_open, t) e

  -- Closing a reservation takes its weight from what is outstanding.
  pub closed_total :
      (q : Quota)
      → outstanding q (update_first (is_reservation tenant_id r.id) g b.reservations) +ℤ weight q r
        ≡ outstanding q b.reservations +ℤ pos 0
  closed_total q =
      sum_of-update_first (weight q) (is_reservation tenant_id r.id) g r b.reservations found
      ∙ ap (λ (a : ℤ). outstanding q b.reservations +ℤ a) (closed-weight q g r shut)

  -- Closing an open reservation and lowering the rows that it charges keeps the balance.
  close_books-IsBalanced :
      (used : Quota → ℤ)
      → IsBalanced b
      → IsBalanced (close_books tenant_id r (lower used r.requested_bytes) g b)
  close_books-IsBalanced used h =
      All-map_where (λ q. q.reserved_bytes ≡ outstanding q b.reservations)
        (λ q.
          q.reserved_bytes
          ≡ outstanding q (update_first (is_reservation tenant_id r.id) g b.reservations))
        (λ q. q.tenant_id == tenant_id && charges r q.id) (lower used r.requested_bytes) b.quotas
        (λ q m c e. lower-row q g r _ _ true (charged-weighs q true c) (closed_total q) e)
        (λ q m c e. lower-row q g r _ _ false (charged-weighs q false c) (closed_total q) e) h

module _ {new_id tenant_id space_id : ℕ} {requested : ℤ} {b : Books} where
  Grant-IsBalanced :
      {b' : Books} → Grant new_id tenant_id space_id requested b b' → IsBalanced b → IsBalanced b'
  Grant-IsBalanced (from_legacy q found room) h =
      charge_rows-IsBalanced tenant_id (λ i. i == q.id)
        (new_reservation new_id tenant_id q.id none none storage_space_legacy requested) b
        (λ x. ground arith) h
  Grant-IsBalanced (from_scoped t s found_t found_s room_s room_t) h =
      charge_rows-IsBalanced tenant_id (λ i. i == t.id || i == s.id)
        (new_reservation new_id tenant_id s.id (some s.id) (some t.id) application_reserved
          requested)
        b (λ x. ground arith) h
  Grant-IsBalanced (from_pool t found room) h =
      charge_rows-IsBalanced tenant_id (λ i. i == t.id)
        (new_reservation new_id tenant_id t.id none (some t.id) shared_pool requested) b
        (λ x. ground arith) h

-- A granted reservation keeps balanced books balanced: every quota still holds in reserve the sum of
-- what the open reservations that charge it ask for.
pub reserve-IsBalanced :
    (new_id tenant_id space_id i : ℕ) (requested : ℤ) (b b' : Books)
    → reserve_quota new_id tenant_id space_id requested b ≡ ok (i, b')
    → IsBalanced b
    → IsBalanced b'
reserve-IsBalanced new_id tenant_id space_id i requested b b' h =
    Grant-IsBalanced (reserve_grant new_id tenant_id space_id requested b i b' h).0

Settlement-IsBalanced :
    (tenant_id : ℕ) (actual : ℤ) (now : ℕ) (b : Books) {out : Bool × Books}
    → Settlement tenant_id actual now b out
    → IsBalanced b
    → IsBalanced out.1
Settlement-IsBalanced tenant_id actual now b nothing_held h = h
Settlement-IsBalanced tenant_id actual now b refused h = h
Settlement-IsBalanced tenant_id actual now b (admitted r open_row count room) h =
    close_books-IsBalanced tenant_id r (settled_as actual now) b refl open_row.is_open
      open_row.found (λ q. q.used_bytes +ℤ actual) h

module _ (tenant_id : ℕ) (reservation_id : Option ℕ) (now : ℕ) (b : Books) where
  -- Settling a reservation at any size, admitted or refused, keeps balanced books balanced.
  pub settle-IsBalanced :
      (actual : ℤ)
      → IsBalanced b
      → IsBalanced (settle_quota tenant_id reservation_id actual now b).1
  settle-IsBalanced actual h =
      Settlement-IsBalanced tenant_id actual now b
        (settle_outcome tenant_id reservation_id now b actual) h

  -- Releasing a reservation, open or not, keeps balanced books balanced.
  pub release-IsBalanced : IsBalanced b → IsBalanced (release_quota tenant_id reservation_id now b)
  release-IsBalanced h = elim (release_outcome tenant_id reservation_id now b) [
    | inl e ↦ rw e h
    | inr (r, open_row, e) ↦ rw e (
        close_books-IsBalanced tenant_id r (released_at now) b refl open_row.is_open open_row.found
          (λ q. q.used_bytes) h)
  ]
