-- ===== src/Ledger.antt =====
-- The quota ledger: governance/domain/allocation.py, and `_reserve_quota`,
-- `_settle_quota_reservation` and `_release_quota_reservation` of
-- files/infrastructure/ingestion_repository.py, under src/s3mp/. The rows of the tables are lists;
-- a `select … with_for_update` is a search in them, and a change of a selected row is made in place.
pub mod Grant
pub mod Closing
pub mod Balance
pub mod Sound
pub mod Limits
pub mod Once
pub mod Examples
use s3mp_backend.Prelude.{
  ℕ, Bool, true, false, not, ◌&&◌, ◌||◌, Option, none, some, List, [], ◌∷◌, Result, ok, err,
  if◌then◌else◌, ◌==◌, any, filter, find, map_where, update_first, length, is_none, is_some,
}
use s3mp_backend.Prelude.Int.{ℤ, pos, ◌+ℤ◌, ◌-ℤ◌, ltb_ℤ, max_ℤ}

pub data QuotaStatus : Type 0 where
  active suspended revoked legacy : QuotaStatus

pub data ReservationStatus : Type 0 where
  reserved settled released quarantined : ReservationStatus

pub data AllocationMode : Type 0 where
  storage_space_legacy application_reserved shared_pool : AllocationMode

-- `QuotaModel`
pub record Quota : Type 0 where
  pub id : ℕ
  pub tenant_id : ℕ
  pub application_id : Option ℕ
  pub storage_space_id : Option ℕ
  pub status : QuotaStatus
  pub limit_bytes : ℤ
  pub used_bytes : ℤ
  pub reserved_bytes : ℤ

-- `QuotaReservationModel`
pub record Reservation : Type 0 where
  pub id : ℕ
  pub tenant_id : ℕ
  pub quota_id : ℕ
  pub application_quota_id : Option ℕ
  pub tenant_quota_id : Option ℕ
  pub allocation_mode : AllocationMode
  pub requested_bytes : ℤ
  pub actual_bytes : Option ℤ
  pub status : ReservationStatus
  pub settled_at : Option ℕ

-- `StorageSpaceModel`, as far as the ledger reads it.
pub record Space : Type 0 where
  pub id : ℕ
  pub tenant_id : ℕ
  pub application_id : Option ℕ

pub record Books : Type 0 where
  pub spaces : List Space
  pub quotas : List Quota
  pub reservations : List Reservation

-- The `ApiError` codes of the ledger and of the ingestion store.
pub data ApiError : Type 0 where
  resource_not_found quota_exceeded quota_not_configured invalid_transition idempotency_key_reused :
      ApiError

abbrev pub is_active : QuotaStatus → Bool
is_active s = elim s [ active ↦ true | _ ↦ false ]

abbrev pub is_reserved : ReservationStatus → Bool
is_reserved s = elim s [ reserved ↦ true | _ ↦ false ]

-- `x == y` for an optional column and a value.
abbrev pub opt_eq : Option ℕ → ℕ → Bool
opt_eq none n = false
opt_eq (some m) n = m == n

-- `AllocationSnapshot` and its properties.
pub record AllocationSnapshot : Type 0 where
  pub tenant_limit : ℤ
  pub tenant_used : ℤ
  pub tenant_reserved : ℤ
  pub allocated_application_limit : ℤ
  pub allocated_application_used : ℤ
  pub allocated_application_reserved : ℤ

abbrev pub zero_floor : ℤ → ℤ
zero_floor a = max_ℤ a (pos 0)

pub shared_pool_limit : AllocationSnapshot → ℤ
shared_pool_limit s = zero_floor (s.tenant_limit -ℤ s.allocated_application_limit)

pub shared_pool_used : AllocationSnapshot → ℤ
shared_pool_used s = zero_floor (s.tenant_used -ℤ s.allocated_application_used)

pub shared_pool_reserved : AllocationSnapshot → ℤ
shared_pool_reserved s = zero_floor (s.tenant_reserved -ℤ s.allocated_application_reserved)

pub tenant_available : AllocationSnapshot → ℤ
tenant_available s = zero_floor (s.tenant_limit -ℤ s.tenant_used -ℤ s.tenant_reserved)

pub shared_pool_available : AllocationSnapshot → ℤ
unfolding shared_pool_limit shared_pool_used shared_pool_reserved
shared_pool_available s =
    zero_floor (shared_pool_limit s -ℤ shared_pool_used s -ℤ shared_pool_reserved s)

-- `sum(max(int(getattr(row, field, 0)), 0) for row in applications)`
pub sum_floor : (Quota → ℤ) → List Quota → ℤ
sum_floor field [] = pos 0
sum_floor field (q ∷ qs) = zero_floor (field q) +ℤ sum_floor field qs

pub build_snapshot : Quota → List Quota → AllocationSnapshot
build_snapshot tenant applications = record {
  tenant_limit = zero_floor tenant.limit_bytes;
  tenant_used = zero_floor tenant.used_bytes;
  tenant_reserved = zero_floor tenant.reserved_bytes;
  allocated_application_limit = sum_floor (λ q. q.limit_bytes) applications;
  allocated_application_used = sum_floor (λ q. q.used_bytes) applications;
  allocated_application_reserved = sum_floor (λ q. q.reserved_bytes) applications;
}

-- The `where` clauses of the queries.
abbrev pub is_space : ℕ → ℕ → Space → Bool
is_space tenant_id space_id s = s.tenant_id == tenant_id && s.id == space_id

abbrev pub is_tenant_quota : ℕ → Quota → Bool
is_tenant_quota tenant_id q =
    q.tenant_id == tenant_id
    && (is_none q.application_id && (is_none q.storage_space_id && is_active q.status))

abbrev pub is_legacy_quota : ℕ → ℕ → Quota → Bool
is_legacy_quota tenant_id space_id q =
    q.tenant_id == tenant_id
    && (opt_eq q.storage_space_id space_id
        && (is_none q.application_id
            && elim q.status [ active ↦ true | legacy ↦ true | _ ↦ false ]))

abbrev pub is_scoped_quota : ℕ → ℕ → Quota → Bool
is_scoped_quota tenant_id application_id q =
    q.tenant_id == tenant_id && (opt_eq q.application_id application_id && is_active q.status)

abbrev pub is_application_quota : ℕ → Quota → Bool
is_application_quota tenant_id q =
    q.tenant_id == tenant_id && (is_some q.application_id && is_active q.status)

abbrev pub has_id : ℕ → ℕ → Quota → Bool
has_id tenant_id quota_id q = q.tenant_id == tenant_id && q.id == quota_id

-- `quota.reserved_bytes += n`, `quota.used_bytes + quota.reserved_bytes + n > quota.limit_bytes`
abbrev pub add_reserved : ℤ → Quota → Quota
add_reserved n q = record q { reserved_bytes = q.reserved_bytes +ℤ n }

abbrev pub overflows : ℤ → Quota → Bool
overflows n q = ltb_ℤ q.limit_bytes (q.used_bytes +ℤ q.reserved_bytes +ℤ n)

abbrev pub new_reservation : ℕ → ℕ → ℕ → Option ℕ → Option ℕ → AllocationMode → ℤ → Reservation
new_reservation id tenant_id quota_id application_quota tenant_quota mode requested = record {
  id = id;
  tenant_id = tenant_id;
  quota_id = quota_id;
  application_quota_id = application_quota;
  tenant_quota_id = tenant_quota;
  allocation_mode = mode;
  requested_bytes = requested;
  actual_bytes = none;
  status = reserved;
  settled_at = none;
}

-- The reservation `r` added, and the rows of `ids` charged for it.
abbrev pub charge_rows : ℕ → (ℕ → Bool) → Reservation → Books → Books
charge_rows tenant_id ids r b = record b {
  quotas =
      map_where (λ q. q.tenant_id == tenant_id && ids q.id) (add_reserved r.requested_bytes)
        b.quotas;
  reservations = r ∷ b.reservations;
}

-- The branch without a tenant quota.
unfoldable pub reserve_legacy : ℕ → ℕ → ℕ → ℤ → Books → Result ApiError (ℕ × Books)
reserve_legacy new_id tenant_id space_id requested b =
    elim (find (is_legacy_quota tenant_id space_id) b.quotas) [
      | none ↦ err quota_not_configured
      | some q ↦
          if overflows requested q
          then err quota_exceeded
          else ok (
            new_id,
            charge_rows tenant_id (λ i. i == q.id)
                (new_reservation new_id tenant_id q.id none none storage_space_legacy requested) b,
          )
    ]

-- The branch with an active application quota `s` beside the tenant quota `t`.
unfoldable pub reserve_scoped : ℕ → ℕ → ℤ → Quota → Quota → Books → Result ApiError (ℕ × Books)
reserve_scoped new_id tenant_id requested t s b =
    if overflows requested s || overflows requested t
    then err quota_exceeded
    else ok (
      new_id,
      charge_rows tenant_id (λ i. i == t.id || i == s.id)
          (new_reservation new_id tenant_id s.id (some s.id) (some t.id) application_reserved
            requested)
          b,
    )

-- The branch that draws on the shared pool of the tenant quota `t`.
unfoldable pub reserve_shared : ℕ → ℕ → ℤ → Quota → Books → Result ApiError (ℕ × Books)
unfolding build_snapshot shared_pool_available sum_floor
reserve_shared new_id tenant_id requested t b =
    if ltb_ℤ
      (shared_pool_available (build_snapshot t (filter (is_application_quota tenant_id) b.quotas)))
      requested
    then err quota_exceeded
    else ok (
      new_id,
      charge_rows tenant_id (λ i. i == t.id)
          (new_reservation new_id tenant_id t.id none (some t.id) shared_pool requested) b,
    )

abbrev pub scoped_quota : ℕ → Option ℕ → Books → Option Quota
scoped_quota tenant_id none b = none
scoped_quota tenant_id (some a) b = find (is_scoped_quota tenant_id a) b.quotas

-- `_reserve_quota`; `new_id` is the id that the database gives the reservation.
unfoldable pub reserve_quota : ℕ → ℕ → ℕ → ℤ → Books → Result ApiError (ℕ × Books)
unfolding reserve_legacy reserve_scoped reserve_shared
reserve_quota new_id tenant_id space_id requested b =
    elim (find (is_space tenant_id space_id) b.spaces) [
      | none ↦ err resource_not_found
      | some space ↦
          if ltb_ℤ requested (pos 0)
          then err quota_exceeded
          else elim (find (is_tenant_quota tenant_id) b.quotas) [
            | none ↦ reserve_legacy new_id tenant_id space_id requested b
            | some t ↦ elim (scoped_quota tenant_id space.application_id b) [
              | none ↦ reserve_shared new_id tenant_id requested t b
              | some s ↦ reserve_scoped new_id tenant_id requested t s b
            ]
          ]
    ]

-- The row that a reservation id selects.
abbrev pub is_reservation : ℕ → ℕ → Reservation → Bool
is_reservation tenant_id id r = r.tenant_id == tenant_id && r.id == id

-- `quota_id in quota_ids`
abbrev pub charges : Reservation → ℕ → Bool
charges r i = i == r.quota_id || (opt_eq r.application_quota_id i || opt_eq r.tenant_quota_id i)

-- The ids of the set display, with `None` left out.
abbrev ids_of : Option ℕ → List ℕ → List ℕ
ids_of none is = is
ids_of (some i) is = i ∷ is

abbrev distinct : List ℕ → List ℕ
distinct [] = []
distinct (i ∷ is) = if any (λ j. i == j) is then distinct is else i ∷ distinct is

-- `len(quota_ids)`, the number of different ids among the three.
abbrev pub quota_count : Reservation → ℕ
quota_count r =
    length (distinct (r.quota_id ∷ (ids_of r.application_quota_id (ids_of r.tenant_quota_id []))))

abbrev pub charged_rows : ℕ → Reservation → List Quota → List Quota
charged_rows tenant_id r qs = filter (λ q. q.tenant_id == tenant_id && charges r q.id) qs

-- The reservation of a record, if it is still held.
unfoldable pub held : ℕ → Option ℕ → Books → Option Reservation
held tenant_id none b = none
held tenant_id (some id) b = elim (find (is_reservation tenant_id id) b.reservations) [
  | none ↦ none
  | some r ↦ if is_reserved r.status then some r else none
]

abbrev pub settle_row : ℤ → ℤ → Quota → Quota
settle_row requested actual q = record q {
  used_bytes = q.used_bytes +ℤ actual;
  reserved_bytes = q.reserved_bytes -ℤ requested;
}

abbrev pub release_row : ℤ → Quota → Quota
release_row requested q = record q { reserved_bytes = q.reserved_bytes -ℤ requested }

-- The charged rows changed by `f`, and the reservation's row by `g`.
abbrev pub close_books :
    ℕ → Reservation → (Quota → Quota) → (Reservation → Reservation) → Books → Books
close_books tenant_id r f g b = record b {
  quotas = map_where (λ q. q.tenant_id == tenant_id && charges r q.id) f b.quotas;
  reservations = update_first (is_reservation tenant_id r.id) g b.reservations;
}

-- `_settle_quota_reservation` at a row with `reservation_id` and the verified size `actual`.
unfoldable pub settle_quota : ℕ → Option ℕ → ℤ → ℕ → Books → Bool × Books
unfolding held
settle_quota tenant_id reservation_id actual now b = elim (held tenant_id reservation_id b) [
  | none ↦ (true, b)
  | some r ↦
      let rows = charged_rows tenant_id r b.quotas in
      if not (length rows == quota_count r)
      then (false, b)
      else if any (λ q. ltb_ℤ q.limit_bytes (q.used_bytes +ℤ actual)) rows
      then (false, b)
      else (
        true,
        close_books tenant_id r (settle_row r.requested_bytes actual)
            (λ x. record x { actual_bytes = some actual; status = settled; settled_at = some now })
            b,
      )
]

-- `_release_quota_reservation`
unfoldable pub release_quota : ℕ → Option ℕ → ℕ → Books → Books
unfolding held
release_quota tenant_id reservation_id now b = elim (held tenant_id reservation_id b) [
  | none ↦ b
  | some r ↦
      close_books tenant_id r (release_row r.requested_bytes)
        (λ x. record x { status = released; settled_at = some now }) b
]

-- The rows of a stale reservation in `reap_orphan_reservations`, whose reserve does not go below zero.
abbrev pub reap_row : ℤ → Quota → Quota
reap_row requested q = record q { reserved_bytes = zero_floor (q.reserved_bytes -ℤ requested) }

abbrev pub reap_books : ℕ → ReservationStatus → Reservation → Books → Books
reap_books now status r b =
    close_books r.tenant_id r (reap_row r.requested_bytes)
      (λ x. record x { status = status; settled_at = some now }) b
