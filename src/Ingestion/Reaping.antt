-- ===== src/Ingestion/Reaping.antt =====
-- `reap_orphan_reservations` and `append_event` of files/infrastructure/ingestion_repository.py, under
-- src/s3mp/. The query of the stale reservations skips rows that are locked and orders the others by
-- their time of creation: `ranked` is the list of their tenants and ids in that order.
use s3mp_backend.Prelude.{
  ℕ, Bool, true, false, ◌&&◌, Option, none, some, List, [], ◌∷◌, if◌then◌else◌, ◌==◌, filter, find,
  take, is_some,
}
use s3mp_backend.Prelude.Int.{ℤ, pos, negsuc, ltb_ℤ}
use s3mp_backend.Prelude.Text.{Text, codes}
use s3mp_backend.Ledger.{
  Reservation, ReservationStatus, Books, released, quarantined, opt_eq, held, settle_quota,
  reap_books,
}
use s3mp_backend.Ingestion.{
  IngestionStatus, IngestionRow, Tables, EventType, committed, available, failed, expired,
  reconciliation_required, set_books,
}

-- `max(1, min(limit, 500))`
abbrev row_limit : ℤ → ℕ
row_limit (negsuc n) = 1
row_limit (pos n) = if ltb_ℤ (pos n) (pos 1) then 1 else if ltb_ℤ (pos 500) (pos n) then 500 else n

-- `tenant_id is not None` narrows the query.
abbrev of_tenant : Option ℕ → ℕ → Bool
of_tenant none t = true
of_tenant (some tenant_id) t = t == tenant_id

-- The query's `where` clauses, for a row that its tenant and its id name.
abbrev is_stale : Option ℕ → Books → ℕ × ℕ → Bool
is_stale tenant_id b (t, id) = of_tenant tenant_id t && is_some (held t (some id) b)

abbrev pub is_kept : IngestionStatus → Bool
is_kept s = elim s [ committed ↦ true | available ↦ true | _ ↦ false ]

abbrev pub is_over : IngestionStatus → Bool
is_over s = elim s [ failed ↦ true | expired ↦ true | reconciliation_required ↦ true | _ ↦ false ]

module _ {Json : Type 0} where
  -- The ingestion of a reservation.
  abbrev pub is_for : Reservation → IngestionRow Json → Bool
  is_for r x = x.tenant_id == r.tenant_id && opt_eq x.quota_reservation_id r.id

  -- The reservation closed with a status, and the audit event.
  abbrev pub reap_as : ℕ → ReservationStatus → Reservation → Tables Json → Tables Json
  reap_as now status r t = record t {
    books = reap_books now status r t.books;
    audit =
        record {
          tenant_id = r.tenant_id;
          actor_principal_id = none;
          action = codes "quota.reservation_reaped";
          resource_type = codes "quota_reservation";
          resource_id = r.id;
        }
        ∷ t.audit;
  }

  -- The settlement of a reservation whose file is kept, if its size is known.
  abbrev pub reap_kept : ℕ → Reservation → IngestionRow Json → Tables Json → Bool × Tables Json
  reap_kept now r x t = elim x.actual_size [
    | none ↦ (false, t)
    | some n ↦
        let (done, b) = settle_quota r.tenant_id x.quota_reservation_id n now t.books in
        (done, set_books b t)
  ]

  -- One pass of the loop, and whether the reservation is listed as processed.
  unfoldable pub reap_one : ℕ → Reservation → Tables Json → Bool × Tables Json
  reap_one now r t = elim (find (is_for r) t.records) [
    | none ↦ (true, reap_as now quarantined r t)
    | some x ↦
        if is_kept x.status
        then reap_kept now r x t
        else if is_over x.status
        then (true, reap_as now released r t)
        else (false, t)
  ]

  -- The loop. The session holds one object for each row, so a pass sees the row as it is then.
  unfoldable pub reap_each : ℕ → List (ℕ × ℕ) → Tables Json → List ℕ × Tables Json
  unfolding reap_one held
  reap_each now [] t = ([], t)
  reap_each now ((tenant_id, id) ∷ keys) t = elim (held tenant_id (some id) t.books) [
    | none ↦ reap_each now keys t
    | some r ↦
        let (done, u) = reap_one now r t in
        let (ids, v) = reap_each now keys u in (if done then id ∷ ids else ids, v)
  ]

  unfoldable pub reap_orphan_reservations :
      ℕ → Option ℕ → ℤ → List (ℕ × ℕ) → Tables Json → List ℕ × Tables Json
  unfolding reap_each held
  reap_orphan_reservations now tenant_id limit ranked t =
      reap_each now (take (row_limit limit) (filter (is_stale tenant_id t.books) ranked)) t

  abbrev pub append_event : ℕ → ℕ → EventType → Option Text → Tables Json → Tables Json
  append_event tenant_id ingestion_id event_type reason t = record t {
    events =
        record {
          ingestion_record_id = ingestion_id;
          tenant_id = tenant_id;
          event_type = event_type;
          reason = reason;
        }
        ∷ t.events;
  }
