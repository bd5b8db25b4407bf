-- ===== src/Ingestion/Orphans.antt =====
-- On `reap_orphan_reservations` of files/infrastructure/ingestion_repository.py: the rows and the books
-- after it.
use s3mp_backend.Prelude.{
  ℕ, ◌≡◌, refl, ◌∙◌, Option, none, some, List, [], ◌∷◌, arith, find, find-In, inl, inr, subst, sym,
  Bool-cases, Option-cases,
}
use s3mp_backend.Prelude.Int.{ℤ}
use s3mp_backend.Ledger.{Reservation, Books, released, quarantined, is_reservation, held}
use s3mp_backend.Ledger.Closing.{IsHeld, held-IsHeld}
use s3mp_backend.Ledger.Sound.{IsSound, settle-IsSound, reap_books-IsSound}
use s3mp_backend.Ingestion.{IngestionRow, Tables}
use s3mp_backend.Ingestion.Reaping.{
  is_for, is_kept, is_over, reap_kept, reap_one, reap_each, reap_orphan_reservations,
}

-- A reservation that is held is held under its own tenant.
own_tenant :
    (tenant_id : ℕ) (b : Books) (r : Reservation) → IsHeld tenant_id b r → IsHeld r.tenant_id b r
own_tenant tenant_id b r h =
    let own = (find-In (is_reservation tenant_id r.id) r b.reservations h.found).1 in
    let same : r.tenant_id ≡ tenant_id = ground (arith, own) in
    subst (λ (t : ℕ). IsHeld t b r) {x = tenant_id} {y = r.tenant_id} (sym same) h

module _ {Json : Type 0} where
  -- The rows stay, and sound books stay sound.
  record Reaped (t u : Tables Json) : Type 0 where
    same_rows : u.records ≡ t.records
    sound : IsSound t.books → IsSound u.books

  unchanged : (t : Tables Json) → Reaped t t
  unchanged t = record { same_rows = refl; sound = λ h. h }

  reap_kept-Reaped :
      (now : ℕ) (r : Reservation) (x : IngestionRow Json) (t : Tables Json)
      → Reaped t (reap_kept now r x t).1
  reap_kept-Reaped now r x t = by_size x.actual_size
    where
      by_size : (o : Option ℤ) → Reaped t (reap_kept now r (record x { actual_size = o }) t).1
      by_size none = unchanged t
      by_size (some n) = record {
        same_rows = refl;
        sound = settle-IsSound r.tenant_id x.quota_reservation_id now t.books n;
      }

  reap_one-Reaped :
      (now : ℕ) (r : Reservation) (t : Tables Json)
      → IsHeld r.tenant_id t.books r
      → Reaped t (reap_one now r t).1
  unfolding reap_one
  reap_one-Reaped now r t open_row = elim (Option-cases (find (is_for r) t.records)) [
    | inl e ↦
        rw (e, reap_one)
          (record {
            same_rows = refl;
            sound = reap_books-IsSound now quarantined r t.books refl open_row;
          })
    | inr (x, e) ↦ elim (Bool-cases (is_kept x.status)) [
      | inl f ↦ rw (e, f, reap_one) (reap_kept-Reaped now r x t)
      | inr f ↦ elim (Bool-cases (is_over x.status)) [
        | inr g ↦ rw (e, f, g, reap_one) (unchanged t)
        | inl g ↦
            rw (e, f, g, reap_one)
              (record {
                same_rows = refl;
                sound = reap_books-IsSound now released r t.books refl open_row;
              })
      ]
    ]
  ]

  reap_each-Reaped :
      (now : ℕ) (keys : List (ℕ × ℕ)) (t : Tables Json) → Reaped t (reap_each now keys t).1
  unfolding reap_each
  reap_each-Reaped now [] t = unchanged t
  reap_each-Reaped now ((tenant_id, id) ∷ keys) t =
      elim (Option-cases (held tenant_id (some id) t.books)) [
        | inl e ↦ rw (e, reap_each) (reap_each-Reaped now keys t)
        | inr (r, e) ↦
            let first =
              reap_one-Reaped now r t
                (own_tenant tenant_id t.books r (held-IsHeld tenant_id (some id) t.books r e)) in
            let rest = reap_each-Reaped now keys (reap_one now r t).1 in
            rw (e, reap_each)
              (record {
                same_rows = rest.same_rows ∙ first.same_rows;
                sound = λ h. rest.sound (first.sound h);
              })
      ]

  module _ (now : ℕ) (tenant_id : Option ℕ) (limit : ℤ) (ranked : List (ℕ × ℕ))
      (t : Tables Json) where
    -- A reaping changes no row.
    pub reap_rows : (reap_orphan_reservations now tenant_id limit ranked t).1.records ≡ t.records
    unfolding reap_orphan_reservations
    reap_rows = (reap_each-Reaped now _ t).same_rows

    -- A reaping keeps sound books sound.
    pub reap-IsSound :
        IsSound t.books → IsSound (reap_orphan_reservations now tenant_id limit ranked t).1.books
    unfolding reap_orphan_reservations
    reap-IsSound = (reap_each-Reaped now _ t).sound
