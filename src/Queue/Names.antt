-- ===== src/Queue/Names.antt =====
-- On `_occupy_operation_resources` of files/infrastructure/repositories.py: the names of destinations.
use s3mp_backend.Prelude.{
  ℕ, Bool, false, ◌≡◌, refl, sym, ◌∙◌, inl, inr, List, [], ◌∷◌, ok, any, is_some, In, In→any, arith,
  Bool-cases, subst,
}
use s3mp_backend.Prelude.Text.{Text}
use s3mp_backend.Queue.{FileRow, NameReservation, at_key, row_at, no_rows, reserves, reserve_all}
use s3mp_backend.Queue.Free.{find_last-none}

pub no_rows_lem :
    (tenant_id space_id : ℕ) (files : List FileRow) (keys : List Text) {u : Unit {0}}
    → no_rows tenant_id space_id files keys ≡ ok u
    → (key : Text) → In key keys
    → (f : FileRow) → In f files
    → at_key tenant_id space_id key f ≡ false
unfolding no_rows
no_rows_lem tenant_id space_id files [] h key i f m = absurd i
no_rows_lem tenant_id space_id files (k ∷ keys) h key i f m =
    elim (Bool-cases (is_some (row_at tenant_id space_id k files))) [
      | inl e ↦ absurd (cc (rw (e, no_rows) at h))
      | inr e ↦ elim i [
        | inl same ↦
            subst (λ (x : Text). at_key tenant_id space_id x f ≡ false) same
              (find_last-none (at_key tenant_id space_id k) files e f m)
        | inr j ↦ no_rows_lem tenant_id space_id files keys (rw (e, no_rows) at h) key j f m
      ]
    ]

-- The names that are reserved: new ones, beside those that were there.
pub record AreReserved (tenant_id space_id operation_id : ℕ) (keys : List Text)
    (rs rs' : List NameReservation) : Type 0 where
  pub kept : (r : NameReservation) → In r rs → In r rs'
  pub new :
      (key : Text)
      → In key keys
      → (r : NameReservation) → In r rs
      → reserves tenant_id space_id key r ≡ false
  pub there :
      (key : Text)
      → In key keys
      → In
          (record {
            tenant_id = tenant_id;
            storage_space_id = space_id;
            object_key = key;
            operation_id = operation_id;
          })
          rs'

pub reserve_all-AreReserved :
    (tenant_id space_id operation_id : ℕ) (keys : List Text) (rs rs' : List NameReservation)
    → reserve_all tenant_id space_id operation_id keys rs ≡ ok rs'
    → AreReserved tenant_id space_id operation_id keys rs rs'
unfolding reserve_all
reserve_all-AreReserved tenant_id space_id operation_id [] rs rs' h =
    let same : rs ≡ rs' = ground arith in
    record {
      kept = λ r i. subst (λ (x : List NameReservation). In r x) same i;
      new = λ key i. absurd i;
      there = λ key i. absurd i;
    }
reserve_all-AreReserved tenant_id space_id operation_id (key ∷ keys) rs rs' h =
    elim (Bool-cases (any (reserves tenant_id space_id key) rs)) [
      | inl e ↦ absurd (cc (rw (e, reserve_all) at h))
      | inr e ↦
          let own : NameReservation = record {
            tenant_id = tenant_id;
            storage_space_id = space_id;
            object_key = key;
            operation_id = operation_id;
          } in
          let rest =
            reserve_all-AreReserved tenant_id space_id operation_id keys (own ∷ rs) rs'
              (rw (e, reserve_all) at h) in
          record {
            kept = λ r i. rest.kept r (inr i);
            new = λ k m r i. elim m [
              | inl same ↦
                  subst (λ (x : Text). reserves tenant_id space_id x r ≡ false) same
                    (any-none (reserves tenant_id space_id key) rs e r i)
              | inr j ↦ rest.new k j r (inr i)
            ];
            there = λ k m. elim m [
              | inl same ↦
                  subst
                    (λ (x : Text).
                      In
                        (record {
                          tenant_id = tenant_id;
                          storage_space_id = space_id;
                          object_key = x;
                          operation_id = operation_id;
                        })
                        rs')
                    same (rest.kept own (inl refl))
              | inr j ↦ rest.there k j
            ];
          }
    ]
  where
    any-none :
        (p : NameReservation → Bool) (xs : List NameReservation)
        → any p xs ≡ false
        → (r : NameReservation) → In r xs
        → p r ≡ false
    any-none p xs h r i = elim (Bool-cases (p r)) [
      | inr e ↦ e
      | inl e ↦ absurd (cc (sym h ∙ In→any p r xs i e))
    ]
