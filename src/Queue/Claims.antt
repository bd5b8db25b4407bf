-- ===== src/Queue/Claims.antt =====
-- On `_occupy_operation_resources` of files/infrastructure/repositories.py.
use s3mp_backend.Prelude.{
  ℕ, Bool, true, false, ◌≡◌, ◌≢◌, refl, sym, ap, ◌∙◌, ◌⊎◌, inl, inr, List, [], ◌∷◌, ok,
  if◌then◌else◌, ◌==◌, map_where, In, any→In, In→any, arith, Bool-cases, Result-cases, subst,
}
use s3mp_backend.Prelude.Text.{Text}
use s3mp_backend.Queue.{
  FileRow, QueueTables, at_key, free_rows, no_rows, hold, is_one_of, reserve_all, occupy,
}
use s3mp_backend.Queue.Free.{IsFree, AreFree, free_rows-AreFree}
use s3mp_backend.Queue.Names.{AreReserved, no_rows_lem, reserve_all-AreReserved}

-- The primary key of the file rows.
abbrev pub UniqueIds : List FileRow → Type 0
UniqueIds files = (f g : FileRow) → In f files → In g files → f.id ≡ g.id → f ≡ g

-- What a claim gives an operation.
pub record IsClaimed (tenant_id space_id operation_id : ℕ) (occupied destinations : List Text)
    (t t' : QueueTables) : Type 0 where
  pub rows :
      (f : FileRow)
      → In f t.files
      → In f t'.files
        ⊎ ((key : Text) × In key occupied
            × IsFree tenant_id space_id key f
            × In (hold operation_id f) t'.files)
  pub granted :
      (key : Text)
      → In key occupied
      → (f : FileRow) × In f t.files
        × IsFree tenant_id space_id key f
        × In (hold operation_id f) t'.files
  pub no_row :
      (key : Text)
      → In key destinations
      → (f : FileRow) → In f t.files
      → at_key tenant_id space_id key f ≡ false
  pub reserved :
      AreReserved tenant_id space_id operation_id destinations t.reservations t'.reservations

map_where-In :
    (p : FileRow → Bool) (g : FileRow → FileRow) (f : FileRow) (fs : List FileRow)
    → In f fs
    → In (if p f then g f else f) (map_where p g fs)
map_where-In p g f [] i = absurd i
map_where-In p g f (h ∷ fs) (inl e) = inl (ap (λ (x : FileRow). if p x then g x else x) e)
map_where-In p g f (h ∷ fs) (inr i) = inr (map_where-In p g f fs i)

pub map_where-kept :
    (p : FileRow → Bool) (g : FileRow → FileRow) (f : FileRow) (fs : List FileRow)
    → p f ≡ false
    → In f fs
    → In f (map_where p g fs)
map_where-kept p g f fs e i = rw e at (map_where-In p g f fs i)

-- Where row ids are unique, a claim that `_occupy_operation_resources` makes for an operation: the rows
-- that it takes were available and not held, one for each occupied key, and no other row has changed; no
-- row had a destination's name, and no other operation had reserved it; and every reservation that was
-- there is still there.
pub occupy-IsClaimed :
    (tenant_id space_id operation_id : ℕ) (occupied destinations : List Text) (t t' : QueueTables)
    → UniqueIds t.files
    → occupy tenant_id space_id operation_id occupied destinations t ≡ ok t'
    → IsClaimed tenant_id space_id operation_id occupied destinations t t'
unfolding occupy
occupy-IsClaimed tenant_id space_id operation_id occupied destinations t t' unique h =
    elim (Result-cases (free_rows tenant_id space_id t.files occupied)) [
      | inr (x, e) ↦ absurd (cc (rw (e, occupy) at h))
      | inl (rows, e) ↦ elim (Result-cases (no_rows tenant_id space_id t.files destinations)) [
        | inr (x, q) ↦ absurd (cc (rw (e, q, occupy) at h))
        | inl (u, q) ↦
            elim (Result-cases
              (reserve_all tenant_id space_id operation_id destinations t.reservations)) [
                | inr (x, k) ↦ absurd (cc (rw (e, q, k, occupy) at h))
                | inl (rs, k) ↦
                    let free = free_rows-AreFree tenant_id space_id t.files occupied rows e in
                    let after : QueueTables = record t {
                      files = map_where (is_one_of rows) (hold operation_id) t.files;
                      reservations = rs;
                    } in
                    let same : after ≡ t' = ground (arith, rw (e, q, k, occupy) at h) in
                    subst (IsClaimed tenant_id space_id operation_id occupied destinations t) same
                      (record {
                        rows = λ f i.
                            claimed_or_kept f i rows free (Bool-cases (is_one_of rows f))
                              (map_where-In (is_one_of rows) (hold operation_id) f t.files i);
                        granted = λ key m.
                            let (r, i, j, is_free) = free.every key m in
                            (
                              r,
                              j,
                              is_free,
                              claimed r rows i
                                  (map_where-In (is_one_of rows) (hold operation_id) r t.files j),
                            );
                        no_row = no_rows_lem tenant_id space_id t.files destinations q;
                        reserved =
                            reserve_all-AreReserved tenant_id space_id operation_id destinations
                              t.reservations rs k;
                      })
              ]
      ]
    ]
  where
    claimed :
        (r : FileRow) (rows : List FileRow)
        → In r rows
        → In
            (if is_one_of rows r then hold operation_id r else r)
            (map_where (is_one_of rows) (hold operation_id) t.files)
        → In (hold operation_id r) (map_where (is_one_of rows) (hold operation_id) t.files)
    claimed r rows i m =
        let e : is_one_of rows r ≡ true =
          In→any (λ (x : FileRow). r.id == x.id) r rows i (ground arith) in
        rw e at m

    claimed_or_kept :
        (f : FileRow)
        → In f t.files
        → (rows : List FileRow) → AreFree tenant_id space_id t.files occupied rows
        → (is_one_of rows f ≡ true) ⊎ (is_one_of rows f ≡ false)
        → In
            (if is_one_of rows f then hold operation_id f else f)
            (map_where (is_one_of rows) (hold operation_id) t.files)
        → In f (map_where (is_one_of rows) (hold operation_id) t.files)
          ⊎ ((key : Text) × In key occupied
              × IsFree tenant_id space_id key f
              × In (hold operation_id f) (map_where (is_one_of rows) (hold operation_id) t.files))
    claimed_or_kept f i rows free (inr e) m = inl (rw e at m)
    claimed_or_kept f i rows free (inl e) m =
        let (r, j, q) = any→In (λ (x : FileRow). f.id == x.id) rows e in
        let (key, l, u, v) = free.each r j in
        let same : f ≡ r = unique f r i u (ground arith) in
        inr
          (key, l, subst (λ (x : FileRow). IsFree tenant_id space_id key x) (sym same) v, rw e at m)

-- An operation that claims the file of one key and the name of another has two different keys, so that
-- what it moves is not moved onto itself.
pub occupy_apart :
    (tenant_id space_id operation_id : ℕ) (source destination : Text) (t t' : QueueTables)
    → UniqueIds t.files
    → occupy tenant_id space_id operation_id (source ∷ []) (destination ∷ []) t ≡ ok t'
    → source ≢ destination
occupy_apart tenant_id space_id operation_id source destination t t' unique h e =
    let c =
      occupy-IsClaimed tenant_id space_id operation_id (source ∷ []) (destination ∷ []) t t' unique
        h in
    let (f, i, free, _) = c.granted source (inl refl) in
    let clash : true ≡ false =
      sym free.at
      ∙ (ap (λ (x : Text). at_key tenant_id space_id x f) e
          ∙ c.no_row destination (inl refl) f i) in
    absurd (cc clash)
