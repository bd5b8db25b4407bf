-- ===== src/Queue/Releases.antt =====
-- On `start_broker_operation` and `settle_broker_operation` of files/infrastructure/repositories.py.
use s3mp_backend.Prelude.{
  ℕ, Bool, true, false, not, ◌≡◌, ◌≢◌, refl, sym, ap, ◌∙◌, inl, inr, Option, none, some, List, [],
  ◌∷◌, ◌==◌, map_where, In, In-map_where, In→filter, filter→In, find, arith, Bool-cases,
  Option-cases, subst,
}
use s3mp_backend.Prelude.Text.{Text}
use s3mp_backend.Queue.Claims.{map_where-kept}
use s3mp_backend.Queue.{
  OperationStatus, OperationRow, FileRow, NameReservation, QueueTables, is_operation, is_held_by,
  may_start, start_row, start_file, start_broker_operation, is_terminal, settle_file,
  settle_broker_operation,
}

other_lem : (a b : ℕ) → (not (a == b) ≡ true) → a ≢ b
other_lem a b h e = ground arith

unequal_lem : (a b : ℕ) → a ≢ b → not (a == b) ≡ true
unequal_lem a b n = ground arith

not_held :
    (tenant_id operation_id : ℕ) (f : FileRow)
    → f.active_operation_id ≡ none
    → is_held_by tenant_id operation_id f ≡ false
not_held tenant_id operation_id f e = ground (arith, e)

settle_file-none :
    (now : ℕ) (o : OperationRow) (status : OperationStatus) (both : Bool) (x : FileRow)
    → is_terminal status ≡ true
    → (settle_file now o status both x).active_operation_id ≡ none
settle_file-none now o status both x h = rw h refl

settled_not_held :
    (now tenant_id operation_id : ℕ) (o : OperationRow) (status : OperationStatus) (both : Bool)
    (files : List FileRow) (f : FileRow)
    → is_terminal status ≡ true
    → In f (map_where (is_held_by tenant_id operation_id) (settle_file now o status both) files)
    → is_held_by tenant_id operation_id f ≡ false
settled_not_held now tenant_id operation_id o status both files f h i =
    let (x, j, q) =
      In-map_where (is_held_by tenant_id operation_id) (settle_file now o status both) f files i in
    elim (Bool-cases (is_held_by tenant_id operation_id x)) [
      | inr e ↦ subst (λ (y : FileRow). is_held_by tenant_id operation_id y ≡ false) (rw e at q) e
      | inl e ↦
          let settled : settle_file now o status both x ≡ f = rw e at q in
          not_held tenant_id operation_id f (
            ap (λ (y : FileRow). y.active_operation_id) (sym settled)
            ∙ settle_file-none now o status both x h)
    ]

-- An operation has let go of all that it held, and of nothing else.
pub record IsReleased (tenant_id operation_id : ℕ) (t t' : QueueTables) : Type 0 where
  pub no_file : (f : FileRow) → In f t'.files → is_held_by tenant_id operation_id f ≡ false
  pub no_name : (r : NameReservation) → In r t'.reservations → r.operation_id ≢ operation_id
  pub other_files :
      (f : FileRow) → In f t.files → is_held_by tenant_id operation_id f ≡ false → In f t'.files
  pub other_names :
      (r : NameReservation)
      → In r t.reservations
      → r.operation_id ≢ operation_id
      → In r t'.reservations

-- A terminal settlement of an operation that is there releases every file row and every name that
-- it holds, and leaves the rows and the names of all others as they are.
pub settle-IsReleased :
    (now tenant_id operation_id : ℕ) (status : OperationStatus) (reason : Option Text)
    (t : QueueTables) (o : OperationRow)
    → find (is_operation tenant_id operation_id) t.operations ≡ some o
    → is_terminal status ≡ true
    → IsReleased tenant_id operation_id t
        (settle_broker_operation now tenant_id operation_id status reason t)
unfolding settle_broker_operation
settle-IsReleased now tenant_id operation_id status reason t o e h =
    rw (e, h, settle_broker_operation)
      (record {
        no_file = λ f i. settled_not_held now tenant_id operation_id o status _ t.files f h i;
        no_name = λ r i.
            other_lem r.operation_id operation_id
              (filter→In (λ (x : NameReservation). not (x.operation_id == operation_id)) r
                t.reservations i).1;
        other_files =
            λ f i free. map_where-kept (is_held_by tenant_id operation_id) _ f t.files free i;
        other_names = λ r i n.
            In→filter (λ (x : NameReservation). not (x.operation_id == operation_id)) r
              t.reservations i (unequal_lem r.operation_id operation_id n);
      })

find-start_row :
    (p : OperationRow → Bool) (os : List OperationRow)
    → ((o : OperationRow) → p (start_row o) ≡ p o)
    → (o : OperationRow) → find p os ≡ some o
    → find p (map_where p start_row os) ≡ some (start_row o)
find-start_row p [] same o h = absurd (cc)
find-start_row p (x ∷ os) same o h = elim (Bool-cases (p x)) [
  | inl e ↦
      let q : x ≡ o = ground (arith, rw e at h) in
      rw e (rw (same x, e) (ap (λ (y : OperationRow). some (start_row y)) q))
  | inr e ↦ rw e (rw e (find-start_row p os same o (rw e at h)))
]

-- What a start does.
pub record IsStarted (tenant_id operation_id : ℕ) (t t' : QueueTables) : Type 0 where
  pub operation : OperationRow
  pub found : find (is_operation tenant_id operation_id) t.operations ≡ some operation
  pub allowed : may_start operation.status ≡ true
  pub now_processing :
      find (is_operation tenant_id operation_id) t'.operations ≡ some (start_row operation)
  pub no_names_changed : t'.reservations ≡ t.reservations

start-IsStarted :
    (now tenant_id operation_id : ℕ) (t t' : QueueTables)
    → start_broker_operation now tenant_id operation_id t ≡ some t'
    → IsStarted tenant_id operation_id t t'
unfolding start_broker_operation
start-IsStarted now tenant_id operation_id t t' h =
    elim (Option-cases (find (is_operation tenant_id operation_id) t.operations)) [
      | inl e ↦ absurd (cc (rw (e, start_broker_operation) at h))
      | inr (o, e) ↦ elim (Bool-cases (may_start o.status)) [
        | inr q ↦ absurd (cc (rw (e, q, start_broker_operation) at h))
        | inl q ↦
            let after : QueueTables = record t {
              operations = map_where (is_operation tenant_id operation_id) start_row t.operations;
              files = map_where (is_held_by tenant_id operation_id) (start_file now) t.files;
            } in
            let same : after ≡ t' = ground (arith, rw (e, q, start_broker_operation) at h) in
            subst (IsStarted tenant_id operation_id t) same (record {
              operation = o;
              found = e;
              allowed = q;
              now_processing =
                  find-start_row (is_operation tenant_id operation_id) t.operations (λ x. refl) o e;
              no_names_changed = refl;
            })
      ]
    ]

-- After a start, the operation cannot be started again on the tables that the start leaves, at any
-- time.
pub start_once :
    (now later tenant_id operation_id : ℕ) (t t' : QueueTables)
    → start_broker_operation now tenant_id operation_id t ≡ some t'
    → start_broker_operation later tenant_id operation_id t' ≡ none
unfolding start_broker_operation
start_once now later tenant_id operation_id t t' h =
    rw ((start-IsStarted now tenant_id operation_id t t' h).now_processing, start_broker_operation)
      refl
