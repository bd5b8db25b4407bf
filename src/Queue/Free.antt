-- ===== src/Queue/Free.antt =====
-- On `_occupy_operation_resources` of files/infrastructure/repositories.py: the rows that it looks up.
use s3mp_backend.Prelude.{
  ℕ, Bool, true, false, not, ◌||◌, ◌≡◌, refl, inl, inr, none, some, List, [], ◌∷◌, ok, is_some, In,
  arith, Bool-cases, Option-cases, Result-cases, subst,
}
use s3mp_backend.Prelude.Text.{Text}
use s3mp_backend.Queue.{
  FileRow, FileState, available, is_available, find_last, at_key, row_at, free_row, free_rows,
}

-- A row that may be claimed.
pub record IsFree (tenant_id space_id : ℕ) (key : Text) (f : FileRow) : Type 0 where
  pub at : at_key tenant_id space_id key f ≡ true
  pub is_there : f.state ≡ available
  pub not_deleted : f.soft_deleted ≡ false
  pub not_held : f.active_operation_id ≡ none

find_last-In :
    (p : FileRow → Bool) (fs : List FileRow) (f : FileRow)
    → find_last p fs ≡ some f
    → In f fs × (p f ≡ true)
find_last-In p [] f h = absurd (cc)
find_last-In p (g ∷ fs) f h = elim (Option-cases (find_last p fs)) [
  | inr (later, e) ↦
      let same : later ≡ f = ground (arith, rw e at h) in
      let (i, q) = find_last-In p fs later e in
      (inr (subst (λ (x : FileRow). In x fs) same i), subst (λ (x : FileRow). p x ≡ true) same q)
  | inl e ↦ elim (Bool-cases (p g)) [
    | inr q ↦ absurd (cc (rw (e, q) at h))
    | inl q ↦
        let same : g ≡ f = ground (arith, rw (e, q) at h) in
        (inl same, subst (λ (x : FileRow). p x ≡ true) same q)
  ]
]

pub find_last-none :
    (p : FileRow → Bool) (fs : List FileRow)
    → is_some (find_last p fs) ≡ false
    → (f : FileRow) → In f fs
    → p f ≡ false
find_last-none p [] h f i = absurd i
find_last-none p (g ∷ fs) h f i = elim (Option-cases (find_last p fs)) [
  | inr (later, e) ↦ absurd (cc (rw e at h))
  | inl e ↦ elim i [
    | inr j ↦ find_last-none p fs (rw e refl) f j
    | inl same ↦ elim (Bool-cases (p g)) [
      | inl q ↦ absurd (cc (rw (e, q) at h))
      | inr q ↦ subst (λ (x : FileRow). p x ≡ false) same q
    ]
  ]
]

available_lem : (s : FileState) → is_available s ≡ true → s ≡ available
available_lem s h = ground arith

free_row-IsFree :
    (tenant_id space_id : ℕ) (files : List FileRow) (key : Text) (f : FileRow)
    → free_row tenant_id space_id files key ≡ ok f
    → In f files × IsFree tenant_id space_id key f
unfolding free_row
free_row-IsFree tenant_id space_id files key f h =
    elim (Option-cases (row_at tenant_id space_id key files)) [
      | inl e ↦ absurd (cc (rw (e, free_row) at h))
      | inr (g, e) ↦ elim (Bool-cases (not (is_available g.state) || g.soft_deleted)) [
        | inl q ↦ absurd (cc (rw (e, q, free_row) at h))
        | inr q ↦ elim (Option-cases g.active_operation_id) [
          | inr (o, k) ↦ absurd (cc (rw (e, q, k, free_row) at h))
          | inl k ↦
              let same : g ≡ f = ground (arith, rw (e, q, k, free_row) at h) in
              let (i, at) = find_last-In (at_key tenant_id space_id key) files g e in
              subst (λ (x : FileRow). In x files × IsFree tenant_id space_id key x) same
                (
                  i,
                  record {
                    at = at;
                    is_there = available_lem g.state (ground arith);
                    not_deleted = ground arith;
                    not_held = k;
                  },
                )
        ]
      ]
    ]

-- The rows that the checks on the occupied keys give.
pub record AreFree (tenant_id space_id : ℕ) (files : List FileRow) (keys : List Text)
    (rows : List FileRow) : Type 0 where
  pub each :
      (r : FileRow)
      → In r rows
      → (key : Text) × In key keys × In r files × IsFree tenant_id space_id key r
  pub every :
      (key : Text)
      → In key keys
      → (r : FileRow) × In r rows × In r files × IsFree tenant_id space_id key r

pub free_rows-AreFree :
    (tenant_id space_id : ℕ) (files : List FileRow) (keys : List Text) (rows : List FileRow)
    → free_rows tenant_id space_id files keys ≡ ok rows
    → AreFree tenant_id space_id files keys rows
unfolding free_rows
free_rows-AreFree tenant_id space_id files [] rows h =
    let same : [] ≡ rows = ground arith in
    subst (AreFree tenant_id space_id files []) same
      (record { each = λ r i. absurd i; every = λ key i. absurd i })
free_rows-AreFree tenant_id space_id files (key ∷ keys) rows h =
    elim (Result-cases (free_row tenant_id space_id files key)) [
      | inr (x, e) ↦ absurd (cc (rw (e, free_rows) at h))
      | inl (f, e) ↦ elim (Result-cases (free_rows tenant_id space_id files keys)) [
        | inr (x, q) ↦ absurd (cc (rw (e, q, free_rows) at h))
        | inl (fs, q) ↦
            let same : (f ∷ fs) ≡ rows = ground (arith, rw (e, q, free_rows) at h) in
            let (i, free) = free_row-IsFree tenant_id space_id files key f e in
            let rest = free_rows-AreFree tenant_id space_id files keys fs q in
            subst (AreFree tenant_id space_id files (key ∷ keys)) same (record {
              each = λ r m. elim m [
                | inl at ↦ (
                  key,
                  inl refl,
                  subst (λ (x : FileRow). In x files) at i,
                  subst (λ (x : FileRow). IsFree tenant_id space_id key x) at free,
                )
                | inr j ↦ let (k, l, u, v) = rest.each r j in (k, inr l, u, v)
              ];
              every = λ k m. elim m [
                | inl at ↦
                    (f, inl refl, i, subst (λ (x : Text). IsFree tenant_id space_id x f) at free)
                | inr j ↦ let (r, l, u, v) = rest.every k j in (r, inr l, u, v)
              ];
            })
      ]
    ]
