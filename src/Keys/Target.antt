-- ===== src/Keys/Target.antt =====
-- On `derive_provider_target` of storage/domain/policy.py: where it puts an object.
use s3mp_backend.Prelude.{
  ℕ, true, false, ◌≡◌, ◌≢◌, refl, sym, ap, subst, ◌∙◌, ◌∷◌, [], ◌++◌, ◌⊎◌, inl, inr, Option, none,
  some, arith, ◌↔◌, ok, err, Result-cases, ◌||◌, reraise, >>-eq-ok, reraise-eq-ok,
}
use mathlib.Core.List.{append_assoc}
use s3mp_backend.Prelude.Text.{Text, has, text_eq, join}
use s3mp_backend.Keys.{
  slash, validate_canonical_prefix, canonical_object_key, PolicyError, ProviderTarget, part,
  namespace_of, legacy_namespace, derive_provider_target, key_not_canonical,
}
use s3mp_backend.Keys.Canonical.{
  IsCanonical, validate-eq, canonical_parts, parts-IsCanonical, plain-append,
}
use s3mp_backend.Keys.Scope.{Extends, Extends-trans}

-- `base` with one more part below it, unless the part is empty.
abbrev pub below : Text → Text → Text
below base [] = base
below base (c ∷ s) = base ++ (slash ∷ (c ∷ s))

pub below-Extends : (base s : Text) → Extends base (below base s)
below-Extends base [] = inl refl
below-Extends base (c ∷ s) = inr (c ∷ s, refl)

pub join-parts : (base p r : Text) → join slash (base ∷ (part p ++ part r)) ≡ below (below base p) r
unfolding join
join-parts base [] [] = refl
join-parts base [] (d ∷ r) = refl
join-parts base (c ∷ p) [] = refl
join-parts base (c ∷ p) (d ∷ r) = sym (append_assoc base (slash ∷ c ∷ p) (slash ∷ d ∷ r))

below-ne-nil : (b s : Text) → b ≢ [] → below b s ≢ []
below-ne-nil [] s h = absurd (h refl)
below-ne-nil (c ∷ b) [] h = h
below-ne-nil (c ∷ b) (d ∷ s) h = λ e. cc

below-IsCanonical : (b s : Text) → b ≢ [] → IsCanonical b → IsCanonical s → IsCanonical (below b s)
below-IsCanonical b [] ne h k = h
below-IsCanonical b (d ∷ s) ne h k = elim (canonical_parts b h) [
  | inl e ↦ absurd (ne e)
  | inr e ↦ elim (canonical_parts (d ∷ s) k) [
    | inl f ↦ absurd (cc)
    | inr f ↦ parts-IsCanonical _ (plain-append b (d ∷ s) e f)
  ]
]

canonical_object_key-ok : (s : Text) → IsCanonical s → canonical_object_key s true ≡ ok s
unfolding canonical_object_key
canonical_object_key-ok [] h = rw h
canonical_object_key-ok (c ∷ s) h = rw h

pub canonical_object_key-inv :
    (s t : Text) → canonical_object_key s true ≡ ok t → (s ≡ t) × IsCanonical s
unfolding canonical_object_key validate_canonical_prefix
canonical_object_key-inv [] t h = ground arith
canonical_object_key-inv (c ∷ s) t h =
    let ((t', e), same) =
      >>-eq-ok (reraise key_not_canonical (validate_canonical_prefix (c ∷ s))) (ok (c ∷ s)) h in
    let returned = reraise-eq-ok key_not_canonical (validate_canonical_prefix (c ∷ s)) e in
    let eq = validate-eq (c ∷ s) t' returned in (ground arith, ground arith)

IsCanonical-cases :
    (s : Text)
    → ((canonical_object_key s true ≡ ok s) × IsCanonical s)
      ⊎ ((e : PolicyError) × (canonical_object_key s true ≡ err e))
IsCanonical-cases s = elim (Result-cases (canonical_object_key s true)) [
  | inl (t, e) ↦ let (q, c) = canonical_object_key-inv s t e in inl (canonical_object_key-ok s c, c)
  | inr e ↦ inr e
]

-- The bucket names that are accepted.
abbrev pub IsBucket : Text → Type 0
IsBucket b = (text_eq b [] || (has slash b || has 92 b)) ≡ false

module _ (show_uuid : ℕ → Text) where
  -- The inputs that `derive_provider_target` accepts.
  pub record IsAccepted (tenant_id space_id : ℕ) (bucket relative_key operator_prefix : Text)
      (storage_namespace : Option Text) (version : ℕ) : Type 0 where
    pub current : version ≡ 1
    pub single_bucket : IsBucket bucket
    pub relative : IsCanonical relative_key
    pub prefix : IsCanonical operator_prefix
    pub namespace : IsCanonical (namespace_of show_uuid tenant_id space_id storage_namespace)

  abbrev pub target_at : ℕ → ℕ → Text → Text → Text → Option Text → ProviderTarget
  target_at t s bucket relative_key operator_prefix storage_namespace = record {
    bucket = bucket;
    key = below (below (namespace_of show_uuid t s storage_namespace) operator_prefix) relative_key;
    version = 1;
  }

  pub namespace-ne-nil : (t s : ℕ) (n : Option Text) → namespace_of show_uuid t s n ≢ []
  unfolding namespace_of legacy_namespace join
  namespace-ne-nil t s none = λ e. cc
  namespace-ne-nil t s (some []) = λ e. cc
  namespace-ne-nil t s (some (c ∷ n)) = λ e. cc

  module _ (t s : ℕ) (bucket r p : Text) (n : Option Text) (v : ℕ) where
    derive-accepted :
        IsAccepted t s bucket r p n v
        → derive_provider_target show_uuid t s bucket r p n v ≡ ok (target_at t s bucket r p n)
    unfolding derive_provider_target
    derive-accepted h = rw h.current (
        rw h.single_bucket (
          rw (canonical_object_key-ok r h.relative) (
            rw (canonical_object_key-ok p h.prefix)
              (rw h.namespace (rw (join-parts (namespace_of show_uuid t s n) p r))))))

    derive-inv :
        (out : ProviderTarget)
        → derive_provider_target show_uuid t s bucket r p n v ≡ ok out
        → IsAccepted t s bucket r p n v
    unfolding derive_provider_target
    derive-inv out h = elim (IsCanonical-cases r) [
      | inr (x, e) ↦ absurd (ground arith)
      | inl re ↦ elim (IsCanonical-cases p) [
        | inr (y, e) ↦ absurd (ground arith)
        | inl pe ↦ elim (Result-cases (validate_canonical_prefix (namespace_of show_uuid t s n))) [
          | inr (z, e) ↦ absurd (ground arith)
          | inl (n', e) ↦
              let same = validate-eq (namespace_of show_uuid t s n) n' e in
              record {
                current = ground arith;
                single_bucket = ground arith;
                relative = re.1;
                prefix = pe.1;
                namespace = e ∙ ap ok (sym same);
              }
        ]
      ]
    ]

    -- `derive_provider_target` returns exactly when its inputs are accepted, and then the target is
    -- the namespace, the operator prefix and the relative key joined by slashes in that order.
    pub derive_iff :
        (out : ProviderTarget)
        → (derive_provider_target show_uuid t s bucket r p n v ≡ ok out)
          ↔ (IsAccepted t s bucket r p n v × (target_at t s bucket r p n ≡ out))
    derive_iff out = (
      λ h. let a = derive-inv out h in (a, ground (arith, derive-accepted a)),
      λ h. derive-accepted h.0 ∙ ap ok h.1,
    )

    -- Every derived key is canonical, and lies below the namespace and the operator prefix.
    pub derive-IsContained :
        (out : ProviderTarget)
        → derive_provider_target show_uuid t s bucket r p n v ≡ ok out
        → IsCanonical out.key
          × Extends (namespace_of show_uuid t s n) out.key
          × Extends (below (namespace_of show_uuid t s n) p) out.key
    derive-IsContained out h =
        let (a, e) = (derive_iff out).0 h in
        let ns = namespace_of show_uuid t s n in
        let ne = namespace-ne-nil t s n in
        let contained : IsCanonical (below (below ns p) r)
            × Extends ns (below (below ns p) r)
            × Extends (below ns p) (below (below ns p) r) =
          (
            below-IsCanonical (below ns p) r (below-ne-nil ns p ne)
                (below-IsCanonical ns p ne a.namespace a.prefix) a.relative,
            Extends-trans ns (below ns p) (below (below ns p) r) (below-Extends ns p)
                (below-Extends (below ns p) r),
            below-Extends (below ns p) r,
          ) in
        subst (λ (k : Text). IsCanonical k × Extends ns k × Extends (below ns p) k)
          (ap (λ (x : ProviderTarget). x.key) e) contained
