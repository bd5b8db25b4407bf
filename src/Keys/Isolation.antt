-- ===== src/Keys/Isolation.antt =====
-- On `derive_provider_target` of storage/domain/policy.py: keys of different storage spaces, and of
-- different relative keys.
use mathlib.Core.List.{append_cancel_left, append-nil}
use s3mp_backend.Prelude.{
  ℕ, false, ◌≡◌, ◌≢◌, refl, sym, ap, ◌∙◌, List, ◌∷◌, [], ◌++◌, ◌⊎◌, inl, inr, Option, none, ok,
}
use s3mp_backend.Prelude.Text.{Text, codes, has, split, join, split-append, split-single}
use s3mp_backend.Keys.{
  slash, ProviderTarget, namespace_of, legacy_namespace, derive_provider_target,
}
use s3mp_backend.Keys.Scope.{Extends, Extends-split}
use s3mp_backend.Keys.Target.{below, derive_iff, derive-IsContained}

-- Two prefixes of one list are comparable.
prefixes_compare :
    (xs ys r q : List Text)
    → xs ++ r ≡ ys ++ q
    → ((z : List Text) × (ys ≡ xs ++ z)) ⊎ ((z : List Text) × (xs ≡ ys ++ z))
prefixes_compare [] ys r q e = inl (ys, refl)
prefixes_compare (x ∷ xs) [] r q e = inr (x ∷ xs, refl)
prefixes_compare (x ∷ xs) (y ∷ ys) r q e = elim (prefixes_compare xs ys r q (cc)) [
  | inl h ↦ inl (h.0, cc (h.1))
  | inr h ↦ inr (h.0, cc (h.1))
]

-- Two prefixes that cover one key are nested.
nested : (a b key : Text) → Extends a key → Extends b key → Extends a b ⊎ Extends b a
nested a b key h k =
    let (r, e) = (Extends-split a key).0 h in
    let (q, f) = (Extends-split b key).0 k in
    elim (prefixes_compare (split slash a) (split slash b) r q (sym e ∙ f)) [
      | inl z ↦ inl ((Extends-split a b).1 z)
      | inr z ↦ inr ((Extends-split b a).1 z)
    ]

longer : (a s : Text) → a ≢ a ++ (slash ∷ s)
longer a s e = cc (append_cancel_left a [] (slash ∷ s) (append-nil a ∙ e))

below-injective : (b r r' : Text) → below b r ≡ below b r' → r ≡ r'
below-injective b [] [] e = refl
below-injective b [] (c ∷ r) e = absurd (longer b (c ∷ r) e)
below-injective b (c ∷ r) [] e = absurd (longer b (c ∷ r) (sym e))
below-injective b (c ∷ r) (d ∷ r') e = cc (append_cancel_left b (slash ∷ c ∷ r) (slash ∷ d ∷ r') e)

module _ (show_uuid : ℕ → Text) where
  -- In one storage space and under one operator prefix, two accepted relative keys that are derived
  -- to the same provider key are the same relative key.
  pub derive-injective :
      (t s : ℕ) (bucket p : Text) (n : Option Text) (v : ℕ) (r r' : Text)
      (out out' : ProviderTarget)
      → derive_provider_target show_uuid t s bucket r p n v ≡ ok out
      → derive_provider_target show_uuid t s bucket r' p n v ≡ ok out'
      → out.key ≡ out'.key
      → r ≡ r'
  derive-injective t s bucket p n v r r' out out' h k e =
      below-injective (below (namespace_of show_uuid t s n) p) r r' (
        ap (λ (x : ProviderTarget). x.key) ((derive_iff show_uuid t s bucket r p n v out).0 h).1
        ∙ e
        ∙ sym (
            ap (λ (x : ProviderTarget). x.key)
              ((derive_iff show_uuid t s bucket r' p n v out').0 k).1))

  -- Two storage spaces whose namespaces are not nested never share a provider key, whatever the
  -- operator prefixes and the relative keys.
  pub derive_isolated :
      (t s : ℕ) (bucket r p : Text) (n : Option Text) (v : ℕ) (t' s' : ℕ) (bucket' r' p' : Text)
      (n' : Option Text) (v' : ℕ) (out out' : ProviderTarget)
      → ¬ Extends (namespace_of show_uuid t s n) (namespace_of show_uuid t' s' n')
      → ¬ Extends (namespace_of show_uuid t' s' n') (namespace_of show_uuid t s n)
      → derive_provider_target show_uuid t s bucket r p n v ≡ ok out
      → derive_provider_target show_uuid t' s' bucket' r' p' n' v' ≡ ok out'
      → out.key ≢ out'.key
  derive_isolated t s bucket r p n v t' s' bucket' r' p' n' v' out out' apart apart' h k e =
      let (_, inside, _) = derive-IsContained show_uuid t s bucket r p n v out h in
      let (_, inside', _) = derive-IsContained show_uuid t' s' bucket' r' p' n' v' out' k in
      elim (nested (namespace_of show_uuid t s n) (namespace_of show_uuid t' s' n') out.key inside
        (rw e inside')) [ inl x ↦ apart x | inr x ↦ apart' x ]

  module _ (no_slash : (x : ℕ) → has slash (show_uuid x) ≡ false)
      (injective : (x y : ℕ) → show_uuid x ≡ show_uuid y → x ≡ y) where
    split-legacy :
        (t s : ℕ)
        → split slash (legacy_namespace show_uuid t s)
          ≡ codes "v1" ∷ codes "tenants" ∷ show_uuid t ∷ codes "spaces" ∷ show_uuid s ∷ []
    unfolding legacy_namespace join
    split-legacy t s = rw (split-append slash (codes "v1") _) (
        rw (split-append slash (codes "tenants") _) (
          rw (split-append slash (show_uuid t) _) (
            rw (split-append slash (codes "spaces") _) (
              rw (split-single slash (show_uuid t) (no_slash t))
                (rw (split-single slash (show_uuid s) (no_slash s)) (unfold split in refl))))))

    Extends-legacy :
        (t s t' s' : ℕ)
        → Extends (legacy_namespace show_uuid t s) (legacy_namespace show_uuid t' s')
        → (t ≡ t') × (s ≡ s')
    Extends-legacy t s t' s' h =
        let (rest, e) = (Extends-split _ _).0 h in
        let f =
          sym (split-legacy t' s') ∙ e ∙ ap (λ (u : List Text). u ++ rest) (split-legacy t s) in
        (injective t t' (cc f), injective s s' (cc f))

    -- Without an assigned namespace, two targets have one provider key only if tenant and storage
    -- space are the same, where the texts of ids are injective and have no slash.
    pub legacy_isolated :
        (t s : ℕ) (bucket r p : Text) (v : ℕ) (t' s' : ℕ) (bucket' r' p' : Text) (v' : ℕ)
        (out out' : ProviderTarget)
        → derive_provider_target show_uuid t s bucket r p none v ≡ ok out
        → derive_provider_target show_uuid t' s' bucket' r' p' none v' ≡ ok out'
        → out.key ≡ out'.key
        → (t ≡ t') × (s ≡ s')
    unfolding namespace_of
    legacy_isolated t s bucket r p v t' s' bucket' r' p' v' out out' h k e =
        let (_, inside, _) = derive-IsContained show_uuid t s bucket r p none v out h in
        let (_, inside', _) = derive-IsContained show_uuid t' s' bucket' r' p' none v' out' k in
        elim (nested _ _ out.key inside (rw e inside')) [
          | inl x ↦ Extends-legacy t s t' s' x
          | inr x ↦ let (a, b) = Extends-legacy t' s' t s x in (sym a, sym b)
        ]
