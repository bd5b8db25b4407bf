-- ===== src/Keys/Scope.antt =====
-- On `_scope_matches` of authorization/domain/evaluator.py: prefixes and segments.
use s3mp_backend.Prelude.{
  ℕ, true, ◌≡◌, ◌≢◌, refl, sym, ap, ◌∙◌, List, ◌∷◌, [], ◌++◌, ◌⊎◌, inl, inr, Option, none, some,
  arith, ◌↔◌, Bool-cases,
}
use mathlib.Core.List.{append_assoc, append-nil}
use s3mp_backend.Prelude.Text.{
  Text, text_eq, text_eq_sound, text_eq_refl, starts_with-append, starts_with-split, split,
  split-append, join, join-split, join-append, split-ne-nil,
}
use s3mp_backend.Keys.{slash, scope_matches}

-- `key` is the prefix itself or continues it after a slash.
abbrev pub Extends : Text → Text → Type 0
Extends p key = (key ≡ p) ⊎ ((r : Text) × (key ≡ p ++ (slash ∷ r)))

slash_assoc : (p r : Text) → (p ++ (slash ∷ [])) ++ r ≡ p ++ (slash ∷ r)
slash_assoc p r = append_assoc p (slash ∷ []) r

pub scope-Extends : (p key : Text) → scope_matches (some p) key ≡ true → (p ≡ []) ⊎ Extends p key
unfolding scope_matches
scope-Extends [] key h = inl refl
scope-Extends (c ∷ p) key h = elim (Bool-cases (text_eq key (c ∷ p))) [
  | inl e ↦ inr (inl (text_eq_sound key (c ∷ p) e))
  | inr e ↦
      let (r, q) = starts_with-split key ((c ∷ p) ++ (slash ∷ [])) (ground arith) in
      inr (inr (r, q ∙ slash_assoc (c ∷ p) r))
]

pub Extends-scope : (p key : Text) → Extends p key → scope_matches (some p) key ≡ true
unfolding scope_matches
Extends-scope [] key h = refl
Extends-scope (c ∷ p) key (inl e) = ground (arith, text_eq_refl (c ∷ p))
Extends-scope (c ∷ p) key (inr (r, e)) =
    let f : key ≡ ((c ∷ p) ++ (slash ∷ [])) ++ r = e ∙ sym (slash_assoc (c ∷ p) r) in
    rw f (ground (arith, starts_with-append ((c ∷ p) ++ (slash ∷ [])) r))

Extends→split :
    (p key : Text) → Extends p key → (rest : List Text) × (split slash key ≡ split slash p ++ rest)
Extends→split p key (inl e) = ([], rw e (sym (append-nil _)))
Extends→split p key (inr (r, e)) = (split slash r, rw e (split-append slash p r))

split→Extends :
    (p key : Text) (rest : List Text) → split slash key ≡ split slash p ++ rest → Extends p key
split→Extends p key [] e =
    inl (sym (join-split slash key) ∙ ap (join slash) (e ∙ append-nil _) ∙ join-split slash p)
split→Extends p key (t ∷ rest) e = inr (
  join slash (t ∷ rest),
  sym (join-split slash key)
      ∙ ap (join slash) e
      ∙ join-append slash (split slash p) (t ∷ rest) (split-ne-nil slash p) (λ q. cc)
      ∙ ap (λ (u : Text). u ++ (slash ∷ join slash (t ∷ rest))) (join-split slash p),
)

-- A key extends a prefix exactly when its segments begin with those of the prefix.
pub Extends-split :
    (p key : Text)
    → Extends p key ↔ ((rest : List Text) × (split slash key ≡ split slash p ++ rest))
Extends-split p key = (Extends→split p key, λ h. split→Extends p key h.0 h.1)

pub Extends-trans : (a b c : Text) → Extends a b → Extends b c → Extends a c
Extends-trans a b c (inl e) k = rw e at k
Extends-trans a b c (inr (r, e)) (inl f) = inr (r, f ∙ e)
Extends-trans a b c (inr (r, e)) (inr (s, f)) = inr (
  r ++ (slash ∷ s),
  f ∙ ap (λ (u : Text). u ++ (slash ∷ s)) e ∙ append_assoc a (slash ∷ r) (slash ∷ s),
)

-- A prefix test that passes is segment-wise: a prefix that is not empty covers exactly the keys
-- whose list of segments starts with its own segments.
pub scope-by-segments :
    (c : ℕ) (p key : Text)
    → (scope_matches (some (c ∷ p)) key ≡ true)
      ↔ ((rest : List Text) × (split slash key ≡ split slash (c ∷ p) ++ rest))
scope-by-segments c p key = (
  λ h. elim (scope-Extends (c ∷ p) key h) [
    | inl e ↦ absurd (cc)
    | inr e ↦ Extends→split (c ∷ p) key e
  ],
  λ h. Extends-scope (c ∷ p) key (split→Extends (c ∷ p) key h.0 h.1),
)

-- Coverage is transitive: a key that a prefix, not empty, covers is covered by each prefix that
-- covers that prefix.
pub scope_trans :
    (a : Option Text) (b key : Text)
    → b ≢ []
    → scope_matches a b ≡ true
    → scope_matches (some b) key ≡ true
    → scope_matches a key ≡ true
unfolding scope_matches
scope_trans none b key ne h k = refl
scope_trans (some []) b key ne h k = refl
scope_trans (some (c ∷ a)) b key ne h k = elim (scope-Extends (c ∷ a) b h) [
  | inl e ↦ absurd (cc)
  | inr e ↦ elim (scope-Extends b key k) [
    | inl f ↦ absurd (ne f)
    | inr f ↦ Extends-scope (c ∷ a) key (Extends-trans (c ∷ a) b key e f)
  ]
]
