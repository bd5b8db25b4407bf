-- ===== src/Command/Scope.antt =====
-- On `AuthorizedFileCommand.create` of files/application/authorized_command.py: the directory of an
-- API key, and the relative key that a command carries.
use s3mp_backend.Prelude.{
  ℕ, Bool, true, false, ◌≡◌, refl, sym, ◌∙◌, Option, none, some, [], ◌∷◌, ok, inl, inr, Bool-cases,
  Result-cases, subst,
}
use s3mp_backend.Prelude.Text.{Text}
use s3mp_backend.Keys.{canonical_object_key, scope_matches}
use s3mp_backend.Keys.Scope.{Extends, scope-Extends}
use s3mp_backend.Keys.Target.{canonical_object_key-inv}
use s3mp_backend.Command.{as_policy, under, scoped_key}

-- A key in the directory of an API key; without a directory, every key.
abbrev pub Within : Option Text → Text → Type 0
Within none key = Unit
Within (some []) key = Unit
Within (some (c ∷ p)) key = Extends (c ∷ p) key

under-Extends : (p rel : Text) → Extends p (under p rel)
under-Extends p [] = inl refl
under-Extends p (c ∷ rel) = inr (c ∷ rel, refl)

as_policy-eq :
    (c : ℕ) (p t : Text) → as_policy (canonical_object_key (c ∷ p) false) ≡ ok t → (c ∷ p) ≡ t
as_policy-eq c p t h = elim (Result-cases (canonical_object_key (c ∷ p) false)) [
  | inr (x, e) ↦ absurd (cc (rw e at h))
  | inl (s, e) ↦
      let plain : canonical_object_key (c ∷ p) true ≡ ok s = unfold canonical_object_key in e in
      (canonical_object_key-inv (c ∷ p) s plain).0 ∙ cc (rw e at h)
]

inside :
    {c : ℕ} {p : Text} (s rel : Text)
    → s ≡ c ∷ p
    → scope_matches (some s) rel ≡ true
    → Extends s rel
inside s rel ne h = elim (scope-Extends s rel h) [ inl e ↦ absurd (cc (ne, e)) | inr x ↦ x ]

pub scoped_key-Within :
    (directory : Option Text) (resolved : Bool) (rel key : Text)
    → scoped_key directory resolved rel ≡ ok key
    → Within directory key
unfolding scoped_key
scoped_key-Within none resolved rel key h = tt
scoped_key-Within (some []) resolved rel key h = tt
scoped_key-Within (some (c ∷ p)) resolved rel key h =
    elim (Result-cases (as_policy (canonical_object_key (c ∷ p) false))) [
      | inr (x, e) ↦ absurd (cc (rw (e, scoped_key) at h))
      | inl (s, e) ↦
          let same = as_policy-eq c p s e in
          subst (λ (d : Text). Extends d key) (sym same)
            (elim (Bool-cases resolved) [
              | inr f ↦
                  subst (Extends s) {x = under s rel} {y = key} (cc (rw (e, f, scoped_key) at h))
                    (under-Extends s rel)
              | inl f ↦ elim (Bool-cases (scope_matches (some s) rel)) [
                | inr g ↦ absurd (cc (rw (e, f, scoped_key, g) at h))
                | inl g ↦
                    let kept : rel ≡ key = cc (rw (e, f, scoped_key, g) at h) in
                    subst (Extends s) kept (inside s rel (sym same) g)
              ]
            ])
    ]
