-- ===== src/Authorization/Decisions.antt =====
-- On `evaluate` of authorization/domain/evaluator.py: when it allows, stated on the list of bindings.
use s3mp_backend.Prelude.{
  ℕ, Bool, true, false, ◌≡◌, ◌≢◌, refl, sym, ap, ◌∙◌, ◌↔◌, Option, none, some, List, [], ◌∷◌, ok,
  arith, any, filter, In, any→In, In→any, In→filter, filter→In, ◌++◌, Result-cases, inl, inr,
}
use s3mp_backend.Prelude.Int.{◌≤ℤ◌, ◌<ℤ◌}
use s3mp_backend.Prelude.Text.{Text, text_eq, text_eq_sound, text_eq_refl, split}
use s3mp_backend.Keys.{slash, validate_canonical_prefix, scope_matches}
use s3mp_backend.Keys.Scope.{scope-by-segments}
use s3mp_backend.Authorization.{
  Datetime, as_utc, Decision, allow, deny, Binding, AuthorizationDecision, space_matches, applies,
  is_deny, is_allow, decide_on, evaluate,
}

-- The keys that a binding's prefix covers: all of them, or those whose segments begin with its own.
abbrev pub Covers : Option Text → Text → Type 0
Covers none key = Unit
Covers (some []) key = Unit
Covers (some (c ∷ p)) key = (rest : List Text) × (split slash key ≡ split slash (c ∷ p) ++ rest)

-- A binding for every storage space, or for the requested one.
abbrev pub InSpace : Option ℕ → Option ℕ → Type 0
InSpace none request = Unit
InSpace (some s) request = request ≡ some s

-- A binding is in force for a request.
abbrev pub InForce : Text → Option ℕ → Text → Datetime → Binding → Type 0
InForce permission space_id object_key now b =
    (b.permission ≡ permission)
    × (as_utc b.starts_at ≤ℤ as_utc now)
    × (as_utc now <ℤ as_utc b.expires_at)
    × InSpace b.storage_space_id space_id
    × Covers b.canonical_prefix object_key

pub scope-Covers : (p : Option Text) (key : Text) → (scope_matches p key ≡ true) ↔ Covers p key
unfolding scope_matches
scope-Covers none key = (λ h. tt, λ h. refl)
scope-Covers (some []) key = (λ h. tt, λ h. refl)
scope-Covers (some (c ∷ p)) key = scope-by-segments c p key

space-InSpace : (s r : Option ℕ) → (space_matches s r ≡ true) ↔ InSpace s r
space-InSpace none r = (λ h. tt, λ h. refl)
space-InSpace (some s) none = (λ h. absurd (cc), λ h. absurd (cc))
space-InSpace (some s) (some r) = (λ h. ground arith, λ h. ground arith)

decide_on-allow :
    (ms : List Binding)
    → ((decide_on ms).decision ≡ allow) ↔ ((any is_allow ms ≡ true) × (any is_deny ms ≡ false))
unfolding decide_on
decide_on-allow ms = (λ h. ground arith, λ h. ground arith)

true≢false : ◌≢◌ {A = Bool} true false
true≢false h = cc

not_true : (b : Bool) → ¬ (b ≡ true) → b ≡ false
not_true true h = absurd (h refl)
not_true false h = refl

same_truth : (b c : Bool) → (b ≡ true → c ≡ true) → (c ≡ true → b ≡ true) → b ≡ c
same_truth true c f g = sym (f refl)
same_truth false true f g = g refl
same_truth false false f g = refl

module _ (permission : Text) (space_id : Option ℕ) (object_key : Text) (now : Datetime) where
  applies-InForce :
      (b : Binding)
      → (applies permission space_id object_key (as_utc now) b ≡ true)
        ↔ InForce permission space_id object_key now b
  unfolding applies
  applies-InForce b = (
    λ h. (
      text_eq_sound b.permission permission (ground arith),
      ground arith,
      ground arith,
      (space-InSpace b.storage_space_id space_id).0 (ground arith),
      (scope-Covers b.canonical_prefix object_key).0 (ground arith),
    ),
    λ h.
        let (e, from, until, space, scope) = h in
        let same : text_eq b.permission permission ≡ true = rw e (text_eq_refl permission) in
        let space' = (space-InSpace b.storage_space_id space_id).1 space in
        let scope' = (scope-Covers b.canonical_prefix object_key).1 scope in ground arith,
  )

  abbrev pub MatchIn : Decision → List Binding → Type 0
  MatchIn effect bindings =
      (b : Binding) × In b bindings
      × InForce permission space_id object_key now b
      × (b.effect ≡ effect)

  matching : List Binding → List Binding
  matching bindings = filter (applies permission space_id object_key (as_utc now)) bindings

  match_iff :
      (p : Binding → Bool) (effect : Decision) (bindings : List Binding)
      → ((b : Binding) → (p b ≡ true) ↔ (b.effect ≡ effect))
      → (any p (matching bindings) ≡ true) ↔ MatchIn effect bindings
  unfolding matching
  match_iff p effect bindings iff = (
    λ h.
        let (b, m, q) = any→In p (matching bindings) h in
        let (i, f) = filter→In (applies permission space_id object_key (as_utc now)) b bindings m in
        (b, i, (applies-InForce b).0 f, (iff b).0 q),
    λ h.
        let (b, i, f, e) = h in
        In→any p b (matching bindings)
          (In→filter (applies permission space_id object_key (as_utc now)) b bindings i
            ((applies-InForce b).1 f))
          ((iff b).1 e),
  )

  deny_iff :
      (bindings : List Binding) → (any is_deny (matching bindings) ≡ true) ↔ MatchIn deny bindings
  deny_iff bindings = match_iff is_deny deny bindings (λ b. ground arith)

  allow_iff :
      (bindings : List Binding) → (any is_allow (matching bindings) ≡ true) ↔ MatchIn allow bindings
  allow_iff bindings = match_iff is_allow allow bindings (λ b. ground arith)

  MatchIn-mono :
      (effect : Decision) (xs ys : List Binding)
      → ((b : Binding) → In b xs → In b ys)
      → MatchIn effect xs
      → MatchIn effect ys
  MatchIn-mono effect xs ys f (b, i, force, e) = (b, f b i, force, e)

  evaluate-inv :
      (bindings : List Binding) (d : AuthorizationDecision)
      → evaluate permission bindings space_id object_key now ≡ ok d
      → d ≡ decide_on (matching bindings)
  unfolding evaluate matching
  evaluate-inv bindings d h = elim (Result-cases (validate_canonical_prefix object_key)) [
    | inl e ↦ ground arith
    | inr e ↦ absurd (ground arith)
  ]

  -- A request that `evaluate` decides is allowed exactly when some binding in force for it allows and none in force denies;
  -- a binding is in force when it names the permission, its window holds the current instant, it is
  -- for this storage space or for all, and its prefix covers the key segment by segment.
  pub evaluate_allows :
      (bindings : List Binding) (d : AuthorizationDecision)
      → evaluate permission bindings space_id object_key now ≡ ok d
      → (d.decision ≡ allow) ↔ (MatchIn allow bindings × ¬ MatchIn deny bindings)
  evaluate_allows bindings d h =
      let (from, to) = decide_on-allow (matching bindings) in
      let e = ap (λ (x : AuthorizationDecision). x.decision) (evaluate-inv bindings d h) in
      (
        λ a.
            let (some_allow, no_deny) = from (sym e ∙ a) in
            (
              (allow_iff bindings).0 some_allow,
              λ m. true≢false (sym ((deny_iff bindings).1 m) ∙ no_deny),
            ),
        λ m. e ∙ to ((allow_iff bindings).1 m.0, not_true _ (λ t. m.1 ((deny_iff bindings).0 t))),
      )

  -- The order and the repetition of the bindings do not matter: two lists with the same members that
  -- are evaluated give the same decision for the same reason.
  pub evaluate_order :
      (xs ys : List Binding) (d d' : AuthorizationDecision)
      → ((b : Binding) → In b xs ↔ In b ys)
      → evaluate permission xs space_id object_key now ≡ ok d
      → evaluate permission ys space_id object_key now ≡ ok d'
      → (d.decision ≡ d'.decision) × (d.reason_code ≡ d'.reason_code)
  unfolding decide_on
  evaluate_order xs ys d d' same h k =
      let move = λ (effect : Decision) (m : MatchIn effect xs).
        MatchIn-mono effect xs ys (λ b. (same b).0) m in
      let back = λ (effect : Decision) (m : MatchIn effect ys).
        MatchIn-mono effect ys xs (λ b. (same b).1) m in
      let denies =
        same_truth _ _ (λ t. (deny_iff ys).1 (move deny ((deny_iff xs).0 t)))
          (λ t. (deny_iff xs).1 (back deny ((deny_iff ys).0 t))) in
      let allows =
        same_truth _ _ (λ t. (allow_iff ys).1 (move allow ((allow_iff xs).0 t)))
          (λ t. (allow_iff xs).1 (back allow ((allow_iff ys).0 t))) in
      let e = evaluate-inv xs d h in let f = evaluate-inv ys d' k in (ground arith, ground arith)
