-- ===== src/Worker/Granted.antt =====
-- On the local `authorize` of `_execute` in files/application/operation_worker.py.
use s3mp_backend.Prelude.{
  ℕ, Bool, true, false, not, ◌≡◌, some, List, Result, ok, err, inl, inr, arith, Bool-cases,
  Option-cases, Result-cases,
}
use s3mp_backend.Prelude.Text.{Text}
use s3mp_backend.Keys.{scope_matches}
use s3mp_backend.Authorization.{Binding, allow, deny, AuthorizationDecision, evaluate, text_in}
use s3mp_backend.Authorization.Decisions.{MatchIn, evaluate_allows}
use s3mp_backend.Identity.{PrincipalContext, application}
use s3mp_backend.Worker.{Operation, Outcome, Services, Stop, returns, raises, Act, ◌>>◌, return_if}
use s3mp_backend.Worker.Effects.{authorize, require, lacks_scope, is_allowed}
use s3mp_backend.Worker.Storage.{Ends, After, >>=-After, >>-After}

-- The scopes of an API key name the permission.
abbrev pub HasPermission : PrincipalContext → Text → Type 0
HasPermission ctx permission =
    ctx.subject_kind ≡ application
    → (scopes : List Text) × (ctx.api_key_scopes ≡ some scopes) × (text_in permission scopes ≡ true)

lacks_scope-HasPermission :
    (ctx : PrincipalContext) (permission : Text)
    → lacks_scope ctx permission ≡ false
    → HasPermission ctx permission
lacks_scope-HasPermission ctx permission h a = elim (Option-cases ctx.api_key_scopes) [
  | inl e ↦ absurd (cc (rw (a, e) at h))
  | inr (scopes, e) ↦ (scopes, e, ground (arith, rw (a, e) at h))
]

module _ {W : Type 0} (services : Services W) where
  -- The subject holds the permission on the key, as the world is.
  pub record IsGranted (op : Operation) (ctx : PrincipalContext) (space_id : ℕ)
      (permission key : Text) (w : W) : Type 0 where
    pub scoped : HasPermission ctx permission
    pub in_directory : scope_matches ctx.api_key_directory_prefix key ≡ true
    pub bindings : List Binding
    pub read :
        services.bindings_for op.tenant_id op.principal_id space_id ctx.subject_kind w
        ≡ some bindings
    pub granted : MatchIn permission (some space_id) key (services.clock w) allow bindings
    pub not_denied : ¬ MatchIn permission (some space_id) key (services.clock w) deny bindings

module _ {W : Type 0} (show_uuid : ℕ → Text) (services : Services W) where
  decided-IsGranted :
      (op : Operation) (ctx : PrincipalContext) (space_id : ℕ) (permission key : Text) (w : W)
      (bindings : List Binding) (d : AuthorizationDecision)
      → lacks_scope ctx permission ≡ false
      → scope_matches ctx.api_key_directory_prefix key ≡ true
      → services.bindings_for op.tenant_id op.principal_id space_id ctx.subject_kind w
        ≡ some bindings
      → evaluate permission bindings (some space_id) key (services.clock w) ≡ ok d
      → is_allowed d ≡ true
      → IsGranted services op ctx space_id permission key w
  decided-IsGranted op ctx space_id permission key w bindings d e f g k a =
      let (granted, denied) =
        (evaluate_allows permission (some space_id) key (services.clock w) bindings d k).0
          (ground arith) in
      record {
        scoped = lacks_scope-HasPermission ctx permission e;
        in_directory = f;
        bindings = bindings;
        read = g;
        granted = granted;
        not_denied = denied;
      }

  -- An authorization changes nothing and never returns; it is true only for a permission that is held.
  pub authorize-Ends :
      (op : Operation) (ctx : PrincipalContext) (space_id : ℕ) (permission key : Text) (w : W)
      (Q : Result Stop Bool → W → Type 0)
      → Q (err raises) w
      → Q (ok false) w
      → (IsGranted services op ctx space_id permission key w → Q (ok true) w)
      → Ends (authorize show_uuid services op ctx space_id permission key) w Q
  unfolding authorize
  authorize-Ends op ctx space_id permission key w Q raised refused granted =
      elim (Bool-cases (lacks_scope ctx permission)) [
        | inl e ↦ rw e refused
        | inr e ↦ elim (Bool-cases (scope_matches ctx.api_key_directory_prefix key)) [
          | inr f ↦ rw (e, f) refused
          | inl f ↦
              elim (Option-cases
                (services.bindings_for op.tenant_id op.principal_id space_id ctx.subject_kind w)) [
                  | inl g ↦ rw (e, f, g) raised
                  | inr (bindings, g) ↦
                      elim (Result-cases
                        (evaluate permission bindings (some space_id) key (services.clock w))) [
                          | inr (x, k) ↦ rw (e, f, g, k) raised
                          | inl (d, k) ↦ elim (Bool-cases (is_allowed d)) [
                            | inr a ↦ rw (e, f, g, k, a) refused
                            | inl a ↦
                                rw (e, f, g, k, a)
                                  (granted (
                                    decided-IsGranted op ctx space_id permission key w bindings d e
                                      f g k a))
                          ]
                        ]
                ]
        ]
      ]

  pub require-Ends :
      (op : Operation) (ctx : PrincipalContext) (space_id : ℕ) (permission key : Text) (o : Outcome)
      (w : W) (Q : Result Stop (Unit {0}) → W → Type 0)
      → Q (err raises) w
      → Q (err (returns o)) w
      → (IsGranted services op ctx space_id permission key w → Q (ok tt) w)
      → Ends (require show_uuid services op ctx space_id permission key o) w Q
  unfolding require return_if
  require-Ends op ctx space_id permission key o w Q raised refused granted =
      >>=-After (authorize show_uuid services op ctx space_id permission key)
        (λ g. return_if (not g) o) w Q
        (authorize-Ends op ctx space_id permission key w (After (λ g. return_if (not g) o) Q) raised
          refused granted)

  -- `if not await authorize(permission, key): return outcome`, and the next statement.
  pub require_then-Ends :
      {A : Type 0} (op : Operation) (ctx : PrincipalContext) (space_id : ℕ) (permission key : Text)
      (o : Outcome) (k : Act W A) (w : W) (Q : Result Stop A → W → Type 0)
      → Q (err raises) w
      → Q (err (returns o)) w
      → (IsGranted services op ctx space_id permission key w → Ends k w Q)
      → Ends (require show_uuid services op ctx space_id permission key o >> k) w Q
  require_then-Ends op ctx space_id permission key o k w Q raised refused granted =
      >>-After (require show_uuid services op ctx space_id permission key o) k w Q
        (require-Ends op ctx space_id permission key o w (After (λ _. k) Q) raised refused granted)
