-- ===== src/Command/Authority.antt =====
-- On `AuthorizedFileCommand.create` of files/application/authorized_command.py: what holds of every
-- command that is created.
use s3mp_backend.Prelude.{
  ℕ, true, false, ◌≡◌, refl, sym, some, List, Result, ok, err, inl, inr, arith, Bool-cases,
  Option-cases, Result-cases, subst,
}
use s3mp_backend.Prelude.Text.{Text, codes, text_eq}
use s3mp_backend.Keys.{
  PolicyError, PrefixError, ProviderTarget, canonical_object_key, validate_canonical_prefix,
  derive_provider_target, namespace_of,
}
use s3mp_backend.Keys.Canonical.{IsCanonical}
use s3mp_backend.Keys.Scope.{Extends}
use s3mp_backend.Keys.Target.{derive-IsContained}
use s3mp_backend.Authorization.{
  Datetime, allow, deny, Binding, AuthorizationDecision, evaluate, text_in,
}
use s3mp_backend.Authorization.Decisions.{MatchIn, evaluate_allows}
use s3mp_backend.Identity.{PrincipalContext}
use s3mp_backend.Command.{
  StorageSpace, Request, Payload, AuthorizedFileCommand, as_policy, as_prefix, is_application,
  directory_of, scoped_key, scope_missing, require_allow, authorize, create, text_or_empty,
  version_of, command_of,
}
use s3mp_backend.Command.Scope.{Within, scoped_key-Within}

-- The scopes of the context name the action, if it is an application's.
abbrev pub HasScope : PrincipalContext → Text → Type 0
HasScope c action =
    is_application c ≡ true
    → (scopes : List Text) × (c.api_key_scopes ≡ some scopes) × (text_in action scopes ≡ true)

scope-HasScope :
    (c : PrincipalContext) (action : Text) → scope_missing c action ≡ false → HasScope c action
scope-HasScope c action h a = elim (Option-cases c.api_key_scopes) [
  | inl e ↦ absurd (cc (rw (a, e) at h))
  | inr (scopes, e) ↦ (scopes, e, ground (arith, rw (a, e) at h))
]

policy_returned : {A : Type 0} (r : Result PolicyError A) {a : A} → as_policy r ≡ ok a → r ≡ ok a
policy_returned (ok x) h = cc
policy_returned (err e) h = absurd (cc)

prefix_returned : {A : Type 0} (r : Result PrefixError A) {a : A} → as_prefix r ≡ ok a → r ≡ ok a
prefix_returned (ok x) h = cc
prefix_returned (err e) h = absurd (cc)

require-allow :
    (c : PrincipalContext) (bindings : List Binding) (d : AuthorizationDecision) {u : Unit {0}}
    → require_allow c bindings d ≡ ok u
    → d.decision ≡ allow
unfolding require_allow
require-allow c bindings d h = ground arith

module _ {Json : Type 0} (show_uuid : ℕ → Text) (sorted : List Text → List Text)
    (digest_json : Payload Json → Text) (c : PrincipalContext) (space : StorageSpace)
    (bindings : List Binding) (now : Datetime) where
  -- What holds of a command.
  pub record IsAuthorized (cmd : AuthorizedFileCommand) : Type 0 where
    pub granted : MatchIn cmd.action (some cmd.storage_space_id) cmd.relative_key now allow bindings
    pub not_denied :
        ¬ MatchIn cmd.action (some cmd.storage_space_id) cmd.relative_key now deny bindings
    pub scoped : HasScope c cmd.action
    pub canonical : IsCanonical cmd.physical_key
    pub in_namespace :
        Extends
          (namespace_of show_uuid c.tenant_id cmd.storage_space_id space.storage_namespace)
          cmd.physical_key
    pub same_tenant : cmd.tenant_id ≡ c.tenant_id
    pub same_space : cmd.storage_space_id ≡ space.id

  derived : Text → Result PolicyError ProviderTarget
  derived rel =
      derive_provider_target show_uuid c.tenant_id space.id space.bucket rel
        (text_or_empty space.root_prefix) space.storage_namespace
        (version_of space.provider_target_version)

  made :
      (request : Request Json) (rel : Text) (target : ProviderTarget) (d : AuthorizationDecision)
      → scope_missing c request.action ≡ false
      → derived rel ≡ ok target
      → evaluate request.action bindings (some space.id) rel now ≡ ok d
      → d.decision ≡ allow
      → IsAuthorized (command_of show_uuid sorted digest_json c space request now rel target d)
  unfolding derived
  made request rel target d f e g k =
      let (granted, not_denied) =
        (evaluate_allows request.action (some space.id) rel now bindings d g).0 k in
      let (canonical, inside, _) =
        derive-IsContained show_uuid c.tenant_id space.id space.bucket rel
          (text_or_empty space.root_prefix) space.storage_namespace
          (version_of space.provider_target_version) target e in
      record {
        granted = granted;
        not_denied = not_denied;
        scoped = scope-HasScope c request.action f;
        canonical = canonical;
        in_namespace = inside;
        same_tenant = refl;
        same_space = refl;
      }

  authorize-IsAuthorized :
      (request : Request Json) (rel : Text) (cmd : AuthorizedFileCommand)
      → authorize show_uuid sorted digest_json c space bindings request now rel ≡ ok cmd
      → IsAuthorized cmd × (cmd.relative_key ≡ rel) × (cmd.action ≡ request.action)
  unfolding authorize derived
  authorize-IsAuthorized request rel cmd h = elim (Result-cases (as_policy (derived rel))) [
    | inr (x, e) ↦ absurd (cc (rw (e, authorize) at h))
    | inl (target, e) ↦ elim (Bool-cases (scope_missing c request.action)) [
      | inl f ↦ absurd (cc (rw (e, f, authorize) at h))
      | inr f ↦
          elim (Result-cases
            (as_prefix (evaluate request.action bindings (some space.id) rel now))) [
              | inr (x, g) ↦ absurd (cc (rw (e, f, g, authorize) at h))
              | inl (d, g) ↦ elim (Result-cases (require_allow c bindings d)) [
                | inr (x, k) ↦ absurd (cc (rw (e, f, g, k, authorize) at h))
                | inl (u, k) ↦
                    subst
                      (λ (x : AuthorizedFileCommand).
                        IsAuthorized x × (x.relative_key ≡ rel) × (x.action ≡ request.action))
                      {x = _} {y = cmd} (cc (rw (e, f, g, k, authorize) at h))
                      (
                        made request rel target d f (policy_returned (derived rel) e)
                            (prefix_returned
                              (evaluate request.action bindings (some space.id) rel now) g)
                            (require-allow c bindings d k),
                        refl,
                        refl,
                      )
              ]
            ]
    ]
  ]

  -- A command that is created is for an action which some binding in force for its relative key allows
  -- and none denies, which an API key's scopes name, and which stays in the API key's directory; its
  -- provider key is canonical and lies below the namespace of its tenant and its storage space.
  pub create-IsAuthorized :
      (request : Request Json) (cmd : AuthorizedFileCommand)
      → create show_uuid sorted digest_json c space bindings request now ≡ ok cmd
      → IsAuthorized cmd × Within (directory_of c) cmd.relative_key × (cmd.action ≡ request.action)
  unfolding create
  create-IsAuthorized request cmd h =
      elim (Result-cases (
        as_policy (
          canonical_object_key request.relative_key
            (text_eq request.action (codes "files.list"))))) [
              | inr (x, e) ↦ absurd (cc (rw (e, create) at h))
              | inl (key, e) ↦
                  elim (Result-cases
                    (scoped_key (directory_of c) request.resolved_relative_key key)) [
                      | inr (x, f) ↦ absurd (cc (rw (e, f, create) at h))
                      | inl (rel, f) ↦
                          elim (Result-cases (as_prefix (validate_canonical_prefix rel))) [
                            | inr (x, g) ↦ absurd (cc (rw (e, f, g, create) at h))
                            | inl (u, g) ↦
                                let (authorized, same, action) =
                                  authorize-IsAuthorized request rel cmd
                                    (rw (e, f, g, create) at h) in
                                (
                                  authorized,
                                  subst (Within (directory_of c)) (sym same) (
                                      scoped_key-Within (directory_of c)
                                        request.resolved_relative_key key rel f),
                                  action,
                                )
                          ]
                    ]
            ]
