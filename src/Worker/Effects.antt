-- ===== src/Worker/Effects.antt =====
-- The body of `FileOperationWorker._execute` in files/application/operation_worker.py: from the checks
-- on the subject and the space to the effects on the object storage.
use s3mp_backend.Prelude.{
  ℕ, Bool, true, false, not, ◌&&◌, Option, none, some, List, [], ◌∷◌, ok, err, if◌then◌else◌, ◌==◌,
  is_none,
}
use s3mp_backend.Prelude.Int.{ℤ}
use s3mp_backend.Prelude.Text.{Text, codes}
use s3mp_backend.Keys.{ProviderTarget, scope_matches, derive_provider_target}
use s3mp_backend.Authorization.{allow, deny, AuthorizationDecision, evaluate, text_in, or_empty}
use s3mp_backend.Identity.{PrincipalContext, human, application}
use s3mp_backend.Subject.{opt_is, same_text}
use s3mp_backend.FileRef.{normalized_sha256}
use s3mp_backend.Worker.{
  OperationType, copying, moving, renaming, deleting, other, Operation, Space, ObjectState, Outcome,
  because, done, Services, returns, raises, Act, ◌>>=◌, ◌>>◌, pure, return_if, wait_for,
  wait_or_return, cancelled, failed, retry_wait, partial_failure, operation_keys_missing,
  authorization_revoked, storage_target_unverifiable, source_object_missing,
  copy_verification_failed, rename_content_length_mismatch, rename_checksum_mismatch,
  source_delete_authorization_revoked, source_delete_failed, unsupported_operation,
}

abbrev pub is_renaming : OperationType → Bool
is_renaming renaming = true
is_renaming copying = false
is_renaming moving = false
is_renaming deleting = false
is_renaming other = false

-- `operation["operation_type"] in {"move", "rename"}`
abbrev pub removes_source : OperationType → Bool
removes_source moving = true
removes_source renaming = true
removes_source copying = false
removes_source deleting = false
removes_source other = false

-- `int(d.get(key, default))`
abbrev pub default_to : ℕ → Option ℕ → ℕ
default_to d none = d
default_to d (some n) = n

abbrev version_or : ℤ → Option ℤ → ℤ
version_or d none = d
version_or d (some v) = v

-- `getattr(state, "content_length", None)`, and the checksum and the tag likewise; `state` may be `None`.
abbrev pub size_of : Option ObjectState → Option ℕ
size_of none = none
size_of (some o) = o.content_length

abbrev pub checksum_of : Option ObjectState → Option Text
checksum_of none = none
checksum_of (some o) = o.checksum_sha256

-- `a is not None and b != a`
abbrev pub is_unlike : Option ℕ → Option ℕ → Bool
is_unlike none actual = false
is_unlike (some n) actual = not (opt_is actual n)

abbrev pub is_unlike_text : Option Text → Option Text → Bool
is_unlike_text none actual = false
is_unlike_text (some t) actual = not (same_text actual (some t))

-- `a is not None and b is not None and a != b`
abbrev pub sizes_differ : Option ℕ → Option ℕ → Bool
sizes_differ none b = false
sizes_differ (some m) none = false
sizes_differ (some m) (some n) = not (m == n)

abbrev pub expected_size : Operation → Option ℕ
expected_size op = elim op.rename_integrity [ none ↦ none | some r ↦ r.content_length ]

-- `normalized_sha256(rename_integrity.get("checksum"))`
abbrev pub expected_checksum : Operation → Option Text
expected_checksum op = elim op.rename_integrity [
  | none ↦ normalized_sha256 none
  | some r ↦ normalized_sha256 r.checksum
]

-- `expected_checksum and destination_checksum != expected_checksum`
abbrev pub misses : Option Text → Option Text → Bool
misses none actual = false
misses (some []) actual = false
misses (some (c ∷ t)) actual = not (same_text actual (some (c ∷ t)))

-- `ctx.subject_kind == "application" and permission not in (ctx.api_key_scopes or frozenset())`
abbrev pub lacks_scope : PrincipalContext → Text → Bool
lacks_scope ctx permission = elim ctx.subject_kind [
  | human ↦ false
  | application ↦ elim ctx.api_key_scopes [
    | none ↦ true
    | some scopes ↦ not (text_in permission scopes)
  ]
]

abbrev pub is_allowed : AuthorizationDecision → Bool
is_allowed d = elim d.decision [ allow ↦ true | deny ↦ false ]

abbrev pub found_or_stop : {W : Type 0} → Option ObjectState → Act W ObjectState
found_or_stop none u = (err (returns (because retry_wait copy_verification_failed)), u)
found_or_stop (some d) u = (ok d, u)

-- `str(uuid)` is not this program's.
module _ {W : Type 0} (show_uuid : ℕ → Text) (services : Services W) where
  -- The local `target`; a `KeyError` is that of `space["bucket"]`.
  unfoldable pub target_of : Operation → Space → ℕ → Text → Option ProviderTarget
  target_of op space space_id key = elim space.bucket [
    | none ↦ none
    | some bucket ↦
        elim (derive_provider_target show_uuid op.tenant_id space_id bucket key
          (or_empty space.root_prefix) space.storage_namespace
          (default_to 1 space.provider_target_version)) [ ok target ↦ some target | err _ ↦ none ]
  ]

  -- The local `authorize`.
  unfoldable pub authorize : Operation → PrincipalContext → ℕ → Text → Text → Act W Bool
  authorize op ctx space_id permission key w =
      if lacks_scope ctx permission
      then (ok false, w)
      else if not (scope_matches ctx.api_key_directory_prefix key)
      then (ok false, w)
      else elim (services.bindings_for op.tenant_id op.principal_id space_id ctx.subject_kind w) [
        | none ↦ (err raises, w)
        | some bindings ↦
            elim (evaluate permission bindings (some space_id) key (services.clock w)) [
              | err _ ↦ (err raises, w)
              | ok d ↦ (ok (is_allowed d), w)
            ]
      ]

  -- `if not await authorize(permission, key): return outcome`
  unfoldable pub require :
      Operation → PrincipalContext → ℕ → Text → Text → Outcome → Act W (Unit {0})
  unfolding authorize ◌>>=◌ return_if
  require op ctx space_id permission key outcome = do
    granted ← authorize op ctx space_id permission key
    return_if (not granted) outcome

  -- `if target(key) is None: return …`
  unfoldable pub require_target : Operation → Space → ℕ → Text → Act W ProviderTarget
  unfolding target_of
  require_target op space space_id key w = elim (target_of op space space_id key) [
    | none ↦ (err (returns (because cancelled storage_target_unverifiable)), w)
    | some target ↦ (ok target, w)
  ]

  -- The part under `if destination_state is None:`, and the destination's state after it.
  unfoldable pub ensure_copied :
      ProviderTarget → ProviderTarget → Option ObjectState → Option ObjectState → Act W ObjectState
  unfolding ◌>>=◌ ◌>>◌ wait_for
  ensure_copied source destination source_state (some d) w = (ok d, w)
  ensure_copied source destination none none w =
      (err (returns (because failed source_object_missing)), w)
  ensure_copied source destination (some s) none w =
      (wait_for (services.copy source destination)
          >> (wait_for (services.head destination) >>= found_or_stop))
        w

  -- The part of a rename's checks: its checksums, and the record of the result.
  unfoldable pub record_result : Operation → ObjectState → Act W (Unit {0})
  unfolding wait_for
  record_result op d w = elim services.record_rename_provider_result [
    | none ↦ (ok tt, w)
    | some recorder ↦ wait_for (recorder op.tenant_id op.id d.etag) w
  ]

  unfoldable pub verify_rename : Operation → Option ObjectState → ObjectState → Act W (Unit {0})
  unfolding ◌>>◌ return_if record_result
  verify_rename op source_state d =
      if is_renaming op.operation_type
      then (return_if (misses (expected_checksum op) d.checksum_sha256)
            (because retry_wait rename_checksum_mismatch)
          >> (return_if (is_unlike_text (checksum_of source_state) d.checksum_sha256)
                (because retry_wait rename_checksum_mismatch)
              >> record_result op d))
      else pure tt

  -- The checks on a destination that is there.
  unfoldable pub verify : Operation → Option ObjectState → ObjectState → Act W (Unit {0})
  unfolding ◌>>◌ return_if verify_rename
  verify op source_state d =
      return_if (is_renaming op.operation_type && is_unlike (expected_size op) d.content_length)
        (because retry_wait rename_content_length_mismatch)
      >> (return_if (sizes_differ (size_of source_state) d.content_length)
            (because retry_wait copy_verification_failed)
          >> verify_rename op source_state d)

  -- The deletion inside its own `try`.
  unfoldable pub delete_source : ProviderTarget → Act W (Unit {0})
  unfolding wait_or_return
  delete_source source =
      wait_or_return (because partial_failure source_delete_failed) (services.delete source)

  -- The last part of a move or a rename.
  unfoldable pub remove_source :
      Operation
      → PrincipalContext
      → ℕ
      → Text
      → ProviderTarget
      → Option ObjectState
      → Act W (Unit {0})
  unfolding ◌>>◌ require return_if delete_source
  remove_source op ctx space_id source source_target source_state =
      if removes_source op.operation_type
      then (return_if (is_none source_state) done
          >> (require op ctx space_id (codes "files.delete") source
                (because partial_failure source_delete_authorization_revoked)
              >> delete_source source_target))
      else pure tt

  -- The effects of a copy, a move or a rename, between two targets.
  unfoldable pub relocate :
      Operation → PrincipalContext → ℕ → Text → ProviderTarget → ProviderTarget → Act W (Unit {0})
  unfolding ◌>>=◌ ◌>>◌ wait_for ensure_copied verify remove_source
  relocate op ctx space_id source source_target destination_target = do
    source_state ← wait_for (services.head source_target)
    destination_state ← wait_for (services.head destination_target)
    d ← ensure_copied source_target destination_target source_state destination_state
    verify op source_state d
    remove_source op ctx space_id source source_target source_state

  -- A rename needs `files.move` as well.
  unfoldable pub authorize_move : Operation → PrincipalContext → ℕ → Text → Act W (Unit {0})
  unfolding require
  authorize_move op ctx space_id source =
      if is_renaming op.operation_type
      then require op ctx space_id (codes "files.move") source
          (because cancelled authorization_revoked)
      else pure tt

  -- What follows the authorization.
  unfoldable pub relocate_keys :
      Operation → PrincipalContext → Space → ℕ → Text → Text → Act W (Unit {0})
  unfolding ◌>>=◌ require_target relocate
  relocate_keys op ctx space space_id source destination = do
    source_target ← require_target op space space_id source
    destination_target ← require_target op space space_id destination
    relocate op ctx space_id source source_target destination_target

  unfoldable pub transfer :
      Operation → PrincipalContext → Space → ℕ → Text → Text → Act W (Unit {0})
  unfolding ◌>>◌ require authorize_move relocate_keys
  transfer op ctx space space_id source destination = do
    require op ctx space_id (codes "files.read") source (because cancelled authorization_revoked)
    require op ctx space_id (codes "files.write") destination
        (because cancelled authorization_revoked)
    authorize_move op ctx space_id source
    relocate_keys op ctx space space_id source destination

  -- `if not source or not destination`
  unfoldable pub transfer_keys :
      Operation → PrincipalContext → Space → ℕ → Option Text → Option Text → Act W (Unit {0})
  unfolding transfer
  transfer_keys op ctx space space_id (some (a ∷ s)) (some (b ∷ t)) w =
      transfer op ctx space space_id (a ∷ s) (b ∷ t) w
  transfer_keys op ctx space space_id _ _ w =
      (err (returns (because failed operation_keys_missing)), w)

  -- The loop of a deletion.
  unfoldable pub delete_keys :
      Operation → PrincipalContext → Space → ℕ → List Text → Act W (Unit {0})
  unfolding ◌>>=◌ ◌>>◌ require require_target wait_for
  delete_keys op ctx space space_id [] w = (ok tt, w)
  delete_keys op ctx space space_id (key ∷ keys) w =
      (require op ctx space_id (codes "files.delete") key (because cancelled authorization_revoked)
          >> (require_target op space space_id key >>= λ target.
              wait_for (services.delete target) >> delete_keys op ctx space space_id keys))
        w

  -- The body of the outer `try`, for the operation's type.
  unfoldable pub perform :
      OperationType → Operation → PrincipalContext → Space → ℕ → Act W (Unit {0})
  unfolding transfer_keys delete_keys
  perform copying op ctx space space_id w =
      transfer_keys op ctx space space_id op.source_key op.destination_key w
  perform moving op ctx space space_id w =
      transfer_keys op ctx space space_id op.source_key op.destination_key w
  perform renaming op ctx space space_id w =
      transfer_keys op ctx space space_id op.source_key op.destination_key w
  perform deleting op ctx space space_id w = delete_keys op ctx space space_id op.keys w
  perform other op ctx space space_id w = (err (returns (because failed unsupported_operation)), w)
