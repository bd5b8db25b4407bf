-- ===== src/Worker/Examples.antt =====
-- The theorems on the worker at concrete inputs: a storage whose calls never fail, as a function.
use s3mp_backend.Prelude.{
  ℕ, Bool, true, false, ◌&&◌, ◌+◌, ◌≡◌, ◌≢◌, refl, inl, inr, Option, none, some, List, [], ◌∷◌,
  Result, ok, err, if◌then◌else◌, arith, Bool-cases, ◌==◌, ap, sym, ◌∙◌,
}
use s3mp_backend.Prelude.Int.{pos}
use s3mp_backend.Prelude.Text.{Text, codes, text_eq, text_eq_sound, text_eq_refl}
use s3mp_backend.Keys.{ProviderTarget}
use s3mp_backend.Authorization.{Binding, Datetime, naive, allow}
use s3mp_backend.Identity.{PrincipalContext, human_context}
use s3mp_backend.Subject.{MembershipState, PrincipalStore, SubjectEvidence, active}
use s3mp_backend.Worker.{
  OperationType, moving, deleting, Operation, Space, ObjectState, done, Services,
}
use s3mp_backend.Worker.Progress.{IsWorking}
use s3mp_backend.Worker.Completion.{IsCarriedOut, relocate_done}
use s3mp_backend.Worker.Effects.{authorize, relocate, delete_keys}
use s3mp_backend.Worker.Execution.{execute}
use s3mp_backend.Worker.Storage.{IsStorage, Ends}
use s3mp_backend.Worker.Relocation.{IsRelocated, relocate-IsRelocated}
use s3mp_backend.Worker.Deletion.{IsDeleted, delete_keys-IsDeleted}
use s3mp_backend.Worker.Authority.{Executed, execute-Executed}

abbrev World : Type 0
World = ProviderTarget → Option ObjectState

abbrev same_target : ProviderTarget → ProviderTarget → Bool
same_target s t = text_eq s.bucket t.bucket && (text_eq s.key t.key && s.version == t.version)

same_target_sound : (s t : ProviderTarget) → same_target s t ≡ true → s ≡ t
same_target_sound s t h =
    let b = text_eq_sound s.bucket t.bucket (ground arith) in
    let k = text_eq_sound s.key t.key (ground arith) in
    let v : s.version ≡ t.version = ground arith in cc

abbrev put : ProviderTarget → Option ObjectState → World → World
put s o w t = if same_target t s then o else w t

abbrev membership : MembershipState
membership = record {
  status = active;
  tenant_status = none;
  principal_enabled = none;
  user_status = none;
  principal_id = some 3;
  expires_at = none;
  authorization_version = pos 2;
}

abbrev principals : PrincipalStore
principals = record {
  get_principal = λ _ _. some true;
  get_membership_state = λ _ _. some membership;
}

abbrev space : Space
space = record {
  bucket = some (codes "data");
  root_prefix = none;
  storage_namespace = some (codes "one");
  provider_target_version = some 1;
  application_id = none;
  profile_version = none;
}

abbrev grants : Text → Binding
grants permission = record {
  id = 1;
  permission = permission;
  effect = allow;
  canonical_prefix = none;
  starts_at = naive (pos 10);
  expires_at = naive (pos 90);
  reason = codes "team";
  storage_space_id = some 7;
}

abbrev services : Services World
services = record {
  get_space = λ _ _ _. some space;
  bindings_for = λ _ _ _ _ _. some (
      grants (codes "files.read")
      ∷ grants (codes "files.write")
      ∷ grants (codes "files.delete")
      ∷ []);
  principals = λ _. principals;
  api_keys = λ _. none;
  clock = λ _. naive (pos 20);
  head = λ t w. (some (w t), w);
  copy = λ s d w. (some tt, put d (w s) w);
  delete = λ s w. (some tt, put s none w);
  record_rename_provider_result = none;
}

same_target_refl : (s : ProviderTarget) → same_target s s ≡ true
same_target_refl s = ground (arith, text_eq_refl s.bucket, text_eq_refl s.key)

put_elsewhere :
    (s t : ProviderTarget) (o : Option ObjectState) (w : World) → t ≢ s → put s o w t ≡ w t
put_elsewhere s t o w n = elim (Bool-cases (same_target t s)) [
  | inl e ↦ absurd (n (same_target_sound t s e))
  | inr e ↦ rw e refl
]

keeps_objects : IsStorage services (λ w. w)
keeps_objects = record {
  head_keeps = λ t w. refl;
  head_answers = λ t w o e. ground arith;
  copy_keeps = λ s d t w n. put_elsewhere d t (w s) w n;
  delete_effect = λ s t w. elim (Bool-cases (same_target t s)) [
    | inl e ↦ inr (same_target_sound t s e, rw e refl)
    | inr e ↦ inl (rw e refl)
  ];
  delete_removes = λ s w u e. rw (same_target_refl s) refl;
  recorder_keeps = λ recorder a b tag w e. absurd (cc e);
}

abbrev show_id : ℕ → Text
show_id n = (n + 200) ∷ []

abbrev operation : OperationType → Operation
operation kind = record {
  id = 9;
  tenant_id = 8;
  principal_id = 3;
  storage_space_id = some 7;
  membership_id = some 4;
  authorization_version = some (pos 2);
  provider_target_version = some 1;
  profile_version = none;
  application_id = none;
  storage_namespace = none;
  operation_type = kind;
  source_key = some (codes "a");
  destination_key = some (codes "b");
  keys = codes "a" ∷ [];
  evidence = record {
    subject_kind = none;
    api_key_id = none;
    application_id = none;
    api_key_directory_prefix = none;
  };
  rename_integrity = none;
}

abbrev source : ProviderTarget
source = record { bucket = codes "data"; key = codes "one/a"; version = 1 }

abbrev destination : ProviderTarget
destination = record { bucket = codes "data"; key = codes "one/b"; version = 1 }

abbrev object : ObjectState
object = record { content_length = some 5; checksum_sha256 = none; etag = none }

abbrev world : World
world = put source (some object) (λ _. none)

abbrev ctx : PrincipalContext
ctx = human_context 8 3 4 (pos 2)

apart_lem : (s t : ProviderTarget) → same_target s t ≡ false → s ≢ t
apart_lem s t h e =
    let clash : true ≡ false = sym (same_target_refl t) ∙ (ap (λ x. same_target x t) (sym e) ∙ h) in
    absurd (cc clash)

apart : source ≢ destination
unfolding text_eq
apart = apart_lem source destination refl

moved : (execute show_id services (operation moving) world).0 ≡ ok done
unfolding execute s3mp_backend.Subject.validate_delayed_subject text_eq
    s3mp_backend.Identity.checked s3mp_backend.Keys.scope_matches
    s3mp_backend.Authorization.evaluate s3mp_backend.Keys.validate_canonical_prefix
    s3mp_backend.Prelude.Text.starts_with s3mp_backend.Prelude.Text.split
    s3mp_backend.Authorization.decide_on s3mp_backend.Authorization.applies
    s3mp_backend.Authorization.as_utc s3mp_backend.Keys.derive_provider_target
    s3mp_backend.Keys.canonical_object_key s3mp_backend.Keys.namespace_of
    s3mp_backend.Prelude.Text.join
moved = refl

moved_there : (execute show_id services (operation moving) world).1 destination ≡ some object
unfolding execute s3mp_backend.Subject.validate_delayed_subject text_eq
    s3mp_backend.Identity.checked s3mp_backend.Keys.scope_matches
    s3mp_backend.Authorization.evaluate s3mp_backend.Keys.validate_canonical_prefix
    s3mp_backend.Prelude.Text.starts_with s3mp_backend.Prelude.Text.split
    s3mp_backend.Authorization.decide_on s3mp_backend.Authorization.applies
    s3mp_backend.Authorization.as_utc s3mp_backend.Keys.derive_provider_target
    s3mp_backend.Keys.canonical_object_key s3mp_backend.Keys.namespace_of
    s3mp_backend.Prelude.Text.join
moved_there = refl

moved_away : (execute show_id services (operation moving) world).1 source ≡ none
unfolding execute s3mp_backend.Subject.validate_delayed_subject text_eq
    s3mp_backend.Identity.checked s3mp_backend.Keys.scope_matches
    s3mp_backend.Authorization.evaluate s3mp_backend.Keys.validate_canonical_prefix
    s3mp_backend.Prelude.Text.starts_with s3mp_backend.Prelude.Text.split
    s3mp_backend.Authorization.decide_on s3mp_backend.Authorization.applies
    s3mp_backend.Authorization.as_utc s3mp_backend.Keys.derive_provider_target
    s3mp_backend.Keys.canonical_object_key s3mp_backend.Keys.namespace_of
    s3mp_backend.Prelude.Text.join
moved_away = refl

deleted : (execute show_id services (operation deleting) world).1 source ≡ none
unfolding execute s3mp_backend.Subject.validate_delayed_subject text_eq
    s3mp_backend.Identity.checked s3mp_backend.Keys.scope_matches
    s3mp_backend.Authorization.evaluate s3mp_backend.Keys.validate_canonical_prefix
    s3mp_backend.Prelude.Text.starts_with s3mp_backend.Prelude.Text.split
    s3mp_backend.Authorization.decide_on s3mp_backend.Authorization.applies
    s3mp_backend.Authorization.as_utc s3mp_backend.Keys.derive_provider_target
    s3mp_backend.Keys.canonical_object_key s3mp_backend.Keys.namespace_of
    s3mp_backend.Prelude.Text.join
deleted = refl

relocate-IsRelocated_example :
    Ends
      (relocate show_id services (operation moving) ctx 7 (codes "a") source destination)
      world
      (IsRelocated (λ (w : World). w) (operation moving) source destination world)
relocate-IsRelocated_example =
    relocate-IsRelocated show_id services (λ w. w) keeps_objects (operation moving) ctx 7
      (codes "a") source destination apart world

delete_keys-IsDeleted_example :
    Ends (delete_keys show_id services (operation deleting) ctx space 7 (codes "a" ∷ [])) world (
      IsDeleted show_id services
        (λ (w : World). w)
        (operation deleting)
        ctx
        space
        7
        (codes "a" ∷ [])
        world)
delete_keys-IsDeleted_example =
    delete_keys-IsDeleted show_id services (λ w. w) (operation deleting) ctx space 7 keeps_objects
      (codes "a" ∷ []) world

execute-Executed_example :
    Executed show_id services
      (λ (w : World). w)
      (operation moving)
      world
      (execute show_id services (operation moving) world).0
      (execute show_id services (operation moving) world).1
execute-Executed_example =
    execute-Executed show_id services (λ w. w) keeps_objects (operation moving) world

found : world source ≡ some object
unfolding text_eq
found = refl

free : world destination ≡ none
unfolding text_eq
free = refl

answers_always : IsWorking services (λ w. w)
answers_always = record {
  head_works = λ t w. refl;
  copy_works = λ s d w. refl;
  copied = λ s d w o e.
      (o, rw (same_target_refl d) e, record { same_length = refl; same_checksum = λ c f. f });
  delete_works = λ t w. refl;
  recorder_works = λ recorder a b tag w e. absurd (cc e);
}

may_delete :
    (v : World)
    → authorize show_id services (operation moving) ctx 7 (codes "files.delete") (codes "a") v
      ≡ (ok true, v)
unfolding authorize s3mp_backend.Keys.scope_matches s3mp_backend.Authorization.evaluate
    s3mp_backend.Keys.validate_canonical_prefix s3mp_backend.Prelude.Text.starts_with
    s3mp_backend.Prelude.Text.split s3mp_backend.Authorization.decide_on
    s3mp_backend.Authorization.applies text_eq s3mp_backend.Authorization.as_utc
may_delete v = refl

relocate_done_example :
    Ends
      (relocate show_id services (operation moving) ctx 7 (codes "a") source destination)
      world
      (IsCarriedOut (λ (w : World). w) (operation moving) source destination object)
relocate_done_example =
    relocate_done show_id services (λ w. w) keeps_objects answers_always (operation moving) refl ctx
      7 (codes "a") may_delete source destination object world found free
