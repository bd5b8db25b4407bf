-- ===== src/Command/Examples.antt =====
-- The theorems on commands at concrete inputs.
use s3mp_backend.Prelude.{ℕ, ◌≡◌, ◌+◌, refl, none, some, true, false, List, [], ◌∷◌, ok}
use s3mp_backend.Prelude.Int.{pos}
use s3mp_backend.Prelude.Text.{Text, codes}
use s3mp_backend.Authorization.{Binding, naive, allow, binding_allow, source_of}
use s3mp_backend.Identity.{PrincipalContext, application_context}
use s3mp_backend.Command.{
  StorageSpace, Request, Payload, AuthorizedFileCommand, directory_of, create, command_of,
}
use s3mp_backend.Command.Scope.{Within}
use s3mp_backend.Command.Authority.{IsAuthorized, create-IsAuthorized}

abbrev show_id : ℕ → Text
show_id n = (n + 200) ∷ []

abbrev unsorted : List Text → List Text
unsorted xs = xs

abbrev hashed : Payload ℕ → Text
hashed p = p.relative_key

abbrev context : PrincipalContext
context =
    application_context 8 3 (pos 1) (some 5) (some 6) (some (codes "files.write" ∷ []))
      (some (codes "team"))

abbrev space : StorageSpace
space = record {
  id = 7;
  bucket = codes "data";
  root_prefix = none;
  storage_namespace = some (codes "apps/one");
  provider_target_version = some 1;
}

abbrev writer : Binding
writer = record {
  id = 1;
  permission = codes "files.write";
  effect = allow;
  canonical_prefix = some (codes "team");
  starts_at = naive (pos 10);
  expires_at = naive (pos 90);
  reason = codes "team";
  storage_space_id = some 7;
}

abbrev request : Request ℕ
request = record {
  relative_key = codes "a.txt";
  action = codes "files.write";
  request_id = codes "r";
  idempotency_key = codes "k";
  semantics = none;
  resolved_relative_key = false;
}

abbrev command : AuthorizedFileCommand
command =
    command_of show_id unsorted hashed context space request (naive (pos 20)) (codes "team/a.txt")
      (record { bucket = codes "data"; key = codes "apps/one/team/a.txt"; version = 1 })
      (record { decision = allow; reason_code = binding_allow; sources = source_of writer ∷ [] })

created :
    create show_id unsorted hashed context space (writer ∷ []) request (naive (pos 20)) ≡ ok command
unfolding create s3mp_backend.Keys.canonical_object_key s3mp_backend.Keys.validate_canonical_prefix
    s3mp_backend.Prelude.Text.starts_with s3mp_backend.Prelude.Text.split
    s3mp_backend.Keys.derive_provider_target s3mp_backend.Prelude.Text.text_eq
    s3mp_backend.Keys.namespace_of s3mp_backend.Authorization.evaluate
    s3mp_backend.Authorization.decide_on s3mp_backend.Authorization.applies
    s3mp_backend.Authorization.as_utc s3mp_backend.Keys.scope_matches s3mp_backend.Prelude.Text.join
created = refl

create-IsAuthorized_example :
    IsAuthorized show_id unsorted hashed context space (writer ∷ []) (naive (pos 20)) command
    × Within (directory_of context) command.relative_key
    × (command.action ≡ request.action)
create-IsAuthorized_example =
    create-IsAuthorized show_id unsorted hashed context space (writer ∷ []) (naive (pos 20)) request
      command created
