-- ===== src/Authorization.antt =====
-- authorization/domain/evaluator.py and delegation.py, under src/s3mp/: role bindings, the decision
-- on a request, and the checks on grants and delegations.
pub mod Decisions
pub mod Delegation
mod Examples
use s3mp_backend.Prelude.{
  ℕ, Bool, true, false, not, ◌&&◌, ◌||◌, Option, none, some, List, [], ◌∷◌, ◌++◌, map, Result, ok,
  err, ◌>>=◌, ◌>>◌, raise_if, reraise, if◌then◌else◌, ◌==◌, any, all, filter,
}
use s3mp_backend.Prelude.Int.{ℤ, ◌-ℤ◌, leb_ℤ, ltb_ℤ}
use s3mp_backend.Prelude.Text.{Text, codes, text_eq, starts_with, strip, is_empty}
use s3mp_backend.Keys.{slash, PrefixError, validate_canonical_prefix, scope_matches}

-- A `datetime`: a wall-clock time in microseconds, and its offset from UTC if it has a time zone.
pub data Datetime : Type 0 where
  naive : ℤ → Datetime
  aware : ℤ → ℤ → Datetime

-- `_as_utc`, as the instant in microseconds.
unfoldable pub as_utc : Datetime → ℤ
as_utc (naive wall) = wall
as_utc (aware wall offset) = wall -ℤ offset

pub data Decision : Type 0 where
  allow deny : Decision

-- The reason codes of sources and decisions.
pub data ReasonCode : Type 0 where
  platform_tenant_admin binding_match default_deny explicit_deny binding_allow : ReasonCode

pub record Binding : Type 0 where
  pub id : ℕ
  pub permission : Text
  pub effect : Decision
  pub canonical_prefix : Option Text
  pub starts_at : Datetime
  pub expires_at : Datetime
  pub reason : Text
  pub storage_space_id : Option ℕ

pub record DecisionSource : Type 0 where
  pub binding_id : Option ℕ
  pub effect : Decision
  pub reason_code : ReasonCode

pub record AuthorizationDecision : Type 0 where
  pub decision : Decision
  pub reason_code : ReasonCode
  pub sources : List DecisionSource

-- `binding.storage_space_id is None or binding.storage_space_id == storage_space_id`
abbrev pub space_matches : Option ℕ → Option ℕ → Bool
space_matches none request = true
space_matches (some s) none = false
space_matches (some s) (some r) = s == r

-- The condition of the comprehension `matches`.
unfoldable pub applies : Text → Option ℕ → Text → ℤ → Binding → Bool
applies permission space_id object_key current b =
    text_eq b.permission permission
    && (leb_ℤ (as_utc b.starts_at) current
        && (ltb_ℤ current (as_utc b.expires_at)
            && (space_matches b.storage_space_id space_id
                && scope_matches b.canonical_prefix object_key)))

abbrev pub is_deny : Binding → Bool
is_deny b = elim b.effect [ allow ↦ false | deny ↦ true ]

abbrev pub is_allow : Binding → Bool
is_allow b = elim b.effect [ allow ↦ true | deny ↦ false ]

abbrev pub source_of : Binding → DecisionSource
source_of b = record {
  binding_id = some b.id;
  effect = b.effect;
  reason_code =
      if starts_with b.reason (codes "platform tenant-admin")
      then platform_tenant_admin
      else binding_match;
}

-- The part of `evaluate` after the comprehension.
unfoldable pub decide_on : List Binding → AuthorizationDecision
decide_on matches =
    if any is_deny matches
    then record { decision = deny; reason_code = explicit_deny; sources = map source_of matches }
    else if any is_allow matches
    then record { decision = allow; reason_code = binding_allow; sources = map source_of matches }
    else record {
      decision = deny;
      reason_code = default_deny;
      sources = record { binding_id = none; effect = deny; reason_code = default_deny } ∷ [];
    }

-- `now` is the caller's, or the clock's where the caller gives none.
unfoldable pub evaluate :
    Text → List Binding → Option ℕ → Text → Datetime → Result PrefixError AuthorizationDecision
evaluate permission bindings space_id object_key now = do
  validate_canonical_prefix object_key
  ok (decide_on (filter (applies permission space_id object_key (as_utc now)) bindings))

pub record DelegationScope : Type 0 where
  pub permissions : List Text
  pub canonical_prefix : Option Text

-- `_prefix_contains`
unfoldable pub prefix_contains : Option Text → Option Text → Bool
prefix_contains none child = true
prefix_contains (some []) child = true
prefix_contains (some (c ∷ p)) none = false
prefix_contains (some (c ∷ p)) (some child) =
    text_eq child (c ∷ p) || starts_with child ((c ∷ p) ++ (slash ∷ []))

abbrev pub text_in : Text → List Text → Bool
text_in t ts = any (λ u. text_eq u t) ts

-- `xs.issubset(ys)`
abbrev pub subset : List Text → List Text → Bool
subset xs ys = all (λ x. text_in x ys) xs

-- The `ValueError`s of delegation.py.
pub data GrantError : Type 0 where
  self_grant no_reason not_comparable not_future not_canonical permissions_exceed prefix_exceeds :
      GrantError
  prefix_error : PrefixError → GrantError

-- `a <= b`; a time without a time zone cannot be compared with one that has one: `TypeError`.
abbrev pub not_after : Datetime → Datetime → Option Bool
not_after (naive a) (naive b) = some (leb_ℤ a b)
not_after (naive a) (aware b offset) = none
not_after (aware a offset) (naive b) = none
not_after (aware a offset) (aware b offset') = some (leb_ℤ (a -ℤ offset) (b -ℤ offset'))

-- `if expires_at <= current: raise …`
abbrev pub require_future : Datetime → Datetime → Result GrantError (Unit {0})
require_future expires_at current = elim (not_after expires_at current) [
  | none ↦ err not_comparable
  | some past ↦ raise_if past not_future
]

-- The `validate_direct_grant` of a permission to a principal, at the time `current`.
unfoldable pub validate_direct_grant :
    ℕ → ℕ → Text → Text → Datetime → Datetime → Result GrantError (Unit {0})
validate_direct_grant actor target permission reason expires_at current = do
  raise_if (actor == target) self_grant
  raise_if (is_empty (strip reason)) no_reason
  require_future expires_at current
  raise_if (is_empty permission || not (text_eq permission (strip permission))) not_canonical

-- `grant.canonical_prefix or ""`
abbrev pub or_empty : Option Text → Text
or_empty none = []
or_empty (some p) = p

abbrev pub as_grant_error : {A : Type 0} → Result PrefixError A → Result GrantError A
as_grant_error (ok a) = ok a
as_grant_error (err e) = err (prefix_error e)

unfoldable pub validate_delegated_scope :
    DelegationScope → DelegationScope → Result GrantError (Unit {0})
validate_delegated_scope grant delegator = do
  as_grant_error (validate_canonical_prefix (or_empty grant.canonical_prefix))
  raise_if (not (subset grant.permissions delegator.permissions)) permissions_exceed
  raise_if (not (prefix_contains delegator.canonical_prefix grant.canonical_prefix)) prefix_exceeds
