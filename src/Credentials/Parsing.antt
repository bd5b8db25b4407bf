-- ===== src/Credentials/Parsing.antt =====
-- On `parse_credential` of applications/domain/credentials.py.
use s3mp_backend.Prelude.{
  true, false, ◌||◌, ◌≡◌, ◌≢◌, refl, ap, ◌∙◌, ◌↔◌, inl, inr, Option, none, some, [], ◌∷◌, ◌++◌, ok,
  ◌==◌, length, drop, drop-append, arith, Bool-cases, Option-cases, any,
}
use s3mp_backend.Prelude.Text.{
  Text, starts_with, starts_with-split, starts_with-append, is_empty, is_empty_iff,
}
use s3mp_backend.Credentials.{
  dot, scheme, credential_of, partition_dot, checked_parts, parse_credential,
}

-- A key id and a secret that a credential can carry.
pub record IsCredential (value key_id secret : Text) : Type 0 where
  pub written : value ≡ scheme ++ credential_of key_id secret
  pub no_dot : any (λ c. c == dot) key_id ≡ false
  pub key_id_given : key_id ≢ []
  pub secret_given : secret ≢ []

partition-inv :
    (s key_id secret : Text)
    → partition_dot s ≡ some (key_id, secret)
    → (s ≡ credential_of key_id secret) × (any (λ c. c == dot) key_id ≡ false)
unfolding partition_dot
partition-inv [] k r h = absurd (cc)
partition-inv (c ∷ s) k r h = elim (Bool-cases (c == dot)) [
  | inl e ↦
      let q : some ([], s) ≡ some (k, r) = rw (e, partition_dot) at h in
      let k_nil : [] ≡ k = cc in
      let same : s ≡ r = cc in
      let first : c ≡ dot = ground arith in (rw (← k_nil, ← same, first) refl, rw (← k_nil) refl)
  | inr e ↦ elim (Option-cases (partition_dot s)) [
    | inl f ↦ absurd (cc (rw (e, f, partition_dot) at h))
    | inr ((k', r'), f) ↦
        let q : some (c ∷ k', r') ≡ some (k, r) = rw (e, f, partition_dot) at h in
        let same_k : c ∷ k' ≡ k = cc in
        let same_r : r' ≡ r = cc in
        let (written, free) = partition-inv s k' r' f in
        (
          rw (← same_k, ← same_r) (ap (λ (x : Text). c ∷ x) written),
          rw (← same_k) (rw (e, free) refl),
        )
  ]
]

partition_credential :
    (k r : Text) → any (λ c. c == dot) k ≡ false → partition_dot (credential_of k r) ≡ some (k, r)
unfolding partition_dot
partition_credential [] r h = refl
partition_credential (c ∷ k) r h =
    let first : (c == dot) ≡ false = ground arith in
    rw (first, partition_dot) (rw (partition_credential k r (ground arith)) refl)

checked-inv :
    (o : Option (Text × Text)) (k r : Text)
    → checked_parts o ≡ ok (k, r)
    → (o ≡ some (k, r)) × (k ≢ []) × (r ≢ [])
unfolding checked_parts
checked-inv none k r h = absurd (cc)
checked-inv (some (k', r')) k r h = elim (Bool-cases (is_empty k' || is_empty r')) [
  | inl e ↦ absurd (cc (rw (e, checked_parts) at h))
  | inr e ↦
      let same_k : k' ≡ k = cc (rw (e, checked_parts) at h) in
      let same_r : r' ≡ r = cc (rw (e, checked_parts) at h) in
      (
        rw (same_k, same_r) refl,
        rw (← same_k) ((is_empty_iff k').0 (ground arith)),
        rw (← same_r) ((is_empty_iff r').0 (ground arith)),
      )
]

checked_given : (k r : Text) → k ≢ [] → r ≢ [] → checked_parts (some (k, r)) ≡ ok (k, r)
unfolding checked_parts
checked_given [] r n m = absurd (n refl)
checked_given (c ∷ k) [] n m = absurd (m refl)
checked_given (c ∷ k) (d ∷ r) n m = refl

-- A value is parsed to a key id and a secret exactly when it is the scheme followed by the credential
-- that is issued for them, neither is empty and the key id has no dot.
pub parse_credential_iff :
    (value key_id secret : Text)
    → (parse_credential value ≡ ok (key_id, secret)) ↔ IsCredential value key_id secret
unfolding parse_credential
parse_credential_iff value k r = (
  λ h. elim (Bool-cases (starts_with value scheme)) [
    | inr e ↦ absurd (cc (rw (e, parse_credential) at h))
    | inl e ↦
        let (rest, written) = starts_with-split value scheme e in
        let cut : drop (length scheme) value ≡ rest =
          ap (drop (length scheme)) written ∙ drop-append scheme rest in
        let (parts, k_given, r_given) =
          checked-inv (partition_dot rest) k r (rw (e, cut, parse_credential) at h) in
        let (joined, free) = partition-inv rest k r parts in
        record {
          written = written ∙ ap (λ (x : Text). scheme ++ x) joined;
          no_dot = free;
          key_id_given = k_given;
          secret_given = r_given;
        }
  ],
  λ c.
      let e : starts_with value scheme ≡ true =
        ap (λ (x : Text). starts_with x scheme) c.written
        ∙ starts_with-append scheme (credential_of k r) in
      let cut : drop (length scheme) value ≡ credential_of k r =
        ap (drop (length scheme)) c.written ∙ drop-append scheme (credential_of k r) in
      rw (e, cut, partition_credential k r c.no_dot, parse_credential)
        (checked_given k r c.key_id_given c.secret_given),
)
