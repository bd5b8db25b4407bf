-- ===== src/Worker/Deletion.antt =====
-- On the branch of `_execute` in files/application/operation_worker.py that deletes.
use s3mp_backend.Prelude.{
  ℕ, ◌≡◌, refl, sym, ◌∙◌, ◌⊎◌, inl, inr, Option, none, some, List, [], ◌∷◌, Result, err, In, subst,
}
use s3mp_backend.Prelude.Text.{Text, codes}
use s3mp_backend.Keys.{ProviderTarget}
use s3mp_backend.Identity.{PrincipalContext}
use s3mp_backend.Worker.{
  Operation, Space, ObjectState, because, Services, Stop, returns, raises, ◌>>=◌, ◌>>◌, wait_for,
  cancelled, authorization_revoked, storage_target_unverifiable,
}
use s3mp_backend.Worker.Effects.{target_of, require_target, delete_keys}
use s3mp_backend.Worker.Storage.{IsStorage, Ends, wait_then-Ends}
use s3mp_backend.Worker.Granted.{IsGranted, require_then-Ends}
use s3mp_backend.Worker.Calls.{Run, begun, removed, Run-join, Run-mono}
use s3mp_backend.Worker.Relocation.{IsDone}
use s3mp_backend.Worker.Targets.{require_target_then-Ends}

module _ {W : Type 0} (show_uuid : ℕ → Text) (services : Services W)
    (objects : W → ProviderTarget → Option ObjectState) (op : Operation) (ctx : PrincipalContext)
    (space : Space) (space_id : ℕ) where
  -- The deletions that the branch may make: in a world `v`, the target of a listed key on which the
  -- subject holds `files.delete` in `v`.
  pub record MayDelete (keys : List Text) (v : W) (t : ProviderTarget) : Type 0 where
    pub key : Text
    pub listed : In key keys
    pub targets : target_of show_uuid services op space space_id key ≡ some t
    pub granted : IsGranted services op ctx space_id (codes "files.delete") key v

  -- Calls that copy nothing and delete only that.
  abbrev pub Deletions : List Text → W → W → Type 0
  Deletions keys w u = Run services (λ _ _. ⊥) (MayDelete keys) w u

  -- An object that a deletion has removed: in `moment`, a world of the run, the deletion was allowed
  -- and made, and the object was gone after it.
  pub record IsRemoved (keys : List Text) (w u : W) (t : ProviderTarget) : Type 0 where
    pub gone : objects u t ≡ none
    pub moment : W
    pub before : Deletions keys w moment
    pub allowed : MayDelete keys moment t
    pub emptied : objects (services.delete t moment).1 t ≡ none
    pub afterwards : Deletions keys (services.delete t moment).1 u

  pub record IsDeleted (keys : List Text) (w : W) (r : Result Stop (Unit {0})) (u : W)
      : Type 0 where
    pub calls : Deletions keys w u
    pub only_keys : (t : ProviderTarget) → (objects u t ≡ objects w t) ⊎ IsRemoved keys w u t
    pub succeeds :
        IsDone r
        → (key : Text) → In key keys
        → (t : ProviderTarget) × (target_of show_uuid services op space space_id key ≡ some t)
          × (objects u t ≡ none)

  stopped-IsDeleted :
      (keys : List Text) (w : W) (s : Stop) → ¬ IsDone (err s) → IsDeleted keys w (err s) w
  stopped-IsDeleted keys w s h = record {
    calls = begun;
    only_keys = λ t. inl refl;
    succeeds = λ d. absurd (h d);
  }

  MayDelete-cons :
      (key : Text) (keys : List Text) (v : W) (t : ProviderTarget)
      → MayDelete keys v t
      → MayDelete (key ∷ keys) v t
  MayDelete-cons key keys v t h = record {
    key = h.key;
    listed = inr h.listed;
    targets = h.targets;
    granted = h.granted;
  }

  Deletions-cons :
      (key : Text) (keys : List Text) {w u : W} → Deletions keys w u → Deletions (key ∷ keys) w u
  Deletions-cons key keys r =
      Run-mono services (λ _ _. ⊥) (λ _ _. ⊥) (MayDelete keys) (MayDelete (key ∷ keys)) (λ s d h. h)
        (MayDelete-cons key keys) r

  first_allowed :
      (key : Text) (keys : List Text) (w : W) (t : ProviderTarget)
      → IsGranted services op ctx space_id (codes "files.delete") key w
      → target_of show_uuid services op space space_id key ≡ some t
      → MayDelete (key ∷ keys) w t
  first_allowed key keys w t granted targets = record {
    key = key;
    listed = inl refl;
    targets = targets;
    granted = granted;
  }

  -- The first deletion and the calls after it.
  Deletions-first :
      (key : Text) (keys : List Text) (w : W) (t : ProviderTarget) {u : W}
      → MayDelete (key ∷ keys) w t
      → Deletions keys (services.delete t w).1 u
      → Deletions (key ∷ keys) w u
  Deletions-first key keys w t allowed r =
      Run-join services (λ _ _. ⊥) (MayDelete (key ∷ keys)) (removed t allowed begun)
        (Deletions-cons key keys r)

  IsRemoved-later :
      (key : Text) (keys : List Text) (w : W) (t : ProviderTarget) (u : W) (x : ProviderTarget)
      → MayDelete (key ∷ keys) w t
      → IsRemoved keys (services.delete t w).1 u x
      → IsRemoved (key ∷ keys) w u x
  IsRemoved-later key keys w t u x allowed r = record {
    gone = r.gone;
    moment = r.moment;
    before = Deletions-first key keys w t allowed r.before;
    allowed = MayDelete-cons key keys r.moment x r.allowed;
    emptied = r.emptied;
    afterwards = Deletions-cons key keys r.afterwards;
  }

  module _ (storage : IsStorage services objects) where
    -- One deletion, and what the rest of the loop does.
    deleted_first :
        (key : Text) (keys : List Text) (w : W) (t : ProviderTarget) (u : W)
        → MayDelete (key ∷ keys) w t
        → Deletions keys (services.delete t w).1 u
        → ((x : ProviderTarget)
            → (objects u x ≡ objects (services.delete t w).1 x)
              ⊎ IsRemoved keys (services.delete t w).1 u x)
        → (x : ProviderTarget) → (objects u x ≡ objects w x) ⊎ IsRemoved (key ∷ keys) w u x
    deleted_first key keys w t u allowed calls rest x = elim (rest x) [
      | inr gone ↦ inr (IsRemoved-later key keys w t u x allowed gone)
      | inl later ↦ elim (storage.delete_effect t x w) [
        | inl same ↦ inl (later ∙ same)
        | inr (e, gone) ↦ inr (record {
          gone = later ∙ gone;
          moment = w;
          before = begun;
          allowed = subst (MayDelete (key ∷ keys) w) (sym e) allowed;
          emptied =
              subst (λ (y : ProviderTarget). objects (services.delete y w).1 x ≡ none) (sym e) gone;
          afterwards =
              subst (λ (y : ProviderTarget). Deletions (key ∷ keys) (services.delete y w).1 u)
                (sym e) (Deletions-cons key keys calls);
        })
      ]
    ]

    next-IsDeleted :
        (key : Text) (keys : List Text) (w : W) (t : ProviderTarget) (a : Unit {0})
        (r : Result Stop (Unit {0})) (u : W)
        → MayDelete (key ∷ keys) w t
        → target_of show_uuid services op space space_id key ≡ some t
        → (services.delete t w).0 ≡ some a
        → IsDeleted keys (services.delete t w).1 r u
        → IsDeleted (key ∷ keys) w r u
    next-IsDeleted key keys w t a r u allowed targets answer rest = record {
      calls = Deletions-first key keys w t allowed rest.calls;
      only_keys = deleted_first key keys w t u allowed rest.calls rest.only_keys;
      succeeds = λ d k i. elim i [
        | inr j ↦ rest.succeeds d k j
        | inl e ↦ (
          t,
          subst (λ (x : Text). target_of show_uuid services op space space_id x ≡ some t) e targets,
          elim (rest.only_keys t) [
            | inl later ↦ later ∙ storage.delete_removes t w a answer
            | inr h ↦ h.gone
          ],
        )
      ];
    }

    -- Under the laws of the storage, however the loop ends, and whatever call fails: its calls copy nothing and delete only targets of
    -- listed keys, each in a world in which the subject holds `files.delete` on the key; an object that
    -- is not as it was is gone, and one of these deletions removed it; and success is returned only if
    -- the object of every listed key is gone.
    pub delete_keys-IsDeleted :
        (keys : List Text) (w : W)
        → Ends (delete_keys show_uuid services op ctx space space_id keys) w (IsDeleted keys w)
    unfolding delete_keys
    delete_keys-IsDeleted [] w = record {
      calls = begun;
      only_keys = λ t. inl refl;
      succeeds = λ d key i. absurd i;
    }
    delete_keys-IsDeleted (key ∷ keys) w =
        let Q = IsDeleted (key ∷ keys) w in
        let rest = delete_keys show_uuid services op ctx space space_id keys in
        let remove = λ (t : ProviderTarget). wait_for (services.delete t) >> rest in
        let revoked = because cancelled authorization_revoked in
        require_then-Ends show_uuid services op ctx space_id (codes "files.delete") key revoked
          (require_target show_uuid services op space space_id key >>= remove) w Q
          (stopped-IsDeleted (key ∷ keys) w raises (λ d. d))
          (stopped-IsDeleted (key ∷ keys) w (returns revoked) (λ d. absurd (cc d)))
          (λ granted.
            require_target_then-Ends show_uuid services op space space_id key remove w Q
              (stopped-IsDeleted (key ∷ keys) w
                (returns (because cancelled storage_target_unverifiable)) (λ d. absurd (cc d)))
              (λ t targets.
                let allowed = first_allowed key keys w t granted targets in
                wait_then-Ends (services.delete t) rest w Q
                  (record {
                    calls = Deletions-first key keys w t allowed begun;
                    only_keys =
                        deleted_first key keys w t (services.delete t w).1 allowed begun
                          (λ x. inl refl);
                    succeeds = λ d. absurd d;
                  })
                  (λ a answer.
                    next-IsDeleted key keys w t a (rest (services.delete t w).1).0
                      (rest (services.delete t w).1).1 allowed targets answer
                      (delete_keys-IsDeleted keys (services.delete t w).1))))
