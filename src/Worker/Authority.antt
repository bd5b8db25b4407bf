-- ===== src/Worker/Authority.antt =====
-- On `FileOperationWorker.execute` of files/application/operation_worker.py: on whose authority it acts.
use s3mp_backend.Prelude.{ℕ, true, ◌≡◌, ◌≢◌, refl, Option, none, some, Result, ok, err}
use s3mp_backend.Prelude.Int.{pos}
use s3mp_backend.Prelude.Text.{Text}
use s3mp_backend.Keys.{ProviderTarget}
use s3mp_backend.Authorization.{as_utc}
use s3mp_backend.Identity.{PrincipalContext, ContextError}
use s3mp_backend.Subject.{DelayedSubject, SubjectError}
use s3mp_backend.Subject.Entitlement.{IsLive}
use s3mp_backend.Subject.Live.{validate_delayed_subject-IsLive}
use s3mp_backend.Worker.{
  Operation, Space, Reason, ObjectState, Outcome, WorkerError, Services, Stop, succeeded,
}
use s3mp_backend.Worker.Effects.{perform}
use s3mp_backend.Worker.Execution.{
  version_or, context_of, stale_reason, outcome_of, subject_of, if_current, on_space, in_context,
  for_subject, in_space, execute,
}
use s3mp_backend.Worker.Storage.{IsStorage}
use s3mp_backend.Worker.Performance.{Performed, perform-Performed}

module _ {W : Type 0} (show_uuid : ℕ → Text) (services : Services W)
    (objects : W → ProviderTarget → Option ObjectState) where
  -- An execution that may have had effects: its subject is live, its context is that of the subject, and
  -- the space is there and as the operation was queued for it.
  pub record IsActing (op : Operation) (w : W) (outcome : Outcome) (u : W) : Type 0 where
    pub subject : DelayedSubject
    pub enabled : (services.principals w).get_principal op.tenant_id op.principal_id ≡ some true
    pub live :
        IsLive
          (services.principals w)
          (services.api_keys w)
          op.tenant_id
          op.principal_id
          op.membership_id
          (version_or (pos 0) op.authorization_version)
          (as_utc (services.clock w))
          op.evidence
          none
          subject
    pub ctx : PrincipalContext
    pub context : context_of op subject ≡ ok ctx
    pub space_id : ℕ
    pub at_space : op.storage_space_id ≡ some space_id
    pub space : Space
    pub found : services.get_space op.tenant_id space_id w ≡ some space
    pub not_stale : stale_reason op space ≡ none
    pub result : Result Stop (Unit {0})
    pub returned : outcome ≡ outcome_of result
    pub performed : Performed show_uuid services objects op ctx space space_id w result u

  pub data Executed (op : Operation) (w : W) : Result WorkerError Outcome → W → Type 0 where
    raised : (e : WorkerError) → Executed op w (err e) w
    refused : (o : Outcome) → o.status ≢ succeeded → Executed op w (ok o) w
    acted : (o : Outcome) (u : W) → IsActing op w o u → Executed op w (ok o) u

  module _ (storage : IsStorage services objects) where
    module _ (op : Operation) (w : W) where
      Ended : Result WorkerError Outcome × W → Type 0
      Ended x = Executed op w x.0 x.1

      in_context-Ended :
          (subject : DelayedSubject) (space_id : ℕ) (ctx : PrincipalContext)
          → op.storage_space_id ≡ some space_id
          → subject_of show_uuid services op w ≡ ok (some subject)
          → context_of op subject ≡ ok ctx
          → Ended (in_context show_uuid services (ok ctx) op space_id w)
      unfolding Ended in_context on_space if_current
      in_context-Ended subject space_id ctx e f g =
          by_space (services.get_space op.tenant_id space_id w) refl
        where
          by_reason :
              (space : Space) (o : Option Reason)
              → services.get_space op.tenant_id space_id w ≡ some space
              → stale_reason op space ≡ o
              → Ended (if_current show_uuid services o op ctx space space_id w)
          by_reason space (some reason) k m = refused _ (λ q. absurd (cc q))
          by_reason space none k m =
              let (r, u) = perform show_uuid services op.operation_type op ctx space space_id w in
              let (enabled, live) =
                validate_delayed_subject-IsLive (services.principals w) (services.api_keys w)
                  op.tenant_id op.principal_id op.membership_id
                  (version_or (pos 0) op.authorization_version) (as_utc (services.clock w))
                  op.evidence none subject f in
              acted (outcome_of r) u (record {
                subject = subject;
                enabled = enabled;
                live = live;
                ctx = ctx;
                context = g;
                space_id = space_id;
                at_space = e;
                space = space;
                found = k;
                not_stale = m;
                result = r;
                returned = refl;
                performed =
                    perform-Performed show_uuid services objects op ctx space space_id storage
                      op.operation_type w refl;
              })

          by_space :
              (o : Option Space)
              → services.get_space op.tenant_id space_id w ≡ o
              → Ended (on_space show_uuid services o op ctx space_id w)
          by_space none k = refused _ (λ q. absurd (cc q))
          by_space (some space) k = by_reason space (stale_reason op space) k refl

      for_subject-Ended :
          (space_id : ℕ) (r : Result SubjectError (Option DelayedSubject))
          → op.storage_space_id ≡ some space_id
          → subject_of show_uuid services op w ≡ r
          → Ended (for_subject show_uuid services r op space_id w)
      unfolding Ended for_subject in_context
      for_subject-Ended space_id (err x) e f = raised _
      for_subject-Ended space_id (ok none) e f = refused _ (λ q. absurd (cc q))
      for_subject-Ended space_id (ok (some subject)) e f = by_context (context_of op subject) refl
        where
          by_context :
              (c : Result ContextError PrincipalContext)
              → context_of op subject ≡ c
              → Ended (in_context show_uuid services c op space_id w)
          by_context (err x) g = raised _
          by_context (ok ctx) g = in_context-Ended subject space_id ctx e f g

      in_space-Ended :
          (s : Option ℕ) → op.storage_space_id ≡ s → Ended (in_space show_uuid services s op w)
      unfolding Ended in_space
      in_space-Ended none e = refused _ (λ q. absurd (cc q))
      in_space-Ended (some space_id) e =
          for_subject-Ended space_id (subject_of show_uuid services op w) e refl

    -- Under the laws of the storage: the worker raises or refuses without any effect, or it acts, with an
    -- outcome, for a subject that is live at that moment, in a space that is as the operation was queued for it. When it acts, then
    -- nothing changes; or it copies, moves or renames under `IsTransferred`: the subject may read the
    -- source, write the destination and, for a rename, move the source, all calls copy nothing but the
    -- source to the destination, and delete nothing but the source, each deletion in a world in which the
    -- subject holds `files.delete` on it; or it deletes under `IsDeleted`, each deletion in a world in
    -- which the subject holds `files.delete` on the key.
    pub execute-Executed :
        (op : Operation) (w : W)
        → Executed op w (execute show_uuid services op w).0 (execute show_uuid services op w).1
    unfolding execute Ended
    execute-Executed op w = in_space-Ended op w op.storage_space_id refl
