-- ===== src/Ingestion/Steps.antt =====
-- On files/infrastructure/ingestion_repository.py: its transactions as the steps of one system, in
-- any order, at any time, by any number of requests.
use s3mp_backend.Prelude.{
  ℕ, true, ◌≡◌, refl, sym, ◌∙◌, inl, inr, Option, List, ok, In, Pointwise-In, subst,
}
use s3mp_backend.Prelude.Text.{Text}
use s3mp_backend.Prelude.Int.{ℤ}
use s3mp_backend.Ledger.Sound.{IsSound, reserve-IsSound, settle-IsSound, release-IsSound}
use s3mp_backend.Ingestion.{IngestionStatus, EventType, IngestionRow, Tables, may_become}
use s3mp_backend.Ingestion.Tasks.{Environment}
use s3mp_backend.Ingestion.Commit.{ProviderResult, record_provider_result, commit_verified_file}
use s3mp_backend.Ingestion.Endings.{fail_or_quarantine, expire}
use s3mp_backend.Ingestion.Reaping.{reap_orphan_reservations, append_event}
use s3mp_backend.Ingestion.Orphans.{reap_rows, reap-IsSound}
use s3mp_backend.Ingestion.Intents.{
  NewIds, SessionData, Answer, create_upload_intent, create_multipart_intent, begin_or_replay,
}
use s3mp_backend.Ingestion.Openings.{
  Opened, kept, added, upload_cases, multipart_cases, begin_cases,
}
use s3mp_backend.Ingestion.Lifecycle.{Moves, Follows, record-Follows, fail-Follows, expire-Follows}
use s3mp_backend.Ingestion.Committing.{commit-Follows}
use s3mp_backend.Ingestion.Accounting.{
  IsLedgerProperty, Opened-Holds, record-Holds, commit-Holds, fail-Holds, expire-Holds,
}

-- Sound books stay sound when a reservation is made, settled or released.
ledger_laws : IsLedgerProperty IsSound
ledger_laws = record {
  by_reserve = reserve-IsSound;
  by_settle =
      λ tenant_id reservation_id now b actual. settle-IsSound tenant_id reservation_id now b actual;
  by_release = release-IsSound;
}

-- A path of allowed steps between two statuses.
pub data Leads : IngestionStatus → IngestionStatus → Type 0 where
  here : {s : IngestionStatus} → Leads s s
  then : {s t u : IngestionStatus} → Leads s t → may_become t u ≡ true → Leads s u

module _ {Json : Type 0} (encode : Text → List ℕ) (canonical_json : Option Json → Text)
    (show_uuid : ℕ → Text) (digest_text : List ℕ → Text) (lower : Text → Text) where
  -- One transaction that returned. A transaction that raises leaves the tables as they are, so it is
  -- no step.
  pub data Step : Tables Json → Tables Json → Type 0 where
    uploads :
        {t t' : Tables Json} (ids : NewIds) (tenant_id : ℕ) (d : SessionData)
        (request : IngestionRow Json) (a : Answer)
        → create_upload_intent ids tenant_id d request t ≡ ok (a, t')
        → Step t t'
    multiparts :
        {t t' : Tables Json} (ids : NewIds) (tenant_id : ℕ) (d : SessionData)
        (request : IngestionRow Json) (a : Answer)
        → create_multipart_intent ids tenant_id d request t ≡ ok (a, t')
        → Step t t'
    begins :
        {t t' : Tables Json} (new_id tenant_id i : ℕ) (request : IngestionRow Json)
        → begin_or_replay new_id tenant_id request t ≡ ok (i, t')
        → Step t t'
    records :
        {t t' : Tables Json} (tenant_id id : ℕ) (result : ProviderResult)
        → record_provider_result tenant_id id result t ≡ ok t'
        → Step t t'
    commits :
        {t t' : Tables Json} (e : Environment) (tenant_id id : ℕ)
        → commit_verified_file encode canonical_json show_uuid digest_text lower e tenant_id id t
          ≡ ok t'
        → Step t t'
    fails :
        {t t' : Tables Json} (now tenant_id id : ℕ) (status : IngestionStatus) (reason : Text)
        → fail_or_quarantine now tenant_id id status reason t ≡ ok t'
        → Step t t'
    expires :
        {t t' : Tables Json} (now tenant_id id : ℕ) → expire now tenant_id id t ≡ ok t' → Step t t'
    reaps :
        {t : Tables Json} (now : ℕ) (tenant_id : Option ℕ) (limit : ℤ) (ranked : List (ℕ × ℕ))
        → Step t (reap_orphan_reservations now tenant_id limit ranked t).1
    appends :
        {t : Tables Json} (tenant_id ingestion_id : ℕ) (event_type : EventType)
        (reason : Option Text)
        → Step t (append_event tenant_id ingestion_id event_type reason t)

  pub data Reach (t : Tables Json) : Tables Json → Type 0 where
    start : Reach t t
    next : {u v : Tables Json} → Reach t u → Step u v → Reach t v

  Step-IsSound : {t t' : Tables Json} → Step t t' → IsSound t.books → IsSound t'.books
  Step-IsSound {t} {t'} (uploads ids tenant_id d request a e) h =
      Opened-Holds IsSound ledger_laws tenant_id t t'
        (upload_cases ids tenant_id d t t' a request e) h
  Step-IsSound {t} {t'} (multiparts ids tenant_id d request a e) h =
      Opened-Holds IsSound ledger_laws tenant_id t t'
        (multipart_cases ids tenant_id d t t' a request e) h
  Step-IsSound {t} {t'} (begins new_id tenant_id i request e) h =
      Opened-Holds IsSound ledger_laws tenant_id t t'
        (begin_cases new_id tenant_id i request t t' e) h
  Step-IsSound {t} {t'} (records tenant_id id result e) h =
      record-Holds IsSound ledger_laws tenant_id id t t' h result e
  Step-IsSound {t} {t'} (commits v tenant_id id e) h =
      commit-Holds IsSound ledger_laws encode canonical_json show_uuid digest_text lower v tenant_id
        id t t' e h
  Step-IsSound {t} {t'} (fails now tenant_id id status reason e) h =
      fail-Holds IsSound ledger_laws tenant_id id t t' h now status reason e
  Step-IsSound {t} {t'} (expires now tenant_id id e) h =
      expire-Holds IsSound ledger_laws tenant_id id t t' h now e
  Step-IsSound (reaps now tenant_id limit ranked) h = reap-IsSound now tenant_id limit ranked _ h
  Step-IsSound (appends tenant_id ingestion_id event_type reason) h = h

  -- From balanced books in which no reservation asks for less than nothing, every sequence of
  -- transactions, in any order, reaches such books: each quota holds in reserve the sum of what the open
  -- reservations that charge it ask for.
  pub Reach-IsSound : {t t' : Tables Json} → Reach t t' → IsSound t.books → IsSound t'.books
  Reach-IsSound start h = h
  Reach-IsSound (next r s) h = Step-IsSound s (Reach-IsSound r h)

  -- A later state of a row.
  pub record Continues (r r' : IngestionRow Json) : Type 0 where
    pub same_id : r'.id ≡ r.id
    pub same_tenant : r'.tenant_id ≡ r.tenant_id
    pub leads : Leads r.status r'.status

  Continues-then : {r q p : IngestionRow Json} → Continues r q → Moves q p → Continues r p
  Continues-then {r} {q} {p} c m = record {
    same_id = m.same_id ∙ c.same_id;
    same_tenant = m.same_tenant ∙ c.same_tenant;
    leads = elim m.step [
      | inl same ↦ subst (Leads r.status) (sym same) c.leads
      | inr allowed ↦ then c.leads allowed
    ];
  }

  pub Later : Tables Json → IngestionRow Json → Type 0
  Later t r = (r' : IngestionRow Json) × In r' t.records × Continues r r'

  Follows-Later :
      (t t' : Tables Json) (r : IngestionRow Json) → Follows t t' → Later t r → Later t' r
  unfolding Later
  Follows-Later t t' r f (q, i, c) =
      let (p, j, m) = Pointwise-In Moves q t.records t'.records f i in (p, j, Continues-then c m)

  Opened-Later :
      (tenant_id : ℕ) (t t' : Tables Json) (r : IngestionRow Json)
      → Opened tenant_id t t'
      → Later t r
      → Later t' r
  unfolding Later
  Opened-Later tenant_id t t' r (kept same) h =
      subst (λ (x : Tables Json). Later x r) {x = t} {y = t'} same h
  Opened-Later tenant_id t t' r (added q first fresh own reserved) (p, i, c) =
      (p, subst (λ (rs : List (IngestionRow Json)). In p rs) (sym first) (inr i), c)

  Step-Later : {t t' : Tables Json} (r : IngestionRow Json) → Step t t' → Later t r → Later t' r
  unfolding Later
  Step-Later {t} {t'} r (uploads ids tenant_id d request a e) h =
      Opened-Later tenant_id t t' r (upload_cases ids tenant_id d t t' a request e) h
  Step-Later {t} {t'} r (multiparts ids tenant_id d request a e) h =
      Opened-Later tenant_id t t' r (multipart_cases ids tenant_id d t t' a request e) h
  Step-Later {t} {t'} r (begins new_id tenant_id i request e) h =
      Opened-Later tenant_id t t' r (begin_cases new_id tenant_id i request t t' e) h
  Step-Later {t} {t'} r (records tenant_id id result e) h =
      Follows-Later t t' r (record-Follows tenant_id id t t' result e) h
  Step-Later {t} {t'} r (commits v tenant_id id e) h =
      Follows-Later t t' r
        (commit-Follows encode canonical_json show_uuid digest_text lower v tenant_id id t t' e) h
  Step-Later {t} {t'} r (fails now tenant_id id status reason e) h =
      Follows-Later t t' r (fail-Follows tenant_id id t t' now status reason e) h
  Step-Later {t} {t'} r (expires now tenant_id id e) h =
      Follows-Later t t' r (expire-Follows tenant_id id t t' now e) h
  Step-Later {t} r (reaps now tenant_id limit ranked) h =
      let (q, i, c) = h in
      (
        q,
        subst (λ (rs : List (IngestionRow Json)). In q rs)
            (sym (reap_rows now tenant_id limit ranked t)) i,
        c,
      )
  Step-Later r (appends tenant_id ingestion_id event_type reason) h = h

  -- No sequence of transactions loses a row: it is there under its id and its tenant, and its status
  -- has come about by steps that `VALID_TRANSITIONS` allows.
  pub Reach-Later :
      {t t' : Tables Json} (r : IngestionRow Json) → Reach t t' → In r t.records → Later t' r
  unfolding Later
  Reach-Later r start i = (r, i, record { same_id = refl; same_tenant = refl; leads = here })
  Reach-Later r (next h s) i = Step-Later r s (Reach-Later r h i)
