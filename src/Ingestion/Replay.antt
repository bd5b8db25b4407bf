-- ===== src/Ingestion/Replay.antt =====
-- On `create_upload_intent` and `begin_or_replay` of files/infrastructure/ingestion_repository.py:
-- requests that are repeated with their fingerprint.
use s3mp_backend.Prelude.{
  ℕ, true, ◌≡◌, refl, ap, ◌∙◌, ◌==◌, ◌&&◌, Option, none, some, List, ◌∷◌, Result, ok, inl, inr,
  arith, find, Bool-cases, Option-cases, Result-cases, subst,
}
use s3mp_backend.Prelude.Text.{Text, text_eq_refl}
use s3mp_backend.Ledger.{Books, reserve_quota}
use s3mp_backend.Ingestion.{
  IngestionRow, Tables, StoreError, opt_text_eq, find_replay_or_conflict, add_event, created,
}
use s3mp_backend.Ingestion.Intents.{
  NewIds, SessionData, Answer, fresh, replayed, build_row, add_row, begin_or_replay,
  create_upload_intent, open_upload, fingerprint_taken, with_reservation, replay,
}

module _ {Json : Type 0} (tenant_id c : ℕ) (f : Text) (request : IngestionRow Json)
    (marked : request.idempotency_fingerprint ≡ some (c ∷ f)) where
  own_fingerprint : opt_text_eq request.idempotency_fingerprint (c ∷ f) ≡ true
  own_fingerprint = rw marked (text_eq_refl (c ∷ f))

  -- The search for a replay, where the newest row was built from the request.
  search : Tables Json → Result StoreError (Option (IngestionRow Json))
  search t =
      find_replay_or_conflict tenant_id request.idempotency_fingerprint request.idempotency_key t

  newest :
      (r : IngestionRow Json) (rs : List (IngestionRow Json)) (t : Tables Json)
      → t.records ≡ r ∷ rs
      → r.tenant_id ≡ tenant_id
      → r.idempotency_fingerprint ≡ request.idempotency_fingerprint
      → search t ≡ ok (some r)
  unfolding search find_replay_or_conflict
  newest r rs t first own same =
      let yes : (r.tenant_id == tenant_id && opt_text_eq r.idempotency_fingerprint (c ∷ f)) ≡ true =
        ground
          (arith, own, ap (λ (o : Option Text). opt_text_eq o (c ∷ f)) same ∙ own_fingerprint) in
      rw (marked, search) (rw (first) (rw (yes, find_replay_or_conflict) refl))

  abbrev begun_row : ℕ → IngestionRow Json
  begun_row new_id =
      build_row new_id tenant_id request.upload_session_id request.multipart_session_id
        request.quota_reservation_id request

  begun : ℕ → Tables Json → ℕ × Tables Json
  begun new_id t =
      (new_id, add_event (begun_row new_id) created none (add_row (begun_row new_id) t))

  -- A request with a fingerprint that was begun, and is repeated, is answered with the same ingestion
  -- and changes nothing.
  pub begin_again :
      (new_id new_id' i : ℕ) (t t' : Tables Json)
      → begin_or_replay new_id tenant_id request t ≡ ok (i, t')
      → begin_or_replay new_id' tenant_id request t' ≡ ok (i, t')
  unfolding begin_or_replay search begun add_event
  begin_again new_id new_id' i t t' h = elim (Result-cases (search t)) [
    | inr (x, e) ↦ absurd (cc (rw (e, begin_or_replay) at h))
    | inl (some r, e) ↦
        subst (λ (x : ℕ × Tables Json). begin_or_replay new_id' tenant_id request x.1 ≡ ok x)
          {x = (r.id, t)} {y = (i, t')} (cc (rw (e, begin_or_replay) at h))
          (rw (e, begin_or_replay) refl)
    | inl (none, e) ↦
        elim (Bool-cases (fingerprint_taken tenant_id request.idempotency_fingerprint t)) [
          | inl taken ↦ absurd (cc (rw (e, taken, begin_or_replay) at h))
          | inr free ↦
              let found : search (begun new_id t).1 ≡ ok (some (begun_row new_id)) =
                newest (begun_row new_id) t.records (begun new_id t).1 refl refl refl in
              subst (λ (x : ℕ × Tables Json). begin_or_replay new_id' tenant_id request x.1 ≡ ok x)
                {x = begun new_id t} {y = (i, t')} (cc (rw (e, free, begin_or_replay) at h))
                (rw (found, begin_or_replay) refl)
        ]
  ]

  -- The answer to a repeated request.
  abbrev pub as_replay : Answer → Answer
  as_replay (replayed session i) = replayed session i
  as_replay (fresh session i) = replayed session i

  -- Repeating a request leaves the tables as they are and gives the answer of a replay.
  Repeats : NewIds → SessionData → Answer × Tables Json → Type 0
  Repeats ids d x = create_upload_intent ids tenant_id d request x.1 ≡ ok (as_replay x.0, x.1)

  opened-Repeats :
      (ids ids' : NewIds) (d d' : SessionData) (t : Tables Json) (books : Books)
      → Repeats ids' d' (open_upload ids tenant_id d request books t)
  unfolding Repeats create_upload_intent open_upload add_event search
  opened-Repeats ids ids' d d' t books =
      let row =
        build_row ids.ingestion_id tenant_id (some ids.session_id) none (some ids.reservation_id)
          request in
      let found : search (open_upload ids tenant_id d request books t).1 ≡ ok (some row) =
        newest row t.records (open_upload ids tenant_id d request books t).1 refl refl refl in
      let yes : (ids.session_id == ids.session_id) ≡ true = ground arith in
      rw (found, create_upload_intent) (rw (yes, replay) refl)

  replay-Repeats :
      (ids : NewIds) (d : SessionData) (session : Option ℕ) (r : IngestionRow Json)
      (t : Tables Json) (x : Answer × Tables Json)
      → search t ≡ ok (some r)
      → r.upload_session_id ≡ session
      → replay session t.uploads r t ≡ ok x
      → Repeats ids d x
  unfolding Repeats create_upload_intent search
  replay-Repeats ids d none r t x e same h = absurd (cc)
  replay-Repeats ids d (some id) r t x e same h =
      elim (Option-cases (find (λ s. s.id == id) t.uploads)) [
        | inl g ↦ absurd (cc (rw (g, replay) at h))
        | inr (s, g) ↦
            subst (Repeats ids d) {x = (replayed s.id r.id, t)} {y = x} (cc (rw (g, replay) at h))
              (rw (e, create_upload_intent) (rw (same) (rw (g, replay) refl)))
      ]

  -- An upload intent with a fingerprint that was answered, and is repeated, is answered with the same
  -- session and ingestion, reserves nothing and changes nothing, whatever the new ids and session data.
  pub create_upload_again :
      (ids ids' : NewIds) (d d' : SessionData) (a : Answer) (t t' : Tables Json)
      → create_upload_intent ids tenant_id d request t ≡ ok (a, t')
      → create_upload_intent ids' tenant_id d' request t' ≡ ok (as_replay a, t')
  unfolding create_upload_intent search Repeats
  create_upload_again ids ids' d d' a t t' h = elim (Result-cases (search t)) [
    | inr (x, e) ↦ absurd (cc (rw (e, create_upload_intent) at h))
    | inl (some r, e) ↦
        replay-Repeats ids' d' r.upload_session_id r t (a, t') e refl
          (rw (e, create_upload_intent) at h)
    | inl (none, e) ↦
        elim (Result-cases (
          reserve_quota ids.reservation_id tenant_id d.storage_space_id d.content_length t.books)) [
            | inr (x, g) ↦ absurd (cc (rw (e, g, create_upload_intent, with_reservation) at h))
            | inl ((j, books), g) ↦
                elim (Bool-cases (fingerprint_taken tenant_id request.idempotency_fingerprint t)) [
                  | inl taken ↦
                      absurd (cc (rw (e, g, create_upload_intent, with_reservation, taken) at h))
                  | inr free ↦
                      subst (Repeats ids' d') {x = open_upload ids tenant_id d request books t}
                        {y = (a, t')}
                        (cc (rw (e, g, create_upload_intent, with_reservation, free) at h))
                        (opened-Repeats ids ids' d d' t books)
                ]
          ]
  ]
