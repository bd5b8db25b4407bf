-- ===== src/Knowledge/Evidence.antt =====
-- On `chunk_segments` of knowledge/application/text_extraction.py: its chunks as groups of segments.
use s3mp_backend.Prelude.{
  ℕ, zero, suc, ◌+◌, ◌≤◌, ◌<◌, Bool, true, false, not, ◌&&◌, ◌≡◌, refl, sym, ap, ◌∙◌, ◌⊎◌, inl, inr,
  List, [], ◌∷◌, ◌++◌, map, ok, err, if◌then◌else◌, ltb, ltb→lt, subst, length, length-append,
  arith, Bool-cases, All, In,
}
use s3mp_backend.Prelude.Text.{Text}
use s3mp_backend.Knowledge.Chunking.{
  segment_too_long, EvidenceSegment, EvidenceChunk, blank, join_blank, Gathering, no_texts, close,
  overflows_chunk, gather, gather_all, chunk_segments,
}
use s3mp_backend.Knowledge.Pieces.{Fits, All-snoc}
use s3mp_backend.Knowledge.Content.{append_assoc, append_nil}

map-snoc :
    {A B : Type 0} (f : A → B) (xs : List A) (a : A)
    → map f (xs ++ (a ∷ [])) ≡ map f xs ++ (f a ∷ [])
map-snoc f [] a = refl
map-snoc f (x ∷ xs) a = ap (λ ys. f x ∷ ys) (map-snoc f xs a)

length-join_blank :
    (ts : List Text) (t : Text)
    → length (join_blank (ts ++ (t ∷ [])))
      ≡ length (join_blank ts) + ((if no_texts ts then 0 else 2) + length t)
unfolding join_blank
length-join_blank [] t = omega arith
length-join_blank (u ∷ []) t = omega (arith, length-append u (blank ++ t))
length-join_blank (u ∷ (v ∷ ts)) t = omega (
  arith,
  length-append u (blank ++ join_blank ((v ∷ ts) ++ (t ∷ []))),
  length-append u (blank ++ join_blank (v ∷ ts)),
  length-join_blank (v ∷ ts) t,
)

snoc-Fits :
    (limit size : ℕ) (ts : List Text) (t : Text)
    → (not (no_texts ts) && ltb limit (size + (if no_texts ts then 0 else 2) + length t)) ≡ false
    → length (join_blank ts) ≤ size
    → Fits limit t
    → Fits limit (join_blank (ts ++ (t ∷ [])))
unfolding join_blank
snoc-Fits limit size [] t e h f = f
snoc-Fits limit size (u ∷ us) t e h f =
    let room : size + 2 + length t ≤ limit = ground arith in
    omega (arith, length-join_blank (u ∷ us) t)

not_nil : (b c : Bool) → (not b && c) ≡ true → b ≡ false
not_nil b c e = ground arith

module _ {L : Type 0} where
  abbrev pub texts : List (EvidenceSegment L) → List Text
  texts ss = map (λ (s : EvidenceSegment L). s.text) ss

  abbrev pub locations : List (EvidenceSegment L) → List L
  locations ss = map (λ (s : EvidenceSegment L). s.location) ss

  -- The chunk of a group of segments.
  abbrev pub chunk_of : List (EvidenceSegment L) → EvidenceChunk L
  chunk_of group = record { text = join_blank (texts group); locations = locations group }

  abbrev pub flatten : List (List (EvidenceSegment L)) → List (EvidenceSegment L)
  flatten [] = []
  flatten (g ∷ gs) = g ++ flatten gs

  -- Groups of consecutive segments whose chunks are within the limit.
  pub record IsGrouping (limit : ℕ) (segments : List (EvidenceSegment L))
      (chunks : List (EvidenceChunk L)) : Type 0 where
    pub groups : List (List (EvidenceSegment L))
    pub in_order : flatten groups ≡ segments
    pub chunked : map chunk_of groups ≡ chunks
    pub within : All (λ (c : EvidenceChunk L). Fits limit c.text) chunks

  -- The locals after the segments `segments`: closed groups, and the group that is being gathered.
  record IsGathered (limit : ℕ) (segments : List (EvidenceSegment L)) (g : Gathering L)
      : Type 0 where
    groups : List (List (EvidenceSegment L))
    open_group : List (EvidenceSegment L)
    in_order : flatten groups ++ open_group ≡ segments
    chunked : map chunk_of groups ≡ g.chunks
    within : All (λ (c : EvidenceChunk L). Fits limit c.text) g.chunks
    open_texts : texts open_group ≡ g.text_parts
    open_locations : locations open_group ≡ g.locations
    open_fits : Fits limit (join_blank g.text_parts)
    open_size : length (join_blank g.text_parts) ≤ g.current_size

  flatten-snoc :
      (gs : List (List (EvidenceSegment L))) (g : List (EvidenceSegment L))
      → flatten (gs ++ (g ∷ [])) ≡ flatten gs ++ g
  flatten-snoc [] g = append_nil g
  flatten-snoc (h ∷ gs) g =
      ap (λ (x : List (EvidenceSegment L)). h ++ x) (flatten-snoc gs g)
      ∙ sym (append_assoc h (flatten gs) g)

  chunk_of-eq :
      (o : List (EvidenceSegment L)) (a : List Text) (b : List L)
      → texts o ≡ a
      → locations o ≡ b
      → chunk_of o ≡ record { text = join_blank a; locations = b }
  chunk_of-eq o a b e f = cc

  -- The segment goes to the group that is being gathered.
  extended :
      (limit : ℕ) (segments : List (EvidenceSegment L)) (s : EvidenceSegment L) (g : Gathering L)
      → IsGathered limit segments g
      → overflows_chunk limit s g ≡ false
      → Fits limit s.text
      → IsGathered limit (segments ++ (s ∷ [])) (gather limit s g)
  extended limit segments s g h e f = rw e (record {
    groups = h.groups;
    open_group = h.open_group ++ (s ∷ []);
    in_order =
        sym (append_assoc (flatten h.groups) h.open_group (s ∷ []))
        ∙ ap (λ (x : List (EvidenceSegment L)). x ++ (s ∷ [])) h.in_order;
    chunked = h.chunked;
    within = h.within;
    open_texts =
        map-snoc _ h.open_group s ∙ ap (λ (x : List Text). x ++ (s.text ∷ [])) h.open_texts;
    open_locations =
        map-snoc _ h.open_group s ∙ ap (λ (x : List L). x ++ (s.location ∷ [])) h.open_locations;
    open_fits = snoc-Fits limit g.current_size g.text_parts s.text e h.open_size f;
    open_size = omega (arith, length-join_blank g.text_parts s.text, h.open_size);
  })

  abbrev chunk_at : Gathering L → EvidenceChunk L
  chunk_at g = record { text = join_blank g.text_parts; locations = g.locations }

  closed_chunks :
      (limit : ℕ) (segments : List (EvidenceSegment L)) (g : Gathering L)
      (h : IsGathered limit segments g)
      → map chunk_of (h.groups ++ (h.open_group ∷ [])) ≡ g.chunks ++ (chunk_at g ∷ [])
  closed_chunks limit segments g h =
      map-snoc chunk_of h.groups h.open_group
      ∙ (ap (λ (x : List (EvidenceChunk L)). x ++ (chunk_of h.open_group ∷ [])) h.chunked
          ∙ ap (λ (x : EvidenceChunk L). g.chunks ++ (x ∷ []))
              (chunk_of-eq h.open_group g.text_parts g.locations h.open_texts h.open_locations))

  closed_within :
      (limit : ℕ) (segments : List (EvidenceSegment L)) (g : Gathering L)
      → IsGathered limit segments g
      → All (λ (c : EvidenceChunk L). Fits limit c.text) (g.chunks ++ (chunk_at g ∷ []))
  closed_within limit segments g h =
      All-snoc (λ (c : EvidenceChunk L). Fits limit c.text) g.chunks (chunk_at g) h.within
        h.open_fits

  started :
      (limit : ℕ)
      → IsGathered limit []
          (record { chunks = []; text_parts = []; locations = []; current_size = 0 })
  unfolding join_blank
  started limit = record {
    groups = [];
    open_group = [];
    in_order = refl;
    chunked = refl;
    within = tt;
    open_texts = refl;
    open_locations = refl;
    open_fits = omega arith;
    open_size = omega arith;
  }

  -- The group is closed, and the segment starts the next one.
  restarted :
      (limit : ℕ) (segments : List (EvidenceSegment L)) (s : EvidenceSegment L) (g : Gathering L)
      → IsGathered limit segments g
      → overflows_chunk limit s g ≡ true
      → Fits limit s.text
      → IsGathered limit (segments ++ (s ∷ [])) (gather limit s g)
  unfolding join_blank
  restarted limit segments s g h e f =
      rw (e, not_nil (no_texts g.text_parts) _ e)
        (record {
          groups = h.groups ++ (h.open_group ∷ []);
          open_group = s ∷ [];
          in_order =
              ap (λ (x : List (EvidenceSegment L)). x ++ (s ∷ []))
                (flatten-snoc h.groups h.open_group ∙ h.in_order);
          chunked = closed_chunks limit segments g h;
          within = closed_within limit segments g h;
          open_texts = refl;
          open_locations = refl;
          open_fits = f;
          open_size = omega arith;
        })

  gathered :
      (limit : ℕ) (segments : List (EvidenceSegment L)) (s : EvidenceSegment L) (g : Gathering L)
      → IsGathered limit segments g
      → Fits limit s.text
      → IsGathered limit (segments ++ (s ∷ [])) (gather limit s g)
  gathered limit segments s g h f = elim (Bool-cases (overflows_chunk limit s g)) [
    | inl e ↦ restarted limit segments s g h e f
    | inr e ↦ extended limit segments s g h e f
  ]

  -- A segment that alone is too long.
  abbrev pub TooLong : ℕ → List (EvidenceSegment L) → Type 0
  TooLong limit ss = (s : EvidenceSegment L) × In s ss × (limit < length s.text)

  gather_all_lem :
      (limit : ℕ) (before rest : List (EvidenceSegment L)) (g : Gathering L)
      → IsGathered limit before g
      → ((after : Gathering L) × (gather_all limit rest g ≡ ok after)
          × IsGathered limit (before ++ rest) after)
        ⊎ (TooLong limit rest × (gather_all limit rest g ≡ err segment_too_long))
  unfolding gather_all
  gather_all_lem limit before [] g h = inl (
    g,
    refl,
    subst (λ (x : List (EvidenceSegment L)). IsGathered limit x g) (sym (append_nil before)) h,
  )
  gather_all_lem limit before (s ∷ rest) g h = elim (Bool-cases (ltb limit (length s.text))) [
    | inl e ↦ inr ((s, inl refl, ltb→lt limit (length s.text) e), rw (e, gather_all) refl)
    | inr e ↦
        elim (gather_all_lem limit (before ++ (s ∷ [])) rest (gather limit s g)
          (gathered limit before s g h (ground arith))) [
            | inl (after, q, r) ↦ inl (
              after,
              rw (e, gather_all) q,
              subst (λ (x : List (EvidenceSegment L)). IsGathered limit x after)
                  (append_assoc before (s ∷ []) rest) r,
            )
            | inr ((t, i, long), q) ↦ inr ((t, inr i, long), rw (e, gather_all) q)
          ]
  ]

  texts-nil : (o : List (EvidenceSegment L)) → no_texts (texts o) ≡ true → o ≡ []
  texts-nil [] e = refl
  texts-nil (s ∷ o) e = absurd (cc)

  -- What `chunk_segments` returns for the locals at its end.
  closed-IsGrouping :
      (limit : ℕ) (segments : List (EvidenceSegment L)) (g : Gathering L)
      → IsGathered limit segments g
      → IsGrouping limit segments (close g)
  closed-IsGrouping limit segments g h = elim (Bool-cases (no_texts g.text_parts)) [
    | inl e ↦
        let none_open : h.open_group ≡ [] = texts-nil h.open_group (ap no_texts h.open_texts ∙ e) in
        rw e (record {
          groups = h.groups;
          in_order =
              sym (append_nil (flatten h.groups))
              ∙ (ap (λ (x : List (EvidenceSegment L)). flatten h.groups ++ x) (sym none_open)
                  ∙ h.in_order);
          chunked = h.chunked;
          within = h.within;
        })
    | inr e ↦ rw e (record {
      groups = h.groups ++ (h.open_group ∷ []);
      in_order = flatten-snoc h.groups h.open_group ∙ h.in_order;
      chunked = closed_chunks limit segments g h;
      within = closed_within limit segments g h;
    })
  ]

  -- For a positive limit, either some segment alone is longer than the limit, and the call raises; or it
  -- returns the chunks of groups of consecutive segments that make up the segments, each chunk with
  -- the texts of its group joined and with all of its locations, and none longer than the limit.
  pub chunk_segments_lem :
      (limit : ℕ) (segments : List (EvidenceSegment L))
      → 1 ≤ limit
      → ((chunks : List (EvidenceChunk L)) × (chunk_segments limit segments ≡ ok chunks)
          × IsGrouping limit segments chunks)
        ⊎ (TooLong limit segments × (chunk_segments limit segments ≡ err segment_too_long))
  unfolding chunk_segments
  chunk_segments_lem zero segments h = absurd (omega arith)
  chunk_segments_lem (suc n) segments h =
      let start : Gathering L = record {
        chunks = [];
        text_parts = [];
        locations = [];
        current_size = 0;
      } in
      elim (gather_all_lem (suc n) [] segments start (started (suc n))) [
        | inl (after, q, r) ↦
            inl
              (close after, rw (q, chunk_segments) refl, closed-IsGrouping (suc n) segments after r)
        | inr (long, q) ↦ inr (long, rw (q, chunk_segments) refl)
      ]
