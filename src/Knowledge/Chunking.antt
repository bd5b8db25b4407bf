-- ===== src/Knowledge/Chunking.antt =====
-- `chunk_text` and `chunk_segments` of knowledge/application/text_extraction.py, under src/s3mp/: a text,
-- or a list of located texts, cut into chunks of bounded length.
use s3mp_backend.Prelude.{
  ℕ, zero, suc, ◌+◌, Bool, true, false, not, ◌&&◌, Option, none, some, List, [], ◌∷◌, ◌++◌, Result,
  ok, err, if◌then◌else◌, ltb, ◌==◌, length, take, drop,
}
use s3mp_backend.Prelude.Text.{Text, strip, is_empty}

abbrev newline : ℕ
newline = 10

-- The character `c` in front of the first piece.
abbrev pub prepend : ℕ → List Text → List Text
prepend c [] = (c ∷ []) ∷ []
prepend c (s ∷ pieces) = (c ∷ s) ∷ pieces

-- `text.split("\n\n")`
unfoldable pub split_blank : Text → List Text
split_blank [] = [] ∷ []
split_blank (c ∷ []) = (c ∷ []) ∷ []
split_blank (c ∷ (d ∷ s)) = elim (c == newline && d == newline) [
  | true ↦ [] ∷ split_blank s
  | false ↦ prepend c (split_blank (d ∷ s))
]

abbrev pub blank : Text
blank = newline ∷ (newline ∷ [])

-- The errors of both functions.
pub data ChunkError : Type 0 where
  not_positive segment_too_long : ChunkError

-- The locals `chunks` and `current`.
pub record Chunks : Type 0 where
  pub chunks : List Text
  pub current : Text

-- `chunks.append(current)`, `current = ""`
abbrev pub flush : Chunks → Chunks
flush st = record { chunks = st.chunks ++ (st.current ∷ []); current = [] }

-- `if current:` before it
abbrev pub flush_if_any : Chunks → Chunks
flush_if_any st = if is_empty st.current then st else flush st

abbrev pub append_chunk : Text → Chunks → Chunks
append_chunk piece st = record st { chunks = st.chunks ++ (piece ∷ []) }

-- The inner `while`, with fuel: the rest of the paragraph, or nothing if the fuel is too little.
unfoldable pub cut : ℕ → ℕ → Text → Chunks → Option (Text × Chunks)
cut zero limit paragraph st = none
cut (suc fuel) limit paragraph st = elim (ltb limit (length paragraph)) [
  | false ↦ some (paragraph, st)
  | true ↦
      cut fuel limit (drop limit paragraph) (append_chunk (take limit paragraph) (flush_if_any st))
]

-- f"{current}\n\n{paragraph}".strip() if current else paragraph
abbrev pub joined : Text → Text → Text
joined current paragraph =
    if is_empty current then paragraph else strip (current ++ (blank ++ paragraph))

-- `current and len(current) + len(paragraph) + 2 > max_characters`
abbrev pub is_full : ℕ → Text → Text → Bool
is_full limit current paragraph =
    not (is_empty current) && ltb limit (length current + length paragraph + 2)

-- The part of the loop's body after the paragraph is stripped.
unfoldable pub add_paragraph : ℕ → Text → Chunks → Option Chunks
unfolding cut
add_paragraph limit paragraph st =
    elim (cut (suc (length paragraph)) limit paragraph
      (if is_full limit st.current paragraph then flush st else st)) [
        | none ↦ none
        | some (rest, after) ↦ some (record after { current = joined after.current rest })
      ]

-- The loop over the paragraphs.
unfoldable pub add_paragraphs : ℕ → List Text → Chunks → Option Chunks
unfolding add_paragraph
add_paragraphs limit [] st = some st
add_paragraphs limit (p ∷ ps) st =
    elim (if is_empty (strip p) then some st else add_paragraph limit (strip p) st) [
      | none ↦ none
      | some after ↦ add_paragraphs limit ps after
    ]

-- The inner `none` is a loop that has run out of fuel.
unfoldable pub chunk_text : ℕ → Text → Result ChunkError (Option (List Text))
unfolding split_blank add_paragraphs
chunk_text zero text = err not_positive
chunk_text (suc n) [] = ok (some [])
chunk_text (suc n) (c ∷ text) =
    elim (add_paragraphs (suc n) (split_blank (c ∷ text)) (record { chunks = []; current = [] })) [
      | none ↦ ok none
      | some st ↦ ok (some (flush_if_any st).chunks)
    ]

-- `L` is the type of a location.
pub record EvidenceSegment (L : Type 0) : Type 0 where
  pub text : Text
  pub location : L

pub record EvidenceChunk (L : Type 0) : Type 0 where
  pub text : Text
  pub locations : List L

-- "\n\n".join(texts)
unfoldable pub join_blank : List Text → Text
join_blank [] = []
join_blank (t ∷ []) = t
join_blank (t ∷ (u ∷ ts)) = t ++ (blank ++ join_blank (u ∷ ts))

-- The locals of `chunk_segments`.
pub record Gathering (L : Type 0) : Type 0 where
  pub chunks : List (EvidenceChunk L)
  pub text_parts : List Text
  pub locations : List L
  pub current_size : ℕ

abbrev pub no_texts : List Text → Bool
no_texts [] = true
no_texts (_ ∷ _) = false

module _ {L : Type 0} where
  -- `if text_parts:`, then `chunks.append(…)`
  abbrev pub close : Gathering L → List (EvidenceChunk L)
  close g =
      if no_texts g.text_parts
      then g.chunks
      else g.chunks ++ (record { text = join_blank g.text_parts; locations = g.locations } ∷ [])

  abbrev pub separator : Gathering L → ℕ
  separator g = if no_texts g.text_parts then 0 else 2

  abbrev pub overflows_chunk : ℕ → EvidenceSegment L → Gathering L → Bool
  overflows_chunk limit s g =
      not (no_texts g.text_parts) && ltb limit (g.current_size + separator g + length s.text)

  -- A chunk is closed before the segment that would make it too long. The separator that is then
  -- added to the size is still the one that was computed before.
  abbrev pub gather : ℕ → EvidenceSegment L → Gathering L → Gathering L
  gather limit s g =
      let full = overflows_chunk limit s g in
      record {
        chunks = if full then close g else g.chunks;
        text_parts = (if full then [] else g.text_parts) ++ (s.text ∷ []);
        locations = (if full then [] else g.locations) ++ (s.location ∷ []);
        current_size = (if full then 0 else g.current_size) + (separator g + length s.text);
      }

  unfoldable pub gather_all :
      ℕ → List (EvidenceSegment L) → Gathering L → Result ChunkError (Gathering L)
  gather_all limit [] g = ok g
  gather_all limit (s ∷ ss) g = elim (ltb limit (length s.text)) [
    | true ↦ err segment_too_long
    | false ↦ gather_all limit ss (gather limit s g)
  ]

  unfoldable pub chunk_segments :
      ℕ → List (EvidenceSegment L) → Result ChunkError (List (EvidenceChunk L))
  unfolding gather_all
  chunk_segments zero ss = err not_positive
  chunk_segments (suc n) ss =
      elim (gather_all (suc n) ss
        (record { chunks = []; text_parts = []; locations = []; current_size = 0 })) [
          | err e ↦ err e
          | ok g ↦ ok (close g)
        ]
