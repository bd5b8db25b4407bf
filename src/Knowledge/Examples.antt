-- ===== src/Knowledge/Examples.antt =====
-- The theorems on exclusions and on chunks at concrete inputs.
use s3mp_backend.Prelude.{
  ℕ, true, ◌≡◌, refl, ◌↔◌, ◌⊎◌, some, ok, err, List, [], ◌∷◌, ◌++◌, All, arith,
}
use s3mp_backend.Prelude.Text.{Text, codes}
use s3mp_backend.Knowledge.Chunking.{
  EvidenceSegment, EvidenceChunk, chunk_text, chunk_segments, segment_too_long,
}
use s3mp_backend.Knowledge.Content.{solid, solids}
use s3mp_backend.Knowledge.Pieces.{Fits}
use s3mp_backend.Knowledge.Chunks.{chunk_text_lem}
use s3mp_backend.Knowledge.Evidence.{IsGrouping, TooLong, chunk_segments_lem}
use s3mp_backend.Authorization.Decisions.{Covers}
use s3mp_backend.Knowledge.{normalize_directory_path, is_excluded}
use s3mp_backend.Knowledge.Exclusions.{excluded-by-segments}

excluded_key : normalize_directory_path (codes "a/b/c.txt") ≡ ok (codes "a/b/c.txt")
unfolding normalize_directory_path s3mp_backend.Prelude.Text.rstrip s3mp_backend.Prelude.Text.lstrip
    s3mp_backend.Prelude.Text.text_eq s3mp_backend.Prelude.Text.starts_with
    s3mp_backend.Prelude.Text.split s3mp_backend.Prelude.Text.join
excluded_key = refl

excluded_rule : normalize_directory_path (codes " a/./b/ ") ≡ ok (codes "a/b")
unfolding normalize_directory_path s3mp_backend.Prelude.Text.rstrip s3mp_backend.Prelude.Text.lstrip
    s3mp_backend.Prelude.Text.text_eq s3mp_backend.Prelude.Text.starts_with
    s3mp_backend.Prelude.Text.split s3mp_backend.Prelude.Text.join
excluded_rule = refl

excluded-by-segments_example :
    (is_excluded (codes "a/b/c.txt") (codes " a/./b/ ") ≡ ok true)
    ↔ Covers (some (codes "a/b")) (codes "a/b/c.txt")
excluded-by-segments_example =
    excluded-by-segments (codes "a/b/c.txt") (codes " a/./b/ ") (codes "a/b/c.txt") (codes "a/b")
      excluded_key excluded_rule

abbrev page : Text
page = codes "alpha beta" ++ (10 ∷ 10 ∷ []) ++ codes "gamma"

chunked_page : chunk_text 6 page ≡ ok (some (codes "alpha " ∷ codes "beta" ∷ codes "gamma" ∷ []))
unfolding chunk_text s3mp_backend.Prelude.Text.rstrip s3mp_backend.Prelude.Text.lstrip
chunked_page = refl

chunk_text_lem_example :
    (chunks : List Text) × (chunk_text 6 page ≡ ok (some chunks))
    × All (Fits 6) chunks
    × (solids chunks ≡ solid page)
chunk_text_lem_example = chunk_text_lem 6 page (omega arith)

abbrev segments : List (EvidenceSegment ℕ)
segments =
    record { text = codes "alpha"; location = 1 }
    ∷ record { text = codes "be"; location = 2 }
    ∷ record { text = codes "gamma"; location = 3 }
    ∷ []

chunked_segments :
    chunk_segments 9 segments
    ≡ ok (
        record { text = codes "alpha" ++ (10 ∷ 10 ∷ []) ++ codes "be"; locations = 1 ∷ 2 ∷ [] }
        ∷ record { text = codes "gamma"; locations = 3 ∷ [] }
        ∷ [])
unfolding chunk_segments s3mp_backend.Knowledge.Chunking.join_blank
chunked_segments = refl

-- The separator of the closed chunk still counts for the new one.
abbrev long_first : List (EvidenceSegment ℕ)
long_first =
    record { text = codes "abcdefg"; location = 1 }
    ∷ record { text = codes "abc"; location = 2 }
    ∷ record { text = codes "d"; location = 3 }
    ∷ []

closed_early :
    chunk_segments 7 long_first
    ≡ ok (
        record { text = codes "abcdefg"; locations = 1 ∷ [] }
        ∷ record { text = codes "abc"; locations = 2 ∷ [] }
        ∷ record { text = codes "d"; locations = 3 ∷ [] }
        ∷ [])
unfolding chunk_segments s3mp_backend.Knowledge.Chunking.join_blank
closed_early = refl

chunk_segments_lem_example :
    ((chunks : List (EvidenceChunk ℕ)) × (chunk_segments 9 segments ≡ ok chunks)
      × IsGrouping 9 segments chunks)
    ⊎ (TooLong 9 segments × (chunk_segments 9 segments ≡ err segment_too_long))
chunk_segments_lem_example = chunk_segments_lem 9 segments (omega arith)
