-- ===== src/Knowledge/Pieces.antt =====
-- On `chunk_text` of knowledge/application/text_extraction.py: its inner loop.
use s3mp_backend.Prelude.{
  ℕ, zero, suc, ◌+◌, ◌≤◌, ◌<◌, Bool, true, false, ◌≡◌, refl, sym, ap, ◌∙◌, ◌⊎◌, inl, inr, some,
  List, [], ◌∷◌, ◌++◌, if◌then◌else◌, ltb, ltb→lt, length, take, drop, arith, Bool-cases, All,
}
use s3mp_backend.Prelude.Text.{Text, is_empty}
use s3mp_backend.Knowledge.Chunking.{Chunks, flush, flush_if_any, append_chunk, cut}
use s3mp_backend.Knowledge.Content.{
  solid, solids, append_assoc, append_nil, solid-append, solids-append,
}

take-drop : (n : ℕ) (s : Text) → take n s ++ drop n s ≡ s
take-drop zero s = refl
take-drop (suc n) [] = refl
take-drop (suc n) (c ∷ s) = rw (take-drop n s)

length-take : (n : ℕ) (s : Text) → length (take n s) ≤ n
length-take zero s = omega arith
length-take (suc n) [] = omega arith
length-take (suc n) (c ∷ s) = omega (arith, length-take n s)

length-drop : (n : ℕ) (s : Text) → length (drop n s) + length (take n s) ≡ length s
length-drop zero s = omega arith
length-drop (suc n) [] = omega arith
length-drop (suc n) (c ∷ s) = omega (arith, length-drop n s)

length-take-full : (n : ℕ) (s : Text) → n ≤ length s → length (take n s) ≡ n
length-take-full zero s h = refl
length-take-full (suc n) [] h = omega arith
length-take-full (suc n) (c ∷ s) h = omega (arith, length-take-full n s (omega arith))

pub All-snoc :
    {A : Type 0} (P : A → Type 0) (xs : List A) (a : A) → All P xs → P a → All P (xs ++ (a ∷ []))
All-snoc P [] a h p = (p, tt)
All-snoc P (x ∷ xs) a h p = (h.0, All-snoc P xs a h.1 p)

-- What has been taken in so far.
abbrev pub content : Chunks → Text
content st = solids st.chunks ++ solid st.current

abbrev pub Fits : ℕ → Text → Type 0
Fits limit t = length t ≤ limit

pub record IsBounded (limit : ℕ) (st : Chunks) : Type 0 where
  pub chunks_fit : All (Fits limit) st.chunks
  pub current_fits : Fits limit st.current

content-snoc :
    (chunks : List Text) (t : Text) → solids (chunks ++ (t ∷ [])) ≡ solids chunks ++ solid t
content-snoc chunks t =
    solids-append chunks (t ∷ []) ∙ ap (λ (x : Text). solids chunks ++ x) (append_nil (solid t))

pub content-flush : (st : Chunks) → content (flush st) ≡ content st
content-flush st =
    append_nil (solids (st.chunks ++ (st.current ∷ []))) ∙ content-snoc st.chunks st.current

flush-IsBounded : (limit : ℕ) (st : Chunks) → IsBounded limit st → IsBounded limit (flush st)
flush-IsBounded limit st h = record {
  chunks_fit = All-snoc (Fits limit) st.chunks st.current h.chunks_fit h.current_fits;
  current_fits = omega arith;
}

pub if_flushed :
    (limit : ℕ) (b : Bool) (st : Chunks)
    → IsBounded limit st
    → IsBounded limit (if b then flush st else st)
      × (content (if b then flush st else st) ≡ content st)
if_flushed limit true st h = (flush-IsBounded limit st h, content-flush st)
if_flushed limit false st h = (h, refl)

pub empty_sound : (s : Text) → is_empty s ≡ true → s ≡ []
empty_sound [] h = refl
empty_sound (c ∷ s) h = absurd (cc)

pub flushed :
    (limit : ℕ) (st : Chunks)
    → IsBounded limit st
    → IsBounded limit (flush_if_any st)
      × (content (flush_if_any st) ≡ content st)
      × ((flush_if_any st).current ≡ [])
flushed limit st h = elim (Bool-cases (is_empty st.current)) [
  | inl e ↦ rw e (h, refl, empty_sound st.current e)
  | inr e ↦ rw e (flush-IsBounded limit st h, content-flush st, refl)
]

-- A chunk is appended where `current` is empty.
appended :
    (limit : ℕ) (piece : Text) (st : Chunks)
    → IsBounded limit st
    → st.current ≡ []
    → Fits limit piece
    → IsBounded limit (append_chunk piece st)
      × (content (append_chunk piece st) ≡ content st ++ solid piece)
appended limit piece st h e f = (
  record {
    chunks_fit = All-snoc (Fits limit) st.chunks piece h.chunks_fit f;
    current_fits = h.current_fits;
  },
  rw e (
      append_nil (solids (st.chunks ++ (piece ∷ [])))
      ∙ (content-snoc st.chunks piece
          ∙ ap (λ (x : Text). x ++ solid piece) (sym (append_nil (solids st.chunks))))),
)

shorter :
    (fuel limit : ℕ) (p : Text)
    → 1 ≤ limit
    → length p < suc fuel
    → limit < length p
    → length (drop limit p) < fuel
shorter fuel limit p h f g =
    omega (arith, length-drop limit p, length-take-full limit p (omega arith))

-- How the inner loop ends.
pub record IsCut (limit : ℕ) (p : Text) (st : Chunks) (rest : Text) (after : Chunks) : Type 0 where
  pub rest_fits : Fits limit rest
  pub bounded : IsBounded limit after
  pub kept : content after ++ solid rest ≡ content st ++ solid p
  pub untouched : ((after ≡ st) × (rest ≡ p)) ⊎ (after.current ≡ [])

pub cut_ends :
    (fuel limit : ℕ) (p : Text) (st : Chunks)
    → 1 ≤ limit
    → length p < fuel
    → IsBounded limit st
    → (rest : Text) × (after : Chunks) × (cut fuel limit p st ≡ some (rest, after))
      × IsCut limit p st rest after
unfolding cut
cut_ends zero limit p st h f b = absurd (omega arith)
cut_ends (suc fuel) limit p st h f b = elim (Bool-cases (ltb limit (length p))) [
  | inr e ↦ (
    p,
    st,
    rw (e, cut) refl,
    record { rest_fits = ground arith; bounded = b; kept = refl; untouched = inl (refl, refl) },
  )
  | inl e ↦
      let (b', c', empty) = flushed limit st b in
      let (b2, c2) =
        appended limit (take limit p) (flush_if_any st) b' empty (length-take limit p) in
      let (rest, after, q, r) =
        cut_ends fuel limit (drop limit p) (append_chunk (take limit p) (flush_if_any st)) h
          (shorter fuel limit p h f (ltb→lt limit (length p) e)) b2 in
      (
        rest,
        after,
        rw (e, cut) q,
        record {
          rest_fits = r.rest_fits;
          bounded = r.bounded;
          kept =
              r.kept
              ∙ (ap (λ (x : Text). x ++ solid (drop limit p))
                    (c2 ∙ ap (λ (x : Text). x ++ solid (take limit p)) c')
                  ∙ (append_assoc (content st) (solid (take limit p)) (solid (drop limit p))
                      ∙ ap (λ (x : Text). content st ++ x)
                          (sym (solid-append (take limit p) (drop limit p))
                            ∙ ap solid (take-drop limit p))));
          untouched = elim r.untouched [
            | inl (same, _) ↦ inr (ap (λ (x : Chunks). x.current) same ∙ empty)
            | inr none_left ↦ inr none_left
          ];
        },
      )
]
