-- ===== src/Knowledge/Chunks.antt =====
-- On `chunk_text` of knowledge/application/text_extraction.py: the size of its chunks and what they hold.
use s3mp_backend.Prelude.{
  ℕ, zero, suc, ◌+◌, ◌≤◌, ◌≡◌, refl, sym, ap, ◌∙◌, ◌⊎◌, inl, inr, Option, some, List, [], ◌∷◌, ◌++◌,
  ok, if◌then◌else◌, ltb, length, length-append, arith, Bool-cases, All,
}
use s3mp_backend.Prelude.Text.{Text, strip, is_empty}
use s3mp_backend.Knowledge.Chunking.{
  split_blank, blank, Chunks, flush, flush_if_any, joined, is_full, add_paragraph, add_paragraphs,
  chunk_text,
}
use s3mp_backend.Knowledge.Content.{
  solid, solids, append_assoc, append_nil, solid-append, solid-strip, length-strip,
  solids-split_blank,
}
use s3mp_backend.Knowledge.Pieces.{
  content, Fits, IsBounded, flushed, empty_sound, if_flushed, cut_ends,
}

solid-joined : (current p : Text) → solid (joined current p) ≡ solid current ++ solid p
solid-joined [] p = refl
solid-joined (c ∷ s) p = solid-strip ((c ∷ s) ++ (blank ++ p)) ∙ solid-append (c ∷ s) (blank ++ p)

-- What is left after the test has room for the paragraph, or is empty.
HasRoom : ℕ → Text → Text → Type 0
HasRoom limit current p = (current ≡ []) ⊎ (length current + length p + 2 ≤ limit)

tested-HasRoom :
    (limit : ℕ) (st : Chunks) (p : Text)
    → HasRoom limit (if is_full limit st.current p then flush st else st).current p
unfolding HasRoom
tested-HasRoom limit st p = elim (Bool-cases (is_empty st.current)) [
  | inl e ↦ rw e (inl (empty_sound st.current e))
  | inr e ↦ elim (Bool-cases (ltb limit (length st.current + length p + 2))) [
    | inl f ↦ rw (e, f) (inl refl)
    | inr f ↦ rw (e, f) (inr (ground arith))
  ]
]

cut-HasRoom :
    (limit : ℕ) (before after : Chunks) (p rest : Text)
    → ((after ≡ before) × (rest ≡ p)) ⊎ (after.current ≡ [])
    → HasRoom limit before.current p
    → HasRoom limit after.current rest
unfolding HasRoom
cut-HasRoom limit before after p rest (inr e) h = inl e
cut-HasRoom limit before after p rest (inl (e, f)) h = rw (e, f) h

joined-Fits :
    (limit : ℕ) (current p : Text)
    → Fits limit p
    → HasRoom limit current p
    → Fits limit (joined current p)
unfolding HasRoom
joined-Fits limit [] p h f = h
joined-Fits limit (c ∷ s) p h (inl e) = absurd (cc)
joined-Fits limit (c ∷ s) p h (inr f) =
    omega (arith, length-strip ((c ∷ s) ++ (blank ++ p)), length-append (c ∷ s) (blank ++ p))

-- A paragraph is taken in.
pub record IsAdded (limit : ℕ) (p : Text) (st : Chunks) (r : Option Chunks) : Type 0 where
  pub after : Chunks
  pub returned : r ≡ some after
  pub bounded : IsBounded limit after
  pub kept : content after ≡ content st ++ solid p

add_paragraph_lem :
    (limit : ℕ) (p : Text) (st : Chunks)
    → 1 ≤ limit
    → IsBounded limit st
    → IsAdded limit p st (add_paragraph limit p st)
unfolding add_paragraph
add_paragraph_lem limit p st h b =
    let full = is_full limit st.current p in
    let before = if full then flush st else st in
    let (b0, c0) = if_flushed limit full st b in
    let (rest, after, q, r) = cut_ends (suc (length p)) limit p before h (omega arith) b0 in
    record {
      after = record after { current = joined after.current rest };
      returned = rw (q, add_paragraph) refl;
      bounded = record {
        chunks_fit = r.bounded.chunks_fit;
        current_fits =
            joined-Fits limit after.current rest r.rest_fits
              (cut-HasRoom limit before after p rest r.untouched (tested-HasRoom limit st p));
      };
      kept =
          ap (λ (x : Text). solids after.chunks ++ x) (solid-joined after.current rest)
          ∙ (sym (append_assoc (solids after.chunks) (solid after.current) (solid rest))
              ∙ (r.kept ∙ ap (λ (x : Text). x ++ solid p) c0));
    }

add_paragraphs_lem :
    (limit : ℕ) (ps : List Text) (st : Chunks)
    → 1 ≤ limit
    → IsBounded limit st
    → (after : Chunks) × (add_paragraphs limit ps st ≡ some after)
      × IsBounded limit after
      × (content after ≡ content st ++ solids ps)
unfolding add_paragraphs
add_paragraphs_lem limit [] st h b = (st, refl, b, sym (append_nil (content st)))
add_paragraphs_lem limit (p ∷ ps) st h b = elim (Bool-cases (is_empty (strip p))) [
  | inl e ↦
      let nothing : solid p ≡ [] = sym (solid-strip p) ∙ ap solid (empty_sound (strip p) e) in
      let (after, q, b', kept) = add_paragraphs_lem limit ps st h b in
      (after, rw (e, add_paragraphs) q, b', rw nothing kept)
  | inr e ↦
      let first = add_paragraph_lem limit (strip p) st h b in
      let (after, q, b', kept) = add_paragraphs_lem limit ps first.after h first.bounded in
      (
        after,
        rw (e, first.returned, add_paragraphs) q,
        b',
        kept
            ∙ (ap (λ (x : Text). x ++ solids ps)
                  (first.kept ∙ ap (λ (x : Text). content st ++ x) (solid-strip p))
                ∙ append_assoc (content st) (solid p) (solids ps)),
      )
]

-- For a positive limit `chunk_text` returns, without running out of fuel: each chunk has at most
-- the limit's number of characters, and the chunks hold the characters of the text that are no
-- white space, all of them and in their order.
pub chunk_text_lem :
    (limit : ℕ) (text : Text)
    → 1 ≤ limit
    → (chunks : List Text) × (chunk_text limit text ≡ ok (some chunks))
      × All (Fits limit) chunks
      × (solids chunks ≡ solid text)
unfolding chunk_text
chunk_text_lem zero text h = absurd (omega arith)
chunk_text_lem (suc n) [] h = ([], refl, tt, refl)
chunk_text_lem (suc n) (c ∷ text) h =
    let start : Chunks = record { chunks = []; current = [] } in
    let (after, q, b, kept) =
      add_paragraphs_lem (suc n) (split_blank (c ∷ text)) start h
        (record { chunks_fit = tt; current_fits = omega arith }) in
    let (b', same, empty) = flushed (suc n) after b in
    (
      (flush_if_any after).chunks,
      rw (q, chunk_text) refl,
      b'.chunks_fit,
      sym (append_nil (solids (flush_if_any after).chunks))
          ∙ (ap (λ (x : Text). solids (flush_if_any after).chunks ++ solid x) (sym empty)
              ∙ (same ∙ (kept ∙ solids-split_blank (c ∷ text)))),
    )
