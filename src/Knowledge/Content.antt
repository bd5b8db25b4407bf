-- ===== src/Knowledge/Content.antt =====
-- On texts as `chunk_text` of knowledge/application/text_extraction.py takes them apart: what a text
-- holds besides white space.
use s3mp_backend.Prelude.{
  ℕ, ◌≤◌, false, ◌&&◌, ◌≡◌, refl, sym, ap, ◌∙◌, inl, inr, List, [], ◌∷◌, ◌++◌, if◌then◌else◌, ◌==◌,
  length, arith, Bool-cases,
}
use s3mp_backend.Prelude.Text.{Text, strip, lstrip, rstrip, is_space}
use s3mp_backend.Knowledge.Chunking.{prepend, split_blank}

-- The characters that are no white space.
abbrev pub solid : Text → Text
solid [] = []
solid (c ∷ s) = if is_space c then solid s else c ∷ solid s

abbrev pub solids : List Text → Text
solids [] = []
solids (t ∷ ts) = solid t ++ solids ts

pub append_assoc : {A : Type 0} (a b c : List A) → (a ++ b) ++ c ≡ a ++ (b ++ c)
append_assoc [] b c = refl
append_assoc (x ∷ a) b c = rw (append_assoc a b c)

pub append_nil : {A : Type 0} (a : List A) → a ++ [] ≡ a
append_nil [] = refl
append_nil (x ∷ a) = rw (append_nil a)

pub solid-append : (a b : Text) → solid (a ++ b) ≡ solid a ++ solid b
solid-append [] b = refl
solid-append (c ∷ a) b = elim (Bool-cases (is_space c)) [
  | inl e ↦ rw (e, solid-append a b)
  | inr e ↦ rw (e, solid-append a b)
]

pub solids-append : (a b : List Text) → solids (a ++ b) ≡ solids a ++ solids b
solids-append [] b = refl
solids-append (t ∷ a) b =
    rw (solids-append a b) (sym (append_assoc (solid t) (solids a) (solids b)))

solid_kept : (c : ℕ) (s : Text) → is_space c ≡ false → solid (c ∷ s) ≡ c ∷ solid s
solid_kept c s e = rw e refl

solid-lstrip : (s : Text) → solid (lstrip s) ≡ solid s
unfolding lstrip
solid-lstrip [] = refl
solid-lstrip (c ∷ s) = elim (Bool-cases (is_space c)) [
  | inl e ↦ rw (e, lstrip) (solid-lstrip s)
  | inr e ↦ rw (e, lstrip) (solid_kept c s e)
]

solid-rstrip : (s : Text) → solid (rstrip s) ≡ solid s
unfolding rstrip
solid-rstrip [] = refl
solid-rstrip (c ∷ s) = by_rest (rstrip s) (solid-rstrip s)
  where
    by_rest :
        (r : Text)
        → solid r ≡ solid s
        → solid (elim r [ [] ↦ if is_space c then [] else c ∷ [] | d ∷ t ↦ c ∷ (d ∷ t) ])
          ≡ solid (c ∷ s)
    by_rest [] h = elim (Bool-cases (is_space c)) [
      | inl e ↦ rw e h
      | inr e ↦ rw e (rw e (ap (λ (x : Text). c ∷ x) h))
    ]
    by_rest (d ∷ t) h =
        solid-append (c ∷ []) (d ∷ t)
        ∙ (ap (λ (x : Text). solid (c ∷ []) ++ x) h ∙ sym (solid-append (c ∷ []) s))

pub solid-strip : (s : Text) → solid (strip s) ≡ solid s
solid-strip s = solid-rstrip (lstrip s) ∙ solid-lstrip s

length-lstrip : (s : Text) → length (lstrip s) ≤ length s
unfolding lstrip
length-lstrip [] = omega arith
length-lstrip (c ∷ s) = ground (arith, length-lstrip s)

length-rstrip : (s : Text) → length (rstrip s) ≤ length s
unfolding rstrip
length-rstrip [] = omega arith
length-rstrip (c ∷ s) = ground (arith, length-rstrip s)

pub length-strip : (s : Text) → length (strip s) ≤ length s
length-strip s = omega (arith, length-lstrip s, length-rstrip (lstrip s))

solids-prepend :
    (c : ℕ) (pieces : List Text) → solids (prepend c pieces) ≡ solid (c ∷ []) ++ solids pieces
solids-prepend c [] = refl
solids-prepend c (t ∷ pieces) =
    ap (λ (x : Text). x ++ solids pieces) (solid-append (c ∷ []) t)
    ∙ append_assoc (solid (c ∷ [])) (solid t) (solids pieces)

pub solids-split_blank : (s : Text) → solids (split_blank s) ≡ solid s
unfolding split_blank
solids-split_blank [] = refl
solids-split_blank (c ∷ []) = append_nil (solid (c ∷ []))
solids-split_blank (c ∷ (d ∷ s)) = elim (Bool-cases (c == 10 && d == 10)) [
  | inl e ↦
      let first : c ≡ 10 = ground arith in
      let second : d ≡ 10 = ground arith in rw (first, second) (solids-split_blank s)
  | inr e ↦
      rw (e, split_blank)
        (solids-prepend c (split_blank (d ∷ s))
          ∙ (ap (λ (x : Text). solid (c ∷ []) ++ x) (solids-split_blank (d ∷ s))
              ∙ sym (solid-append (c ∷ []) (d ∷ s))))
]
