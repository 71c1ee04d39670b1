-- ===== src/Chunker/Bounds.antt =====
-- No segment and no chunk is longer than the bound, and the wrapping loop ends.
use mcplica.Common.{
  ok, err, ℕ, zero, suc, ◌+◌, ◌-◌, ◌≤◌, ◌<◌, ◌≡◌, refl, min, true, false, ◌||◌, Option, none, some,
  List, [], ◌∷◌, ◌++◌, arith, ◌⊎◌, inl, inr, ◌==◌, if◌then◌else◌, leb, ltb, length, take, drop,
  Text, is_empty, strip, length-strip-le, length-append, length-take, All, All-append, Bool-cases,
  Option-cases,
}
use mcplica.Chunker.{
  newline, rfind_space, or_max, boundary, wrap, join, candidate_of, flush, segments_from,
  bounded_segments, paragraphs_of, chunk_text, chunk_texts, last_chars, overlap_of, chunk_sections,
  chunk_document,
}

length-drop : (n : ℕ) (t : Text) → length (drop n t) ≡ length t - n
length-drop zero t = omega arith
length-drop (suc n) [] = omega arith
length-drop (suc n) (c ∷ t) = omega (arith, length-drop n t)

rfind_space-lt : (t : Text) (i : ℕ) → rfind_space t ≡ some i → i < length t
unfolding rfind_space
rfind_space-lt [] i h = cc
rfind_space-lt (c ∷ t) i h = elim (Option-cases (rfind_space t)) [
  | inl e ↦
      let k : (if c == 32 then some 0 else none) ≡ some i = rw (e, rfind_space) at h in ground arith
  | inr (j, e) ↦
      let k : some (j + 1) ≡ some i = rw (e, rfind_space) at h in
      let lt = rfind_space-lt t j e in ground arith
]

or_max_bounds :
    (max_chars : ℕ) (o : Option ℕ)
    → 2 ≤ max_chars
    → ((i : ℕ) → o ≡ some i → i ≤ max_chars)
    → (1 ≤ or_max max_chars o) × (or_max max_chars o ≤ max_chars)
or_max_bounds max_chars none h f = (omega arith, omega arith)
or_max_bounds max_chars (some i) h f = let le = f i refl in (ground arith, ground arith)

boundary_bounds :
    (max_chars : ℕ) (t : Text)
    → 2 ≤ max_chars
    → (1 ≤ boundary max_chars t) × (boundary max_chars t ≤ max_chars)
unfolding boundary
boundary_bounds max_chars t h =
    or_max_bounds max_chars (rfind_space (take (max_chars + 1) t)) h (λ i e.
      omega (arith, rfind_space-lt (take (max_chars + 1) t) i e, length-take (max_chars + 1) t))

abbrev pub IsBounded : ℕ → List Text → Type 0
IsBounded max_chars ts = All (λ t. length t ≤ max_chars) ts

-- With more fuel than characters the loop ends, and all that it gives is bounded.
wrap-IsBounded :
    (fuel max_chars : ℕ) (t : Text)
    → 2 ≤ max_chars
    → length t < fuel
    → (segments : List Text) × (rest : Text) × (wrap fuel max_chars t ≡ some (segments, rest))
      × IsBounded max_chars segments
      × (length rest ≤ max_chars)
unfolding wrap
wrap-IsBounded zero max_chars t h f = absurd (omega arith)
wrap-IsBounded (suc fuel) max_chars t h f = elim (Bool-cases (leb (length t) max_chars)) [
  | inl e ↦ ([], t, rw e refl, tt, ground arith)
  | inr e ↦
      let b = boundary max_chars t in
      let (low, high) = boundary_bounds max_chars t h in
      let shorter : length (strip (drop b t)) < fuel =
        ground (arith, length-strip-le (drop b t), length-drop b t) in
      let (segments, rest, is, bounded, left) =
        wrap-IsBounded fuel max_chars (strip (drop b t)) h shorter in
      (
        strip (take b t) ∷ segments,
        rest,
        rw (e, is) refl,
        (omega (arith, length-strip-le (take b t), length-take b t), bounded),
        left,
      )
]

flush-IsBounded : (max_chars : ℕ) (t : Text) → length t ≤ max_chars → IsBounded max_chars (flush t)
flush-IsBounded max_chars [] h = tt
flush-IsBounded max_chars (c ∷ t) h = (h, tt)

segments_from-IsBounded :
    (max_chars : ℕ) (current : Text) (ps : List Text)
    → 2 ≤ max_chars
    → length current ≤ max_chars
    → (segments : List Text) × (segments_from max_chars current ps ≡ some segments)
      × IsBounded max_chars segments
unfolding segments_from
segments_from-IsBounded max_chars current [] h c =
    (flush current, refl, flush-IsBounded max_chars current c)
segments_from-IsBounded max_chars current (p ∷ ps) h c =
    elim (Bool-cases (leb (length (candidate_of current p)) max_chars)) [
      | inl e ↦
          let (segments, is, bounded) =
            segments_from-IsBounded max_chars (candidate_of current p) ps h (ground arith) in
          (segments, rw (e, is) refl, bounded)
      | inr e ↦
          let (wrapped, rest, at, wrapped_bounded, left) =
            wrap-IsBounded (length p + 1) max_chars p h (omega arith) in
          let (segments, is, bounded) = segments_from-IsBounded max_chars rest ps h left in
          (
            (flush current ++ wrapped) ++ segments,
            rw (e, at, is) refl,
            All-append (λ t. length t ≤ max_chars) (flush current ++ wrapped) segments
                (All-append (λ t. length t ≤ max_chars) (flush current) wrapped
                  (flush-IsBounded max_chars current c) wrapped_bounded)
                bounded,
          )
    ]

overlap_of_bounded :
    (max_chars overlap_chars : ℕ) (previous segment : Text)
    → length (overlap_of max_chars overlap_chars previous segment) ≤ max_chars - length segment - 2
overlap_of_bounded max_chars overlap_chars previous segment =
    let size = min overlap_chars (max_chars - length segment - 2) in
    elim (Bool-cases (is_empty previous || size == 0)) [
      | inl e ↦ rw e (omega arith)
      | inr e ↦ rw e (
          omega (
            arith,
            length-strip-le (last_chars size previous),
            length-drop (length previous - size) previous,
          ))
    ]

with_overlap :
    (max_chars : ℕ) (overlap segment : Text)
    → length segment ≤ max_chars
    → length overlap ≤ max_chars - length segment - 2
    → length (if is_empty overlap then segment else join overlap segment) ≤ max_chars
with_overlap max_chars [] segment h o = h
with_overlap max_chars (c ∷ overlap) segment h o = omega (
  arith,
  h,
  o,
  length-strip-le ((c ∷ overlap) ++ newline ∷ newline ∷ segment),
  length-append (c ∷ overlap) (newline ∷ newline ∷ segment),
)

chunk_text_bounded :
    (max_chars overlap_chars : ℕ) (previous segment : Text)
    → length segment ≤ max_chars
    → length (chunk_text max_chars overlap_chars previous segment) ≤ max_chars
unfolding chunk_text
chunk_text_bounded max_chars overlap_chars previous segment h =
    with_overlap max_chars (overlap_of max_chars overlap_chars previous segment) segment h
      (overlap_of_bounded max_chars overlap_chars previous segment)

chunk_texts-IsBounded :
    (max_chars overlap_chars : ℕ) (previous : Text) (segments : List Text)
    → IsBounded max_chars segments
    → IsBounded max_chars (chunk_texts max_chars overlap_chars previous segments)
unfolding chunk_texts
chunk_texts-IsBounded max_chars overlap_chars previous [] h = tt
chunk_texts-IsBounded max_chars overlap_chars previous (s ∷ ss) h = (
  chunk_text_bounded max_chars overlap_chars previous s h.0,
  chunk_texts-IsBounded max_chars overlap_chars s ss h.1,
)

bounded_segments-IsBounded :
    (text : Text) (max_chars : ℕ)
    → 2 ≤ max_chars
    → (segments : List Text) × (bounded_segments text max_chars ≡ some segments)
      × IsBounded max_chars segments
unfolding bounded_segments
bounded_segments-IsBounded text max_chars h =
    segments_from-IsBounded max_chars [] (paragraphs_of text) h (omega arith)

chunk_sections-IsBounded :
    (max_chars overlap_chars : ℕ) (texts : List Text)
    → 2 ≤ max_chars
    → (chunks : List Text) × (chunk_sections max_chars overlap_chars texts ≡ some chunks)
      × IsBounded max_chars chunks
unfolding chunk_sections
chunk_sections-IsBounded max_chars overlap_chars [] h = ([], refl, tt)
chunk_sections-IsBounded max_chars overlap_chars (text ∷ texts) h =
    let (segments, is, bounded) = bounded_segments-IsBounded text max_chars h in
    let (chunks, later, all_bounded) = chunk_sections-IsBounded max_chars overlap_chars texts h in
    (
      chunk_texts max_chars overlap_chars [] segments ++ chunks,
      rw (is, later, chunk_sections) refl,
      All-append (λ t. length t ≤ max_chars) (chunk_texts max_chars overlap_chars [] segments)
          chunks (chunk_texts-IsBounded max_chars overlap_chars [] segments bounded) all_bounded,
    )

-- With a chunk size of at least 100 and a smaller overlap, a document is always chunked, the loops
-- end, and no chunk is longer than the chunk size; other sizes are refused.
pub chunk_document-IsBounded :
    (texts : List Text) (max_chars overlap_chars : ℕ)
    → (100 ≤ max_chars
        → overlap_chars < max_chars
        → (chunks : List Text) × (chunk_document texts max_chars overlap_chars ≡ some (ok chunks))
          × IsBounded max_chars chunks)
      × ((max_chars < 100) ⊎ (max_chars ≤ overlap_chars)
          → chunk_document texts max_chars overlap_chars ≡ some (err tt))
unfolding chunk_document
chunk_document-IsBounded texts max_chars overlap_chars = (
  λ size overlap.
      let (chunks, is, bounded) =
        chunk_sections-IsBounded max_chars overlap_chars texts (omega arith) in
      let refused : (ltb max_chars 100 || leb max_chars overlap_chars) ≡ false = ground arith in
      (chunks, rw (refused, is) refl, bounded),
  λ h.
      let refused : (ltb max_chars 100 || leb max_chars overlap_chars) ≡ true = ground arith in
      rw refused refl,
)
