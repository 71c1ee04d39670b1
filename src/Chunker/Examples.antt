-- ===== src/Chunker/Examples.antt =====
-- Two paragraphs in one section, and a long word that is cut.
use mcplica.Common.{
  ◌≤◌, ◌<◌, ◌≡◌, ◌⊎◌, refl, some, List, [], ◌∷◌, Text, codes, ok, err, is_space, strip, lstrip,
  rstrip,
}
use mcplica.Chunker.{
  chunk_document, paragraphs_of, split_paragraphs, after_last_newline, segments_from, wrap,
  boundary, rfind_space,
}
use mcplica.Chunker.Bounds.{IsBounded, chunk_document-IsBounded}

-- The end of the line of white space is part of the separator.
paragraphs : paragraphs_of (codes "one\n \n two") ≡ codes "one" ∷ codes "two" ∷ []
unfolding paragraphs_of split_paragraphs after_last_newline is_space strip lstrip rstrip
paragraphs = refl

cut :
    segments_from 4 [] (codes "ab" ∷ codes "abcdefg" ∷ [])
    ≡ some (codes "ab" ∷ codes "abcd" ∷ codes "efg" ∷ [])
unfolding segments_from wrap boundary rfind_space is_space strip lstrip rstrip
cut = refl

abbrev sections : List Text
sections = codes "one" ∷ codes "two" ∷ []

chunk_document-IsBounded_example :
    (100 ≤ 120
      → 20 < 120
      → (chunks : List Text) × (chunk_document sections 120 20 ≡ some (ok chunks))
        × IsBounded 120 chunks)
    × ((120 < 100) ⊎ (120 ≤ 20) → chunk_document sections 120 20 ≡ some (err tt))
chunk_document-IsBounded_example = chunk_document-IsBounded sections 120 20
