-- ===== src/Chunker.antt =====
-- The chunks of a document: backend/app/parsers/documentation/chunker.py, their texts; the digests and
-- identifiers that are computed from them are not modelled. The wrapping loop takes fuel, `none` is its
-- end.
pub mod Bounds
mod Examples
use mcplica.Common.{
  ℕ, zero, suc, ◌+◌, ◌-◌, ◌/◌, min, Bool, true, false, ◌||◌, Option, none, some, List, [], ◌∷◌,
  ◌++◌, ◌==◌, if◌then◌else◌, leb, ltb, length, take, drop, Text, is_empty, is_space, strip, Result,
  ok, err,
}

abbrev pub newline : ℕ
newline = 10

abbrev pub space : ℕ
space = 32

-- Behind a line end, what is left behind the last line end of the white space that follows.
pub after_last_newline : Text → Option Text
after_last_newline [] = none
after_last_newline (c ∷ cs) =
    let later = after_last_newline cs in
    if is_space c
    then elim later [ some rest ↦ some rest | none ↦ if c == newline then some cs else none ]
    else none

abbrev pub onto_first : ℕ → List Text → List Text
onto_first c [] = (c ∷ []) ∷ []
onto_first c (t ∷ ts) = (c ∷ t) ∷ ts

-- `_PARAGRAPHS.split(text)`; a match is at least two characters, so the length is enough fuel.
pub split_paragraphs : ℕ → Text → List Text
split_paragraphs fuel [] = [] ∷ []
split_paragraphs zero (c ∷ cs) = (c ∷ cs) ∷ []
split_paragraphs (suc fuel) (c ∷ cs) =
    let same = onto_first c (split_paragraphs fuel cs) in
    let next : List Text = elim (after_last_newline cs) [
      | some rest ↦ [] ∷ split_paragraphs fuel rest
      | none ↦ same
    ] in
    if c == newline then next else same

abbrev pub strip_each : List Text → List Text
strip_each [] = []
strip_each (t ∷ ts) =
    let rest = strip_each ts in if is_empty (strip t) then rest else strip t ∷ rest

pub paragraphs_of : Text → List Text
paragraphs_of text = strip_each (split_paragraphs (length text) text)

-- `text.rfind(" ")`
pub rfind_space : Text → Option ℕ
rfind_space [] = none
rfind_space (c ∷ cs) = elim (rfind_space cs) [
  | some i ↦ some (i + 1)
  | none ↦ if c == space then some 0 else none
]

abbrev pub or_max : ℕ → Option ℕ → ℕ
or_max max_chars none = max_chars
or_max max_chars (some i) = if ltb i (max_chars / 2) then max_chars else i

pub boundary : ℕ → Text → ℕ
boundary max_chars remaining = or_max max_chars (rfind_space (take (max_chars + 1) remaining))

abbrev pub and_segment : Text → Option (List Text × Text) → Option (List Text × Text)
and_segment t none = none
and_segment t (some (ts, rest)) = some (t ∷ ts, rest)

-- The `while` loop: its segments and what is left.
pub wrap : ℕ → ℕ → Text → Option (List Text × Text)
wrap zero max_chars remaining = none
wrap (suc fuel) max_chars remaining =
    let b = boundary max_chars remaining in
    let rest = wrap fuel max_chars (strip (drop b remaining)) in
    if leb (length remaining) max_chars
    then some ([], remaining)
    else and_segment (strip (take b remaining)) rest

abbrev pub join : Text → Text → Text
join current paragraph = strip (current ++ newline ∷ newline ∷ paragraph)

abbrev pub candidate_of : Text → Text → Text
candidate_of current paragraph = if is_empty current then paragraph else join current paragraph

abbrev pub flush : Text → List Text
flush current = if is_empty current then [] else current ∷ []

abbrev pub and_segments : List Text → Option (List Text) → Option (List Text)
and_segments before none = none
and_segments before (some after) = some (before ++ after)

-- The loop over the paragraphs, with `current`.
pub segments_from : ℕ → Text → List Text → Option (List Text)
segments_from max_chars current [] = some (flush current)
segments_from max_chars current (p ∷ ps) =
    let candidate = candidate_of current p in
    let kept = segments_from max_chars candidate ps in
    let wrapped : Option (List Text) = elim (wrap (length p + 1) max_chars p) [
      | none ↦ none
      | some (segments, remaining) ↦
          and_segments (flush current ++ segments) (segments_from max_chars remaining ps)
    ] in
    if leb (length candidate) max_chars then kept else wrapped

pub bounded_segments : Text → ℕ → Option (List Text)
bounded_segments text max_chars = segments_from max_chars [] (paragraphs_of text)

-- `text[-n:]`, for a positive `n`
abbrev pub last_chars : ℕ → Text → Text
last_chars n t = drop (length t - n) t

abbrev pub overlap_of : ℕ → ℕ → Text → Text → Text
overlap_of max_chars overlap_chars previous segment =
    let size = min overlap_chars (max_chars - length segment - 2) in
    if is_empty previous || size == 0 then [] else strip (last_chars size previous)

-- `chunk_text`
pub chunk_text : ℕ → ℕ → Text → Text → Text
chunk_text max_chars overlap_chars previous segment =
    let overlap = overlap_of max_chars overlap_chars previous segment in
    if is_empty overlap then segment else join overlap segment

pub chunk_texts : ℕ → ℕ → Text → List Text → List Text
chunk_texts max_chars overlap_chars previous [] = []
chunk_texts max_chars overlap_chars previous (s ∷ ss) =
    chunk_text max_chars overlap_chars previous s ∷ chunk_texts max_chars overlap_chars s ss

-- The loop over the sections, by their texts; `previous` starts anew in each.
pub chunk_sections : ℕ → ℕ → List Text → Option (List Text)
chunk_sections max_chars overlap_chars [] = some []
chunk_sections max_chars overlap_chars (text ∷ texts) = elim (bounded_segments text max_chars) [
  | none ↦ none
  | some segments ↦
      and_segments (chunk_texts max_chars overlap_chars [] segments)
        (chunk_sections max_chars overlap_chars texts)
]

-- `some (err tt)` is the `ValueError`, `none` the end of the fuel. Sizes are natural numbers, so the
-- test for a negative overlap has no counterpart.
pub chunk_document : List Text → ℕ → ℕ → Option (Result (Unit {0}) (List Text))
chunk_document texts max_chars overlap_chars =
    if ltb max_chars 100 || leb max_chars overlap_chars
    then some (err tt)
    else elim (chunk_sections max_chars overlap_chars texts) [
      | none ↦ none
      | some chunks ↦ some (ok chunks)
    ]
