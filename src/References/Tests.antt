-- ===== src/References/Tests.antt =====
-- The parser on the inputs of tests/unit/test_references_parser.py, and the theorems at examples.
use ai_dial_generic_rag_back.Prelude.{
  ℕ, ◌-◌, ◌≡◌, refl, Option, none, some, List, [], ◌∷◌, arith, leb, ◌&&◌, if◌then◌else◌, ℤ, pos,
  negsuc, codes, concat,
}
use ai_dial_generic_rag_back.References.{Text, ReferenceParserOutput, atransform}
use ai_dial_generic_rag_back.References.Streaming.{events, scan}
use ai_dial_generic_rag_back.References.Chunking.{events-atransform}
use ai_dial_generic_rag_back.References.Printing.{
  Segment, plain, ref, meaning, events-atransform-print,
}

-- The decimal digits of ASCII.
abbrev ascii_digit : ℕ → Option ℕ
ascii_digit c = if leb b'0' c && leb c b'9' then some (c - b'0') else none

abbrev out : Text → Option ℤ → ReferenceParserOutput
out t r = record { content = t; reference = r }

split_mid_digits :
    atransform ascii_digit (codes "Hello <[1" ∷ codes "]> world" ∷ [])
    ≡ out (codes "Hello ") none ∷ out [] (some (pos 0)) ∷ out (codes " world") none ∷ []
unfolding atransform
split_mid_digits = refl

split_across_three_chunks :
    atransform ascii_digit (codes "Hello <" ∷ codes "[1" ∷ codes "]> world" ∷ [])
    ≡ out (codes "Hello ") none
      ∷ out [] none
      ∷ out [] (some (pos 0))
      ∷ out (codes " world") none
      ∷ []
unfolding atransform
split_across_three_chunks = refl

-- The reference `<[0]>` stands for the index -1.
reference_zero :
    atransform ascii_digit (codes "<[0]>" ∷ []) ≡ out [] (some (negsuc 0)) ∷ out [] none ∷ []
unfolding atransform
reference_zero = refl

unfinished :
    atransform ascii_digit (codes "a <[1" ∷ [])
    ≡ out (codes "a ") none ∷ out (codes "<[1") none ∷ []
unfolding atransform
unfinished = refl

abbrev chunks : List Text
chunks = codes "Hi <" ∷ codes "[12]" ∷ codes ">!" ∷ []

events-atransform_example :
    events (atransform ascii_digit chunks) ≡ scan ascii_digit 0 (concat chunks)
events-atransform_example = events-atransform ascii_digit refl chunks

abbrev segments : List Segment
segments = plain b'H' ∷ plain b'i' ∷ plain b' ' ∷ ref 12 b'1' (b'2' ∷ []) ∷ plain b'!' ∷ []

parsed_answer : events (atransform ascii_digit chunks) ≡ meaning segments
parsed_answer =
    events-atransform-print ascii_digit refl refl segments chunks
      (omega arith, (omega arith, (omega arith, (refl, (omega arith, tt))))) refl
