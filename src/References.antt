-- ===== src/References.antt =====
-- `ReferencesParser` of src/generic_rag/components/generation/utils.py: it cuts the citations
-- `<[n]>` out of an answer that arrives in pieces. A text is the list of its code points. `digit`
-- is the Unicode property behind `\d` and `int`: the value of a decimal digit, if it is one.
mod Matching
pub mod Streaming
mod Chunking
pub mod Printing
mod Tests
use ai_dial_generic_rag_back.Prelude.{
  ℕ, zero, suc, ◌+◌, ◌-◌, ◌*◌, Bool, true, false, Option, none, some, List, [], ◌∷◌, ◌++◌, ◌&&◌,
  ◌==◌, if◌then◌else◌, ℤ, pred_ℤ, take, drop, length,
}

abbrev pub Text : Type 0
Text = List ℕ

-- An item that the parser yields; a missing `content` of the source does not occur.
pub record ReferenceParserOutput : Type 0 where
  pub content : Text
  pub reference : Option ℤ

-- What is left of `]>`, and the length of the match.
pub close : ℕ → ℕ → Text → Option (ℕ × ℕ)
close v n [] = none
close v n (c ∷ cs) = if c == b'>' then some (v, n + 1) else none

-- `answer_piece.find("<[", last_pos)`, counted from `last_pos`
pub find_open : Text → Option ℕ
find_open (c ∷ d ∷ cs) =
    let later = find_open (d ∷ cs) in
    if c == b'<' && d == b'[' then some 0 else elim later [ none ↦ none | some i ↦ some (suc i) ]
find_open _ = none

-- `answer_piece and answer_piece[-1] == "<"`. It is asked of the part behind the last match: where
-- that part is empty the whole piece is empty or ends in `>`.
pub ends_in_lt : Text → Bool
ends_in_lt [] = false
ends_in_lt (c ∷ []) = c == b'<'
ends_in_lt (c ∷ d ∷ cs) = ends_in_lt (d ∷ cs)

-- Where the part that is held back begins, counted from `last_pos`.
pub hold_pos : Text → ℕ
unfolding find_open ends_in_lt
hold_pos rest = elim (find_open rest) [
  | some i ↦ i
  | none ↦ if ends_in_lt rest then length rest - 1 else length rest
]

-- What is left when the stream ends.
pub last_piece : Text → List ReferenceParserOutput
last_piece [] = []
last_piece (c ∷ cs) = record { content = c ∷ cs; reference = none } ∷ []

module _ (digit : ℕ → Option ℕ) where
  -- The rest of `\d+\]>` behind `n` characters of a match: no backtracking, as `]` is no digit.
  pub digits : ℕ → ℕ → Text → Option (ℕ × ℕ)
  digits v n [] = none
  digits v n (c ∷ cs) = elim (digit c) [
    | some d ↦ digits (10 * v + d) (n + 1) cs
    | none ↦ if c == b']' then close v (n + 1) cs else none
  ]

  pub first_digit : Option ℕ → Text → Option (ℕ × ℕ)
  first_digit none cs = none
  first_digit (some v) cs = digits v 3 cs

  -- `REF_PATTERN` at the beginning of a text: the number and the length of the match.
  pub match_ref : Text → Option (ℕ × ℕ)
  unfolding close digits first_digit
  match_ref (c ∷ d ∷ e ∷ cs) = if c == b'<' && d == b'[' then first_digit (digit e) cs else none
  match_ref _ = none

  -- The loop over `REF_PATTERN.finditer(answer_piece)`: `skip` characters are left of the last
  -- match and `content` is what lies between it and the position reached. The second result is
  -- `answer_piece[last_pos:]`.
  pub find_all : (skip : ℕ) (content : Text) → Text → List ReferenceParserOutput × Text
  find_all skip content [] = ([], content)
  find_all (suc skip) content (c ∷ cs) = find_all skip content cs
  find_all zero content (c ∷ cs) = elim (match_ref (c ∷ cs)) [
    | none ↦ find_all zero (content ++ c ∷ []) cs
    | some (v, n) ↦
        let (outs, rest) = find_all (n - 1) [] cs in
        (record { content = content; reference = some (pred_ℤ v) } ∷ outs, rest)
  ]

  -- One round of the loop over the chunks: what is yielded, and the new `prev_piece`.
  pub transform_piece : Text → List ReferenceParserOutput × Text
  unfolding find_all match_ref hold_pos
  transform_piece answer_piece =
      let (outs, rest) = find_all 0 [] answer_piece in
      let pos = hold_pos rest in
      (outs ++ record { content = take pos rest; reference = none } ∷ [], drop pos rest)

  pub transform_from : (prev_piece : Text) → List Text → List ReferenceParserOutput
  transform_from prev_piece [] = last_piece prev_piece
  transform_from prev_piece (chunk ∷ chunks) =
      let (outs, held) = transform_piece (prev_piece ++ chunk) in outs ++ transform_from held chunks

  unfoldable pub atransform : List Text → List ReferenceParserOutput
  unfolding transform_from transform_piece last_piece
  atransform chunks = transform_from [] chunks
