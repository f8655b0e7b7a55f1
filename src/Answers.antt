-- ===== src/Answers.antt =====
-- src/generic_rag/utils/answers.py and the loop of `DefaultAnswerGenerator.invoke` in
-- src/generic_rag/components/generation/default.py: how the parsed answer of the model reaches the
-- user. A text is the list of its code points, as in References.
pub mod Plain
pub mod Prompt
pub mod Cited
pub mod Dial
pub mod Messages
pub mod Numbering
pub mod Sharing
pub mod SharedLinks
mod Tests
use ai_dial_generic_rag_back.Prelude.{
  ℕ, Bool, true, false, Option, none, some, List, [], ◌∷◌, ◌++◌, ℤ, pos, negsuc, get_elem?, codes,
  map,
}
use ai_dial_generic_rag_back.Prelude.Decimal.{decimal}
use ai_dial_generic_rag_back.Types.{RetrievedDocument}
use ai_dial_generic_rag_back.References.{Text, ReferenceParserOutput, atransform}

-- The calls that a generator makes on an answer.
pub data Call : Type 0 where
  append_content : Text → Call
  add_citation : RetrievedDocument → Call

-- `if item.content`
answer_content : Text → List Call → List Call
answer_content [] rest = rest
answer_content (c ∷ cs) rest = append_content (c ∷ cs) ∷ rest

-- The document that an index stands for, with `0 <= item.reference < len(found_items)`.
unfoldable pub found_item : List RetrievedDocument → ℤ → Option RetrievedDocument
found_item found_items (pos i) = get_elem? found_items i
found_item found_items (negsuc i) = none

answer_reference : List RetrievedDocument → Option ℤ → List Call → List Call
answer_reference found_items none rest = rest
answer_reference found_items (some reference) rest = elim (found_item found_items reference) [
  | none ↦ rest
  | some doc ↦ add_citation doc ∷ rest
]

-- The loop over the parser's items.
answer_items : List RetrievedDocument → List ReferenceParserOutput → List Call
answer_items found_items [] = []
answer_items found_items (item ∷ items) =
    answer_content item.content
      (answer_reference found_items item.reference (answer_items found_items items))

-- `DefaultAnswerGenerator.invoke` for the documents found and the chunks of the model's answer.
module _ (digit : ℕ → Option ℕ) where
  unfoldable pub generate : List RetrievedDocument → List Text → List Call
  unfolding answer_items answer_content answer_reference found_item
  generate found_items chunks = answer_items found_items (atransform digit chunks)

-- `RetrievalOnlyAnswerGenerator.invoke`, of components/generation/retrieval_only.py.
abbrev pub retrieval_only : List RetrievedDocument → List Call
retrieval_only found_items = map add_citation found_items

pub record PlainAnswer : Type 0 where
  pub content : Text
  pub has_references : Bool

abbrev pub empty_plain : PlainAnswer
empty_plain = record { content = []; has_references = false }

-- `f"[Document {doc.source_id}, Page {doc.source_page_number}]"`
abbrev pub plain_citation : RetrievedDocument → Text
plain_citation doc =
    codes "[Document "
    ++ decimal doc.source_id
    ++ codes ", Page "
    ++ decimal doc.source_page_number
    ++ codes "]"

-- `PlainAnswer.append_content` and `PlainAnswer.add_citation`
unfoldable pub plain_call : PlainAnswer → Call → PlainAnswer
plain_call answer (append_content t) = record answer { content = answer.content ++ t }
plain_call answer (add_citation doc) = record {
  content = answer.content ++ plain_citation doc;
  has_references = true;
}

unfoldable pub plain_calls : PlainAnswer → List Call → PlainAnswer
unfolding plain_call
plain_calls answer [] = answer
plain_calls answer (call ∷ calls) = plain_calls (plain_call answer call) calls
