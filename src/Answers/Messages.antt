-- ===== src/Answers/Messages.antt =====
-- What was sent to the user, read as attachments and as text, and the keys of references.
use ai_dial_generic_rag_back.Prelude.{
  ℕ, ◌≡◌, refl, ap, sym, ◌∙◌, true, false, List, [], ◌∷◌, ◌++◌, arith, map, length, append_assoc,
}
use ai_dial_generic_rag_back.Prelude.Equality.{nat_key, pair_key, contains, same_refl}
use ai_dial_generic_rag_back.Types.{RetrievedDocument}
use ai_dial_generic_rag_back.References.{Text}
use ai_dial_generic_rag_back.Ranking.Unique.{unique_by_key}
use ai_dial_generic_rag_back.Answers.{Call, append_content, add_citation}
use ai_dial_generic_rag_back.Answers.Dial.{
  Attachment, Sent, content, attachment, annotation, reference_key, index_of,
}

-- The documents cited, in order.
abbrev pub cited_docs : List Call → List RetrievedDocument
cited_docs [] = []
cited_docs (append_content t ∷ calls) = cited_docs calls
cited_docs (add_citation doc ∷ calls) = doc ∷ cited_docs calls

abbrev pub attachments : List Sent → List Attachment
attachments [] = []
attachments (content t ∷ sent) = attachments sent
attachments (attachment a ∷ sent) = a ∷ attachments sent
attachments (annotation a ∷ sent) = attachments sent

abbrev pub text_of : List Sent → Text
text_of [] = []
text_of (content t ∷ sent) = t ++ text_of sent
text_of (attachment a ∷ sent) = text_of sent
text_of (annotation a ∷ sent) = text_of sent

pub attachments-append :
    (xs ys : List Sent) → attachments (xs ++ ys) ≡ attachments xs ++ attachments ys
attachments-append [] ys = refl
attachments-append (content t ∷ xs) ys = attachments-append xs ys
attachments-append (attachment a ∷ xs) ys = ap (◌∷◌ a) (attachments-append xs ys)
attachments-append (annotation a ∷ xs) ys = attachments-append xs ys

pub text_of-append : (xs ys : List Sent) → text_of (xs ++ ys) ≡ text_of xs ++ text_of ys
text_of-append [] ys = refl
text_of-append (content t ∷ xs) ys =
    ap (◌++◌ t) (text_of-append xs ys) ∙ sym (append_assoc t (text_of xs) (text_of ys))
text_of-append (attachment a ∷ xs) ys = text_of-append xs ys
text_of-append (annotation a ∷ xs) ys = text_of-append xs ys

-- The keys of the references in the end, if `used` are there already.
abbrev pub keys_after : List (ℕ × ℕ) → List RetrievedDocument → List (ℕ × ℕ)
keys_after used docs = used ++ map reference_key (unique_by_key reference_key used docs)

pub index_of_old :
    (xs ys : List (ℕ × ℕ)) (k : ℕ × ℕ)
    → contains xs k ≡ true
    → index_of (xs ++ ys) k ≡ index_of xs k
unfolding index_of
index_of_old [] ys k h = cc
index_of_old (x ∷ xs) ys k h = ground (arith, index_of_old xs ys k)

pub index_of_new :
    (xs ys : List (ℕ × ℕ)) (k : ℕ × ℕ)
    → contains xs k ≡ false
    → index_of (xs ++ k ∷ ys) k ≡ length xs
unfolding index_of
index_of_new [] ys k h = ground (arith, same_refl k)
index_of_new (x ∷ xs) ys k h = ground (arith, index_of_new xs ys k)
