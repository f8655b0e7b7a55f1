-- ===== src/Indexing/ImageUrls.antt =====
-- URLs of images for the tests, equal only for equal content.
use Prim.Native.Char.{code}
use ai_dial_generic_rag_back.Prelude.{
  ℕ, zero, suc, ◌+◌, ◌==◌, if◌then◌else◌, ap, ap₂, sym, ◌∙◌, ◌≡◌, refl, String, List, [], ◌∷◌,
  arith,
}
use ai_dial_generic_rag_back.Types.{ImageChunk}

-- A URL that tells the content of an image.
unfoldable pub tally : ℕ → String → String
tally zero s = String.◌∷◌ "," s
tally (suc n) s = String.◌∷◌ "x" (tally n s)

unfoldable pub url_of : List ℕ → String
url_of [] = String.[]
url_of (c ∷ cs) = tally c (url_of cs)

read : ℕ → String → List ℕ
read n String.[] = []
read n (String.◌∷◌ c s) =
    let more = read (n + 1) s in let done = read 0 s in if code c == b'x' then more else n ∷ done

read-tally : (k n : ℕ) (s : String) → read k (tally n s) ≡ (k + n) ∷ read 0 s
unfolding read tally
read-tally k zero s = ap (λ m. m ∷ read 0 s) (omega arith)
read-tally k (suc n) s = read-tally (k + 1) n s ∙ ap (λ m. m ∷ read 0 s) (omega arith)

read-url_of : (cs : List ℕ) → read 0 (url_of cs) ≡ cs
unfolding url_of
read-url_of [] = unfold read in refl
read-url_of (c ∷ cs) = read-tally 0 c (url_of cs) ∙ ap₂ ◌∷◌ (omega arith) (read-url_of cs)

abbrev pub url : ImageChunk → String
url c = url_of c.content

pub url_lem : (a b : ImageChunk) → url a ≡ url b → a.content ≡ b.content
url_lem a b h = sym (read-url_of a.content) ∙ ap (read 0) h ∙ read-url_of b.content
