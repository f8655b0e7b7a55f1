-- ===== src/Descriptions/Transforming.antt =====
-- The chunks that a transform of page images hands on.
use mathlib.Core.Option
use ai_dial_generic_rag_back.Prelude.{
  ◌⊎◌, ◌≡◌, Bool, not, Option, none, some, List, [], ◌∷◌, keep, map,
}
use ai_dial_generic_rag_back.Types.{AnyChunk, image_chunk, ImageChunk}
use ai_dial_generic_rag_back.Types.Json.{Json, lookup}
use ai_dial_generic_rag_back.Types.Json
use ai_dial_generic_rag_back.Types.Chunk.{get_identity}
use ai_dial_generic_rag_back.Descriptions.{Transform, PageDescription, flatten, is_page_image}

abbrev is_other : AnyChunk → Bool
is_other c = not (is_page_image c)

module _ (t : Transform) where
  -- What the transform hands on for some chunks, if these are the results of its tasks.
  abbrev pub IsTransformed :
      List AnyChunk → Option (List AnyChunk) → Option (List AnyChunk) → Type 0
  IsTransformed chunks none out = out ≡ none
  IsTransformed chunks (some results) out =
      (shown : List AnyChunk) × (out ≡ some shown)
      × (keep is_page_image shown ≡ results)
      × (keep (λ c. not (is_page_image c)) shown ≡ keep (λ c. not (is_page_image c)) chunks)

  -- Results of tasks are page images with the identities of those that were described.
  abbrev pub AreResults : List AnyChunk → Option (List AnyChunk) → Type 0
  AreResults chunks none = Unit
  AreResults chunks (some results) =
      (keep is_page_image results ≡ results)
      × (keep is_other results ≡ [])
      × (map get_identity results ≡ map get_identity (keep is_page_image chunks))

  abbrev IsDescribed : ImageChunk → Option ImageChunk → Type 0
  IsDescribed c none = Unit
  IsDescribed c (some d) =
      (is_page_image (image_chunk d) ≡ is_page_image (image_chunk c))
      × (get_identity (image_chunk d) ≡ get_identity (image_chunk c))

  -- The image with its description in the metadata, and nothing else changed.
  abbrev pub HasDescription : ImageChunk → ImageChunk → Type 0
  HasDescription c d =
      (description : PageDescription) × (t.get_page_description c ≡ some description)
      × (lookup t.field_name d.metadata.extra ≡ some (t.dump_python (flatten description)))
      × (d ≡ record c { metadata = record c.metadata { extra = d.metadata.extra } })

  -- The page images of the chunks with their descriptions, one for one.
  abbrev pub AreDescribed : List AnyChunk → List AnyChunk → Type 0
  AreDescribed (image_chunk c ∷ cs) (image_chunk d ∷ ds) = HasDescription c d × AreDescribed cs ds
  AreDescribed [] [] = Unit
  AreDescribed _ _ = ⊥

  -- Some page image gets no description.
  abbrev pub HasUndescribed : List AnyChunk → Type 0
  HasUndescribed (image_chunk c ∷ cs) = (t.get_page_description c ≡ none) ⊎ HasUndescribed cs
  HasUndescribed _ = ⊥

  abbrev pub IsDescribing : List AnyChunk → Option (List AnyChunk) → Type 0
  IsDescribing images none = HasUndescribed images
  IsDescribing images (some results) = AreDescribed images results
