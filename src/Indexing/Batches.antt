-- ===== src/Indexing/Batches.antt =====
-- `batched_async`: what the batches hold, and how long they are.
use ai_dial_generic_rag_back.Prelude.{
  ℕ, ◌≤◌, ◌<◌, ◌≡◌, refl, ap, ◌∙◌, List, [], ◌∷◌, ◌++◌, arith, length, length-append, concat, leb,
  Bool-cases, inl, inr, append_assoc,
}
use ai_dial_generic_rag_back.Prelude.Streams.{Stream, end, next, yield_all}
use ai_dial_generic_rag_back.Indexing.{batched_from, batched_async}

module _ {ℓ} {A : Type ℓ} where
  -- A batch that was full when it was handed on.
  abbrev pub IsFull : ℕ → List A → Type 0
  IsFull size batch = length batch ≡ size

  -- All batches but the last are full, and the last is neither empty nor too long.
  abbrev pub IsBatched : ℕ → List (List A) → Type 0
  IsBatched size [] = Unit
  IsBatched size (batch ∷ []) = (0 < length batch) × (length batch ≤ size)
  IsBatched size (batch ∷ batch' ∷ batches) = IsFull size batch × IsBatched size (batch' ∷ batches)

  abbrev Batching : ℕ → List A → Stream (List A) → Type ℓ
  Batching size items result =
      (batches : List (List A)) × (result ≡ yield_all batches end)
      × (concat batches ≡ items)
      × IsBatched size batches

  IsBatched-cons :
      (size : ℕ) (batch : List A) (batches : List (List A))
      → 0 < size
      → IsFull size batch
      → IsBatched size batches
      → IsBatched size (batch ∷ batches)
  IsBatched-cons size batch [] pos full h = (omega arith, omega arith)
  IsBatched-cons size batch (b ∷ bs) pos full h = (full, h)

  batched_from_lem :
      (size : ℕ) (items batch : List A)
      → length batch < size
      → Batching size (batch ++ items) (batched_from size batch (yield_all items end))
  unfolding batched_from
  batched_from_lem size [] [] h = ([], refl, refl, tt)
  batched_from_lem size [] (x ∷ batch) h =
      ((x ∷ batch) ∷ [], refl, refl, (omega arith, omega arith))
  batched_from_lem size (item ∷ items) batch h =
      let batch' = batch ++ item ∷ [] in
      let longer = length-append batch (item ∷ []) in
      elim (Bool-cases (leb size (length batch'))) [
        | inl e ↦
            let (batches, r, all, ok) = batched_from_lem size items [] (omega arith) in
            (
              batch' ∷ batches,
              rw e (ap (next batch') r),
              ap (◌++◌ batch') all ∙ append_assoc batch (item ∷ []) items,
              IsBatched-cons size batch' batches (omega arith) (ground (arith, longer)) ok,
            )
        | inr e ↦
            let (batches, r, all, ok) =
              batched_from_lem size items batch' (ground (arith, longer)) in
            (batches, rw e r, all ∙ append_assoc batch (item ∷ []) items, ok)
      ]

  -- For a positive batch size: the batches of a stream that ends hold its items, in order; all but
  -- the last have the given length, and the last is not empty and not longer.
  pub batched_async_lem :
      (items : List A) (size : ℕ)
      → 0 < size
      → (batches : List (List A)) × (batched_async (yield_all items end) size
          ≡ yield_all batches end)
        × (concat batches ≡ items)
        × IsBatched size batches
  unfolding batched_async
  batched_async_lem items size h = batched_from_lem size items [] h
