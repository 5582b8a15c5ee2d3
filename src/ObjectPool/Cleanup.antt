-- ===== src/ObjectPool/Cleanup.antt =====
-- What cleanup of yasio/impl/object_pool.hpp leaves: every object of every chunk is free again.
use yasio.Base.{
  ℕ, suc, ◌+◌, ◌≤◌, ◌≡◌, ◌≢◌, refl, ap, sym, subst, ◌∙◌, List, [], ◌∷◌, ◌++◌, some, none, arith,
}
use yasio.ObjectPool.{Memory, put, Pool, tidy_chunk, tidy_chunks, cleanup_from, cleanup}
use yasio.Base.Counts.{count, count-append}
use yasio.ObjectPool.Chain.{Linked, put_same, put_apart}
use yasio.ObjectPool.Cells.{elements, cells, link_last-count, link_apart, link-Linked}
use yasio.ObjectPool.Uses.{IsPool, tidy_chunk-link}

-- An object that is in one list and not in the other.
count_apart : (a b : ℕ) (xs : List ℕ) → count a xs ≡ 0 → 1 ≤ count b xs → a ≢ b
count_apart a b xs h k e = absurd (omega (arith, h, k, ap (λ (x : ℕ). count x xs) e))

module _ (size n : ℕ) where
  abbrev tidied : ℕ → Memory → ℕ × Memory
  tidied c m = tidy_chunk size (suc n) c m

  tidied_last : (c : ℕ) (m : Memory) → 1 ≤ count (tidied c m).0 (elements size (suc n) c)
  tidied_last c m =
      subst (λ r. 1 ≤ count r.0 (elements size (suc n) c)) (sym (tidy_chunk-link size n c m))
        (link_last-count size (suc n) n c m)

  tidied_apart :
      (c a : ℕ) (m : Memory) → count a (elements size (suc n) c) ≡ 0 → (tidied c m).1 a ≡ m a
  tidied_apart c a m h =
      subst (λ r. r.1 a ≡ m a) (sym (tidy_chunk-link size n c m))
        (link_apart size (suc n) n c a m h)

  -- The objects of the other chunks are left alone, but for the one that leads to the next chunk.
  tidy_chunks_apart :
      (cs : List ℕ) (c last a : ℕ) (m : Memory)
      → count a (cells size (suc n) (c ∷ cs)) ≡ 0
      → (tidy_chunks size (suc n) (c ∷ cs) last m).1 a ≡ put m last (some c) a
  unfolding tidy_chunks
  tidy_chunks_apart [] c last a m h =
      tidied_apart c a (put m last (some c))
        (omega (arith, h, count-append a (elements size (suc n) c) []))
  tidy_chunks_apart (d ∷ ds) c last a m h =
      tidy_chunks_apart ds d r.0 a r.1 (omega (arith, h, both))
      ∙ put_apart r.1 r.0 a (some d) (λ e.
        count_apart a r.0 (elements size (suc n) c) away (tidied_last c (put m last (some c)))
          (sym e))
      ∙ tidied_apart c a (put m last (some c)) away
    where
      r : ℕ × Memory
      r = tidied c (put m last (some c))

      both :
          count a (cells size (suc n) (c ∷ d ∷ ds))
          ≡ count a (elements size (suc n) c) + count a (cells size (suc n) (d ∷ ds))
      both = count-append a (elements size (suc n) c) (cells size (suc n) (d ∷ ds))

      away : count a (elements size (suc n) c) ≡ 0
      away = omega (arith, h, both)

  tidy_chunks_end :
      (cs : List ℕ) (c last : ℕ) (m : Memory)
      → 1 ≤ count (tidy_chunks size (suc n) (c ∷ cs) last m).0 (cells size (suc n) (c ∷ cs))
  unfolding tidy_chunks
  tidy_chunks_end [] c last m = omega (
    arith,
    tidied_last c (put m last (some c)),
    count-append (tidied c (put m last (some c))).0 (elements size (suc n) c) [],
  )
  tidy_chunks_end (d ∷ ds) c last m =
      let r = tidied c (put m last (some c)) in
      omega (
        arith,
        tidy_chunks_end ds d r.0 r.1,
        count-append (tidy_chunks size (suc n) (d ∷ ds) r.0 r.1).0 (elements size (suc n) c)
            (cells size (suc n) (d ∷ ds)),
      )

  module _ (big : 8 ≤ size) where
    tidied-Linked :
        (c : ℕ) (m m' : Memory) (ys : List ℕ)
        → ((a : ℕ)
            → a ≢ (tidied c m).0
            → 1 ≤ count a (elements size (suc n) c)
            → m' a ≡ (tidied c m).1 a)
        → Linked m' (m' (tidied c m).0) ys
        → Linked m' (some c) (elements size (suc n) c ++ ys)
    tidied-Linked c m m' ys =
        subst
          (λ (r : ℕ × Memory).
            ((a : ℕ) → a ≢ r.0 → 1 ≤ count a (elements size (suc n) c) → m' a ≡ r.1 a)
            → Linked m' (m' r.0) ys
            → Linked m' (some c) (elements size (suc n) c ++ ys))
          (sym (tidy_chunk-link size n c m))
          (link-Linked size (suc n) n c m m' ys (omega (arith, big)))

    -- Chunk by chunk, the objects lead to the next ones, and the last one of all to none.
    chain-Linked :
        (cs : List ℕ) (c : ℕ) (m m' : Memory)
        → let r = tidied c m in
          let s = tidy_chunks size (suc n) cs r.0 r.1 in
          ((a : ℕ) → count a (cells size (suc n) (c ∷ cs)) ≤ 1)
          → ((a : ℕ) → a ≢ s.0 → m' a ≡ s.1 a)
          → m' s.0 ≡ none
          → Linked m' (some c) (cells size (suc n) (c ∷ cs))
    unfolding tidy_chunks
    chain-Linked [] c m m' unique h e = tidied-Linked c m m' [] (λ a k i. h a k) e
    chain-Linked (d ∷ ds) c m m' unique h e =
        tidied-Linked c m m' (cells size (suc n) (d ∷ ds))
          (λ a k i.
            h a (off_end a i)
            ∙ tidy_chunks_apart ds d r.0 a r.1 (elsewhere a i)
            ∙ put_apart r.1 r.0 a (some d) (λ q. k (sym q)))
          (subst (λ o. Linked m' o (cells size (suc n) (d ∷ ds)))
            (sym (
              h r.0 (off_end r.0 (tidied_last c m))
              ∙ tidy_chunks_apart ds d r.0 r.0 r.1 (elsewhere r.0 (tidied_last c m))
              ∙ put_same r.1 r.0 (some d)))
            (chain-Linked ds d (put r.1 r.0 (some d)) m' (λ a. omega (arith, unique a, both a)) h
              e))
      where
        r : ℕ × Memory
        r = tidied c m

        both :
            (a : ℕ)
            → count a (cells size (suc n) (c ∷ d ∷ ds))
              ≡ count a (elements size (suc n) c) + count a (cells size (suc n) (d ∷ ds))
        both a = count-append a (elements size (suc n) c) (cells size (suc n) (d ∷ ds))

        elsewhere :
            (a : ℕ)
            → 1 ≤ count a (elements size (suc n) c)
            → count a (cells size (suc n) (d ∷ ds)) ≡ 0
        elsewhere a i = omega (arith, i, both a, unique a)

        off_end :
            (a : ℕ)
            → 1 ≤ count a (elements size (suc n) c)
            → a ≢ (tidy_chunks size (suc n) (d ∷ ds) r.0 r.1).0
        off_end a i =
            count_apart a (tidy_chunks size (suc n) (d ∷ ds) r.0 r.1).0
              (cells size (suc n) (d ∷ ds)) (elsewhere a i) (tidy_chunks_end ds d r.0 r.1)

    cleanup_from-IsPool :
        (p : Pool) (live cs : List ℕ)
        → IsPool size n p live
        → p.chunks ≡ cs
        → IsPool size n (cleanup_from size (suc n) cs p) []
    cleanup_from-IsPool p live [] (free, l, balance, unique, apart) e = (
      free,
      l,
      (λ a. omega (arith, balance a, ap (λ (xs : List ℕ). count a (cells size (suc n) xs)) e)),
      unique,
      apart,
    )
    cleanup_from-IsPool p live (c ∷ cs) (free, l, balance, unique, apart) e = (
      cells size (suc n) (c ∷ cs),
      chain-Linked cs c p.memory (put r.1 r.0 none)
          (λ a. subst (λ xs. count a (cells size (suc n) xs) ≤ 1) e (unique a))
          (λ a k. put_apart r.1 r.0 a none (λ q. k (sym q))) (put_same r.1 r.0 none),
      (λ a. omega (arith, ap (λ (xs : List ℕ). count a (cells size (suc n) xs)) e)),
      unique,
      apart,
    )
      where
        r : ℕ × Memory
        r = tidy_chunks size (suc n) cs (tidied c p.memory).0 (tidied c p.memory).1

    -- From a pool whose objects are accounted for and have eight bytes at least, room for a pointer:
    -- whatever was in use, and whatever its users wrote there, `cleanup` makes every object of the
    -- chunks free, once.
    pub cleanup-IsPool :
        (p : Pool) (live : List ℕ)
        → IsPool size n p live
        → IsPool size n (cleanup size (suc n) p) []
    unfolding cleanup
    cleanup-IsPool p live i = cleanup_from-IsPool p live p.chunks i refl
