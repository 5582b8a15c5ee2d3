-- ===== src/ObjectPool/Uses.antt =====
-- The objects that are in use, over the calls of get and release of yasio/impl/object_pool.hpp.
use yasio.Base.{
  ◌⊎◌, ◌*◌, All, ℕ, suc, ◌+◌, ◌-◌, ◌≤◌, ◌≡◌, refl, ap, sym, subst, List, [], ◌∷◌, append-nil,
  Option, some, none, arith,
}
use yasio.ObjectPool.{
  Memory, put, Pool, link, tidy_chunk, allocate_from_process_heap, get_from, get, release,
  unallocated, preallocated,
}
use yasio.Base.Counts.{
  count, count-append, count_head, removed, count-removed, removed_only, counted,
}
use yasio.ObjectPool.Chain.{Linked, Linked-agree, put_same, put_apart}
use yasio.ObjectPool.Cells.{elements, cells, link-Linked}

module _ (size n : ℕ) where
  -- The memory of two chunks does not overlap.
  abbrev IsApart : ℕ → ℕ → Type 0
  IsApart c d = (c + size * suc n ≤ d) ⊎ (d + size * suc n ≤ c)

  abbrev AreApart : List ℕ → Type 0
  AreApart [] = Unit
  AreApart (c ∷ cs) = All (IsApart c) cs × AreApart cs

  -- The free objects are linked, each object of the chunks is free or in use, once, the objects are
  -- distinct, and the chunks lie apart.
  abbrev pub IsPool : Pool → List ℕ → Type 0
  IsPool p live =
      (free : List ℕ) × Linked p.memory p.first free
      × ((a : ℕ) → count a free + count a live ≡ count a (cells size (suc n) p.chunks))
      × ((a : ℕ) → count a (cells size (suc n) p.chunks) ≤ 1)
      × AreApart p.chunks

  -- What the user of the pool does: `gets` says where a new chunk would be; an object in use may be
  -- written to.
  pub data Use : Type 0 where
    gets : ℕ → Use
    releases : ℕ → Use
    writes : ℕ → Option ℕ → Use

  abbrev pub use_step : Pool × List ℕ → Use → Pool × List ℕ
  use_step (p, live) (gets chunk) = let (ptr, p') = get size (suc n) p chunk in (p', ptr ∷ live)
  use_step (p, live) (releases ptr) = (release size (suc n) p ptr, removed ptr live)
  use_step (p, live) (writes ptr v) = (record p { memory = put p.memory ptr v }, live)

  -- A new chunk has each of its objects once and lies apart from the old ones, and only objects in use are
  -- released and written to.
  abbrev pub IsLegal : Pool × List ℕ → Use → Type 0
  IsLegal (p, live) (gets chunk) =
      ((a : ℕ) → count a (elements size (suc n) chunk) + count a (cells size (suc n) p.chunks) ≤ 1)
      × All (IsApart chunk) p.chunks
  IsLegal (p, live) (releases ptr) = 1 ≤ count ptr live
  IsLegal (p, live) (writes ptr v) = 1 ≤ count ptr live

  abbrev pub use_run : Pool × List ℕ → List Use → Pool × List ℕ
  use_run s [] = s
  use_run s (u ∷ us) = use_run (use_step s u) us

  abbrev pub AreLegal : Pool × List ℕ → List Use → Type 0
  AreLegal s [] = Unit
  AreLegal s (u ∷ us) = IsLegal s u × AreLegal (use_step s u) us

  pred_suc : suc n - 1 ≡ n
  pred_suc = omega arith

  pub tidy_chunk-link : (c : ℕ) (m : Memory) → tidy_chunk size (suc n) c m ≡ link size (suc n) n c m
  unfolding tidy_chunk
  tidy_chunk-link c m = rw pred_suc refl

  none_free : (m : Memory) (free : List ℕ) → Linked m none free → free ≡ []
  none_free m [] l = refl
  none_free m (x ∷ xs) (e, l) = cc

  -- Words of objects that are not free do not matter.
  Linked-put :
      (m : Memory) (o v : Option ℕ) (ptr : ℕ) (free : List ℕ)
      → count ptr free ≡ 0
      → Linked m o free
      → Linked (put m ptr v) o free
  Linked-put m o v ptr free h l =
      Linked-agree m (put m ptr v) o free
        (λ a k.
          put_apart m ptr a v (λ e. absurd (omega (arith, h, k, ap (λ (b : ℕ). count b free) e))))
        l

-- An object has room for the pointer that nextof writes into it: eight bytes.
module _ (size n : ℕ) (big : 8 ≤ size) where
  heap-IsPool :
      (p : Pool) (live : List ℕ) (c : ℕ)
      → p.first ≡ none
      → IsPool size n p live
      → IsLegal size n (p, live) (gets c)
      → let r = allocate_from_process_heap size (suc n) p c in IsPool size n r.1 (r.0 ∷ live)
  unfolding allocate_from_process_heap
  heap-IsPool p live c e (free, l, balance, unique, apart) fresh =
      rw (tidy_chunk-link size n c p.memory) (
        elements size n (c + size),
        tied.1,
        (λ a. ground (
          arith,
          balance a,
          fresh.0 a,
          taken,
          count-append a (elements size (suc n) c) (cells size (suc n) p.chunks),
        )),
        (λ a. ground (
          arith,
          fresh.0 a,
          count-append a (elements size (suc n) c) (cells size (suc n) p.chunks),
        )),
        (fresh.1, apart),
      )
    where
      r : ℕ × Memory
      r = link size (suc n) n c p.memory

      m' : Memory
      m' = put r.1 r.0 none

      taken : free ≡ []
      taken = none_free size n p.memory free (subst (λ o. Linked p.memory o free) e l)

      tied : Linked m' (some c) (elements size (suc n) c)
      tied =
          subst (λ xs. Linked m' (some c) xs) (append-nil (elements size (suc n) c))
            (link-Linked size (suc n) n c p.memory m' [] (omega (arith, big))
              (λ a k h. put_apart r.1 r.0 a none (λ q. k (sym q))) (put_same r.1 r.0 none))

  release-IsPool :
      (p : Pool) (live : List ℕ) (ptr : ℕ)
      → IsPool size n p live
      → 1 ≤ count ptr live
      → IsPool size n (release size (suc n) p ptr) (removed ptr live)
  unfolding release
  release-IsPool p live ptr (free, l, balance, unique, apart) h = (
    ptr ∷ free,
    (
      refl,
      rw (put_same p.memory ptr p.first) (
          Linked-put size n p.memory p.first p.first ptr free
            (omega (arith, balance ptr, unique ptr)) l),
    ),
    (λ a. ground (arith, balance a, count-removed ptr a live)),
    unique,
    apart,
  )

  get_from-IsPool :
      (o : Option ℕ) (p : Pool) (live : List ℕ) (c : ℕ)
      → p.first ≡ o
      → IsPool size n p live
      → IsLegal size n (p, live) (gets c)
      → let r = get_from size (suc n) o p c in IsPool size n r.1 (r.0 ∷ live)
  get_from-IsPool none p live c e i fresh = heap-IsPool p live c e i fresh
  get_from-IsPool (some x) p live c e ([], l, balance, unique, apart) fresh = cc
  get_from-IsPool (some x) p live c e (q ∷ qs, (at, l), balance, unique, apart) fresh = (
    qs,
    subst (λ y. Linked p.memory (p.memory y) qs) (sym same) l,
    (λ a.
        subst (λ y. count a qs + count a (y ∷ live) ≡ count a (cells size (suc n) p.chunks))
          (sym same) (ground (arith, balance a))),
    unique,
    apart,
  )
    where
      same : x ≡ q
      same = cc

  write-IsPool :
      (p : Pool) (live : List ℕ) (ptr : ℕ) (v : Option ℕ)
      → IsPool size n p live
      → 1 ≤ count ptr live
      → IsPool size n (record p { memory = put p.memory ptr v }) live
  write-IsPool p live ptr v (free, l, balance, unique, apart) h = (
    free,
    Linked-put size n p.memory p.first v ptr free (omega (arith, balance ptr, unique ptr)) l,
    balance,
    unique,
    apart,
  )

  use_step-IsPool :
      (p : Pool) (live : List ℕ) (u : Use size n)
      → IsPool size n p live
      → IsLegal size n (p, live) u
      → let r = use_step size n (p, live) u in IsPool size n r.0 r.1
  unfolding get
  use_step-IsPool p live (gets c) i h = get_from-IsPool p.first p live c refl i h
  use_step-IsPool p live (releases ptr) i h = release-IsPool p live ptr i h
  use_step-IsPool p live (writes ptr v) i h = write-IsPool p live ptr v i h

  -- For objects of eight bytes at least, which hold a pointer, and users that release and write to only
  -- objects in use, while each new chunk lies apart from the old ones: the free list stays linked through
  -- the memory, each object of the chunks is free or in use, once, and no other is, and the chunks lie
  -- apart.
  pub use_run-IsPool :
      (us : List (Use size n)) (p : Pool) (live : List ℕ)
      → IsPool size n p live
      → AreLegal size n (p, live) us
      → let r = use_run size n (p, live) us in IsPool size n r.0 r.1
  use_run-IsPool [] p live i h = i
  use_run-IsPool (u ∷ us) p live i (h, hs) =
      use_run-IsPool us (use_step size n (p, live) u).0 (use_step size n (p, live) u).1
        (use_step-IsPool p live u i h) hs

  unallocated-IsPool : (m : Memory) → IsPool size n (unallocated size (suc n) m) []
  unallocated-IsPool m = ([], refl, (λ a. refl), (λ a. omega arith), tt)

  preallocated-IsPool :
      (m : Memory) (c : ℕ)
      → ((a : ℕ) → count a (elements size (suc n) c) ≤ 1)
      → IsPool size n (preallocated size (suc n) m c) []
  unfolding preallocated
  preallocated-IsPool m c h =
      subst (λ xs. IsPool size n (preallocated size (suc n) m c) xs) (removed_only r.0)
        (release-IsPool r.1 (r.0 ∷ []) r.0
          (heap-IsPool (unallocated size (suc n) m) [] c refl (unallocated-IsPool m)
            ((λ a. omega (arith, h a)), tt))
          (count_head r.0 []))
    where
      r : ℕ × Pool
      r = allocate_from_process_heap size (suc n) (unallocated size (suc n) m) c

  -- Where the objects of the pool are accounted for, `get` hands out none that is in use, and one of
  -- the pool's chunks as they are after it.
  pub get-fresh :
      (p : Pool) (live : List ℕ) (c : ℕ)
      → IsPool size n p live
      → IsLegal size n (p, live) (gets c)
      → let r = get size (suc n) p c in
        (count r.0 live ≡ 0) × (1 ≤ count r.0 (cells size (suc n) r.1.chunks))
  get-fresh p live c i h =
      let (free, l, balance, unique, apart) = use_step-IsPool p live (gets c) i h in
      let ptr = (get size (suc n) p c).0 in
      (
        omega (arith, balance ptr, unique ptr, counted ptr live),
        omega (arith, balance ptr, unique ptr, counted ptr live),
      )
