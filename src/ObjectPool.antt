-- ===== src/ObjectPool.antt =====
-- object_pool of yasio/impl/object_pool.hpp: objects of one size, cut from chunks, and a list of the free
-- ones that is linked through their own first words.
pub mod Chain
pub mod Cells
pub mod Uses
pub mod Cleanup
use yasio.Base.{ℕ, zero, suc, ◌+◌, ◌-◌, ◌*◌, List, [], ◌∷◌, ◌==◌, Option, some, none, if◌then◌else◌}

-- The first word of the object at each address, read as a pointer: nextof. Objects have room for it, so
-- that the words of two objects do not overlap.
abbrev pub Memory : Type 0
Memory = ℕ → Option ℕ

abbrev pub put : Memory → ℕ → Option ℕ → Memory
put m p v k = if p == k then v else m k

-- A chunk is known by the address of its data.
pub record Pool : Type 0 where
  pub memory : Memory
  pub first : Option ℕ
  pub chunks : List ℕ

-- The template takes objects of any size, but nextof writes eight bytes into each: for smaller ones the
-- words would overlap, which this memory does not show, and `element_size` is taken to be 8 or more.
module _ (element_size element_count : ℕ) where
  -- The loop of tidy_chunk, with the rounds that are left; the object it ends at.
  unfoldable pub link : ℕ → ℕ → Memory → ℕ × Memory
  link zero ptr m = (ptr, m)
  link (suc n) ptr m = link n (ptr + element_size) (put m ptr (some (ptr + element_size)))

  unfoldable pub tidy_chunk : ℕ → Memory → ℕ × Memory
  unfolding link
  tidy_chunk chunk m = link (element_count - 1) chunk m

  abbrev pub allocate_from_chunk : Pool → ℕ → ℕ × Pool
  allocate_from_chunk p current = (current, record p { first = p.memory current })

  -- `chunk` is where operator new puts the new one.
  unfoldable pub allocate_from_process_heap : Pool → ℕ → ℕ × Pool
  unfolding tidy_chunk
  allocate_from_process_heap p chunk =
      let (last, m) = tidy_chunk chunk p.memory in
      allocate_from_chunk (record p { memory = put m last none; chunks = chunk ∷ p.chunks }) chunk

  abbrev pub get_from : Option ℕ → Pool → ℕ → ℕ × Pool
  get_from none p chunk = allocate_from_process_heap p chunk
  get_from (some current) p chunk = allocate_from_chunk p current

  unfoldable pub get : Pool → ℕ → ℕ × Pool
  unfolding allocate_from_process_heap
  get p chunk = get_from p.first p chunk

  unfoldable pub release : Pool → ℕ → Pool
  release p ptr = record p { memory = put p.memory ptr p.first; first = some ptr }

  -- The constructors, with a chunk and without one.
  abbrev pub unallocated : Memory → Pool
  unallocated m = record { memory = m; first = none; chunks = [] }

  pub preallocated : Memory → ℕ → Pool
  unfolding allocate_from_process_heap release
  preallocated m chunk =
      let (ptr, p) = allocate_from_process_heap (unallocated m) chunk in release p ptr

  abbrev pub purge_from : List ℕ → Pool → Pool
  purge_from [] p = p
  purge_from (c ∷ cs) p = record p { first = none; chunks = [] }

  abbrev pub purge : Pool → Pool
  purge p = purge_from p.chunks p

  -- cleanup: the chunks are linked anew, one behind the other.
  pub tidy_chunks : List ℕ → ℕ → Memory → ℕ × Memory
  unfolding tidy_chunk
  tidy_chunks [] last m = (last, m)
  tidy_chunks (c ∷ cs) last m =
      let (next_last, m') = tidy_chunk c (put m last (some c)) in tidy_chunks cs next_last m'

  abbrev pub cleanup_from : List ℕ → Pool → Pool
  cleanup_from [] p = p
  cleanup_from (c ∷ cs) p =
      let (last, m) = tidy_chunk c p.memory in
      let (end, m') = tidy_chunks cs last m in record p { memory = put m' end none; first = some c }

  pub cleanup : Pool → Pool
  unfolding tidy_chunks
  cleanup p = cleanup_from p.chunks p
