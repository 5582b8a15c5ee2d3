-- ===== src/Tests/ObjectPool.antt =====
-- A pool of yasio/impl/object_pool.hpp with chunks of three objects of eight bytes.
use yasio.Base.{inr, refl, List, [], ◌∷◌, some, none, arith}
use yasio.ObjectPool.{
  Memory, Pool, unallocated, cleanup, get, release, link, tidy_chunk, allocate_from_process_heap,
}
use yasio.ObjectPool.Uses.{IsPool, Use, gets, releases, writes, use_run, AreLegal, use_run-IsPool}
use yasio.ObjectPool.Cleanup.{cleanup-IsPool}

abbrev no_words : Memory
no_words a = none

abbrev empty_pool : Pool
empty_pool = unallocated 8 3 no_words

empty_pool-IsPool : IsPool 8 2 empty_pool []
empty_pool-IsPool = ([], refl, (λ a. refl), (λ a. omega arith), tt)

-- Two objects of one chunk are taken, one is written to and given back.
abbrev uses : List (Use 8 2)
uses = gets 100 ∷ gets 200 ∷ writes 108 (some 5) ∷ releases 100 ∷ []

uses-AreLegal : AreLegal 8 2 (empty_pool, []) uses
unfolding get release allocate_from_process_heap tidy_chunk link
uses-AreLegal = (
  ((λ a. ground arith), tt),
  (((λ a. ground arith), (inr (omega arith), tt)), (ground arith, (ground arith, tt))),
)

use_run-IsPool_example : let r = use_run 8 2 (empty_pool, []) uses in IsPool 8 2 r.0 r.1
use_run-IsPool_example =
    use_run-IsPool 8 2 (omega arith) uses empty_pool [] empty_pool-IsPool uses-AreLegal

cleanup-IsPool_example : IsPool 8 2 (cleanup 8 3 (use_run 8 2 (empty_pool, []) uses).0) []
cleanup-IsPool_example =
    let r = use_run 8 2 (empty_pool, []) uses in
    cleanup-IsPool 8 2 (omega arith) r.0 r.1 use_run-IsPool_example
