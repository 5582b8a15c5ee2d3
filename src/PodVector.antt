-- ===== src/PodVector.antt =====
-- yasio::pod_vector of yasio/pod_vector.hpp. The allocator is a parameter, as are the size limit of
-- the element type and the value of memory that was never written.
pub mod Growth
pub mod Contents
pub mod Insert
pub mod Shrink
use yasio.Base.{
  ℕ, zero, suc, ◌+◌, ◌-◌, ◌*◌, ◌/◌, ◌%◌, ◌^◌, List, [], ◌∷◌, ◌++◌, length, take, drop, replicate,
  Bool, ltb, leb, ◌==◌, ◌&&◌, if◌then◌else◌, Option, some, none,
}
use yasio.Base.Outcome.{Outcome, ok, err, ◌>>=◌, out_of_range, length_error, bad_alloc, invalid}
use yasio.Base.Splice.{splice}

-- `memory` are the `_Myres` cells at `_Myfirst`, none for a null pointer; `size` is `_Mysize`.
pub record PodVector (A : Type 0) : Type 0 where
  pub memory : List A
  pub size : ℕ

-- _Calculate_growth
pub calculate_growth : ℕ → ℕ → ℕ → ℕ
calculate_growth max_size old_cap new_size =
    let geometric = old_cap + old_cap / 2 in
    if ltb (max_size - old_cap / 2) old_cap
    then max_size
    else if ltb geometric new_size
    then new_size
    else geometric

module _ {A : Type 0} where
  abbrev pub capacity : PodVector A → ℕ
  capacity v = length v.memory

  abbrev pub contents : PodVector A → List A
  contents v = take v.size v.memory

  abbrev pub eos : PodVector A → ℕ → PodVector A
  eos v new_size = record v { size = new_size }

  -- _Tidy
  abbrev pub tidy : PodVector A → PodVector A
  tidy v = record { memory = []; size = 0 }

  -- std::copy_n and std::fill_n into the cells from `at` on, which must be the vector's own.
  pub put : PodVector A → ℕ → List A → Outcome (PodVector A)
  put v at vs =
      if leb (at + length vs) (capacity v)
      then ok (record v { memory = splice at vs v.memory })
      else err invalid

  -- The cells from `at` on move `count` up, as std::copy_n does where it is `memmove`, and the new
  -- ones are written over the gap.
  pub put_between : PodVector A → ℕ → List A → Outcome (PodVector A)
  put_between v at vs =
      let count = length vs in
      put v (at + count) (take (v.size - (at + count)) (drop at v.memory)) >>= λ w. put w at vs

  -- erase(first, last)
  pub erase : PodVector A → ℕ → ℕ → Outcome (PodVector A)
  erase v first last =
      if leb first last && leb last v.size
      then put v first (take (v.size - last) (drop last v.memory))
        >>= (λ w. ok (eos w (first + (v.size - last))))
      else err out_of_range

  abbrev nth : List A → ℕ → Outcome A
  nth [] n = err invalid
  nth (x ∷ xs) zero = ok x
  nth (x ∷ xs) (suc n) = nth xs n

  -- at, which operator[] calls
  abbrev pub at : PodVector A → ℕ → Outcome A
  at v index = if ltb index v.size then nth v.memory index else err out_of_range

  abbrev pub front : PodVector A → Outcome A
  front v = if v.size == 0 then err out_of_range else nth v.memory 0

  abbrev pub back : PodVector A → Outcome A
  back v = if v.size == 0 then err out_of_range else nth v.memory (v.size - 1)

  abbrev pub clear : PodVector A → PodVector A
  clear v = record v { size = 0 }

  -- detach_abi gives the memory and the length away, and attach_abi takes them over.
  abbrev pub detach_abi : PodVector A → List A × ℕ × PodVector A
  detach_abi v = (v.memory, v.size, record { memory = []; size = 0 })

  abbrev pub attach_abi : PodVector A → List A → PodVector A
  attach_abi v memory = record { memory = memory; size = length memory }

module _ {A : Type 0} (garbage : A) (max_size : ℕ) (can_allocate : ℕ → Bool) where
  -- `realloc` keeps the cells that fit.
  abbrev pub reallocated : ℕ → List A → List A
  reallocated new_cap memory = take new_cap memory ++ replicate (new_cap - length memory) garbage

  -- _Reallocate, for the capacity that the policy gives.
  pub reallocate : PodVector A → ℕ → Outcome (PodVector A)
  reallocate v new_cap =
      if can_allocate new_cap
      then ok (record v { memory = reallocated new_cap v.memory })
      else err bad_alloc

  -- _Resize_reallocate, exactly and at least.
  pub resize_exactly : PodVector A → ℕ → Outcome (PodVector A)
  resize_exactly v new_size = reallocate v new_size >>= λ w. ok (eos w new_size)

  pub resize_at_least : PodVector A → ℕ → Outcome (PodVector A)
  resize_at_least v new_size =
      reallocate v (calculate_growth max_size (capacity v) new_size) >>= λ w. ok (eos w new_size)

  pub resize : PodVector A → ℕ → Outcome (PodVector A)
  resize v new_size =
      if ltb (capacity v) new_size then resize_exactly v new_size else ok (eos v new_size)

  -- The sum is a `size_t`.
  pub expand : PodVector A → ℕ → Outcome (PodVector A)
  expand v count =
      let new_size = (v.size + count) % 2 ^ 64 in
      if ltb (capacity v) new_size then resize_at_least v new_size else ok (eos v new_size)

  abbrev pub reserve : PodVector A → ℕ → Outcome (PodVector A)
  reserve v new_cap = if ltb (capacity v) new_cap then reallocate v new_cap else ok v

  pub shrink_to_fit : PodVector A → Outcome (PodVector A)
  shrink_to_fit v =
      if v.size == capacity v
      then ok v
      else if v.size == 0
      then ok (tidy v)
      else reallocate v v.size

  -- resize(new_size, val) and expand(count, val)
  abbrev pub resize_fill : PodVector A → ℕ → A → Outcome (PodVector A)
  resize_fill v new_size val =
      if v.size == new_size
      then ok v
      else resize v new_size >>= λ w.
          if ltb v.size new_size then put w v.size (replicate (new_size - v.size) val) else ok w

  pub expand_fill : PodVector A → ℕ → A → Outcome (PodVector A)
  expand_fill v count val =
      if count == 0 then ok v else expand v count >>= λ w. put w v.size (replicate count val)

  -- emplace_back and _Emplace_back_reallocate
  pub emplace_back : PodVector A → A → Outcome (PodVector A)
  emplace_back v val =
      if ltb v.size (capacity v)
      then put (eos v (v.size + 1)) v.size (val ∷ [])
      else if v.size == max_size
      then err length_error
      else resize_at_least v (v.size + 1) >>= λ w. put w v.size (val ∷ [])

  -- append(first, last), for a range that lies outside of the vector.
  pub append : PodVector A → List A → Outcome (PodVector A)
  append v [] = ok v
  append v (x ∷ []) = emplace_back v x
  append v (x ∷ y ∷ zs) = expand v (length (x ∷ y ∷ zs)) >>= λ w. put w v.size (x ∷ y ∷ zs)

  -- insert(pos, first, last); the iterator that is returned is again at `at`.
  pub insert : PodVector A → ℕ → List A → Outcome (PodVector A)
  insert v at [] = if leb at v.size then ok v else err out_of_range
  insert v at (x ∷ xs) =
      if leb at v.size
      then if at == v.size
        then append v (x ∷ xs)
        else expand v (length (x ∷ xs)) >>= (λ w. put_between w at (x ∷ xs))
      else err out_of_range

  -- insert(pos, count, val)
  pub insert_fill : PodVector A → ℕ → ℕ → A → Outcome (PodVector A)
  insert_fill v at count val =
      if leb at v.size
      then if count == 0
        then ok v
        else if at == v.size
        then expand_fill v count val
        else expand v count >>= (λ w. put_between w at (replicate count val))
      else err out_of_range

  -- emplace, where the language is older than C++20.
  pub emplace : PodVector A → ℕ → A → Outcome (PodVector A)
  emplace v at val =
      if leb at v.size
      then if at == v.size
        then emplace_back v val
        else expand v 1 >>= (λ w. put_between w at (val ∷ []))
      else err out_of_range

  -- _Assign_range, for a range that lies outside of the vector.
  pub assign : PodVector A → List A → Outcome (PodVector A)
  assign v [] = ok (eos v 0)
  assign v (x ∷ xs) = resize (eos v 0) (length (x ∷ xs)) >>= λ w. put w 0 (x ∷ xs)
