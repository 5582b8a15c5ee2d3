-- ===== src/EventQueue.antt =====
-- concurrent_queue of yasio/impl/concurrent_queue.hpp, and io_service::dispatch, which drains it.
-- Each operation is one step; the locks that make it so are not modelled.
pub mod Order
use yasio.Base.{
  ℕ, zero, suc, ◌+◌, List, [], ◌∷◌, ◌++◌, length, Bool, true, false, Option, some, none,
  if◌then◌else◌,
}
use yasio.Base.Int.{ℤ, pos, negsuc}

-- concurrent_queue<_Ty, true>: producers write to `queue`, the consumer reads `deal`.
pub record DualQueue (A : Type 0) : Type 0 where
  pub queue : List A
  pub deal : List A

module _ {A : Type 0} where
  abbrev pub is_empty : List A → Bool
  is_empty [] = true
  is_empty (x ∷ xs) = false

  abbrev pub pop_front : List A → List A
  pop_front [] = []
  pop_front (x ∷ xs) = xs

  -- concurrent_queue_primitive::peek
  abbrev pub peek : List A → Option A
  peek [] = none
  peek (x ∷ xs) = some x

  pub emplace : DualQueue A → A → DualQueue A
  emplace q x = record q { queue = q.queue ++ x ∷ [] }

  -- The loop of consume, which calls `func` with the events that are returned, in this order.
  pub take_events : ℕ → List A → List A × List A
  take_events zero deal = ([], deal)
  take_events (suc count) [] = ([], [])
  take_events (suc count) (x ∷ deal) =
      let (events, left) = take_events count deal in (x ∷ events, left)

  -- The queues are swapped when the consumer has none left.
  pub swapped : DualQueue A → DualQueue A
  swapped q = if is_empty q.deal then record { queue = q.deal; deal = q.queue } else q

  pub consume : DualQueue A → ℤ → List A × DualQueue A
  consume q (pos count) =
      let s = swapped q in
      let (events, left) = take_events count s.deal in (events, record s { deal = left })
  consume q (negsuc count) = ([], swapped q)

  pub count : DualQueue A → ℕ
  count q = length q.queue + length q.deal

  abbrev pub clear : DualQueue A → DualQueue A
  clear q = record { queue = []; deal = [] }

  -- io_service::dispatch, with an event handler: the events it was given, and how many are left.
  pub dispatch : DualQueue A → ℤ → (List A × ℕ) × DualQueue A
  dispatch q max_count = let (events, r) = consume q max_count in ((events, count r), r)
