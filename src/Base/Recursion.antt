-- ===== src/Base/Recursion.antt =====
-- Recursion on a number that falls.
use Prim.Native.Nat.{ℕ, zero, suc, ◌<◌}
use mathlib.Core.WellFounded.{Acc, WellFounded}
use native.Mathlib.Omega.{arith}

Acc_below : (bound n : ℕ) → n < bound → Acc ◌<◌ n
Acc_below zero n h = elim h [ ]
Acc_below (suc bound) n h = Acc.intro n (λ m hm. Acc_below bound m (omega arith))

unfoldable pub lt_wf : WellFounded ◌<◌
unfolding Acc_below
lt_wf = record { apply = λ n. Acc_below (suc n) n (omega arith) }
