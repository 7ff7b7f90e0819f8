-- ===== src/Core/Tests.antt =====
-- Package core at concrete inputs.
use livepeer.Base.{◌-◌, ◌<◌, ◌≡◌, ℕ, some, arith}
use livepeer.Base.Int.{pos, ◌*ℤ◌, ◌+ℤ◌}
use livepeer.Base.Rat.{of_int, of_frac, add, mul, ◌≤ℚ◌, ◌<ℚ◌}
use livepeer.Core.Accounting.{stage}
use livepeer.Core.Accounting.Stage.{stage_least}

stage_least_example :
    (n : ℕ) × (stage (of_frac 1 2) (of_frac 5 1) (of_frac 2 3)
      ≡ some (record {
        size = pos n;
        new_credit = mul (of_int (pos n)) (of_frac 2 3);
        existing_credit = of_frac 1 2;
      }))
    × (0 < n)
    × (of_frac 5 1 ≤ℚ add (of_frac 1 2) (mul (of_int (pos n)) (of_frac 2 3)))
    × (add (of_frac 1 2) (mul (of_int (pos (n - 1))) (of_frac 2 3)) <ℚ of_frac 5 1)
unfolding ◌*ℤ◌ ◌+ℤ◌ add mul
stage_least_example =
    stage_least (of_frac 1 2) (of_frac 5 1) 2 3 (omega arith) (omega arith) (omega arith)
      (omega arith) (omega arith) (omega arith)
