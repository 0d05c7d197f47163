-- ===== src/Limits/Permits.antt =====
-- limits.rs, the execution slots.
use clix.Prelude.{arith, false, ◌↔◌, ◌≡◌}
use clix.Error.{is_ok, ok}
use clix.Limits.{Limits, drop_child, take_child}

-- A slot that is taken and dropped leaves the limits as they were.
pub drop-take_child : (l m : Limits) → take_child l ≡ ok m → drop_child m ≡ l
unfolding take_child drop_child
drop-take_child l m h = ground arith

-- A slot is refused exactly when none is free.
pub take_child_none : (l : Limits) → (is_ok (take_child l) ≡ false) ↔ (l.children ≡ 0)
unfolding take_child
take_child_none l = (λ h. ground arith, λ h. ground arith)
