-- ===== src/Workflow/Floating.antt =====
-- The type `double`, as a parameter: the operations that the monitors of backend/srs/workflow use.
use srs_control.Base.Int.{ℤ}
use srs_control.Base.{ℕ, Bool}

pub record Floating : Type 1 where
  pub Double : Type 0
  pub of_int : ℤ → Double
  pub of_unsigned : ℕ → Double
  pub divide : Double → Double → Double
  pub times : Double → Double → Double
  pub minus : Double → Double → Double
  pub is_above : Double → Double → Bool
