-- ===== src/Worker/Fault.antt =====
-- What the worker's calls throw: an error with its message and, where it has one, its code.
use bf_techops.Prelude.{Option}
use bf_techops.Js.{Text}

pub record Fault : Type 0 where
  pub message : Text
  pub code : Option Text

pub data Run {ℓ} (A : Type ℓ) : Type ℓ where
  done : A → Run A
  threw : Fault → Run A
