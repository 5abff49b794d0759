-- ===== src/Node.antt =====
-- The parts of `corev1.Node` that the program reads and writes.
use flatcar_linux_update_ope.Prelude.{String, Bool}
use flatcar_linux_update_ope.GoMap.{GoMap}

pub record Node : Type 0 where
  pub name : String
  pub labels : GoMap
  pub annotations : GoMap
  pub unschedulable : Bool
  pub os_image : String
