-- ===== src/Operator/Process.antt =====
-- pkg/operator/operator.go: `process`, one pass of the reconciliation.
pub mod Flags
pub mod Counting
pub mod Nodes
pub mod Effects
pub mod Cleanup
pub mod Listed
pub mod Sweeps
pub mod Keeps
pub mod Capacity
pub mod Window
pub mod Safety
pub mod Refinement
pub mod Pairwise
pub mod Stepped
pub mod Reconciled
pub mod Stages
pub mod Progress
pub mod Checked
use flatcar_linux_update_ope.Exec.{Exec, Outcome, ok, err, panic, ◌>>◌}
use flatcar_linux_update_ope.Client.{NodeClient, Selectors}
use flatcar_linux_update_ope.Clock.{Clock}
use flatcar_linux_update_ope.Operator.Vars.{Vars}
use flatcar_linux_update_ope.Operator.Config.{Kontroller}
use flatcar_linux_update_ope.Operator.Checks.{
  cleanup_state, check_after_reboot, check_before_reboot,
}
use flatcar_linux_update_ope.Operator.Marks.{mark_after_reboot, mark_before_reboot}

-- An error is logged and ends the pass; a panic ends the program.
abbrev pub log_error : {W : Type 0} → Outcome (Unit {0}) × W → Outcome (Unit {0}) × W
log_error (ok a, w) = (ok a, w)
log_error (err e, w) = (ok tt, w)
log_error (panic, w) = (panic, w)

module _ (c : NodeClient) (s : Selectors) (v : Vars s) (clock : Clock) where
  -- The five steps of a pass, up to the first error.
  unfoldable pub steps : Kontroller → clock.Time → clock.Time → Exec c.World (Unit {0})
  steps k first second = do
    cleanup_state c s v k
    check_after_reboot c s v k
    mark_after_reboot c s v k
    check_before_reboot c s v k
    mark_before_reboot c s v clock k first second

  unfoldable pub process : Kontroller → clock.Time → clock.Time → Exec c.World (Unit {0})
  unfolding steps
  process k first second w = log_error (steps k first second w)
