-- ===== src/Coordination/Safety.antt =====
-- However the steps of the operator and the writes of the agents take turns, the configured number
-- of nodes is not exceeded.
use flatcar_linux_update_ope.Prelude.{ℕ, ◌≡◌, some}
use flatcar_linux_update_ope.Prelude.Int.{pos}
use flatcar_linux_update_ope.Client.{NodeClient, Selectors}
use flatcar_linux_update_ope.Client.Laws.{IsQuiet}
use flatcar_linux_update_ope.Clock.{Clock}
use flatcar_linux_update_ope.Operator.Vars.{Vars, package_vars}
use flatcar_linux_update_ope.Operator.Vars.Meaning.{IsLawful}
use flatcar_linux_update_ope.Operator.Config.{Kontroller}
use flatcar_linux_update_ope.Operator.Process.Flags.{IsForeign, IsSafe}
use flatcar_linux_update_ope.Coordination.{cleaning, State, Reach}
use flatcar_linux_update_ope.Coordination.Turns.{listing}
use flatcar_linux_update_ope.Coordination.Turns.Safety.{Runs-IsSafe}
use flatcar_linux_update_ope.Coordination.Turns.Passes.{Reach-Runs}

-- Whatever the steps of the operator and the writes of the agents, in any order and with any
-- errors and panics, every state that they reach from the start of a pass keeps the invariant, with
-- no more nodes taking part in reboots than the configured number. An agent writes before its
-- drain only if its node still wants a reboot, and starts only where that does not disturb the
-- pass: while `markBeforeReboot` is to come after `markAfterReboot`, not on a node that may reboot
-- without being in its checks after one, and while a pass has not finished its checks before a
-- reboot, not on a node that is in them.
pub Reach-IsSafe :
    (c : NodeClient) (q : IsQuiet c) (s : Selectors) (v : Vars s)
    → IsLawful s
    → package_vars s ≡ some v
    → (clock : Clock) (k : Kontroller) (max : ℕ) → k.max_rebooting_nodes ≡ pos max
    → IsForeign k.before_reboot_annotations
    → IsForeign k.after_reboot_annotations
    → (w : c.World) (y : State c s v clock k) → IsSafe max (q.nodes w)
    → Reach c s v clock k q (record { phase = cleaning; world = w }) y
    → IsSafe max (q.nodes y.world)
Reach-IsSafe c q s v lawful loaded clock k max max-eq before after w y safe r =
    Runs-IsSafe c q s v lawful loaded clock k max max-eq before after w
      (record { work = listing y.phase; world = y.world }) safe
      (Reach-Runs c s v clock k q (record { phase = cleaning; world = w }) y r)
