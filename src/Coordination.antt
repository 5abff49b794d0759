-- ===== src/Coordination.antt =====
-- The operator and the agents of all nodes together: the steps of pkg/operator/operator.go's
-- `process` and the writes of pkg/agent/agent.go, in any order.
pub mod Writes
pub mod Safety
pub mod Passes
pub mod Turns
pub mod Cycle
use flatcar_linux_update_ope.Prelude.{String, ◌≡◌, Bool, true, false, List, All}
use flatcar_linux_update_ope.Exec.{Outcome, ok, err, panic, Exec}
use flatcar_linux_update_ope.Node.{Node}
use flatcar_linux_update_ope.Client.{NodeClient, Selectors}
use flatcar_linux_update_ope.Client.Laws.{IsQuiet}
use flatcar_linux_update_ope.Clock.{Clock}
use flatcar_linux_update_ope.K8sutil.Metadata.{update_node_retry}
use flatcar_linux_update_ope.Operator.Vars.{Vars}
use flatcar_linux_update_ope.Operator.Config.{Kontroller}
use flatcar_linux_update_ope.Operator.Checks.{
  cleanup_state, check_after_reboot, check_before_reboot,
}
use flatcar_linux_update_ope.Operator.Marks.{mark_after_reboot, mark_before_reboot}
use flatcar_linux_update_ope.Operator.Process.Flags.{checking_before, checking_after, allowed}
use flatcar_linux_update_ope.Agent.Writes.{
  Write, info, start, uncordon, schedulable, status, drain, cordon, write_f,
}
use flatcar_linux_update_ope.Agent.Protocol.{Ready}

-- The step of a pass that comes next.
pub data Phase : Type 0 where
  cleaning checking_after_reboot marking_after_reboot : Phase
  checking_before_reboot marking_before_reboot : Phase

-- After an error, a panic or the last step, a new pass begins.
abbrev pub advance : Phase → Outcome (Unit {0}) → Phase
advance cleaning (ok a) = checking_after_reboot
advance checking_after_reboot (ok a) = marking_after_reboot
advance marking_after_reboot (ok a) = checking_before_reboot
advance checking_before_reboot (ok a) = marking_before_reboot
advance marking_before_reboot (ok a) = cleaning
advance p (err e) = cleaning
advance p panic = cleaning

-- When an agent that starts does not disturb the pass. It forgets that its node wants a reboot, so
-- until the checks before a reboot are over the node must not be in them; and once
-- `markAfterReboot` has looked for nodes that have rebooted, until the end of the pass, it must not
-- be a node that may reboot and that was overlooked.
abbrev pub Undisturbed : Phase → Node → Type 0
Undisturbed cleaning n = Unit
Undisturbed checking_after_reboot n = checking_before n ≡ false
Undisturbed marking_after_reboot n = checking_before n ≡ false
Undisturbed checking_before_reboot n =
    (checking_before n ≡ false) × (allowed n ≡ true → checking_after n ≡ true)
Undisturbed marking_before_reboot n = allowed n ≡ true → checking_after n ≡ true

abbrev pub Timely : Phase → Write → Node → Type 0
Timely p (info v) n = Unit
Timely p start n = Undisturbed p n
Timely p uncordon n = Unit
Timely p schedulable n = Unit
Timely p (status format st) n = Unit
Timely p (drain already) n = Unit
Timely p cordon n = Unit

module _ (c : NodeClient) (s : Selectors) (v : Vars s) (clock : Clock) (k : Kontroller) where
  -- The step of the operator, with the two readings of its clock.
  abbrev pub operate : Phase → clock.Time → clock.Time → Exec c.World (Unit {0})
  operate cleaning first second = cleanup_state c s v k
  operate checking_after_reboot first second = check_after_reboot c s v k
  operate marking_after_reboot first second = mark_after_reboot c s v k
  operate checking_before_reboot first second = check_before_reboot c s v k
  operate marking_before_reboot first second = mark_before_reboot c s v clock k first second

  pub record State : Type 0 where
    pub phase : Phase
    pub world : c.World

  module _ (q : IsQuiet c) where
    -- The operator makes its next step, or some agent one of its writes.
    pub data Step (x : State) : State → Type 0 where
      operator :
          (first second : clock.Time)
          → Step x (record {
            phase = advance x.phase (operate x.phase first second x.world).0;
            world = (operate x.phase first second x.world).1;
          })
      agent :
          (name : String) (a : Write)
          → All (λ n. n.name ≡ name → Ready a n × Timely x.phase a n) (q.nodes x.world)
          → Step x
              (record { phase = x.phase; world = (update_node_retry c name (write_f a) x.world).1 })

    pub data Reach (x : State) : State → Type 0 where
      here : Reach x x
      later : {y z : State} → Reach x y → Step y z → Reach x z
