-- ===== src/Coordination/Turns/Safety.antt =====
-- However the single calls of the operator and the writes of the agents interleave, the configured
-- number of nodes is not exceeded.
use flatcar_linux_update_ope.Prelude.{ℕ, ◌≡◌, subst, some, List, ◌∷◌}
use flatcar_linux_update_ope.Prelude.Int.{pos}
use flatcar_linux_update_ope.Node.{Node}
use flatcar_linux_update_ope.Client.{NodeClient, Selectors}
use flatcar_linux_update_ope.Client.Laws.{IsQuiet}
use flatcar_linux_update_ope.Clock.{Clock}
use flatcar_linux_update_ope.Operator.Vars.{Vars, package_vars}
use flatcar_linux_update_ope.Operator.Vars.Meaning.{IsLawful, Means, package_vars-Means}
use flatcar_linux_update_ope.Operator.Config.{Kontroller}
use flatcar_linux_update_ope.Operator.Process.Flags.{IsForeign, IsSafe}
use flatcar_linux_update_ope.Coordination.{Phase, cleaning}
use flatcar_linux_update_ope.Coordination.Turns.{
  listing, visiting, visited, visit, Moment, Turn, lists, visits, ends, writes, Runs, here, later,
}
use flatcar_linux_update_ope.Coordination.Turns.Invariant.{IsOrderly}
use flatcar_linux_update_ope.Coordination.Turns.Named.{All-any}
use flatcar_linux_update_ope.Coordination.Turns.Gathered.{gathered-IsOrderly}
use flatcar_linux_update_ope.Coordination.Turns.Visited.{visit-Updates}
use flatcar_linux_update_ope.Coordination.Turns.Written.{ended-IsOrderly, write-IsOrderly}
use flatcar_linux_update_ope.Coordination.Turns.Kept.{outcome-IsOrderly}

module _ (c : NodeClient) (q : IsQuiet c) (s : Selectors) (v : Vars s) (means : Means s v)
    (clock : Clock) (k : Kontroller) (max : ℕ) (max-eq : k.max_rebooting_nodes ≡ pos max)
    (before : IsForeign k.before_reboot_annotations)
    (after : IsForeign k.after_reboot_annotations) where
  -- The invariant of the whole system.
  abbrev IsOrdered : Moment c s v clock k → Type 0
  IsOrdered x = IsOrderly max x.work (q.nodes x.world)

  visited-IsOrderly :
      (p : Phase) (n : Node) (rest : List Node) (w : c.World)
      → IsOrderly max (visiting p (n ∷ rest)) (q.nodes w)
      → IsOrderly max
          (visited p rest (visit c s v clock k p n w).0)
          (q.nodes (visit c s v clock k p n w).1)
  visited-IsOrderly p n rest w o =
      let (done, either) = visit-Updates c q s v means clock k p n w o.safe.distinct in
      outcome-IsOrderly c q s v means clock k max max-eq before after n rest (q.nodes w) p o
        (visit c s v clock k p n w) done either

  Turn-IsOrdered :
      {x y : Moment c s v clock k} → Turn c s v clock k q x y → IsOrdered x → IsOrdered y
  Turn-IsOrdered {x} (lists p first second e) o =
      gathered-IsOrderly c q s v means clock k max max-eq p first second x.world
        (subst (λ j. IsOrderly max j (q.nodes x.world)) e o)
  Turn-IsOrdered {x} (visits p n rest e) o =
      visited-IsOrderly p n rest x.world (subst (λ j. IsOrderly max j (q.nodes x.world)) e o)
  Turn-IsOrdered {x} (ends p e) o =
      ended-IsOrderly max p (q.nodes x.world) (subst (λ j. IsOrderly max j (q.nodes x.world)) e o)
  Turn-IsOrdered {x} (writes name a t) o = write-IsOrderly name a c q max x.work x.world t o

  Runs-IsOrdered :
      {x y : Moment c s v clock k} → Runs c s v clock k q x y → IsOrdered x → IsOrdered y
  Runs-IsOrdered here o = o
  Runs-IsOrdered (later r t) o = Turn-IsOrdered t (Runs-IsOrdered r o)

-- Whatever calls the operator makes and whatever the agents write between any two of them, in any
-- order and with any errors and panics, every state that they reach from the start of a pass keeps
-- the invariant, with no more nodes taking part in reboots than the configured number. The API
-- server refuses an update if another one came between its read and its write. An agent writes
-- before its drain only if its node still wants a reboot, and starts only where that does not
-- disturb the pass: not on a node in its checks before a reboot, from the time that the cleanup has
-- visited it until the nodes to mark are chosen; and not on a node that may reboot without being in
-- its checks after one, from the time that `markAfterReboot` has visited or overlooked it until
-- then. The annotations configured for the checks must not be the protocol's own.
pub Runs-IsSafe :
    (c : NodeClient) (q : IsQuiet c) (s : Selectors) (v : Vars s)
    → IsLawful s
    → package_vars s ≡ some v
    → (clock : Clock) (k : Kontroller) (max : ℕ) → k.max_rebooting_nodes ≡ pos max
    → IsForeign k.before_reboot_annotations
    → IsForeign k.after_reboot_annotations
    → (w : c.World) (y : Moment c s v clock k) → IsSafe max (q.nodes w)
    → Runs c s v clock k q (record { work = listing cleaning; world = w }) y
    → IsSafe max (q.nodes y.world)
Runs-IsSafe c q s v lawful loaded clock k max max-eq before after w y safe r =
    (Runs-IsOrdered c q s v (package_vars-Means s v loaded lawful) clock k max max-eq before after r
      (record { safe = safe; each = All-any (q.nodes w); within = tt })).safe
