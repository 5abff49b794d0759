-- ===== src/Coordination/Turns.antt =====
-- The operator and the agents by single calls: a step of the operator lists the nodes and then
-- updates the chosen ones one by one, and the agents write in between.
pub mod Named
pub mod Invariant
pub mod Gathered
pub mod Visited
pub mod Written
pub mod Kept
pub mod Safety
pub mod Passes
use flatcar_linux_update_ope.Prelude.{
  String, ◌<>◌, ◌≡◌, Bool, true, false, List, [], ◌∷◌, All, filter, if◌then◌else◌,
}
use flatcar_linux_update_ope.Constants.{
  true_value, false_value, label_before_reboot, label_after_reboot,
}
use flatcar_linux_update_ope.Exec.{Outcome, ok, err, panic, Exec, ◌>>=◌, pure, wrapping}
use flatcar_linux_update_ope.Node.{Node}
use flatcar_linux_update_ope.Client.{NodeClient, Selectors}
use flatcar_linux_update_ope.Client.Laws.{IsQuiet}
use flatcar_linux_update_ope.Clock.{Clock}
use flatcar_linux_update_ope.K8sutil.Metadata.{or_panic, update_node_retry}
use flatcar_linux_update_ope.K8sutil.Metadata.Names.{has_name}
use flatcar_linux_update_ope.K8sutil.Selector.{
  filter_nodes_by_annotation, filter_nodes_by_requirement,
}
use flatcar_linux_update_ope.Operator.Vars.{Vars}
use flatcar_linux_update_ope.Operator.Config.{Kontroller}
use flatcar_linux_update_ope.Operator.Checks.{
  CheckRebootOptions, has_all_annotations, check_reboot_f, cleanup_f, before_reboot_options,
  after_reboot_options,
}
use flatcar_linux_update_ope.Operator.Marks.{mark, rebootable_nodes, inside_reboot_window}
use flatcar_linux_update_ope.Operator.Process.Flags.{checking_before, checking_after, allowed}
use flatcar_linux_update_ope.Agent.Writes.{
  Write, info, start, uncordon, schedulable, status, drain, cordon, write_f,
}
use flatcar_linux_update_ope.Agent.Protocol.{Ready}
use flatcar_linux_update_ope.Coordination.{
  Phase, cleaning, checking_after_reboot, marking_after_reboot, checking_before_reboot,
  marking_before_reboot, advance, Undisturbed,
}

-- What the operator does next: it lists the nodes for a step, or goes on with the loop of the step
-- over the nodes that are left of those that it chose.
pub data Work : Type 0 where
  listing : Phase → Work
  visiting : Phase → List Node → Work

-- After an error or a panic a new pass begins.
abbrev pub gathered : Phase → Outcome (List Node) → Work
gathered p (ok nodes) = visiting p nodes
gathered p (err e) = listing cleaning
gathered p panic = listing cleaning

abbrev pub visited : Phase → List Node → Outcome (Unit {0}) → Work
visited p rest (ok a) = visiting p rest
visited p rest (err e) = listing cleaning
visited p rest panic = listing cleaning

-- When an agent that starts does not disturb the pass. Before a step lists the nodes this is as for
-- whole steps. During a step, a node that the loop has still to visit is free for the cleanup, and
-- need not be counted before its mark; once the nodes to mark are chosen, all are free.
abbrev pub Free : Work → Node → Type 0
Free (listing p) n = Undisturbed p n
Free (visiting cleaning nodes) n = has_name n.name nodes ≡ false → checking_before n ≡ false
Free (visiting checking_after_reboot nodes) n = checking_before n ≡ false
Free (visiting marking_after_reboot nodes) n =
    (checking_before n ≡ false)
    × (has_name n.name nodes ≡ false → allowed n ≡ true → checking_after n ≡ true)
Free (visiting checking_before_reboot nodes) n =
    (checking_before n ≡ false) × (allowed n ≡ true → checking_after n ≡ true)
Free (visiting marking_before_reboot nodes) n = Unit

abbrev pub Opportune : Work → Write → Node → Type 0
Opportune x (info v) n = Unit
Opportune x start n = Free x n
Opportune x uncordon n = Unit
Opportune x schedulable n = Unit
Opportune x (status format st) n = Unit
Opportune x (drain already) n = Unit
Opportune x cordon n = Unit

module _ (c : NodeClient) (s : Selectors) (v : Vars s) (clock : Clock) (k : Kontroller) where
  -- The nodes that `checkReboot` updates.
  abbrev pub checked : CheckRebootOptions s → List Node → List Node
  checked opt nodelist =
      filter (λ node. has_all_annotations node opt.annotations)
        (filter_nodes_by_requirement s nodelist opt.req)

  -- A step up to its loop: the nodes of the loop.
  unfoldable pub gather : Phase → clock.Time → clock.Time → Exec c.World (List Node)
  gather cleaning first second = wrapping "listing nodes: %w" [] (c.list "")
  gather checking_after_reboot first second = do
    nodelist ← wrapping "listing nodes: %w" [] (c.list "")
    pure (checked (after_reboot_options c s v k) nodelist)
  gather marking_after_reboot first second = do
    nodelist ← wrapping "listing nodes: %w" [] (c.list (label_after_reboot <> "!=" <> true_value))
    pure (filter_nodes_by_annotation s nodelist v.just_rebooted_selector)
  gather checking_before_reboot first second = do
    nodelist ← wrapping "listing nodes: %w" [] (c.list "")
    pure (checked (before_reboot_options c s v k) nodelist)
  gather marking_before_reboot first second = do
    nodelist ← wrapping "listing nodes: %w" [] (c.list "")
    if inside_reboot_window clock k first second
        then or_panic (rebootable_nodes s v k nodelist)
        else pure []

  -- The body of the loop.
  unfoldable pub visit : Phase → Node → Exec c.World (Unit {0})
  visit cleaning n =
      wrapping "cleaning up node %q: %w" (n.name ∷ [])
        (update_node_retry c n.name (cleanup_f c s v k.before_reboot_annotations))
  visit checking_after_reboot n = wrapping "updating node %q: %w" (n.name ∷ []) (
      update_node_retry c n.name
        (check_reboot_f label_after_reboot k.after_reboot_annotations false_value))
  visit marking_after_reboot n =
      wrapping "labeling node for after reboot checks: %w" []
        (mark c n.name label_after_reboot k.after_reboot_annotations)
  visit checking_before_reboot n = wrapping "updating node %q: %w" (n.name ∷ []) (
      update_node_retry c n.name
        (check_reboot_f label_before_reboot k.before_reboot_annotations true_value))
  visit marking_before_reboot n =
      wrapping "labeling node for before reboot checks: %w" []
        (mark c n.name label_before_reboot k.before_reboot_annotations)

  pub record Moment : Type 0 where
    pub work : Work
    pub world : c.World

  module _ (q : IsQuiet c) where
    -- The operator makes its next call, or some agent one of its writes. An update of one node is
    -- one turn: the API server refuses it if another one came between its read and its write.
    pub data Turn (x : Moment) : Moment → Type 0 where
      lists :
          (p : Phase) (first second : clock.Time)
          → x.work ≡ listing p
          → Turn x (record {
            work = gathered p (gather p first second x.world).0;
            world = (gather p first second x.world).1;
          })
      visits :
          (p : Phase) (n : Node) (rest : List Node)
          → x.work ≡ visiting p (n ∷ rest)
          → Turn x (record {
            work = visited p rest (visit p n x.world).0;
            world = (visit p n x.world).1;
          })
      ends :
          (p : Phase)
          → x.work ≡ visiting p []
          → Turn x (record { work = listing (advance p (ok tt)); world = x.world })
      writes :
          (name : String) (a : Write)
          → All (λ n. n.name ≡ name → Ready a n × Opportune x.work a n) (q.nodes x.world)
          → Turn x
              (record { work = x.work; world = (update_node_retry c name (write_f a) x.world).1 })

    pub data Runs (x : Moment) : Moment → Type 0 where
      here : Runs x x
      later : {y z : Moment} → Runs x y → Turn y z → Runs x z
