-- ===== src/Operator/Marks.antt =====
-- pkg/operator/operator.go: `mark`, `markBeforeReboot`, `markAfterReboot`, the reboot window and
-- the capacity.
use flatcar_linux_update_ope.Prelude.{
  String, ◌<>◌, Bool, true, Option, none, some, List, [], ◌∷◌, ◌++◌, length, take, if◌then◌else◌,
}
use flatcar_linux_update_ope.Prelude.Int.{ℤ, pos, negsuc, ◌-ℤ◌}
use flatcar_linux_update_ope.Constants.{true_value, label_before_reboot, label_after_reboot}
use flatcar_linux_update_ope.GoMap.{delete_all, assign}
use flatcar_linux_update_ope.Exec.{Exec, ◌>>=◌, pure, for_each, wrapping}
use flatcar_linux_update_ope.Node.{Node}
use flatcar_linux_update_ope.Client.{NodeClient, Selectors}
use flatcar_linux_update_ope.Clock.{Clock}
use flatcar_linux_update_ope.Periodic.{previous}
use flatcar_linux_update_ope.K8sutil.Metadata.{UpdateNode, with_labels, or_panic, update_node_retry}
use flatcar_linux_update_ope.K8sutil.Selector.{
  filter_nodes_by_annotation, filter_nodes_by_requirement,
}
use flatcar_linux_update_ope.Operator.Vars.{Vars}
use flatcar_linux_update_ope.Operator.Config.{Kontroller}

-- The function that `mark` hands to `UpdateNodeRetry`.
unfoldable pub mark_f : String → List String → UpdateNode
mark_f label annotations node =
    with_labels (record node { annotations = delete_all node.annotations annotations })
      (assign node.labels label true_value)

unfoldable pub mark : (c : NodeClient) → String → String → List String → Exec c.World (Unit {0})
mark c node_name label annotations =
    wrapping "setting label %q to %q on node %q: %w" (label ∷ true_value ∷ node_name ∷ [])
      (update_node_retry c node_name (mark_f label annotations))

-- `first` and `second` are what the two calls of `time.Now` return.
unfoldable pub inside_reboot_window : (clock : Clock) → Kontroller → clock.Time → clock.Time → Bool
inside_reboot_window clock k first second = elim k.reboot_window [
  | none ↦ true
  | some window ↦ clock.before second (previous clock window first).end
]

-- `make` panics on a negative capacity, and the loop takes the first nodes up to the capacity.
abbrev pub choose : ℤ → List Node → Option (List Node)
choose (negsuc n) nodes = none
choose (pos n) nodes = some (take n nodes)

module _ (s : Selectors) (v : Vars s) where
  -- The nodes that count as rebooting, some of them up to three times.
  unfoldable pub rebooting_nodes : List Node → List Node
  rebooting_nodes nodelist =
      (filter_nodes_by_annotation s nodelist v.still_rebooting_selector
        ++ filter_nodes_by_requirement s nodelist v.before_reboot_req)
      ++ filter_nodes_by_requirement s nodelist v.after_reboot_req

  unfoldable pub remaining_rebooting_capacity : Kontroller → List Node → ℤ
  unfolding rebooting_nodes
  remaining_rebooting_capacity k nodelist =
      k.max_rebooting_nodes -ℤ pos (length (rebooting_nodes nodelist))

  unfoldable pub nodes_requiring_reboot : List Node → List Node
  nodes_requiring_reboot nodelist =
      filter_nodes_by_requirement s (filter_nodes_by_annotation s nodelist v.rebootable_selector)
        v.not_before_reboot_req

  -- `none` is a panic.
  unfoldable pub rebootable_nodes : Kontroller → List Node → Option (List Node)
  rebootable_nodes k nodelist =
      choose (remaining_rebooting_capacity k nodelist) (nodes_requiring_reboot nodelist)

module _ (c : NodeClient) (s : Selectors) (v : Vars s) where
  -- The loop of `markBeforeReboot`.
  unfoldable pub mark_chosen : Kontroller → List Node → Exec c.World (Unit {0})
  mark_chosen k nodelist = do
    chosen ← or_panic (rebootable_nodes s v k nodelist)
    for_each chosen λ n.
        wrapping "labeling node for before reboot checks: %w" []
          (mark c n.name label_before_reboot k.before_reboot_annotations)

  module _ (clock : Clock) where
    unfoldable pub mark_before_reboot :
        Kontroller → clock.Time → clock.Time → Exec c.World (Unit {0})
    unfolding mark_chosen
    mark_before_reboot k first second = do
      nodelist ← wrapping "listing nodes: %w" [] (c.list "")
      if inside_reboot_window clock k first second then mark_chosen k nodelist else pure tt

  unfoldable pub mark_after_reboot : Kontroller → Exec c.World (Unit {0})
  mark_after_reboot k = do
    nodelist ← wrapping "listing nodes: %w" [] (c.list (label_after_reboot <> "!=" <> true_value))
    for_each (filter_nodes_by_annotation s nodelist v.just_rebooted_selector) λ n.
        wrapping "labeling node for after reboot checks: %w" []
          (mark c n.name label_after_reboot k.after_reboot_annotations)
