-- ===== src/Operator/Process/Sweeps.antt =====
-- Each step of a pass but the last, as a map over the stored nodes: the update of the step on the
-- nodes that its tests choose.
use flatcar_linux_update_ope.Prelude.{
  String, ◌≡◌, ◌∙◌, sym, ap, fun_ext, Bool, true, not, ◌&&◌, List, [], ◌∷◌, filter, filter-filter,
  arith,
}
use flatcar_linux_update_ope.Constants.{
  true_value, false_value, label_before_reboot, label_after_reboot,
}
use flatcar_linux_update_ope.Node.{Node}
use flatcar_linux_update_ope.Client.{NodeClient, Selectors}
use flatcar_linux_update_ope.Client.Laws.{IsQuiet, after_reboot_ne_true}
use flatcar_linux_update_ope.K8sutil.Metadata.Names.{DistinctNames, KeepsName}
use flatcar_linux_update_ope.K8sutil.Selector.{
  filter_nodes_by_annotation, filter_nodes_by_requirement,
}
use flatcar_linux_update_ope.Operator.Vars.{Vars}
use flatcar_linux_update_ope.Operator.Vars.Meaning.{Means, is_true, just_rebooted}
use flatcar_linux_update_ope.Operator.Config.{Kontroller}
use flatcar_linux_update_ope.Operator.Checks.{
  cleanup_f, check_reboot_f, has_all_annotations, cleanup_state, check_after_reboot,
  check_before_reboot,
}
use flatcar_linux_update_ope.Operator.Marks.{mark_f, mark, mark_after_reboot}
use flatcar_linux_update_ope.Operator.Process.Flags.{checking_after}
use flatcar_linux_update_ope.Operator.Process.Nodes.{check_reboot_f-IsChecked, mark_f-IsMarked}
use flatcar_linux_update_ope.Operator.Process.Listed.{
  filter_every, Swept, sweep, update_node_retry-Updates, wrapping-Updates,
}

pub check_reboot_f-KeepsName :
    (label : String) (annotations : List String) (ok_to_reboot : String)
    → KeepsName (check_reboot_f label annotations ok_to_reboot)
check_reboot_f-KeepsName label annotations value n m h =
    (check_reboot_f-IsChecked label annotations value n m h).name

pub mark_f-KeepsName :
    (label : String) (annotations : List String) → KeepsName (mark_f label annotations)
mark_f-KeepsName label annotations n m h = (mark_f-IsMarked label annotations n m h).name

module _ (c : NodeClient) (q : IsQuiet c) (s : Selectors) (v : Vars s) (means : Means s v) where
  pub cleanup_f-KeepsName : (annotations : List String) → KeepsName (cleanup_f c s v annotations)
  unfolding cleanup_f
  cleanup_f-KeepsName annotations n m h = ground arith

  -- `cleanupState` applies its update to every node.
  pub cleanup_state-Swept :
      (k : Kontroller) (w : c.World)
      → DistinctNames (q.nodes w)
      → Swept c q
          (cleanup_f c s v k.before_reboot_annotations)
          (λ _. true)
          (q.nodes w)
          (cleanup_state c s v k w)
  unfolding cleanup_state
  cleanup_state-Swept k w d =
      let f = cleanup_f c s v k.before_reboot_annotations in
      let keeps : KeepsName f = cleanup_f-KeepsName k.before_reboot_annotations in
      sweep c q f keeps _
        (wrapping-Updates c q f keeps "cleaning up node %q: %w" (λ n. n.name ∷ []) _
          (update_node_retry-Updates c q f keeps))
        (λ _. true) (λ l. l) (q.nodes w) "listing nodes: %w" d (c.list "" w) (q.nodes-list "" w)
        (λ l h. q.list_all w l h ∙ sym (filter_every (q.nodes w)))

  -- The nodes whose checks have passed.
  abbrev pub passed : String → List String → Node → Bool
  passed label annotations n = is_true n.labels label && has_all_annotations n annotations

  pub checked_nodes :
      (req : s.Requirement) (label : String) (annotations : List String) (ns : List Node)
      → ((n : Node) → s.meets req n.labels ≡ is_true n.labels label)
      → filter (λ n. has_all_annotations n annotations) (filter_nodes_by_requirement s ns req)
        ≡ filter (passed label annotations) ns
  unfolding filter_nodes_by_requirement
  checked_nodes req label annotations ns meets =
      filter-filter _ _ ns
      ∙ ap (λ p. filter p ns)
          (fun_ext λ n. ap (λ b. b && has_all_annotations n annotations) (meets n))

  -- `checkReboot` applies its update to every node that has the label and all the annotations.
  pub check_before_reboot-Swept :
      (k : Kontroller) (w : c.World)
      → DistinctNames (q.nodes w)
      → Swept c q
          (check_reboot_f label_before_reboot k.before_reboot_annotations true_value)
          (passed label_before_reboot k.before_reboot_annotations)
          (q.nodes w)
          (check_before_reboot c s v k w)
  unfolding check_before_reboot
  check_before_reboot-Swept k w d =
      let f = check_reboot_f label_before_reboot k.before_reboot_annotations true_value in
      let keeps : KeepsName f = check_reboot_f-KeepsName _ _ _ in
      sweep c q f keeps _
        (wrapping-Updates c q f keeps "updating node %q: %w" (λ n. n.name ∷ []) _
          (update_node_retry-Updates c q f keeps))
        (passed label_before_reboot k.before_reboot_annotations)
        (λ l.
          filter (λ n. has_all_annotations n k.before_reboot_annotations)
            (filter_nodes_by_requirement s l v.before_reboot_req))
        (q.nodes w) "listing nodes: %w" d (c.list "" w) (q.nodes-list "" w)
        (λ l h. rw (q.list_all w l h) (
          checked_nodes v.before_reboot_req label_before_reboot k.before_reboot_annotations
            (q.nodes w) (λ n. means.before n.labels)))

  pub check_after_reboot-Swept :
      (k : Kontroller) (w : c.World)
      → DistinctNames (q.nodes w)
      → Swept c q
          (check_reboot_f label_after_reboot k.after_reboot_annotations false_value)
          (passed label_after_reboot k.after_reboot_annotations)
          (q.nodes w)
          (check_after_reboot c s v k w)
  unfolding check_after_reboot
  check_after_reboot-Swept k w d =
      let f = check_reboot_f label_after_reboot k.after_reboot_annotations false_value in
      let keeps : KeepsName f = check_reboot_f-KeepsName _ _ _ in
      sweep c q f keeps _
        (wrapping-Updates c q f keeps "updating node %q: %w" (λ n. n.name ∷ []) _
          (update_node_retry-Updates c q f keeps))
        (passed label_after_reboot k.after_reboot_annotations)
        (λ l.
          filter (λ n. has_all_annotations n k.after_reboot_annotations)
            (filter_nodes_by_requirement s l v.after_reboot_req))
        (q.nodes w) "listing nodes: %w" d (c.list "" w) (q.nodes-list "" w)
        (λ l h. rw (q.list_all w l h) (
          checked_nodes v.after_reboot_req label_after_reboot k.after_reboot_annotations (q.nodes w)
            (λ n. means.after n.labels)))

  abbrev pub newly_rebooted : Node → Bool
  newly_rebooted n = not (checking_after n) && just_rebooted n.annotations

  pub rebooted_nodes :
      (ns : List Node)
      → filter_nodes_by_annotation s
          (filter (λ n. not (checking_after n)) ns)
          v.just_rebooted_selector
        ≡ filter newly_rebooted ns
  unfolding filter_nodes_by_annotation
  rebooted_nodes ns =
      filter-filter _ _ ns
      ∙ ap (λ p. filter p ns)
          (fun_ext λ n. ap (λ b. not (checking_after n) && b) (means.just n.annotations))

  -- `markAfterReboot` marks every node that has just rebooted and is not marked.
  pub mark_after_reboot-Swept :
      (k : Kontroller) (w : c.World)
      → DistinctNames (q.nodes w)
      → Swept c q
          (mark_f label_after_reboot k.after_reboot_annotations)
          newly_rebooted
          (q.nodes w)
          (mark_after_reboot c s v k w)
  unfolding mark_after_reboot mark
  mark_after_reboot-Swept k w d =
      let f = mark_f label_after_reboot k.after_reboot_annotations in
      let keeps : KeepsName f = mark_f-KeepsName _ _ in
      sweep c q f keeps _
        (wrapping-Updates c q f keeps "labeling node for after reboot checks: %w" (λ _. []) _
          (wrapping-Updates c q f keeps "setting label %q to %q on node %q: %w"
            (λ n. label_after_reboot ∷ true_value ∷ n.name ∷ []) _
            (update_node_retry-Updates c q f keeps)))
        newly_rebooted (λ l. filter_nodes_by_annotation s l v.just_rebooted_selector) (q.nodes w)
        "listing nodes: %w" d (c.list after_reboot_ne_true w) (q.nodes-list after_reboot_ne_true w)
        (λ l h. rw (q.list_ne w l h) (rebooted_nodes (q.nodes w)))
