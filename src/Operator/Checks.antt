-- ===== src/Operator/Checks.antt =====
-- pkg/operator/operator.go: `cleanupState`, `checkReboot` and its two uses.
use flatcar_linux_update_ope.Prelude.{
  String, ◌==◌, Bool, true, false, Option, none, some, List, [], ◌∷◌, not, filter, if◌then◌else◌,
}
use flatcar_linux_update_ope.Constants.{
  true_value, false_value, annotation_ok_to_reboot, label_before_reboot, label_after_reboot,
}
use flatcar_linux_update_ope.GoMap.{entry, has, delete, delete_all, assign}
use flatcar_linux_update_ope.Exec.{Exec, ◌>>=◌, for_each, wrapping}
use flatcar_linux_update_ope.Node.{Node}
use flatcar_linux_update_ope.Client.{NodeClient, Selectors}
use flatcar_linux_update_ope.K8sutil.Metadata.{UpdateNode, with_annotations, update_node_retry}
use flatcar_linux_update_ope.K8sutil.Selector.{filter_nodes_by_requirement}
use flatcar_linux_update_ope.Operator.Vars.{Vars}
use flatcar_linux_update_ope.Operator.Config.{Kontroller}

abbrev pub is_true_entry : Option String → Bool
is_true_entry none = false
is_true_entry (some value) = value == true_value

unfoldable pub has_all_annotations : Node → List String → Bool
has_all_annotations node [] = true
has_all_annotations node (annotation ∷ annotations) =
    let rest = has_all_annotations node annotations in
    if not (is_true_entry (entry node.annotations annotation)) then false else rest

pub record CheckRebootOptions (s : Selectors) : Type 0 where
  pub req : s.Requirement
  pub annotations : List String
  pub label : String
  pub ok_to_reboot : String

-- The function that `checkReboot` hands to `UpdateNodeRetry`.
unfoldable pub check_reboot_f : String → List String → String → UpdateNode
check_reboot_f label annotations ok_to_reboot node =
    with_annotations (record node { labels = delete node.labels label })
      (assign (delete_all node.annotations annotations) annotation_ok_to_reboot ok_to_reboot)

module _ (c : NodeClient) (s : Selectors) (v : Vars s) where
  -- The function that `cleanupState` hands to `UpdateNodeRetry`.
  unfoldable pub cleanup_f : List String → UpdateNode
  cleanup_f before_reboot_annotations node = some (
      if not (has node.labels label_before_reboot)
      then node
      else if s.selects v.rebootable_selector node.annotations
      then node
      else record node {
        labels = delete node.labels label_before_reboot;
        annotations = delete_all node.annotations before_reboot_annotations;
      })

  unfoldable pub cleanup_state : Kontroller → Exec c.World (Unit {0})
  cleanup_state k = do
    nodelist ← wrapping "listing nodes: %w" [] (c.list "")
    for_each nodelist λ node.
        wrapping "cleaning up node %q: %w" (node.name ∷ [])
          (update_node_retry c node.name (cleanup_f k.before_reboot_annotations))

  unfoldable pub check_reboot : CheckRebootOptions s → Exec c.World (Unit {0})
  check_reboot opt = do
    nodelist ← wrapping "listing nodes: %w" [] (c.list "")
    for_each
        (filter (λ node. has_all_annotations node opt.annotations)
          (filter_nodes_by_requirement s nodelist opt.req))
        λ node. wrapping "updating node %q: %w" (node.name ∷ []) (
          update_node_retry c node.name (check_reboot_f opt.label opt.annotations opt.ok_to_reboot))

  abbrev pub before_reboot_options : Kontroller → CheckRebootOptions s
  before_reboot_options k = record {
    req = v.before_reboot_req;
    annotations = k.before_reboot_annotations;
    label = label_before_reboot;
    ok_to_reboot = true_value;
  }

  abbrev pub after_reboot_options : Kontroller → CheckRebootOptions s
  after_reboot_options k = record {
    req = v.after_reboot_req;
    annotations = k.after_reboot_annotations;
    label = label_after_reboot;
    ok_to_reboot = false_value;
  }

  unfoldable pub check_before_reboot : Kontroller → Exec c.World (Unit {0})
  unfolding check_reboot
  check_before_reboot k = check_reboot (before_reboot_options k)

  unfoldable pub check_after_reboot : Kontroller → Exec c.World (Unit {0})
  unfolding check_reboot
  check_after_reboot k = check_reboot (after_reboot_options k)
