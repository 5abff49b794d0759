-- ===== src/K8sutil/Metadata.antt =====
-- pkg/k8sutil/metadata.go
pub mod Names
pub mod Effect
pub mod Get
pub mod Loop
use flatcar_linux_update_ope.Prelude.{String, Bool, true, Option, none, some, List, [], ◌∷◌}
use flatcar_linux_update_ope.GoMap.{GoMap, assign_all}
use flatcar_linux_update_ope.Exec.{Exec, ◌>>=◌, pure, crash, wrapping}
use flatcar_linux_update_ope.Node.{Node}
use flatcar_linux_update_ope.Client.{NodeClient}

-- `UpdateNode`; `none` is a panic of the function
abbrev pub UpdateNode : Type 0
UpdateNode = Node → Option Node

abbrev pub or_panic : {W A : Type 0} → Option A → Exec W A
or_panic none = crash
or_panic (some a) = pure a

module _ (c : NodeClient) where
  unfoldable pub get_node_retry : String → Exec c.World Node
  get_node_retry node =
      wrapping "getting node: %w" []
        (c.on_error (λ _. true) (wrapping "getting node %q: %w" (node ∷ []) (c.get node)))

  -- The function that `retry.RetryOnConflict` calls.
  unfoldable pub update_once : String → UpdateNode → Exec c.World (Unit {0})
  update_once node_name update_f = do
    node ← wrapping "getting node %q: %w" (node_name ∷ []) (c.get node_name)
    updated ← or_panic (update_f node)
    stored ← c.update updated
    pure tt

  unfoldable pub update_node_retry : String → UpdateNode → Exec c.World (Unit {0})
  update_node_retry node_name update_f =
      wrapping "updating node %q: %w" (node_name ∷ [])
        (c.retry_on_conflict (update_once node_name update_f))

abbrev pub with_labels : Node → Option GoMap → Option Node
with_labels n none = none
with_labels n (some m) = some (record n { labels = m })

abbrev pub with_annotations : Node → Option GoMap → Option Node
with_annotations n none = none
with_annotations n (some m) = some (record n { annotations = m })

abbrev pub then_update : Option Node → UpdateNode → Option Node
then_update none f = none
then_update (some n) f = f n

-- The functions that the setters hand to `update_node_retry`.
unfoldable pub set_labels_f : List (String × String) → UpdateNode
set_labels_f m n = with_labels n (assign_all n.labels m)

unfoldable pub set_annotations_f : List (String × String) → UpdateNode
set_annotations_f m n = with_annotations n (assign_all n.annotations m)

unfoldable pub set_annotations_labels_f :
    List (String × String) → List (String × String) → UpdateNode
unfolding set_labels_f set_annotations_f
set_annotations_labels_f annotations labels n =
    then_update (set_annotations_f annotations n) (set_labels_f labels)

unfoldable pub unschedulable_f : Bool → UpdateNode
unschedulable_f sched n = some (record n { unschedulable = sched })

module _ (c : NodeClient) where
  unfoldable pub set_node_labels : String → List (String × String) → Exec c.World (Unit {0})
  set_node_labels node m = update_node_retry c node (set_labels_f m)

  unfoldable pub set_node_annotations : String → List (String × String) → Exec c.World (Unit {0})
  set_node_annotations node m = update_node_retry c node (set_annotations_f m)

  unfoldable pub set_node_annotations_labels :
      String → List (String × String) → List (String × String) → Exec c.World (Unit {0})
  set_node_annotations_labels node_name annotations labels =
      update_node_retry c node_name (set_annotations_labels_f annotations labels)

  unfoldable pub unschedulable : String → Bool → Exec c.World (Unit {0})
  unschedulable node sched = update_node_retry c node (unschedulable_f sched)
