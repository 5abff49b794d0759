-- ===== src/K8sutil/Selector.antt =====
-- pkg/k8sutil/selector.go and pkg/k8sutil/pods.go
use flatcar_linux_update_ope.Prelude.{String, starts_with, Bool, Option, List, filter}
use flatcar_linux_update_ope.Node.{Node}
use flatcar_linux_update_ope.Client.{Selectors, Operator}

module _ (s : Selectors) where
  -- `none` is the panic
  unfoldable pub new_requirement_or_die : String → Operator → List String → Option s.Requirement
  new_requirement_or_die key op vals = s.new_requirement key op vals

  unfoldable pub filter_nodes_by_annotation : List Node → s.FieldSelector → List Node
  filter_nodes_by_annotation list sel = filter (λ n. s.selects sel n.annotations) list

  unfoldable pub filter_nodes_by_requirement : List Node → s.Requirement → List Node
  filter_nodes_by_requirement nodes req = filter (λ n. s.meets req n.labels) nodes

unfoldable pub filter_container_linux_nodes : List Node → List Node
filter_container_linux_nodes nodes =
    filter (λ n. starts_with n.os_image "Flatcar Container Linux") nodes

-- `FilterPods`, over the type of pods
unfoldable pub filter_pods : {Pod : Type 0} → List Pod → (Pod → Bool) → List Pod
filter_pods pods keep = filter keep pods
