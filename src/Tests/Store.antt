-- ===== src/Tests/Store.antt =====
-- Updates of one stored node, and the capacity of a list of nodes.
use mathlib.Core.Option.{some-injective}
use flatcar_linux_update_ope.Prelude.{
  true, ◌-◌, ◌≡◌, ◌⊎◌, refl, ap, sym, none, some, take, filter, leb, if◌then◌else◌,
}
use flatcar_linux_update_ope.Exec.{ok}
use flatcar_linux_update_ope.Node.{Node}
use flatcar_linux_update_ope.Client.Laws.{attempts}
use flatcar_linux_update_ope.K8sutil.Metadata.{unschedulable_f, update_node_retry, update_once}
use flatcar_linux_update_ope.K8sutil.Metadata.Names.{KeepsName, modify}
use flatcar_linux_update_ope.K8sutil.Metadata.Effect.{
  update_node_retry-modify, update_node_retry_never_partial,
}
use flatcar_linux_update_ope.Operator.Marks.{rebootable_nodes}
use flatcar_linux_update_ope.Operator.Process.Capacity.{load, waiting}
use flatcar_linux_update_ope.Operator.Process.Refinement.{rebootable_nodes-eq-take}
use flatcar_linux_update_ope.Tests.Memory.{
  memory, memory-IsQuiet, plain_selectors, plain_selectors-IsLawful,
}
use flatcar_linux_update_ope.Tests.Samples.{cluster, settings}
use flatcar_linux_update_ope.Tests.Pass.{vars, loaded, cluster-DistinctNames}

cordon-KeepsName : KeepsName (unschedulable_f true)
unfolding unschedulable_f
cordon-KeepsName n m h = sym (ap (λ (x : Node). x.name) (some-injective _ m h))

cordoned : (update_node_retry memory "a" (unschedulable_f true) cluster).0 ≡ ok tt
unfolding update_node_retry attempts update_once unschedulable_f
cordoned = refl

update_node_retry-modify_example :
    (update_node_retry memory "a" (unschedulable_f true) cluster).1
    ≡ modify "a" (unschedulable_f true) cluster
update_node_retry-modify_example =
    update_node_retry-modify memory memory-IsQuiet "a" (unschedulable_f true) cordon-KeepsName
      cluster cluster-DistinctNames cordoned

update_node_retry_never_partial_example :
    ((update_node_retry memory "a" (unschedulable_f true) cluster).1
      ≡ modify "a" (unschedulable_f true) cluster)
    ⊎ ((update_node_retry memory "a" (unschedulable_f true) cluster).1 ≡ cluster)
update_node_retry_never_partial_example =
    update_node_retry_never_partial memory memory-IsQuiet "a" (unschedulable_f true)
      cordon-KeepsName cluster cluster-DistinctNames

rebootable_nodes-eq-take_example : rebootable_nodes plain_selectors vars settings cluster ≡ (
    if leb (load cluster) 3 then some (take (3 - load cluster) (filter waiting cluster)) else none)
rebootable_nodes-eq-take_example =
    rebootable_nodes-eq-take plain_selectors vars plain_selectors-IsLawful loaded settings 3 cluster
      refl
