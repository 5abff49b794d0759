-- ===== src/Tests/Passes.antt =====
-- A whole pass on a cluster with a node at every stage.
use flatcar_linux_update_ope.Prelude.{◌≡◌, refl, true, List}
use flatcar_linux_update_ope.Exec.{ok}
use flatcar_linux_update_ope.Node.{Node}
use flatcar_linux_update_ope.Operator.Marks.{inside_reboot_window}
use flatcar_linux_update_ope.Operator.Process.{steps}
use flatcar_linux_update_ope.Operator.Process.Pairwise.{Pairwise}
use flatcar_linux_update_ope.Operator.Process.Reconciled.{reconciled, steps-eq-reconciled}
use flatcar_linux_update_ope.Operator.Process.Stages.{Progress}
use flatcar_linux_update_ope.Operator.Process.Progress.{steps-Progress}
use flatcar_linux_update_ope.Tests.Memory.{
  memory, memory-IsQuiet, plain_selectors, plain_selectors-IsLawful,
}
use flatcar_linux_update_ope.Tests.Samples.{cluster, settings, long_month}
use flatcar_linux_update_ope.Tests.Pass.{
  vars, loaded, cluster-DistinctNames, ready_IsForeign, healthy_IsForeign, steps_run,
}

abbrev passed : List Node
passed = (steps memory plain_selectors vars long_month settings 0 0 cluster).1

pub succeeded : (steps memory plain_selectors vars long_month settings 0 0 cluster).0 ≡ ok tt
unfolding steps steps_run
succeeded = refl

steps-eq-reconciled_example :
    passed ≡ reconciled memory plain_selectors vars settings 3 true cluster
unfolding inside_reboot_window
steps-eq-reconciled_example =
    steps-eq-reconciled memory memory-IsQuiet plain_selectors vars plain_selectors-IsLawful loaded
      long_month settings 3 refl 0 0 cluster cluster-DistinctNames succeeded

steps-Progress_example : Pairwise (Progress settings) cluster passed
steps-Progress_example =
    steps-Progress memory memory-IsQuiet plain_selectors vars plain_selectors-IsLawful loaded
      long_month settings 3 refl ready_IsForeign healthy_IsForeign 0 0 cluster cluster-DistinctNames
      succeeded
