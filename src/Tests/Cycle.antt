-- ===== src/Tests/Cycle.antt =====
-- A node is permitted to reboot, its agent restarts, and its checks begin.
use mathlib.Core.Bool.{false≢true}
use flatcar_linux_update_ope.Prelude.{◌≡◌, refl, eq_iff, String, true, false, List, [], ◌∷◌, All}
use flatcar_linux_update_ope.GoMap.{assign_all}
use flatcar_linux_update_ope.Exec.{ok}
use flatcar_linux_update_ope.Node.{Node}
use flatcar_linux_update_ope.K8sutil.Metadata.{
  update_node_retry, set_annotations_labels_f, set_labels_f, set_annotations_f,
}
use flatcar_linux_update_ope.Operator.Checks.{has_all_annotations}
use flatcar_linux_update_ope.Operator.Process.{steps}
use flatcar_linux_update_ope.Operator.Process.Flags.{checking_after}
use flatcar_linux_update_ope.Operator.Process.Stages.{Granted}
use flatcar_linux_update_ope.Agent.Writes.{Write, start, drain, write_f}
use flatcar_linux_update_ope.Coordination.Cycle.{written_world, started_world, steps-checking_after}
use flatcar_linux_update_ope.Tests.Memory.{
  memory, memory-IsQuiet, plain_selectors, plain_selectors-IsLawful,
}
use flatcar_linux_update_ope.Tests.Samples.{cluster, settings, long_month}
use flatcar_linux_update_ope.Tests.Pass.{
  vars, loaded, cluster-DistinctNames, ready_IsForeign, healthy_IsForeign, steps_run,
}
use flatcar_linux_update_ope.Tests.Passes.{succeeded}

-- Between the passes node "c" prepares its drain too.
abbrev between : List (String × Write)
between = ("c", drain false) ∷ []

abbrev written : List Node
written =
    written_world memory memory-IsQuiet plain_selectors vars long_month settings "c" 0 0 0 0 between
      cluster

abbrev restarted : List Node
restarted =
    started_world memory memory-IsQuiet plain_selectors vars long_month settings "c" 0 0 0 0 between
      cluster

started : (update_node_retry memory "c" (write_f start) written).0 ≡ ok tt
unfolding steps steps_run write_f set_annotations_labels_f set_labels_f set_annotations_f assign_all
started = refl

passed_again : (steps memory plain_selectors vars long_month settings 0 0 restarted).0 ≡ ok tt
unfolding steps steps_run write_f set_annotations_labels_f set_labels_f set_annotations_f assign_all
passed_again = refl

only_c : All (λ n. n.name ≡ "c" → Granted settings n) cluster
unfolding has_all_annotations
only_c = (
  λ e. absurd (false≢true ((eq_iff "a" "c").1 e)),
  (
    λ e. absurd (false≢true ((eq_iff "b" "c").1 e)),
    (λ e. (refl, refl, refl), (λ e. absurd (false≢true ((eq_iff "d" "c").1 e)), tt)),
  ),
)

steps-checking_after_example :
    All
      (λ n. n.name ≡ "c" → checking_after n ≡ true)
      (steps memory plain_selectors vars long_month settings 0 0 restarted).1
steps-checking_after_example =
    steps-checking_after memory memory-IsQuiet plain_selectors vars long_month settings "c" 0 0 0 0
      between cluster plain_selectors-IsLawful loaded 3 refl ready_IsForeign healthy_IsForeign
      cluster-DistinctNames only_c succeeded started passed_again
