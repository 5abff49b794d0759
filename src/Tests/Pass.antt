-- ===== src/Tests/Pass.antt =====
-- A pass over four nodes, and its steps.
use flatcar_linux_update_ope.Prelude.{
  ◌-◌, ◌≤◌, ℕ, ◌≡◌, refl, filter, ◌++◌, inr, some, List, [], ◌∷◌, arith, true, not, ◌&&◌,
}
use flatcar_linux_update_ope.Prelude.Int.{◌-ℤ◌}
use flatcar_linux_update_ope.Constants.{true_value, label_before_reboot, label_after_reboot}
use flatcar_linux_update_ope.Exec.{ok, for_each}
use flatcar_linux_update_ope.Node.{Node}
use flatcar_linux_update_ope.Client.{is_in, not_in}
use flatcar_linux_update_ope.K8sutil.Metadata.{update_node_retry, update_once}
use flatcar_linux_update_ope.K8sutil.Selector.{
  filter_nodes_by_annotation, filter_nodes_by_requirement,
}
use flatcar_linux_update_ope.Client.Laws.{attempts}
use flatcar_linux_update_ope.GoMap.{delete_all, assign}
use flatcar_linux_update_ope.K8sutil.Metadata.Names.{DistinctNames}
use flatcar_linux_update_ope.K8sutil.Metadata.Loop.{update_first, update_where}
use flatcar_linux_update_ope.Operator.Vars.{
  Vars, package_vars, just_rebooted_set, still_rebooting_set,
}
use flatcar_linux_update_ope.Operator.Vars.Meaning.{rebootable, just_rebooted}
use flatcar_linux_update_ope.Operator.Checks.{
  cleanup_f, check_reboot_f, has_all_annotations, cleanup_state, check_after_reboot,
  check_before_reboot,
}
use flatcar_linux_update_ope.Operator.Marks.{
  mark_f, mark, mark_after_reboot, mark_before_reboot, inside_reboot_window, rebootable_nodes,
  remaining_rebooting_capacity, nodes_requiring_reboot,
}
use flatcar_linux_update_ope.Operator.Process.{process}
use flatcar_linux_update_ope.Operator.Process.Flags.{
  IsForeign, IsSafe, checking_after, checking_before,
}
use flatcar_linux_update_ope.Operator.Process.Capacity.{load, waiting}
use flatcar_linux_update_ope.Operator.Process.Safety.{process-IsSafe}
use flatcar_linux_update_ope.Operator.Process.Pairwise.{Pairwise}
use flatcar_linux_update_ope.Operator.Process.Checked.{
  Checked, Cleared, cleanup_state-Cleared, check_before_reboot-Checked, check_after_reboot-Checked,
}
use flatcar_linux_update_ope.Operator.Process.Refinement.{
  mark_after_reboot-eq-update_where, mark_before_reboot-eq-update_first, mark_before_reboot_inside,
}
use flatcar_linux_update_ope.Tests.Memory.{
  memory, memory-IsQuiet, plain_selectors, plain_selectors-IsLawful, met,
}
use flatcar_linux_update_ope.Tests.Samples.{cluster, wanting, ready, settings, long_month}

abbrev pub vars : Vars plain_selectors
vars = record {
  just_rebooted_selector = plain_selectors.set_as_selector just_rebooted_set;
  rebootable_selector = rebootable;
  still_rebooting_selector = plain_selectors.set_as_selector still_rebooting_set;
  before_reboot_req = met label_before_reboot is_in (true_value ∷ []);
  after_reboot_req = met label_after_reboot is_in (true_value ∷ []);
  not_before_reboot_req = met label_before_reboot not_in (true_value ∷ []);
}

pub loaded : package_vars plain_selectors ≡ some vars
unfolding package_vars
loaded = refl

pub ready_IsForeign : IsForeign ("example.com/ready" ∷ [])
ready_IsForeign = record { needed = refl; in_progress = refl; ok = refl; paused = refl }

pub healthy_IsForeign : IsForeign ("example.com/healthy" ∷ [])
healthy_IsForeign = record { needed = refl; in_progress = refl; ok = refl; paused = refl }

pub cluster-DistinctNames : DistinctNames cluster
cluster-DistinctNames = (refl, (refl, (refl, (refl, tt))))

pub cluster-IsSafe : IsSafe 3 cluster
cluster-IsSafe = record {
  distinct = cluster-DistinctNames;
  well = (λ e. cc, (λ _. inr refl, (λ e. cc, (λ _. inr refl, tt))));
  few = omega arith;
}

process-IsSafe_example :
    IsSafe 3 (process memory plain_selectors vars long_month settings 0 0 cluster).1
process-IsSafe_example =
    process-IsSafe memory memory-IsQuiet plain_selectors vars plain_selectors-IsLawful loaded
      long_month settings 3 refl ready_IsForeign healthy_IsForeign 0 0 cluster cluster-IsSafe

-- What the steps need to run.
unfoldable pub steps_run : List Node
unfolding cleanup_state check_before_reboot check_after_reboot mark_after_reboot mark_before_reboot
    for_each update_node_retry attempts update_once cleanup_f check_reboot_f mark_f mark delete_all
    assign has_all_annotations filter_nodes_by_requirement filter_nodes_by_annotation
    inside_reboot_window rebootable_nodes remaining_rebooting_capacity nodes_requiring_reboot ◌-ℤ◌
steps_run = cluster

cleaned_up : (cleanup_state memory plain_selectors vars settings cluster).0 ≡ ok tt
unfolding steps_run
cleaned_up = refl

cleanup_state-Cleared_example :
    Pairwise
      (Cleared ("example.com/ready" ∷ []))
      cluster
      (cleanup_state memory plain_selectors vars settings cluster).1
cleanup_state-Cleared_example =
    cleanup_state-Cleared memory memory-IsQuiet plain_selectors vars plain_selectors-IsLawful loaded
      settings cluster cluster-DistinctNames cleaned_up

checked_before : (check_before_reboot memory plain_selectors vars settings cluster).0 ≡ ok tt
unfolding steps_run
checked_before = refl

check_before_reboot-Checked_example :
    Pairwise
      (Checked label_before_reboot ("example.com/ready" ∷ []) "true")
      cluster
      (check_before_reboot memory plain_selectors vars settings cluster).1
check_before_reboot-Checked_example =
    check_before_reboot-Checked memory memory-IsQuiet plain_selectors vars plain_selectors-IsLawful
      loaded settings cluster cluster-DistinctNames checked_before

checked_after : (check_after_reboot memory plain_selectors vars settings cluster).0 ≡ ok tt
unfolding steps_run
checked_after = refl

check_after_reboot-Checked_example :
    Pairwise
      (Checked label_after_reboot ("example.com/healthy" ∷ []) "false")
      cluster
      (check_after_reboot memory plain_selectors vars settings cluster).1
check_after_reboot-Checked_example =
    check_after_reboot-Checked memory memory-IsQuiet plain_selectors vars plain_selectors-IsLawful
      loaded settings cluster cluster-DistinctNames checked_after

marked_after : (mark_after_reboot memory plain_selectors vars settings cluster).0 ≡ ok tt
unfolding steps_run
marked_after = refl

mark_after_reboot-eq-update_where_example :
    (mark_after_reboot memory plain_selectors vars settings cluster).1
    ≡ update_where
        (λ n. not (checking_after n) && just_rebooted n.annotations)
        (mark_f label_after_reboot ("example.com/healthy" ∷ []))
        cluster
mark_after_reboot-eq-update_where_example =
    mark_after_reboot-eq-update_where memory memory-IsQuiet plain_selectors vars
      plain_selectors-IsLawful loaded settings cluster cluster-DistinctNames marked_after

marked_before :
    (mark_before_reboot memory plain_selectors vars long_month settings 0 0 cluster).0 ≡ ok tt
unfolding steps_run
marked_before = refl

mark_before_reboot-eq-update_first_example :
    (j : ℕ) × (j ≤ 3 - load cluster)
    × ((mark_before_reboot memory plain_selectors vars long_month settings 0 0 cluster).1
        ≡ update_first j waiting (mark_f label_before_reboot ("example.com/ready" ∷ [])) cluster)
mark_before_reboot-eq-update_first_example =
    mark_before_reboot-eq-update_first memory memory-IsQuiet plain_selectors vars
      plain_selectors-IsLawful loaded settings cluster cluster-DistinctNames long_month 3 refl 0 0

always_inside : inside_reboot_window long_month settings 0 0 ≡ true
unfolding inside_reboot_window
always_inside = refl

mark_before_reboot_inside_example :
    (load cluster ≤ 3)
    × ((mark_before_reboot memory plain_selectors vars long_month settings 0 0 cluster).1
        ≡ update_first
            (3 - load cluster)
            waiting
            (mark_f label_before_reboot ("example.com/ready" ∷ []))
            cluster)
mark_before_reboot_inside_example =
    mark_before_reboot_inside memory memory-IsQuiet plain_selectors vars plain_selectors-IsLawful
      loaded settings cluster cluster-DistinctNames long_month 3 refl 0 0 marked_before
      always_inside

-- The waiting node is marked, as one of three nodes that take part.
marked_names :
    filter checking_before
      (mark_before_reboot memory plain_selectors vars long_month settings 0 0 cluster).1
    ≡ update_first 1 waiting (mark_f label_before_reboot ("example.com/ready" ∷ [])) (wanting ∷ [])
      ++ ready ∷ []
unfolding steps_run
marked_names = refl
