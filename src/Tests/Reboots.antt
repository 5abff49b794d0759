-- ===== src/Tests/Reboots.antt =====
-- An agent on a sample machine, from its start to one reboot.
use flatcar_linux_update_ope.Constants.{annotation_agent_made_unschedulable}
use flatcar_linux_update_ope.Prelude.{
  ℕ, ◌≡◌, refl, ◌⊎◌, Bool, true, false, Option, none, some, List, [],
}
use flatcar_linux_update_ope.Exec.{Outcome, ok, panic}
use flatcar_linux_update_ope.GoMap.{assign, assign_all}
use flatcar_linux_update_ope.Node.{Node}
use flatcar_linux_update_ope.Client.Laws.{find, attempts, default_retries}
use flatcar_linux_update_ope.K8sutil.Metadata.{
  set_labels_f, set_annotations_labels_f, unschedulable_f, get_node_retry, update_node_retry,
  update_once, set_node_labels, set_node_annotations, set_node_annotations_labels, unschedulable,
}
use flatcar_linux_update_ope.Agent.{
  set_pairs, set_pair, not_ok_to_reboot, VersionInfo, get_version_info, set_info_labels,
  get_update_map, get_release_map, split_newline_env, should_reboot,
}
use flatcar_linux_update_ope.Agent.Wait.{
  wait_for_node_condition, wait_for_ok_to_reboot, wait_for_not_ok_to_reboot, watch_f,
}
use flatcar_linux_update_ope.Agent.Process.{Machine, begin, await_ok, prepare_and_reboot, process}
use flatcar_linux_update_ope.Agent.Process.Calm.{Reads}
use flatcar_linux_update_ope.Agent.Process.Order.{Rebooted, process-Rebooted}
use flatcar_linux_update_ope.Operator.Vars.Meaning.{is_true}
use flatcar_linux_update_ope.Operator.Process.Pairwise.{Pairwise}
use flatcar_linux_update_ope.Agent.Process.Booted.{Started}
use flatcar_linux_update_ope.Agent.Process.Start.{begin-Started}
use flatcar_linux_update_ope.Tests.Memory.{memory, memory-IsQuiet, plain_selectors}
use flatcar_linux_update_ope.Tests.Samples.{cluster}
use flatcar_linux_update_ope.Tests.Pass.{cluster-DistinctNames}
use flatcar_linux_update_ope.Tests.Machines.{
  World, client, files, permitted, machine, counting, attempts-Keeps, Unrebooted, unrebooted,
}

abbrev whole : ℕ → World → Option (Outcome (Unit {0}) × World)
whole = process client plain_selectors (files World) (permitted World) counting "" "a"

abbrev pub outcome : Option (Outcome (Unit {0}) × World) → Outcome (Unit {0}) × World
outcome none = (panic, ([], 0))
outcome (some r) = r

abbrev pub has_ended : Option (Outcome (Unit {0}) × World) → Bool
has_ended none = false
has_ended (some r) = true

pub some-outcome :
    (o : Option (Outcome (Unit {0}) × World)) → has_ended o ≡ true → o ≡ some (outcome o)
some-outcome none h = cc
some-outcome (some r) h = refl

ran : has_ended (whole 1 (cluster, 0)) ≡ true
unfolding process begin await_ok prepare_and_reboot set_info_labels get_version_info get_update_map
    get_release_map split_newline_env set_node_labels set_node_annotations
    set_node_annotations_labels unschedulable get_node_retry update_node_retry update_once attempts
    wait_for_ok_to_reboot wait_for_not_ok_to_reboot wait_for_node_condition watch_f should_reboot
    set_pairs set_pair assign assign_all set_labels_f set_annotations_labels_f not_ok_to_reboot
    unschedulable_f
ran = refl

one_reboot : (outcome (whole 1 (cluster, 0))).1.1 ≡ 1
unfolding process begin await_ok prepare_and_reboot set_info_labels get_version_info get_update_map
    get_release_map split_newline_env set_node_labels set_node_annotations
    set_node_annotations_labels unschedulable get_node_retry update_node_retry update_once attempts
    wait_for_ok_to_reboot wait_for_not_ok_to_reboot wait_for_node_condition watch_f should_reboot
    set_pairs set_pair assign assign_all set_labels_f set_annotations_labels_f not_ok_to_reboot
    unschedulable_f
one_reboot = refl

process-Rebooted_example :
    Unrebooted (outcome (whole 1 (cluster, 0))).1
    ⊎ Rebooted client plain_selectors
        (files World)
        (permitted World)
        counting
        ""
        "a"
        Unrebooted
        unrebooted
        (outcome (whole 1 (cluster, 0))).1
process-Rebooted_example =
    process-Rebooted client plain_selectors (files World) (permitted World) counting "" "a"
      Unrebooted unrebooted 1 (cluster, 0) (outcome (whole 1 (cluster, 0))) refl
      (some-outcome _ ran)

abbrev quiet : Machine (List Node)
quiet = machine (List Node) (λ w. w)

module _ (ns : List Node) where
  abbrev Unchanged : List Node → Type 0
  Unchanged w = w ≡ ns

  unchanged :
      Reads memory plain_selectors
        (files (List Node))
        (permitted (List Node))
        quiet
        ""
        "a"
        Unchanged
  unchanged = record {
    get = λ k w p. p;
    on_error = λ retriable fn k. attempts-Keeps Unchanged retriable fn k default_retries;
    read_file = λ path w p. p;
    watch = λ n w p. p;
    until_without_retry = λ watcher f w p. p;
  }

abbrev start_of : List Node → Outcome (Unit {0}) × List Node
start_of = begin memory plain_selectors (files (List Node)) (permitted (List Node)) quiet "" "a"

started : (start_of cluster).0 ≡ ok tt
unfolding begin set_info_labels get_version_info get_update_map get_release_map split_newline_env
    set_node_labels set_node_annotations set_node_annotations_labels unschedulable get_node_retry
    update_node_retry update_once attempts wait_for_not_ok_to_reboot wait_for_node_condition
    set_pairs set_pair assign assign_all set_labels_f set_annotations_labels_f not_ok_to_reboot
    unschedulable_f
started = refl

begin-Started_example :
    (v : VersionInfo) × (n : Node) × ((get_version_info (files (List Node)) "" cluster).0 ≡ ok v)
    × (find "a" cluster ≡ some n)
    × Pairwise
        (Started "a" v (is_true n.annotations annotation_agent_made_unschedulable))
        cluster
        (start_of cluster).1
begin-Started_example =
    begin-Started memory memory-IsQuiet plain_selectors (files (List Node)) (permitted (List Node))
      quiet "" "a" unchanged cluster cluster-DistinctNames started
