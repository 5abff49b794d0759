-- ===== src/Tests/UpdateAgent.antt =====
-- The agent's program from its flags to the reboot of its machine.
use flatcar_linux_update_ope.Prelude.{◌≡◌, refl, ◌⊎◌, true, Option}
use flatcar_linux_update_ope.Exec.{Outcome}
use flatcar_linux_update_ope.GoMap.{assign, assign_all}
use flatcar_linux_update_ope.Client.Laws.{attempts, default_retries}
use flatcar_linux_update_ope.K8sutil.Metadata.{
  set_labels_f, set_annotations_labels_f, unschedulable_f, get_node_retry, update_node_retry,
  update_once, set_node_labels, set_node_annotations, set_node_annotations_labels, unschedulable,
}
use flatcar_linux_update_ope.Agent.{
  set_pairs, set_pair, not_ok_to_reboot, get_version_info, set_info_labels, get_update_map,
  get_release_map, split_newline_env, should_reboot,
}
use flatcar_linux_update_ope.Agent.Wait.{
  wait_for_node_condition, wait_for_ok_to_reboot, wait_for_not_ok_to_reboot, watch_f,
}
use flatcar_linux_update_ope.Agent.Process.{begin, await_ok, prepare_and_reboot, process}
use flatcar_linux_update_ope.Tests.Memory.{plain_selectors}
use flatcar_linux_update_ope.Tests.Samples.{cluster}
use flatcar_linux_update_ope.Tests.Machines.{
  World, client, files, permitted, attempts-Keeps, Unrebooted,
}
use flatcar_linux_update_ope.Agent.Process.Calm.{Calm}
use flatcar_linux_update_ope.Client.Laws.{default_retries}
use flatcar_linux_update_ope.Tests.Memory.{is_conflict}
use flatcar_linux_update_ope.Tests.Machines.{attempts-Keeps}
use flatcar_linux_update_ope.Agent.Run.{new_drainer, machine_of, run}
use flatcar_linux_update_ope.Tests.Reboots.{outcome, has_ended, some-outcome}
use mathlib.Core.Option.{some-injective}
use flatcar_linux_update_ope.Prelude.{subst}
use flatcar_linux_update_ope.Exec.Keeps.{Keeps}
use flatcar_linux_update_ope.K8sutil.Connect.{get_client}
use flatcar_linux_update_ope.Dbus.{new, new_update_client, close_client}
use flatcar_linux_update_ope.Agent.Config.{new as new_agent}
use flatcar_linux_update_ope.Commands.{AgentHost, Agent, agent_start, agent_main}
use flatcar_linux_update_ope.Commands.UpdateAgent.{agent_command, IsQuietStart}
use flatcar_linux_update_ope.Commands.UpdateAgent.Order.{HasRebooted, agent_command-HasRebooted}
use flatcar_linux_update_ope.Tests.Commands.{agent_host}
use flatcar_linux_update_ope.Tests.Evictions.{library, filters, surroundings}

abbrev command_host : AgentHost World (Unit {0}) (Unit {0})
command_host = agent_host World

starting : IsQuietStart command_host Unrebooted
starting = record {
  set_logtostderr = λ w p. p;
  set_flags_from_env = λ w p. p;
  in_cluster_config = λ w p. p;
  new_for_config = λ conf w p. p;
  connector = λ m e. subst (Keeps Unrebooted) (some-injective _ m e) (λ w p. p);
  auth = λ conn w p. p;
  hello = λ conn w p. p;
  close = λ conn w p. p;
  add_match_signal = λ conn interface member w p. p;
  signal = λ conn n w p. p;
  login1_new = λ w p. p;
}

still_all :
    (k : Agent command_host)
    → Calm client plain_selectors
        (files World)
        (permitted World)
        (machine_of client plain_selectors (files World) (permitted World) library surroundings k)
        k.host_files_prefix
        k.node_name
        Unrebooted
still_all k = record {
  reads = record {
    get = λ k w p. p;
    on_error = λ retriable fn k. attempts-Keeps Unrebooted retriable fn k default_retries;
    read_file = λ path w p. p;
    watch = λ n w p. p;
    until_without_retry = λ watcher f w p. p;
  };
  update = λ n w p. p;
  retry_on_conflict = λ fn k. attempts-Keeps Unrebooted is_conflict fn k default_retries;
  start_watching = λ w p. p;
  select = λ fn k w p. k w p;
  get_pods_for_deletion = λ k w p. p;
  delete_or_evict_pods = λ pods w p. p;
}

abbrev final : Option (Outcome (Unit {0}) × World)
final =
    agent_command client plain_selectors (files World) (permitted World) library surroundings
      command_host 1 (cluster, 0)

finished : has_ended final ≡ true
unfolding run new_drainer process begin await_ok prepare_and_reboot set_info_labels get_version_info
    get_update_map get_release_map split_newline_env set_node_labels set_node_annotations
    set_node_annotations_labels unschedulable get_node_retry update_node_retry update_once attempts
    wait_for_ok_to_reboot wait_for_not_ok_to_reboot wait_for_node_condition watch_f should_reboot
    set_pairs set_pair assign assign_all set_labels_f set_annotations_labels_f not_ok_to_reboot
    unschedulable_f agent_command agent_main agent_start get_client new_agent new_update_client new
    close_client
finished = refl

agent_command-HasRebooted_example :
    Unrebooted (outcome final).1
    ⊎ HasRebooted client plain_selectors
        (files World)
        (permitted World)
        library
        surroundings
        command_host
        Unrebooted
        starting
        still_all
        (cluster, 0)
agent_command-HasRebooted_example =
    agent_command-HasRebooted client plain_selectors (files World) (permitted World) library
      surroundings command_host Unrebooted starting still_all filters 1 (cluster, 0) (outcome final)
      refl (some-outcome final finished)
