-- ===== src/Tests/Evictions.antt =====
-- An agent that runs, as `New` made it: it evicts the pods of its machine and reboots it.
use flatcar_linux_update_ope.Prelude.{◌≡◌, refl, inl, Bool, true, Option, none, List, []}
use flatcar_linux_update_ope.Exec.{Outcome, ok}
use flatcar_linux_update_ope.GoMap.{assign, assign_all}
use flatcar_linux_update_ope.Client.Laws.{attempts, default_retries}
use flatcar_linux_update_ope.K8sutil.Metadata.{
  set_labels_f, set_annotations_labels_f, unschedulable_f, get_node_retry, update_node_retry,
  update_once, set_node_labels, set_node_annotations, set_node_annotations_labels, unschedulable,
}
use flatcar_linux_update_ope.Agent.{
  set_pairs, set_pair, not_ok_to_reboot, get_version_info, set_info_labels, get_update_map,
  get_release_map, split_newline_env, should_reboot,
}
use flatcar_linux_update_ope.Agent.Wait.{
  wait_for_node_condition, wait_for_ok_to_reboot, wait_for_not_ok_to_reboot, watch_f,
}
use flatcar_linux_update_ope.Agent.Process.{Machine, begin, await_ok, prepare_and_reboot, process}
use flatcar_linux_update_ope.Tests.Memory.{plain_selectors}
use flatcar_linux_update_ope.Tests.Samples.{cluster}
use flatcar_linux_update_ope.Tests.Machines.{
  World, client, files, permitted, attempts-Keeps, Unrebooted,
}
use flatcar_linux_update_ope.Prelude.{
  ◌∷◌, Bool, inl, inr, Bool-cases, suc, filter, all, All, String,
}
use flatcar_linux_update_ope.Agent.Process.{answered}
use flatcar_linux_update_ope.Agent.Process.Calm.{Calm}
use flatcar_linux_update_ope.Client.Laws.{default_retries}
use flatcar_linux_update_ope.Tests.Memory.{is_conflict}
use flatcar_linux_update_ope.Tests.Machines.{attempts-Keeps}
use flatcar_linux_update_ope.Agent.Run.{Drain, Surroundings, new_drainer, machine_of, run}
use flatcar_linux_update_ope.Agent.Run.Evicted.{Filters}
use flatcar_linux_update_ope.Tests.Waits.{agent}
use flatcar_linux_update_ope.Tests.Reboots.{has_ended}

-- A pod is given by its namespace, and two of them are on the machine.
abbrev pub library : Drain World String
library = record {
  namespace = λ pod. pod;
  get_pods_for_deletion = λ helper name w. (
    (
      filter (λ pod. all (λ f. f pod) helper.additional_filters) ("kube-system" ∷ "default" ∷ []),
      [],
    ),
    w,
  );
  delete_or_evict_pods = λ helper pods w. (ok tt, w);
}

module _ (pod : String) where
  passed : (fs : List (String → Bool)) → all (λ f. f pod) fs ≡ true → All (λ f. f pod ≡ true) fs
  passed [] h = tt
  passed (f ∷ fs) h = elim (Bool-cases (f pod)) [ inl e ↦ (e, passed fs (rw e at h)) | inr e ↦ cc ]

pub filters : Filters library
filters helper name w = kept ("kube-system" ∷ "default" ∷ [])
  where
    kept :
        (pods : List String)
        → All
            (λ pod. All (λ f. f pod ≡ true) helper.additional_filters)
            (filter (λ pod. all (λ f. f pod) helper.additional_filters) pods)
    kept [] = tt
    kept (pod ∷ pods) = elim (Bool-cases (all (λ f. f pod) helper.additional_filters)) [
      | inl e ↦ rw e (passed pod helper.additional_filters e, kept pods)
      | inr e ↦ rw e (kept pods)
    ]

abbrev pub surroundings : Surroundings World
surroundings = record {
  start_watching = λ w. w;
  select = λ fn w. (answered (fn w).0, (fn w).1);
  ctx_err = λ w. none;
  reboot = λ w. (w.0, suc w.1);
  sleep_or_done = λ w. w;
}

abbrev made : Machine World
made = machine_of client plain_selectors (files World) (permitted World) library surroundings agent

still : Calm client plain_selectors (files World) (permitted World) made "" "a" Unrebooted
still = record {
  reads = record {
    get = λ k w p. p;
    on_error = λ retriable fn k. attempts-Keeps Unrebooted retriable fn k default_retries;
    read_file = λ path w p. p;
    watch = λ n w p. p;
    until_without_retry = λ watcher f w p. p;
  };
  update = λ n w p. p;
  retry_on_conflict = λ fn k. attempts-Keeps Unrebooted is_conflict fn k default_retries;
  start_watching = λ w p. p;
  select = λ fn k w p. k w p;
  get_pods_for_deletion = λ k w p. p;
  delete_or_evict_pods = λ pods w p. p;
}

abbrev final : Option (Outcome (Unit {0}) × World)
final =
    run client plain_selectors (files World) (permitted World) library surroundings agent 1
      (cluster, 0)

finished : has_ended final ≡ true
unfolding run new_drainer process begin await_ok prepare_and_reboot set_info_labels get_version_info
    get_update_map get_release_map split_newline_env set_node_labels set_node_annotations
    set_node_annotations_labels unschedulable get_node_retry update_node_retry update_once attempts
    wait_for_ok_to_reboot wait_for_not_ok_to_reboot wait_for_node_condition watch_f should_reboot
    set_pairs set_pair assign assign_all set_labels_f set_annotations_labels_f not_ok_to_reboot
    unschedulable_f
finished = refl
