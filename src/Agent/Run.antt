-- ===== src/Agent/Run.antt =====
-- pkg/agent/agent.go: `Run` and `newDrainer`.
pub mod Evicted
use flatcar_linux_update_ope.Prelude.{
  ℕ, String, ◌==◌, Bool, true, not, Option, none, some, List, [], ◌∷◌,
}
use flatcar_linux_update_ope.Prelude.Int.{ℤ, negsuc}
use flatcar_linux_update_ope.Exec.{Error, Outcome, Exec, wrap_outcome}
use flatcar_linux_update_ope.Client.{NodeClient, Selectors}
use flatcar_linux_update_ope.Agent.{Host}
use flatcar_linux_update_ope.Agent.Config.{Klocksmith}
use flatcar_linux_update_ope.Agent.Wait.{Watching}
use flatcar_linux_update_ope.Agent.Process.{Received, Machine, process}

-- The fields of `drain.Helper` that decide which pods go and how. A filter says for a pod whether
-- it may be deleted.
pub record Helper (Pod : Type 0) : Type 0 where
  pub force : Bool
  pub grace_period_seconds : ℤ
  pub timeout : ℤ
  pub ignore_all_daemon_sets : Bool
  pub delete_empty_dir_data : Bool
  pub additional_filters : List (Pod → Bool)

-- The drain library, and a pod's `Namespace`.
pub record Drain (W Pod : Type 0) : Type 0 where
  pub namespace : Pod → String
  pub get_pods_for_deletion : Helper Pod → String → W → (List Pod × List Error) × W
  pub delete_or_evict_pods : Helper Pod → List Pod → Exec W (Unit {0})

-- The rest of the machine and of the goroutines that `process` uses.
pub record Surroundings (W : Type 0) : Type 0 where
  pub start_watching : W → W
  pub select : Exec W (Unit {0}) → W → Received × W
  pub ctx_err : W → Option Error
  pub reboot : W → W
  pub sleep_or_done : W → W

module _ {W Pod : Type 0} (d : Drain W Pod) where
  unfoldable pub new_drainer : ℤ → Bool → Helper Pod
  new_drainer timeout force_node_drain = record {
    force = force_node_drain;
    grace_period_seconds = negsuc 0;
    timeout = timeout;
    ignore_all_daemon_sets = true;
    delete_empty_dir_data = true;
    additional_filters = (λ pod. not (d.namespace pod == "kube-system")) ∷ [];
  }

  -- The machine whose pods the drainer takes.
  abbrev pub machine : Surroundings W → Helper Pod → Machine W
  machine e drainer = record {
    Pod = Pod;
    start_watching = e.start_watching;
    select = e.select;
    get_pods_for_deletion = d.get_pods_for_deletion drainer;
    delete_or_evict_pods = d.delete_or_evict_pods drainer;
    ctx_err = e.ctx_err;
    reboot = e.reboot;
    sleep_or_done = e.sleep_or_done;
  }

abbrev pub wrap_process :
    {W : Type 0} → Option (Outcome (Unit {0}) × W) → Option (Outcome (Unit {0}) × W)
wrap_process none = none
wrap_process (some r) = some (wrap_outcome "processing: %w" [] r)

module _ (c : NodeClient) (s : Selectors) (h : Host c.World) (t : Watching c.World)
    {Pod Clientset Receiver Rebooter : Type 0} (d : Drain c.World Pod) (e : Surroundings c.World)
    (k : Klocksmith Clientset Receiver Rebooter) where
  abbrev pub machine_of : Machine c.World
  machine_of = machine d e (new_drainer d k.reap_timeout k.force_node_drain)

  -- `Run`, with at most `n` rounds of the wait for the operator; `none` if it still waits then.
  unfoldable pub run : ℕ → c.World → Option (Outcome (Unit {0}) × c.World)
  run n w = wrap_process (process c s h t machine_of k.host_files_prefix k.node_name n w)
