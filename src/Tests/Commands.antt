-- ===== src/Tests/Commands.antt =====
-- The two commands with sample flags and environments.
use flatcar_linux_update_ope.Prelude.{◌≡◌, refl, ◌==◌, String, false, some, [], ◌∷◌, if◌then◌else◌}
use flatcar_linux_update_ope.Prelude.Int.{to_int64, pos, negsuc, ◌*ℤ◌}
use flatcar_linux_update_ope.Exec.{ok, pure}
use flatcar_linux_update_ope.Result
use flatcar_linux_update_ope.Operator.Config.{Kontroller, new as new_operator}
use flatcar_linux_update_ope.Agent.Config.{new as new_agent, assembled}
use flatcar_linux_update_ope.K8sutil.Connect.{ClientGo, get_client}
use flatcar_linux_update_ope.Dbus.{Bus, new, new_update_client}
use flatcar_linux_update_ope.Commands.{
  FlagsSet, OperatorHost, AgentFlags, AgentHost, Agent, agent_config, agent_start, agent_main,
}
use flatcar_linux_update_ope.Commands.Laws.{Runs, agent_main-Runs}
use flatcar_linux_update_ope.Tests.Window.{texts, mondays, made}

abbrev flags : FlagsSet
flags = record {
  before_reboot_annotations = "example.com/ready" ∷ [];
  after_reboot_annotations = "example.com/healthy" ∷ [];
  kubeconfig = "";
  reboot_window_start = "Mon 14:00";
  reboot_window_length = "4h";
  print_version = false;
}

abbrev pub client_go : (W : Type 0) → ClientGo W (Unit {0})
client_go W = record {
  Config = String;
  build_config_from_flags = λ path. pure path;
  in_cluster_config = pure "in-cluster";
  new_for_config = λ config. pure tt;
}

abbrev operator_host : OperatorHost (Unit {0}) (Unit {0}) String
operator_host = record {
  set_logtostderr = pure tt;
  set_flags_from_env = pure flags;
  getenv = λ k. if k == "POD_NAMESPACE" then "reboot-coordinator" else "";
  hostname = Result.ok "operator-0";
  client_go = client_go (Unit {0});
  resource_lock_new = made;
  text_lib = texts;
  program = "update-operator";
}

abbrev instance_of : Kontroller
instance_of = record {
  before_reboot_annotations = "example.com/ready" ∷ [];
  after_reboot_annotations = "example.com/healthy" ∷ [];
  namespace = "reboot-coordinator";
  reboot_window = some mondays;
  max_rebooting_nodes = pos 1;
  reconciliation_period = pos 30000000000;
  leader_election_lease = pos 90000000000;
}

abbrev pub bus : (W : Type 0) → Bus W
bus W = record {
  Connection = Unit {0};
  Channel = Unit {0};
  Object = Unit {0};
  auth = λ conn. pure tt;
  hello = λ conn. pure tt;
  close = λ conn. pure tt;
  add_match_signal = λ conn interface member. pure tt;
  signal = λ conn n. pure tt;
  object = λ conn destination path. tt;
  call = λ object method. pure [];
}

abbrev agent_flags : AgentFlags
agent_flags = record {
  node = "a";
  print_version = false;
  reap_timeout = pos 600;
  force_node_drain = false;
}

abbrev pub agent_host : (W : Type 0) → AgentHost W (Unit {0}) (Unit {0})
agent_host W = record {
  set_logtostderr = pure tt;
  set_flags_from_env = pure agent_flags;
  client_go = client_go W;
  login1_new = pure tt;
  bus = bus W;
  system_private_connector = some (pure tt);
  program = "update-agent";
}

abbrev agent : Agent (agent_host (Unit {0}))
agent =
    assembled
      (agent_config (agent_host (Unit {0})) agent_flags tt
        (record { conn = tt; object = tt; ch = tt }) tt)
      tt (record { conn = tt; object = tt; ch = tt }) tt

agent_ran : (agent_main (agent_host (Unit {0})) tt).0 ≡ ok (some agent)
unfolding get_client agent_main agent_start new_agent new_update_client new
agent_ran = refl

agent_main-Runs_example :
    (f : AgentFlags) × (((agent_host (Unit {0})).set_flags_from_env
        ((agent_host (Unit {0})).set_logtostderr tt).1).0
      ≡ ok f)
    × (f.print_version ≡ false)
    × Runs (agent_host (Unit {0})) f agent
agent_main-Runs_example = agent_main-Runs (agent_host (Unit {0})) tt agent agent_ran

-- A grace period of 300 years is negative in nanoseconds.
wrapped_around : to_int64 (pos 9460800000 *ℤ pos 1000000000) ≡ negsuc 8985944073709551615
unfolding ◌*ℤ◌
wrapped_around = refl
