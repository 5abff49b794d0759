-- ===== src/Commands.antt =====
-- cmd/update-operator/main.go and cmd/update-agent/main.go: from the flags to the operator or the
-- agent that `main` runs. A `klog.Fatalf` is an error, and `none` is the exit after the version was
-- printed. What reads the flags, the environment and the host's name, and what makes the
-- configuration of a client and the clients, are parameters.
pub mod Laws
pub mod UpdateAgent
pub mod UpdateOperator
use flatcar_linux_update_ope.Prelude.{
  ℕ, ◌+◌, ◌-◌, ◌*◌, ◌%◌, String, ◌==◌, Bool, Option, none, some, List, [], ◌∷◌, ltb, if◌then◌else◌,
}
use flatcar_linux_update_ope.Prelude.Int.{ℤ, pos, negsuc, ◌*ℤ◌, to_int64}
use flatcar_linux_update_ope.Exec.{
  Outcome, ok, err, panic, Exec, message, ◌>>=◌, pure, fail, wrapping,
}
use flatcar_linux_update_ope.Result.{Result, ok, err}
use flatcar_linux_update_ope.Clock.{TextLib}
use flatcar_linux_update_ope.Operator.Config as OperatorConfig
use flatcar_linux_update_ope.Operator.Config.{Kontroller, LockMaker}
use flatcar_linux_update_ope.Agent.Config as AgentConfig
use flatcar_linux_update_ope.Agent.Config.{Klocksmith}
use flatcar_linux_update_ope.K8sutil.Connect.{ClientGo, get_client}
use flatcar_linux_update_ope.Dbus.{Bus, Connector, UpdateClient, new_update_client}

-- A call that returns a value or an error, as an action.
abbrev pub call : {W A : Type 0} → Result A → Exec W A
call (ok a) = pure a
call (err e) = fail e

-- `flagsSet`
pub record FlagsSet : Type 0 where
  pub before_reboot_annotations : List String
  pub after_reboot_annotations : List String
  pub kubeconfig : String
  pub reboot_window_start : String
  pub reboot_window_length : String
  pub print_version : Bool

abbrev no_namespace : String
no_namespace =
    "Unable to determine operator namespace: please ensure POD_NAMESPACE environment variable is set"

-- What surrounds the operator's `main`, and the actions that it calls.
pub record OperatorHost (W Client Lock : Type 0) : Type 1 where
  -- `flag.Set("logtostderr", "true")`
  pub set_logtostderr : Exec W (Unit {0})
  -- `flag.Parse` and `flagutil.SetFlagsFromEnv`: the flags after both
  pub set_flags_from_env : Exec W FlagsSet
  -- `os.Getenv` and `os.Hostname`
  pub getenv : String → String
  pub hostname : Result String
  pub client_go : ClientGo W Client
  pub resource_lock_new : LockMaker Client Lock
  pub text_lib : TextLib
  -- `os.Args[0]`
  pub program : String

module _ {W Client Lock : Type 0} (h : OperatorHost W Client Lock) where
  unfoldable pub handle_flags : Exec W FlagsSet
  handle_flags = do
    logging ← wrapping "Failed setting %q flag: %v" ("logtostderr" ∷ []) h.set_logtostderr
    flags ← wrapping "Failed to parse environment variables: %v" [] h.set_flags_from_env
    pure (record flags {
      kubeconfig = if flags.kubeconfig == "" then h.getenv "KUBECONFIG" else flags.kubeconfig;
    })

  -- The configuration that `main` hands to `operator.New`. The fields that it leaves out are zero.
  abbrev pub operator_config : FlagsSet → Client → String → OperatorConfig.Config Client
  operator_config flags client hostname = record {
    client = some client;
    before_reboot_annotations = flags.before_reboot_annotations;
    after_reboot_annotations = flags.after_reboot_annotations;
    reboot_window_start = flags.reboot_window_start;
    reboot_window_length = flags.reboot_window_length;
    namespace = h.getenv "POD_NAMESPACE";
    lock_id = hostname;
    lock_type = "";
    reconciliation_period = pos 0;
    leader_election_lease = pos 0;
    max_rebooting_nodes = pos 0;
  }

  abbrev pub check_namespace : Exec W (Unit {0})
  check_namespace =
      if h.getenv "POD_NAMESPACE" == "" then fail (message no_namespace []) else pure tt

  -- `main` from the client on.
  unfoldable pub operator_start : FlagsSet → Exec W (Option (Kontroller × Lock))
  operator_start flags = do
    client ←
        wrapping "Failed to create Kubernetes client: %v" []
          (get_client h.client_go flags.kubeconfig)
    namespaced ← check_namespace
    hostname ← wrapping "Getting hostname: %v" [] (call h.hostname)
    instance_of ← wrapping "Failed to initialize %s: %v" (h.program ∷ []) (
        call (
          OperatorConfig.new h.resource_lock_new h.text_lib
            (operator_config flags client hostname)))
    pure (some instance_of)

  unfoldable pub operator_main : Exec W (Option (Kontroller × Lock))
  unfolding handle_flags operator_start
  operator_main = do
    flags ← handle_flags
    if flags.print_version then pure none else operator_start flags

-- The flags of the agent, which are variables of its package.
pub record AgentFlags : Type 0 where
  pub node : String
  pub print_version : Bool
  pub reap_timeout : ℤ
  pub force_node_drain : Bool

-- What surrounds the agent's `main`, and the actions that it calls.
pub record AgentHost (W Clientset Rebooter : Type 0) : Type 1 where
  pub set_logtostderr : Exec W (Unit {0})
  pub set_flags_from_env : Exec W AgentFlags
  pub client_go : ClientGo W Clientset
  -- `login1.New`
  pub login1_new : Exec W Rebooter
  pub bus : Bus W
  -- `dbus.SystemPrivateConnector`
  pub system_private_connector : Connector bus
  pub program : String

module _ {W Clientset Rebooter : Type 0} (h : AgentHost W Clientset Rebooter) where
  abbrev pub Agent : Type 0
  Agent = Klocksmith Clientset (UpdateClient h.bus) Rebooter

  -- The configuration that `main` hands to `agent.New`. The fields that it leaves out are zero.
  abbrev pub agent_config :
      AgentFlags
      → Clientset
      → UpdateClient h.bus
      → Rebooter
      → AgentConfig.Config Clientset (UpdateClient h.bus) Rebooter
  agent_config flags clientset update_engine_client rebooter = record {
    node_name = flags.node;
    pod_deletion_grace_period = to_int64 (flags.reap_timeout *ℤ pos 1000000000);
    force_node_drain = flags.force_node_drain;
    clientset = some clientset;
    status_receiver = some update_engine_client;
    rebooter = some rebooter;
    host_files_prefix = "";
    poll_interval = pos 0;
    max_operator_response_time = pos 0;
  }

  -- `main` from the clients on.
  unfoldable pub agent_start : AgentFlags → Exec W (Option Agent)
  agent_start flags = do
    clientset ← wrapping "Failed creating Kubernetes client: %v" [] (get_client h.client_go "")
    update_engine_client ←
        wrapping "Failed establishing connection to update_engine dbus: %v" []
          (new_update_client h.bus h.system_private_connector)
    rebooter ← wrapping "Failed establishing connection to logind dbus: %v" [] h.login1_new
    agent ←
        wrapping "Failed to initialize %s: %v" (h.program ∷ [])
          (call (AgentConfig.new (agent_config flags clientset update_engine_client rebooter)))
    pure (some agent)

  unfoldable pub agent_main : Exec W (Option Agent)
  unfolding agent_start
  agent_main = do
    logging ← wrapping "Failed to set %q flag value: %v" ("logtostderr" ∷ []) h.set_logtostderr
    flags ← wrapping "Failed to parse environment variables: %v" [] h.set_flags_from_env
    if flags.print_version then pure none else agent_start flags
