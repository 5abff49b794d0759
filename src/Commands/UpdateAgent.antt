-- ===== src/Commands/UpdateAgent.antt =====
-- cmd/update-agent/main.go: `main` as a whole, from the flags to the end of the agent, and its
-- deferred close of the connection to update_engine.
pub mod Order
use mathlib.Core.Option.{some-injective, some-ne-none}
use flatcar_linux_update_ope.Prelude.{
  ℕ, String, ◌≡◌, refl, sym, subst, ◌⊎◌, inl, inr, Bool, true, false, Option, none, some, [], ◌∷◌,
  if◌then◌else◌,
}
use flatcar_linux_update_ope.Exec.{Outcome, ok, err, panic, Exec, wrap, pure, ◌>>=◌}
use flatcar_linux_update_ope.Exec.Keeps.{Keeps, >>=-Keeps, call-Keeps}
use flatcar_linux_update_ope.Result.{Result, ok, err}
use flatcar_linux_update_ope.Client.{NodeClient, Selectors}
use flatcar_linux_update_ope.K8sutil.Connect.{get_client}
use flatcar_linux_update_ope.Updateengine.{
  dbus_interface, dbus_signal_name_status_update, signal_buffer,
}
use flatcar_linux_update_ope.Dbus.{Connector, new, or_close, new_update_client, close_client}
use flatcar_linux_update_ope.Agent.{Host}
use flatcar_linux_update_ope.Agent.Wait.{Watching}
use flatcar_linux_update_ope.Agent.Process.Calm.{Calm}
use flatcar_linux_update_ope.Agent.Run.{Drain, Surroundings, machine_of, run}
use flatcar_linux_update_ope.Agent.Run.Evicted.{Filters, Ordinary, Reboots, evicted, run-Reboots}
use flatcar_linux_update_ope.Agent.Config as AgentConfig
use flatcar_linux_update_ope.Commands.{
  call, AgentFlags, AgentHost, Agent, agent_config, agent_start, agent_main,
}

module _ (c : NodeClient) (s : Selectors) (h : Host c.World) (t : Watching c.World)
    {Pod Clientset Rebooter : Type 0} (d : Drain c.World Pod) (e : Surroundings c.World)
    (g : AgentHost c.World Clientset Rebooter) where
  -- After `Run`: its error ends the program at once, and otherwise, also in a panic, the connection
  -- is closed. An error of the close is only logged.
  abbrev pub closing : Agent g → Outcome (Unit {0}) × c.World → Outcome (Unit {0}) × c.World
  closing agent (ok a, w) = (ok tt, (close_client g.bus agent.ue w).1)
  closing agent (err x, w) = (err (wrap "Error running agent: %v" [] x), w)
  closing agent (panic, w) = (panic, (close_client g.bus agent.ue w).1)

  abbrev pub ended :
      Agent g → Option (Outcome (Unit {0}) × c.World) → Option (Outcome (Unit {0}) × c.World)
  ended agent none = none
  ended agent (some r) = some (closing agent r)

  -- What `main` has made: an agent that it runs, or nothing, when it has printed the version.
  abbrev pub running :
      ℕ → Outcome (Option (Agent g)) × c.World → Option (Outcome (Unit {0}) × c.World)
  running n (ok none, w) = some (ok tt, w)
  running n (ok (some agent), w) = ended agent (run c s h t d e agent n w)
  running n (err x, w) = some (err x, w)
  running n (panic, w) = some (panic, w)

  -- `main`, with at most `n` rounds of the wait for the operator; `none` if it still waits then.
  unfoldable pub agent_command : ℕ → c.World → Option (Outcome (Unit {0}) × c.World)
  agent_command n w = running n (agent_main g w)

module _ {W Clientset Rebooter : Type 0} (g : AgentHost W Clientset Rebooter) (P : W → Type 0) where
  -- The calls that `main` makes before the agent runs, and the close after it, keep a property.
  pub record IsQuietStart : Type 0 where
    pub set_logtostderr : Keeps P g.set_logtostderr
    pub set_flags_from_env : Keeps P g.set_flags_from_env
    pub in_cluster_config : Keeps P g.client_go.in_cluster_config
    pub new_for_config : (conf : g.client_go.Config) → Keeps P (g.client_go.new_for_config conf)
    pub connector : (m : Exec W g.bus.Connection) → g.system_private_connector ≡ some m → Keeps P m
    pub auth : (conn : g.bus.Connection) → Keeps P (g.bus.auth conn)
    pub hello : (conn : g.bus.Connection) → Keeps P (g.bus.hello conn)
    pub close : (conn : g.bus.Connection) → Keeps P (g.bus.close conn)
    pub add_match_signal :
        (conn : g.bus.Connection) (interface member : String)
        → Keeps P (g.bus.add_match_signal conn interface member)
    pub signal : (conn : g.bus.Connection) (n : ℕ) → Keeps P (g.bus.signal conn n)
    pub login1_new : Keeps P g.login1_new

module _ {W Clientset Rebooter : Type 0} (g : AgentHost W Clientset Rebooter) (P : W → Type 0)
    (quiet : IsQuietStart g P) where
  result-Keeps : {A : Type 0} → (r : Result A) → Keeps P (call r)
  result-Keeps (ok a) w p = p
  result-Keeps (err e) w p = p

  or_close-keeps :
      (conn : g.bus.Connection) (format : String) (m : Exec W (Unit {0}))
      → Keeps P m
      → Keeps P (λ w. or_close g.bus conn format (m w))
  or_close-keeps conn format m k w p = after (m w) (k w p)
    where
      after : (r : Outcome (Unit {0}) × W) → P r.1 → P (or_close g.bus conn format r).1
      after (ok a, w) p = p
      after (err e, w) p = quiet.close conn w p
      after (panic, w) p = p

  -- A call on a new connection that closes it after an error.
  or_closing-Keeps :
      {A : Type 0} (conn : g.bus.Connection) (format : String) (m : Exec W (Unit {0}))
      (next : Unit {0} → Exec W A)
      → Keeps P m
      → ((a : Unit {0}) → Keeps P (next a))
      → Keeps P ((λ w. or_close g.bus conn format (m w)) >>= next)
  or_closing-Keeps conn format m next k =
      >>=-Keeps P (λ w. or_close g.bus conn format (m w)) next (or_close-keeps conn format m k)

  new-Keeps : (k : Connector g.bus) → g.system_private_connector ≡ k → Keeps P (new g.bus k)
  unfolding new
  new-Keeps none e = λ w p. p
  new-Keeps (some m) e = call-Keeps P "connecting to D-Bus: %w" [] m _ (quiet.connector m e) λ conn.
      or_closing-Keeps conn "authenticating to D-Bus: %w" (g.bus.auth conn) _ (quiet.auth conn) λ a.
        or_closing-Keeps conn "sending hello to D-Bus: %w" (g.bus.hello conn) (λ b. pure conn)
          (quiet.hello conn) λ b w p. p

  new_update_client-Keeps : Keeps P (new_update_client g.bus g.system_private_connector)
  unfolding new_update_client
  new_update_client-Keeps =
      call-Keeps P "creating D-Bus client: %w" [] (new g.bus g.system_private_connector) _
        (new-Keeps g.system_private_connector refl)
        λ conn.
          call-Keeps P "adding filter: %w" []
            (g.bus.add_match_signal conn dbus_interface dbus_signal_name_status_update) _
            (quiet.add_match_signal conn dbus_interface dbus_signal_name_status_update)
            λ a.
              >>=-Keeps P (g.bus.signal conn signal_buffer) (λ ch. pure _)
                (quiet.signal conn signal_buffer) λ ch w p. p

  get_client-Keeps : Keeps P (get_client g.client_go "")
  unfolding get_client
  get_client-Keeps =
      call-Keeps P "getting Kubernetes client config: %w" [] g.client_go.in_cluster_config
        g.client_go.new_for_config quiet.in_cluster_config quiet.new_for_config

  agent_start-Keeps : (flags : AgentFlags) → Keeps P (agent_start g flags)
  unfolding agent_start
  agent_start-Keeps flags =
      call-Keeps P "Failed creating Kubernetes client: %v" [] (get_client g.client_go "") _
        get_client-Keeps
        λ clientset.
          call-Keeps P "Failed establishing connection to update_engine dbus: %v" []
            (new_update_client g.bus g.system_private_connector) _ new_update_client-Keeps
            λ client.
              call-Keeps P "Failed establishing connection to logind dbus: %v" [] g.login1_new _
                quiet.login1_new
                λ rebooter.
                  call-Keeps P "Failed to initialize %s: %v" (g.program ∷ [])
                    (call (AgentConfig.new (agent_config g flags clientset client rebooter)))
                    (λ agent. pure (some agent))
                    (result-Keeps
                      (AgentConfig.new (agent_config g flags clientset client rebooter)))
                    λ agent w p. p

  versioned-Keeps :
      (b : Bool) (flags : AgentFlags) → Keeps P (if b then pure none else agent_start g flags)
  versioned-Keeps true flags w p = p
  versioned-Keeps false flags w p = agent_start-Keeps flags w p

  pub agent_main-Keeps : Keeps P (agent_main g)
  unfolding agent_main
  agent_main-Keeps =
      call-Keeps P "Failed to set %q flag value: %v" ("logtostderr" ∷ []) g.set_logtostderr _
        quiet.set_logtostderr
        λ a.
          call-Keeps P "Failed to parse environment variables: %v" [] g.set_flags_from_env _
            quiet.set_flags_from_env λ flags. versioned-Keeps flags.print_version flags
