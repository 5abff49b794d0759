-- ===== src/Commands/Laws.antt =====
-- cmd/update-operator/main.go and cmd/update-agent/main.go: the operator and the agent that `main`
-- runs, by the flags and the environment.
use flatcar_linux_update_ope.Prelude.{
  ◌*◌, ◌≡◌, refl, ◌∙◌, sym, ap, subst, String, ◌==◌, Bool, true, false, Option, none, some,
  if◌then◌else◌,
}
use flatcar_linux_update_ope.Prelude.Int.{pos, ◌*ℤ◌}
use flatcar_linux_update_ope.Exec.{Outcome, ok, err, Exec, pure}
use flatcar_linux_update_ope.Exec.Laws.{wrapped_passed}
use flatcar_linux_update_ope.Result.{Result, ok, err}
use flatcar_linux_update_ope.Operator.Config as OperatorConfig
use flatcar_linux_update_ope.Operator.Config.{Kontroller}
use flatcar_linux_update_ope.Operator.Config.Laws.{Accepted}
use flatcar_linux_update_ope.Agent.Config as AgentConfig
use flatcar_linux_update_ope.Agent.Config.{Klocksmith, Assembled, new-Assembled}
use flatcar_linux_update_ope.K8sutil.Connect.{get_client}
use flatcar_linux_update_ope.Dbus.{UpdateClient, new_update_client}
use flatcar_linux_update_ope.Commands.{
  to_int64, call, FlagsSet, OperatorHost, operator_config, AgentFlags, AgentHost, Agent,
  agent_config, agent_start, agent_main,
}

call_passed : {W A : Type 0} (r : Result A) (w : W) (a : A) → (call r w).0 ≡ ok a → r ≡ ok a
call_passed (ok a) w b h = cc
call_passed (err e) w b h = cc

-- An action that stops before anything ran.
guard_left :
    {W A : Type 0} (met : Bool) (rest : Exec W (Option A)) (w : W) (a : A)
    → ((if met then pure none else rest) w).0 ≡ ok (some a)
    → (met ≡ false) × ((rest w).0 ≡ ok (some a))
guard_left true rest w a h = cc
guard_left false rest w a h = (refl, h)

some_ok : {A : Type 0} (a b : A) → ◌≡◌ {A = Outcome (Option A)} (ok (some a)) (ok (some b)) → a ≡ b
some_ok a b h = cc

module _ {W Client Lock : Type 0} (h : OperatorHost W Client Lock) where
  -- What `main` promises of the operator that it runs, on the flags.
  pub record Started (flags : FlagsSet) (k : Kontroller) : Type 0 where
    pub client : Client
    pub hostname : String
    pub named : h.hostname ≡ ok hostname
    pub accepted : Accepted h.text_lib (operator_config h flags client hostname) k
    pub before : k.before_reboot_annotations ≡ flags.before_reboot_annotations
    pub after : k.after_reboot_annotations ≡ flags.after_reboot_annotations
    pub one_at_a_time : k.max_rebooting_nodes ≡ pos 1
    pub every_30_seconds : k.reconciliation_period ≡ pos (30 * 1000000000)
    pub leases : k.leader_election_lease ≡ pos (90 * 1000000000)

  abbrev started_with : FlagsSet → Client → String → Result (Kontroller × Lock)
  started_with flags client hostname =
      OperatorConfig.new h.resource_lock_new h.text_lib (operator_config h flags client hostname)

module _ {W Clientset Rebooter : Type 0} (h : AgentHost W Clientset Rebooter) where
  -- What `main` promises of the agent that it runs, on the flags.
  pub record Runs (flags : AgentFlags) (k : Agent h) : Type 0 where
    pub named : (flags.node == "") ≡ false
    pub node : k.node_name ≡ flags.node
    pub reaps : k.reap_timeout ≡ to_int64 (flags.reap_timeout *ℤ pos 1000000000)
    pub forces : k.force_node_drain ≡ flags.force_node_drain
    pub prefix : k.host_files_prefix ≡ ""
    pub retries : k.poll_interval ≡ pos (10 * 1000000000)
    pub waits : k.max_operator_response_time ≡ pos (24 * 3600 * 1000000000)

  assembled-Runs :
      (flags : AgentFlags) (c : Clientset) (u : UpdateClient h.bus) (r : Rebooter) (k : Agent h)
      → AgentConfig.new (agent_config h flags c u r) ≡ ok k
      → Runs flags k
  assembled-Runs flags c u r k e =
      let a = new-Assembled (agent_config h flags c u r) k e in
      record {
        named = sym (ap (λ n. n == "") (ap (λ x. x.node_name) a.whole)) ∙ a.named;
        node = ap (λ x. x.node_name) a.whole;
        reaps = ap (λ x. x.reap_timeout) a.whole;
        forces = ap (λ x. x.force_node_drain) a.whole;
        prefix = ap (λ x. x.host_files_prefix) a.whole;
        retries = ap (λ x. x.poll_interval) a.whole;
        waits = ap (λ x. x.max_operator_response_time) a.whole;
      }

  agent_start-Runs :
      (w : W) (flags : AgentFlags) (k : Agent h)
      → (agent_start h flags w).0 ≡ ok (some k)
      → Runs flags k
  unfolding agent_start
  agent_start-Runs w flags k e =
      let r1 = get_client h.client_go "" w in
      let (c, _, e1, _) = wrapped_passed _ _ r1 _ _ e in
      let r2 = new_update_client h.bus h.system_private_connector r1.1 in
      let (u, _, e2, _) = wrapped_passed _ _ r2 _ _ e1 in
      let r3 = h.login1_new r2.1 in
      let (r, _, e3, _) = wrapped_passed _ _ r3 _ _ e2 in
      let made = AgentConfig.new (agent_config h flags c u r) in
      let (a, done, e4, _) = wrapped_passed _ _ (call made r3.1) _ _ e3 in
      subst (Runs flags) (some_ok a k e4)
        (assembled-Runs flags c u r a (call_passed made r3.1 a done))

  -- When the agent's `main` comes to run an agent, the flags were read and did not ask for the
  -- version, the node is the flag's and not empty, the pods' grace period is the flag's number of
  -- seconds in nanoseconds as a 64-bit integer keeps it, the draining is forced as the flag says,
  -- the host's files are read without a prefix, a status that could not be written to the node is
  -- tried again every 10 seconds and the operator is waited for 24 hours.
  pub agent_main-Runs :
      (w : W) (k : Agent h)
      → (agent_main h w).0 ≡ ok (some k)
      → (flags : AgentFlags) × ((h.set_flags_from_env (h.set_logtostderr w).1).0 ≡ ok flags)
        × (flags.print_version ≡ false)
        × Runs flags k
  unfolding agent_main
  agent_main-Runs w k e =
      let (_, _, e1, _) = wrapped_passed _ _ (h.set_logtostderr w) _ _ e in
      let (flags, parsed, e2, _) =
        wrapped_passed _ _ (h.set_flags_from_env (h.set_logtostderr w).1) _ _ e1 in
      let (running, e3) = guard_left flags.print_version (agent_start h flags) _ _ e2 in
      (flags, parsed, running, agent_start-Runs _ flags k e3)
