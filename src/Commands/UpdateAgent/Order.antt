-- ===== src/Commands/UpdateAgent/Order.antt =====
-- The agent's program reboots the machine only after the operator's permission.
use mathlib.Core.Option.{some-injective, some-ne-none}
use flatcar_linux_update_ope.Prelude.{ℕ, ◌≡◌, refl, sym, subst, ◌⊎◌, inl, inr, Option, none, some}
use flatcar_linux_update_ope.Exec.{Outcome, ok, err, panic}
use flatcar_linux_update_ope.Result.{ok, err}
use flatcar_linux_update_ope.Client.{NodeClient, Selectors}
use flatcar_linux_update_ope.Dbus.{close_client}
use flatcar_linux_update_ope.Agent.{Host}
use flatcar_linux_update_ope.Agent.Wait.{Watching}
use flatcar_linux_update_ope.Agent.Process.Calm.{Calm}
use flatcar_linux_update_ope.Agent.Run.{Drain, Surroundings, machine_of, run}
use flatcar_linux_update_ope.Agent.Run.Evicted.{Filters, Ordinary, Reboots, evicted, run-Reboots}
use flatcar_linux_update_ope.Commands.{AgentHost, Agent, agent_main}
use flatcar_linux_update_ope.Commands.UpdateAgent.{
  closing, ended, running, agent_command, IsQuietStart, agent_main-Keeps,
}

module _ (c : NodeClient) (s : Selectors) (h : Host c.World) (t : Watching c.World)
    {Pod Clientset Rebooter : Type 0} (d : Drain c.World Pod) (e : Surroundings c.World)
    (g : AgentHost c.World Clientset Rebooter) (P : c.World → Type 0) (quiet : IsQuietStart g P)
    (calm : (k : Agent g)
      → Calm c s h t (machine_of c s h t d e k) k.host_files_prefix k.node_name P) where
  -- The agent that `main` made has rebooted the machine after the whole preparation, and evicted
  -- no pod of the namespace kube-system.
  pub record HasRebooted (w : c.World) : Type 0 where
    pub agent : Agent g
    pub made : (agent_main g w).0 ≡ ok (some agent)
    pub final : c.World
    pub reboots : Reboots c s h t d e agent P (calm agent) final
    pub ordinary : Ordinary d (evicted c s h t d e agent P (calm agent) final reboots)

  closing-keeps :
      (agent : Agent g) (r : Outcome (Unit {0}) × c.World)
      → P r.1
      → P (closing c s h t d e g agent r).1
  unfolding close_client
  closing-keeps agent (ok a, w) p = quiet.close agent.ue.conn w p
  closing-keeps agent (err x, w) p = p
  closing-keeps agent (panic, w) p = quiet.close agent.ue.conn w p

  module _ (filters : Filters d) (n : ℕ) (w : c.World) (r : Outcome (Unit {0}) × c.World) where
    ended-HasRebooted :
        (agent : Agent g) (v : c.World)
        → (agent_main g w).0 ≡ ok (some agent)
        → P v
        → (o : Option (Outcome (Unit {0}) × c.World)) → run c s h t d e agent n v ≡ o
        → ended c s h t d e g agent o ≡ some r
        → P r.1 ⊎ HasRebooted w
    ended-HasRebooted agent v made p none ran at = absurd (some-ne-none r (sym at))
    ended-HasRebooted agent v made p (some x) ran at =
        elim (run-Reboots c s h t d e agent P (calm agent) filters n v x p ran) [
          | inl q ↦ inl (
              subst (λ (y : Outcome (Unit {0}) × c.World). P y.1) (some-injective _ r at)
                (closing-keeps agent x q))
          | inr (reboots, ordinary) ↦ inr (record {
            agent = agent;
            made = made;
            final = x.1;
            reboots = reboots;
            ordinary = ordinary;
          })
        ]

    running-HasRebooted :
        (x : Outcome (Option (Agent g)) × c.World)
        → (agent_main g w).0 ≡ x.0
        → P x.1
        → running c s h t d e g n x ≡ some r
        → P r.1 ⊎ HasRebooted w
    running-HasRebooted (ok none, v) made p at =
        inl (subst (λ (y : Outcome (Unit {0}) × c.World). P y.1) (some-injective _ r at) p)
    running-HasRebooted (ok (some agent), v) made p at =
        ended-HasRebooted agent v made p (run c s h t d e agent n v) refl at
    running-HasRebooted (err y, v) made p at =
        inl (subst (λ (y : Outcome (Unit {0}) × c.World). P y.1) (some-injective _ r at) p)
    running-HasRebooted (panic, v) made p at =
        inl (subst (λ (y : Outcome (Unit {0}) × c.World). P y.1) (some-injective _ r at) p)

    -- The agent's program as a whole: take a property of the world that every call but the reboot
    -- keeps, such as "the machine has not been rebooted". If it holds when `main` begins, then it
    -- holds whenever `main` ends, in whatever way, unless `main` made an agent from the flags, the
    -- operator gave that agent its permission, the whole preparation was made in its order, where
    -- an eviction that failed counts as made while the context had not ended, and the machine was
    -- rebooted, and then no pod whose eviction was tried was of the namespace kube-system. The
    -- drain library's pods for deletion passed the filters.
    pub agent_command-HasRebooted :
        P w → agent_command c s h t d e g n w ≡ some r → P r.1 ⊎ HasRebooted w
    unfolding agent_command
    agent_command-HasRebooted p at =
        running-HasRebooted (agent_main g w) refl (agent_main-Keeps g P quiet w p) at
