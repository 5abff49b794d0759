-- ===== src/Agent/Process/Order.antt =====
-- The machine is rebooted only at the end of the agent's preparation.
use mathlib.Core.Option.{some-injective, some-ne-none}
use flatcar_linux_update_ope.Prelude.{
  ℕ, zero, suc, String, ◌≡◌, refl, sym, subst, ap, ◌⊎◌, inl, inr, Option, some,
}
use flatcar_linux_update_ope.Exec.{Outcome, ok, err, panic}
use flatcar_linux_update_ope.Client.{NodeClient, Selectors}
use flatcar_linux_update_ope.Agent.{Host}
use flatcar_linux_update_ope.Agent.Wait.{Watching, wait_for_ok_to_reboot}
use flatcar_linux_update_ope.Agent.Process.{
  Received, done, answered, Machine, Answer, begin, round, await_ok, prepare_and_reboot, resume,
  watch_and_wait, process,
}
use flatcar_linux_update_ope.Agent.Process.Calm.{Calm, wait_for_ok_to_reboot-Keeps, begin-Keeps}
use flatcar_linux_update_ope.Agent.Process.Preparation.{Prepared, prepare-Fine}

module _ (c : NodeClient) (s : Selectors) (h : Host c.World) (t : Watching c.World)
    (m : Machine c.World) (host_files_prefix node_name : String) where
  module _ (P : c.World → Type 0) (calm : Calm c s h t m host_files_prefix node_name P) where
    -- The operator gave its permission in the world `asked`, and what the agent did from there on
    -- ended in `final`, the reboot included.
    pub record Rebooted (final : c.World) : Type 0 where
      pub asked : c.World
      pub allowed : (m.select (wait_for_ok_to_reboot c t node_name s) asked).0 ≡ answered (ok tt)
      pub prepared :
          Prepared c s h t m host_files_prefix node_name
            (m.select (wait_for_ok_to_reboot c t node_name s) asked).1
            final

    abbrev Result : Option (Outcome Answer × c.World) → Type 0
    Result o =
        (r : Outcome (Unit {0}) × c.World)
        → resume c s h t m host_files_prefix node_name o ≡ some r
        → P r.1 ⊎ Rebooted r.1

    after_round :
        (again : c.World → Option (Outcome Answer × c.World))
        → ((v : c.World) → P v → Result (again v))
        → (asked : c.World) (x : Received × c.World)
        → m.select (wait_for_ok_to_reboot c t node_name s) asked ≡ x
        → P x.1
        → Result (round c s h t m host_files_prefix node_name again x)
    after_round again next asked (done, w) e p r f =
        inl (subst (λ (y : Outcome (Unit {0}) × c.World). P y.1) (some-injective (ok tt, w) r f) p)
    after_round again next asked (answered (ok a), w) e p r f =
        subst (λ (y : Outcome (Unit {0}) × c.World). P y.1 ⊎ Rebooted y.1)
          (some-injective (prepare_and_reboot c s h t m host_files_prefix node_name w) r f)
          (elim (prepare-Fine c s h t m host_files_prefix node_name P calm w p) [
            | inl q ↦ inl q
            | inr prepared ↦ inr (record {
              asked = asked;
              allowed = ap (λ (y : Received × c.World). y.0) e;
              prepared =
                  subst
                    (λ (y : Received × c.World).
                      Prepared c s h t m host_files_prefix node_name y.1
                        (prepare_and_reboot c s h t m host_files_prefix node_name w).1)
                    (sym e) prepared;
            })
          ])
    after_round again next asked (answered (err x), w) e p r f = next w p r f
    after_round again next asked (answered panic, w) e p r f =
        inl (subst (λ (y : Outcome (Unit {0}) × c.World). P y.1) (some-injective (panic, w) r f) p)

    awaited :
        (n : ℕ) (w : c.World) → P w → Result (await_ok c s h t m host_files_prefix node_name n w)
    unfolding await_ok
    awaited zero w p r e = absurd (some-ne-none r (sym e))
    awaited (suc n) w p r e =
        after_round (λ v. await_ok c s h t m host_files_prefix node_name n v) (awaited n) w
          (m.select (wait_for_ok_to_reboot c t node_name s) w) refl
          (calm.select (wait_for_ok_to_reboot c t node_name s)
            (wait_for_ok_to_reboot-Keeps c s h t m host_files_prefix node_name P calm.reads) w p)
          r e

    begun :
        (n : ℕ) (b : Outcome (Unit {0}) × c.World)
        → P b.1
        → (r : Outcome (Unit {0}) × c.World)
        → watch_and_wait c s h t m host_files_prefix node_name n b ≡ some r
        → P r.1 ⊎ Rebooted r.1
    begun n (ok a, w) p r e = awaited n (m.start_watching w) (calm.start_watching w p) r e
    begun n (err x, w) p r e =
        inl (subst (λ (y : Outcome (Unit {0}) × c.World). P y.1) (some-injective (err x, w) r e) p)
    begun n (panic, w) p r e =
        inl (subst (λ (y : Outcome (Unit {0}) × c.World). P y.1) (some-injective (panic, w) r e) p)

    -- Take any property of the world that every call of the agent but the reboot keeps, such as
    -- "the machine has not been rebooted". If it holds before `process`, then it holds whenever
    -- `process` ends, in whatever way, unless the operator gave its permission and from there on,
    -- in this order, the node was read, its annotations for the reboot were set, it was cordoned
    -- or found so, its pods were listed without error, their eviction was tried, which succeeded or
    -- failed while the context had not ended, and the machine was rebooted.
    pub process-Rebooted :
        (n : ℕ) (w : c.World) (r : Outcome (Unit {0}) × c.World)
        → P w
        → process c s h t m host_files_prefix node_name n w ≡ some r
        → P r.1 ⊎ Rebooted r.1
    unfolding process
    process-Rebooted n w r p e =
        begun n (begin c s h t m host_files_prefix node_name w)
          (begin-Keeps c s h t m host_files_prefix node_name P calm w p) r e
