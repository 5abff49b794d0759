-- ===== src/Agent/Run/Evicted.antt =====
-- What `Run` of pkg/agent/agent.go has done to the pods when it has rebooted the machine.
use mathlib.Core.Bool.{not}
use mathlib.Core.Option.{some-injective, some-ne-none}
use flatcar_linux_update_ope.Prelude.{
  ℕ, String, ◌==◌, ◌≡◌, refl, sym, ◌∙◌, ap, subst, ◌⊎◌, inl, inr, Bool, true, false, Option, none,
  some, List, [], ◌∷◌, All,
}
use flatcar_linux_update_ope.Exec.{Error, Outcome}
use flatcar_linux_update_ope.Exec.Laws.{wrapped_world}
use flatcar_linux_update_ope.Client.{NodeClient, Selectors}
use flatcar_linux_update_ope.Agent.{Host}
use flatcar_linux_update_ope.Agent.Config.{Klocksmith}
use flatcar_linux_update_ope.Agent.Wait.{Watching}
use flatcar_linux_update_ope.Agent.Process.Calm.{Calm}
use flatcar_linux_update_ope.Agent.Process.Order.{Rebooted, process-Rebooted}
use flatcar_linux_update_ope.Agent.Run.{
  Helper, Drain, Surroundings, new_drainer, wrap_process, machine_of, run,
}

-- The documented behaviour of `GetPodsForDeletion`: every pod that it returns passed the filters.
abbrev pub Filters : {W Pod : Type 0} → Drain W Pod → Type 0
Filters {W} {Pod} d =
    (helper : Helper Pod) (name : String) (w : W)
    → All (λ (pod : Pod). All (λ f. f pod ≡ true) helper.additional_filters)
        (d.get_pods_for_deletion helper name w).0.0

module _ {W : Type 0} where
  wrap_process-some :
      (o : Option (Outcome (Unit {0}) × W)) (r : Outcome (Unit {0}) × W)
      → wrap_process o ≡ some r
      → (x : Outcome (Unit {0}) × W) × (o ≡ some x) × (x.1 ≡ r.1)
  wrap_process-some none r h = absurd (some-ne-none r (sym h))
  wrap_process-some (some x) r h = (
    x,
    refl,
    sym (wrapped_world x "processing: %w" [])
        ∙ ap (λ (y : Outcome (Unit {0}) × W). y.1) (some-injective _ r h),
  )

not-true : (b : Bool) → not b ≡ true → b ≡ false
not-true true h = cc
not-true false h = refl

module _ {W Pod : Type 0} (d : Drain W Pod) where
  -- Of a namespace other than kube-system.
  abbrev pub Ordinary : List Pod → Type 0
  Ordinary pods = All (λ (pod : Pod). (d.namespace pod == "kube-system") ≡ false) pods

  abbrev Allowed : List (Pod → Bool) → List Pod → Type 0
  Allowed fs pods = All (λ (pod : Pod). All (λ (f : Pod → Bool). f pod ≡ true) fs) pods

  Allowed-Ordinary :
      (pods : List Pod)
      → Allowed ((λ pod. not (d.namespace pod == "kube-system")) ∷ []) pods
      → Ordinary pods
  Allowed-Ordinary [] h = tt
  Allowed-Ordinary (pod ∷ pods) (h, hs) = (not-true _ h.0, Allowed-Ordinary pods hs)

module _ (c : NodeClient) (s : Selectors) (h : Host c.World) (t : Watching c.World)
    {Pod Clientset Receiver Rebooter : Type 0} (d : Drain c.World Pod) (e : Surroundings c.World)
    (k : Klocksmith Clientset Receiver Rebooter) (P : c.World → Type 0)
    (calm : Calm c s h t (machine_of c s h t d e k) k.host_files_prefix k.node_name P) where
  abbrev pub Reboots : c.World → Type 0
  Reboots w = Rebooted c s h t (machine_of c s h t d e k) k.host_files_prefix k.node_name P calm w

  -- The pods whose eviction was tried before the reboot.
  abbrev pub evicted : (w : c.World) → Reboots w → List Pod
  evicted w b = b.prepared.pods

  left : {v : c.World} (b : Reboots v) → Filters d → Ordinary d (evicted v b)
  unfolding new_drainer
  left b filters = Allowed-Ordinary d b.prepared.pods (
      subst (Allowed d (new_drainer d k.reap_timeout k.force_node_drain).additional_filters)
        (ap (λ (y : (List Pod × List Error) × c.World). y.0.0) b.prepared.collected)
        (filters (new_drainer d k.reap_timeout k.force_node_drain) k.node_name
          b.prepared.unscheduled))

  -- With a drain library whose pods for deletion passed the filters: take any property of the world
  -- that every call of the agent but the reboot keeps. If it holds before `Run`, then it holds
  -- whenever `Run` ends, unless the operator gave its permission, the whole preparation was made
  -- and the machine was rebooted, and then no pod whose eviction was tried was of the namespace
  -- kube-system.
  pub run-Reboots :
      (filters : Filters d) (n : ℕ) (w : c.World) (r : Outcome (Unit {0}) × c.World)
      → P w
      → run c s h t d e k n w ≡ some r
      → P r.1 ⊎ ((b : Reboots r.1) × Ordinary d (evicted r.1 b))
  unfolding run
  run-Reboots filters n w r p at =
      let (x, was, same) = wrap_process-some _ r at in
      elim (process-Rebooted c s h t (machine_of c s h t d e k) k.host_files_prefix k.node_name P
        calm n w x p was) [
          | inl q ↦ inl (subst P same q)
          | inr b ↦
              subst (λ v. P v ⊎ ((b : Reboots v) × Ordinary d (evicted v b))) same
                (inr (b, left b filters))
        ]
