-- ===== src/Agent/Process.antt =====
-- pkg/agent/agent.go: `process`, from the start of the agent to the reboot of its machine.
pub mod Calm
pub mod Preparation
pub mod Order
pub mod Ends
pub mod Hits
pub mod Booted
pub mod Start
use flatcar_linux_update_ope.Prelude.{
  ℕ, zero, suc, String, ◌==◌, Bool, true, false, not, Option, none, some, List, [], ◌∷◌,
  if◌then◌else◌,
}
use flatcar_linux_update_ope.Constants.{true_value, annotation_agent_made_unschedulable}
use flatcar_linux_update_ope.GoMap.{index}
use flatcar_linux_update_ope.Exec.{
  Error, message, wrap, Outcome, ok, err, panic, Exec, ◌>>=◌, ◌>>◌, pure, wrapping,
}
use flatcar_linux_update_ope.Node.{Node}
use flatcar_linux_update_ope.Client.{NodeClient, Selectors}
use flatcar_linux_update_ope.K8sutil.Metadata.{
  get_node_retry, set_node_annotations, set_node_annotations_labels, unschedulable,
}
use flatcar_linux_update_ope.Agent.{
  Host, set_info_labels, start_annotations, start_labels, schedulable_annotations,
  drain_annotations,
}
use flatcar_linux_update_ope.Agent.Wait.{Watching, wait_for_ok_to_reboot, wait_for_not_ok_to_reboot}

-- What the `select` of `process` receives: the end of its context, or what its wait returned.
pub data Received : Type 0 where
  done : Received
  answered : Outcome (Unit {0}) → Received

-- The machine and the goroutines of the agent.
pub record Machine (W : Type 0) : Type 1 where
  pub Pod : Type 0
  -- `go k.watchUpdateStatus(...)`
  pub start_watching : W → W
  -- a goroutine that waits, and the `select` on its answer and on the end of the context
  pub select : Exec W (Unit {0}) → W → Received × W
  -- `drainer.GetPodsForDeletion`: the pods, and its errors
  pub get_pods_for_deletion : String → W → (List Pod × List Error) × W
  -- `drainer.DeleteOrEvictPods`
  pub delete_or_evict_pods : List Pod → Exec W (Unit {0})
  -- `ctx.Err()`
  pub ctx_err : W → Option Error
  -- `k.lc.Reboot(false)`
  pub reboot : W → W
  -- `sleepOrDone(24*7*time.Hour, ctx.Done())`
  pub sleep_or_done : W → W

-- How the loop that waits for the operator ends.
pub data Answer : Type 0 where
  stopped permitted : Answer

module _ (c : NodeClient) (s : Selectors) (h : Host c.World) (t : Watching c.World)
    (m : Machine c.World) (host_files_prefix node_name : String) where
  -- Up to the start of the watch.
  unfoldable pub begin : Exec c.World (Unit {0})
  begin = do
    wrapping "setting node info: %w" [] (set_info_labels c h host_files_prefix node_name)
    node ← wrapping "getting node %q: %w" (node_name ∷ []) (get_node_retry c node_name)
    wrapping "setting node %q labels and annotations: %w" (node_name ∷ [])
        (set_node_annotations_labels c node_name start_annotations start_labels)
    wrapping "waiting for not ok to reboot signal from operator: %w" []
        (wait_for_not_ok_to_reboot c t node_name)
    if index node.annotations annotation_agent_made_unschedulable == true_value
        then (do
          wrapping "marking node %q as unschedulable: %w" (node_name ∷ [])
              (unschedulable c node_name false)
          wrapping "setting node %q annotations: %w" (node_name ∷ [])
              (set_node_annotations c node_name schedulable_annotations))
        else pure tt

  -- The body of the loop that waits for the operator, where `again` is the next round.
  abbrev pub round :
      (c.World → Option (Outcome Answer × c.World))
      → Received × c.World
      → Option (Outcome Answer × c.World)
  round again (done, w) = some (ok stopped, w)
  round again (answered (ok a), w) = some (ok permitted, w)
  round again (answered (err e), w) = again w
  round again (answered panic, w) = some (panic, w)

  -- The loop, for `n` rounds at most; `none` if none of them ends it.
  unfoldable pub await_ok : ℕ → c.World → Option (Outcome Answer × c.World)
  await_ok zero w = none
  await_ok (suc n) w =
      round (λ v. await_ok n v) (m.select (wait_for_ok_to_reboot c t node_name s) w)

  abbrev pub pods_or_error : (List m.Pod × List Error) × c.World → Outcome (List m.Pod) × c.World
  pods_or_error ((pods, []), w) = (ok pods, w)
  pods_or_error ((pods, e ∷ es), w) = (err (message "getting pods for deletion: %v" []), w)

  -- An error of the drain is ignored, unless the context has ended.
  abbrev pub or_proceed : Outcome (Unit {0}) × c.World → Outcome (Unit {0}) × c.World
  or_proceed (ok a, w) = (ok tt, w)
  or_proceed (err e, w) = elim (m.ctx_err w) [
    | none ↦ (ok tt, w)
    | some x ↦ (err (wrap "deleting/evicting pods: %w" [] x), w)
  ]
  or_proceed (panic, w) = (panic, w)

  -- After the operator's permission.
  unfoldable pub prepare_and_reboot : Exec c.World (Unit {0})
  prepare_and_reboot = do
    node ← wrapping "getting node %q: %w" (node_name ∷ []) (get_node_retry c node_name)
    wrapping "setting node %q annotations: %w" (node_name ∷ [])
        (set_node_annotations c node_name (drain_annotations node.unschedulable))
    if not node.unschedulable
        then wrapping "marking node %q as unschedulable: %w" (node_name ∷ [])
            (unschedulable c node_name true)
        else pure tt
    pods ← λ w. pods_or_error (m.get_pods_for_deletion node_name w)
    λ w. or_proceed (m.delete_or_evict_pods pods w)
    λ w. (ok tt, m.sleep_or_done (m.reboot w))

  abbrev pub resume : Option (Outcome Answer × c.World) → Option (Outcome (Unit {0}) × c.World)
  resume none = none
  resume (some (ok stopped, w)) = some (ok tt, w)
  resume (some (ok permitted, w)) = some (prepare_and_reboot w)
  resume (some (err e, w)) = some (err e, w)
  resume (some (panic, w)) = some (panic, w)

  abbrev pub watch_and_wait :
      ℕ → Outcome (Unit {0}) × c.World → Option (Outcome (Unit {0}) × c.World)
  watch_and_wait n (ok a, w) = resume (await_ok n (m.start_watching w))
  watch_and_wait n (err e, w) = some (err e, w)
  watch_and_wait n (panic, w) = some (panic, w)

  -- `process`, with at most `n` rounds of the wait; `none` if it still waits then.
  unfoldable pub process : ℕ → c.World → Option (Outcome (Unit {0}) × c.World)
  process n w = watch_and_wait n (begin w)
