-- ===== src/Agent/Process/Preparation.antt =====
-- The agent's preparation, from the permission of the operator to the reboot.
use flatcar_linux_update_ope.Prelude.{
  String, ◌≡◌, refl, ap, ◌⊎◌, inl, inr, Bool, true, false, not, List, [], ◌∷◌, Option-cases, none,
  if◌then◌else◌,
}
use flatcar_linux_update_ope.Exec.{Error, Outcome, ok, err, panic, Exec, continue, wrapping, pure}
use flatcar_linux_update_ope.Node.{Node}
use flatcar_linux_update_ope.Client.{NodeClient, Selectors}
use flatcar_linux_update_ope.K8sutil.Metadata.{
  get_node_retry, set_node_annotations, unschedulable, update_node_retry, set_annotations_f,
  unschedulable_f,
}
use flatcar_linux_update_ope.Agent.{Host, drain_annotations}
use flatcar_linux_update_ope.Agent.Wait.{Watching}
use flatcar_linux_update_ope.Agent.Process.{Machine, pods_or_error, or_proceed, prepare_and_reboot}
use flatcar_linux_update_ope.Exec.Keeps.{through, through_wrapped}
use flatcar_linux_update_ope.Agent.Process.Calm.{
  Calm, update_node_retry-Keeps, get_node_retry-Keeps,
}

module _ (c : NodeClient) (s : Selectors) (h : Host c.World) (t : Watching c.World)
    (m : Machine c.World) (host_files_prefix node_name : String) where
  -- The node is cordoned: it was so, or the call to make it so succeeded.
  pub data Cordoned (was : Bool) (before after : c.World) : Type 0 where
    already : was ≡ true → after ≡ before → Cordoned was before after
    cordoned :
        was ≡ false
        → (unschedulable c node_name true before).0 ≡ ok tt
        → after ≡ (unschedulable c node_name true before).1
        → Cordoned was before after

  -- The eviction of the pods succeeded, or it failed while the context had not ended.
  abbrev pub Passed : Outcome (Unit {0}) → c.World → Type 0
  Passed o after = (o ≡ ok tt) ⊎ ((e : Error) × (o ≡ err e) × (m.ctx_err after ≡ none))

  -- From the world `start`, each call succeeded in turn, but for the eviction of the pods, which
  -- was tried and may have failed; and then the machine was rebooted.
  pub record Prepared (start final : c.World) : Type 0 where
    pub node : Node
    pub read : (get_node_retry c node_name start).0 ≡ ok node
    pub annotated : c.World
    pub marked :
        set_node_annotations c node_name
          (drain_annotations node.unschedulable)
          (get_node_retry c node_name start).1
        ≡ (ok tt, annotated)
    pub unscheduled : c.World
    pub cordon : Cordoned node.unschedulable annotated unscheduled
    pub pods : List m.Pod
    pub listed : c.World
    pub collected : m.get_pods_for_deletion node_name unscheduled ≡ ((pods, []), listed)
    pub drained : c.World
    pub outcome : Outcome (Unit {0})
    pub tried : m.delete_or_evict_pods pods listed ≡ (outcome, drained)
    pub passed : Passed outcome drained
    pub rebooted : final ≡ m.sleep_or_done (m.reboot drained)

  split_eq : {A : Type 0} (r : Outcome A × c.World) (a : A) → r.0 ≡ ok a → r ≡ (ok a, r.1)
  split_eq r a e = ap (λ o. (o, r.1)) e

  proceeded :
      (r : Outcome (Unit {0}) × c.World)
      → (or_proceed c s h t m host_files_prefix node_name r).0 ≡ ok tt
      → (r ≡ (r.0, (or_proceed c s h t m host_files_prefix node_name r).1))
        × Passed r.0 (or_proceed c s h t m host_files_prefix node_name r).1
  proceeded (ok a, w) h = (refl, inl refl)
  proceeded (err e, w) h = elim (Option-cases (m.ctx_err w)) [
    | inl x ↦ rw (x, or_proceed) (refl, inr (e, refl, x))
    | inr (y, x) ↦ cc
  ]
  proceeded (panic, w) h = cc

  module _ (P : c.World → Type 0) (calm : Calm c s h t m host_files_prefix node_name P) where
    abbrev pub Fine : c.World → Outcome (Unit {0}) × c.World → Type 0
    Fine start r = P r.1 ⊎ Prepared start r.1

    evict_keeps :
        (r : Outcome (Unit {0}) × c.World)
        → P r.1
        → P (or_proceed c s h t m host_files_prefix node_name r).1
    evict_keeps (ok a, w) p = p
    evict_keeps (err e, w) p = elim (Option-cases (m.ctx_err w)) [
      | inl x ↦ rw (x, or_proceed) p
      | inr (y, x) ↦ rw (x, or_proceed) p
    ]
    evict_keeps (panic, w) p = p

    pods_keep :
        (r : (List m.Pod × List Error) × c.World)
        → P r.1
        → P (pods_or_error c s h t m host_files_prefix node_name r).1
    pods_keep ((pods, []), w) p = p
    pods_keep ((pods, e ∷ es), w) p = p

    pods_listed :
        (r : (List m.Pod × List Error) × c.World) (pods : List m.Pod)
        → (pods_or_error c s h t m host_files_prefix node_name r).0 ≡ ok pods
        → r ≡ ((pods, []), (pods_or_error c s h t m host_files_prefix node_name r).1)
    pods_listed ((ps, []), w) pods e = cc
    pods_listed ((ps, x ∷ xs), w) pods e = cc

    cordon_then :
        (was : Bool) (start : c.World) (w : c.World) (next : Exec c.World (Unit {0}))
        → P w
        → ((v : c.World) → P v → Cordoned was w v → Fine start (next v))
        → Fine start (
            continue
              ((if not was
                  then wrapping "marking node %q as unschedulable: %w"
                      (node_name ∷ [])
                      (unschedulable c node_name true)
                  else pure tt)
                w)
              (λ _. next))
    unfolding unschedulable
    cordon_then true start w next p k = k w p (already refl refl)
    cordon_then false start w next p k =
        through_wrapped P (Prepared start) "marking node %q as unschedulable: %w" (node_name ∷ [])
          (update_node_retry c node_name (unschedulable_f true) w) (λ _. next)
          (update_node_retry-Keeps c s h t m host_files_prefix node_name P calm node_name
            (unschedulable_f true) w p)
          (λ a e.
            k _
              (update_node_retry-Keeps c s h t m host_files_prefix node_name P calm node_name
                (unschedulable_f true) w p)
              (cordoned refl e refl))

    finish :
        (node : Node) (start annotated unscheduled : c.World)
        → (get_node_retry c node_name start).0 ≡ ok node
        → set_node_annotations c node_name
            (drain_annotations node.unschedulable)
            (get_node_retry c node_name start).1
          ≡ (ok tt, annotated)
        → Cordoned node.unschedulable annotated unscheduled
        → P unscheduled
        → Fine start (
            continue
              (pods_or_error c s h t m host_files_prefix node_name
                (m.get_pods_for_deletion node_name unscheduled))
              (λ pods w.
                continue
                  (or_proceed c s h t m host_files_prefix node_name (m.delete_or_evict_pods pods w))
                  (λ _ w. (ok tt, m.sleep_or_done (m.reboot w)))))
    finish node start annotated unscheduled read marked cordon p =
        let got =
          pods_or_error c s h t m host_files_prefix node_name
            (m.get_pods_for_deletion node_name unscheduled) in
        let kept =
          pods_keep (m.get_pods_for_deletion node_name unscheduled)
            (calm.get_pods_for_deletion node_name unscheduled p) in
        through P (Prepared start) got _ kept λ pods e.
          let gone =
            or_proceed c s h t m host_files_prefix node_name (m.delete_or_evict_pods pods got.1) in
          through P (Prepared start) gone _
            (evict_keeps (m.delete_or_evict_pods pods got.1)
              (calm.delete_or_evict_pods pods got.1 kept))
            λ a e1. inr (record {
              node = node;
              read = read;
              annotated = annotated;
              marked = marked;
              unscheduled = unscheduled;
              cordon = cordon;
              pods = pods;
              listed = got.1;
              collected = pods_listed (m.get_pods_for_deletion node_name unscheduled) pods e;
              drained = gone.1;
              outcome = (m.delete_or_evict_pods pods got.1).0;
              tried = (proceeded (m.delete_or_evict_pods pods got.1) e1).0;
              passed = (proceeded (m.delete_or_evict_pods pods got.1) e1).1;
              rebooted = refl;
            })

    pub prepare-Fine :
        (w : c.World) → P w → Fine w (prepare_and_reboot c s h t m host_files_prefix node_name w)
    unfolding prepare_and_reboot set_node_annotations
    prepare-Fine w p =
        let got = get_node_retry c node_name w in
        let p1 =
          get_node_retry-Keeps c s h t m host_files_prefix node_name P calm.reads node_name w p in
        through_wrapped P (Prepared w) "getting node %q: %w" (node_name ∷ []) got _ p1 λ node e.
          let set =
            update_node_retry c node_name (set_annotations_f (drain_annotations node.unschedulable))
              got.1 in
          let p2 =
            update_node_retry-Keeps c s h t m host_files_prefix node_name P calm node_name
              (set_annotations_f (drain_annotations node.unschedulable)) got.1 p1 in
          through_wrapped P (Prepared w) "setting node %q annotations: %w" (node_name ∷ []) set _ p2
            λ a e1.
              cordon_then node.unschedulable w set.1 _ p2
                λ v p3 cordon. finish node w set.1 v e (split_eq set tt e1) cordon p3
