-- ===== src/Operator/Process/Refinement.antt =====
-- The steps of a pass that succeed, as updates of the stored nodes.
use flatcar_linux_update_ope.Prelude.{
  ℕ, ◌-◌, ◌≤◌, ◌≡◌, true, false, not, ◌&&◌, some, none, map, List, take, filter, leb, if◌then◌else◌,
}
use flatcar_linux_update_ope.Prelude.Int.{pos}
use flatcar_linux_update_ope.Constants.{label_before_reboot, label_after_reboot}
use flatcar_linux_update_ope.Exec.{ok}
use flatcar_linux_update_ope.Node.{Node}
use flatcar_linux_update_ope.Client.{NodeClient, Selectors}
use flatcar_linux_update_ope.Client.Laws.{IsQuiet}
use flatcar_linux_update_ope.Clock.{Clock}
use flatcar_linux_update_ope.K8sutil.Metadata.Names.{DistinctNames, or_self}
use flatcar_linux_update_ope.K8sutil.Metadata.Loop.{update_first, update_where}
use flatcar_linux_update_ope.Operator.Vars.{Vars, package_vars}
use flatcar_linux_update_ope.Operator.Vars.Meaning.{
  IsLawful, Means, package_vars-Means, just_rebooted,
}
use flatcar_linux_update_ope.Operator.Config.{Kontroller}
use flatcar_linux_update_ope.Operator.Checks.{cleanup_f, cleanup_state}
use flatcar_linux_update_ope.Operator.Marks.{
  mark_f, mark_after_reboot, mark_before_reboot, inside_reboot_window, rebootable_nodes,
}
use flatcar_linux_update_ope.Operator.Process.Flags.{checking_after}
use flatcar_linux_update_ope.Operator.Process.Sweeps.{cleanup_state-Swept, mark_after_reboot-Swept}
use flatcar_linux_update_ope.Operator.Process.Capacity.{load, waiting, rebootable_nodes_lem}
use flatcar_linux_update_ope.Operator.Process.Window.{mark_before_reboot_lem}

-- With a configured number that is not negative, `rebootableNodes` returns the first nodes that
-- wait for a reboot, as many as that number exceeds the load of the list; it panics exactly if the
-- load, which counts a node once for each reason it has, exceeds the number.
pub rebootable_nodes-eq-take :
    (s : Selectors) (v : Vars s)
    → IsLawful s
    → package_vars s ≡ some v
    → (k : Kontroller) (max : ℕ) (ns : List Node) → k.max_rebooting_nodes ≡ pos max
    → rebootable_nodes s v k ns
      ≡ (if leb (load ns) max then some (take (max - load ns) (filter waiting ns)) else none)
rebootable_nodes-eq-take s v lawful loaded k max ns e =
    rebootable_nodes_lem s v (package_vars-Means s v loaded lawful) k max ns e

module _ (c : NodeClient) (q : IsQuiet c) (s : Selectors) (v : Vars s) (lawful : IsLawful s)
    (loaded : package_vars s ≡ some v) (k : Kontroller) (w : c.World)
    (d : DistinctNames (q.nodes w)) where
  means : Means s v
  means = package_vars-Means s v loaded lawful

  -- After a cleanup that succeeds, every node is the one stored before, changed by the update
  -- function of the cleanup.
  pub cleanup_state-eq-map :
      (cleanup_state c s v k w).0 ≡ ok tt
      → q.nodes (cleanup_state c s v k w).1
        ≡ map (λ n. or_self n (cleanup_f c s v k.before_reboot_annotations n)) (q.nodes w)
  cleanup_state-eq-map h = ((cleanup_state-Swept c q s v means k w d).2 h).0

  -- After `markAfterReboot` succeeds, exactly the nodes that have rebooted (reboot-ok "true",
  -- reboot-needed and reboot-in-progress "false") and lack the label after-reboot "true" are
  -- marked with it.
  pub mark_after_reboot-eq-update_where :
      (mark_after_reboot c s v k w).0 ≡ ok tt
      → q.nodes (mark_after_reboot c s v k w).1
        ≡ update_where
            (λ n. not (checking_after n) && just_rebooted n.annotations)
            (mark_f label_after_reboot k.after_reboot_annotations)
            (q.nodes w)
  mark_after_reboot-eq-update_where h = ((mark_after_reboot-Swept c q s v means k w d).2 h).0

  module _ (clock : Clock) (max : ℕ) (max-eq : k.max_rebooting_nodes ≡ pos max)
      (first second : clock.Time) where
    -- Whatever the outcome of `markBeforeReboot`, it marks the first `j` nodes that wait for a
    -- reboot, for some `j` that is at most the configured number less the load.
    pub mark_before_reboot-eq-update_first :
        (j : ℕ) × (j ≤ max - load (q.nodes w))
        × (q.nodes (mark_before_reboot c s v clock k first second w).1
            ≡ update_first j waiting
                (mark_f label_before_reboot k.before_reboot_annotations)
                (q.nodes w))
    mark_before_reboot-eq-update_first =
        let (j, le, part, whole, shut) =
          mark_before_reboot_lem c q s v means clock k max max-eq first second w d in
        (j, le, part)

    -- If it succeeds inside the reboot window, the load is at most the configured number, and as
    -- many of the waiting nodes are marked as the one exceeds the other, or all of them.
    pub mark_before_reboot_inside :
        (mark_before_reboot c s v clock k first second w).0 ≡ ok tt
        → inside_reboot_window clock k first second ≡ true
        → (load (q.nodes w) ≤ max)
          × (q.nodes (mark_before_reboot c s v clock k first second w).1
              ≡ update_first
                  (max - load (q.nodes w))
                  waiting
                  (mark_f label_before_reboot k.before_reboot_annotations)
                  (q.nodes w))
    mark_before_reboot_inside =
        (mark_before_reboot_lem c q s v means clock k max max-eq first second w d).3

    -- Outside the reboot window it changes nothing.
    pub mark_before_reboot_outside :
        inside_reboot_window clock k first second ≡ false
        → q.nodes (mark_before_reboot c s v clock k first second w).1 ≡ q.nodes w
    mark_before_reboot_outside =
        (mark_before_reboot_lem c q s v means clock k max max-eq first second w d).4
