-- ===== src/Operator/Process/Progress.antt =====
-- What a pass that succeeds does for each node: who has passed the checks before a reboot may
-- reboot, who has rebooted is checked, and who has passed the checks after one is released.
use flatcar_linux_update_ope.Prelude.{ℕ, ◌≡◌, sym, subst, Bool, some, List, Bool-cases, inl, inr}
use flatcar_linux_update_ope.Prelude.Int.{pos}
use flatcar_linux_update_ope.Exec.{Outcome, ok}
use flatcar_linux_update_ope.Node.{Node}
use flatcar_linux_update_ope.Client.{NodeClient, Selectors}
use flatcar_linux_update_ope.Client.Laws.{IsQuiet}
use flatcar_linux_update_ope.Clock.{Clock}
use flatcar_linux_update_ope.K8sutil.Metadata.{UpdateNode}
use flatcar_linux_update_ope.K8sutil.Metadata.Names.{DistinctNames}
use flatcar_linux_update_ope.Operator.Vars.{Vars, package_vars}
use flatcar_linux_update_ope.Operator.Vars.Meaning.{IsLawful, Means, package_vars-Means}
use flatcar_linux_update_ope.Operator.Config.{Kontroller}
use flatcar_linux_update_ope.Operator.Marks.{inside_reboot_window}
use flatcar_linux_update_ope.Operator.Process.{steps}
use flatcar_linux_update_ope.Operator.Process.Flags.{IsForeign}
use flatcar_linux_update_ope.Operator.Process.Capacity.{waiting}
use flatcar_linux_update_ope.Operator.Process.Pairwise.{
  Pairwise, Pairwise-map, Pairwise-Then, Swapped, Pairwise-update_where, Maybe, Pairwise-same,
  Pairwise-update_first,
}
use flatcar_linux_update_ope.Operator.Process.Stepped.{Moved, Ended, steps-Stepped, choosing}
use flatcar_linux_update_ope.Operator.Process.Sweeps.{cleanup_f-KeepsName}
use flatcar_linux_update_ope.Operator.Process.Stages.{Progress, node-Progress}

module _ (c : NodeClient) (q : IsQuiet c) (s : Selectors) (v : Vars s) (means : Means s v)
    (clock : Clock) (k : Kontroller) (max : ℕ) (max-eq : k.max_rebooting_nodes ≡ pos max)
    (first second : clock.Time) where
  -- Of the last step only that it changed nodes by the choice.
  Ended-Maybe :
      (ns : List Node) (r : Outcome (Unit {0}) × c.World)
      → Ended c q s v means clock k max max-eq first second ns r
      → Pairwise (Maybe waiting (choosing k)) ns (q.nodes r.1)
  Ended-Maybe ns r e = elim (Bool-cases (inside_reboot_window clock k first second)) [
    | inl open_now ↦
        subst (Pairwise (Maybe waiting (choosing k)) ns) (sym (e.inside open_now).1)
          (Pairwise-update_first waiting (choosing k) _ ns)
    | inr shut ↦
        subst (Pairwise (Maybe waiting (choosing k)) ns) (sym (e.outside shut))
          (Pairwise-same waiting (choosing k) ns)
  ]

Moved-Swapped :
    (p : Node → Bool) (f : UpdateNode) (ns ms : List Node)
    → Moved p f ns ms
    → Pairwise (Swapped p f) ns ms
Moved-Swapped p f ns ms m =
    subst (Pairwise (Swapped p f) ns) (sym m.eq) (Pairwise-update_where p f ns m.fits)

-- After a pass whose steps all succeed, every node has gone on by its stage: one that has passed
-- the checks before a reboot, still wants to reboot and is in no checks after one is permitted to
-- reboot, and still in none; one that has rebooted is in the checks after a reboot; and one that has passed the checks
-- after a reboot, and has no label for those before one, is neither in them nor permitted to reboot
-- any more. The annotations configured for the checks must not be the protocol's own.
pub steps-Progress :
    (c : NodeClient) (q : IsQuiet c) (s : Selectors) (v : Vars s)
    → IsLawful s
    → package_vars s ≡ some v
    → (clock : Clock) (k : Kontroller) (max : ℕ) → k.max_rebooting_nodes ≡ pos max
    → IsForeign k.before_reboot_annotations
    → IsForeign k.after_reboot_annotations
    → (first second : clock.Time) (w : c.World) → DistinctNames (q.nodes w)
    → (steps c s v clock k first second w).0 ≡ ok tt
    → Pairwise (Progress k) (q.nodes w) (q.nodes (steps c s v clock k first second w).1)
steps-Progress c q s v lawful loaded clock k max max-eq before after first second w d h =
    let means : Means s v = package_vars-Means s v loaded lawful in
    let (n1, m1, (n2, m2, (n3, m3, (n4, m4, e)))) =
      steps-Stepped c q s v means clock k max max-eq first second w d h in
    Pairwise-map _ (Progress k)
      (λ n m (a, s1, (b, s2, (x, s3, (y, s4, s5)))).
        node-Progress c s v means k before after n a b x y m s1 s2 s3 s4 s5
          (cleanup_f-KeepsName c q s v means k.before_reboot_annotations))
      (q.nodes w) _
      (Pairwise-Then _ _ (q.nodes w) n1 _ (Moved-Swapped _ _ _ _ m1) (
        Pairwise-Then _ _ n1 n2 _ (Moved-Swapped _ _ _ _ m2) (
          Pairwise-Then _ _ n2 n3 _ (Moved-Swapped _ _ _ _ m3) (
            Pairwise-Then _ _ n3 n4 _ (Moved-Swapped _ _ _ _ m4)
              (Ended-Maybe c q s v means clock k max max-eq first second n4 _ e)))))
