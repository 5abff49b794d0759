-- ===== src/Operator/Process/Reconciled.antt =====
-- A pass whose steps all succeed, as one function of the stored nodes.
use flatcar_linux_update_ope.Prelude.{
  ℕ, ◌-◌, ◌≡◌, ap, ◌∙◌, Bool, true, some, List, Bool-cases, inl, inr, if◌then◌else◌,
}
use flatcar_linux_update_ope.Prelude.Int.{pos}
use flatcar_linux_update_ope.Exec.{ok}
use flatcar_linux_update_ope.Node.{Node}
use flatcar_linux_update_ope.Client.{NodeClient, Selectors}
use flatcar_linux_update_ope.Client.Laws.{IsQuiet}
use flatcar_linux_update_ope.Clock.{Clock}
use flatcar_linux_update_ope.K8sutil.Metadata.Names.{DistinctNames}
use flatcar_linux_update_ope.K8sutil.Metadata.Loop.{update_first, update_where}
use flatcar_linux_update_ope.Operator.Vars.{Vars, package_vars}
use flatcar_linux_update_ope.Operator.Vars.Meaning.{IsLawful, package_vars-Means}
use flatcar_linux_update_ope.Operator.Config.{Kontroller}
use flatcar_linux_update_ope.Operator.Marks.{inside_reboot_window}
use flatcar_linux_update_ope.Operator.Process.{steps}
use flatcar_linux_update_ope.Operator.Process.Capacity.{load, waiting}
use flatcar_linux_update_ope.Operator.Process.Stepped.{
  steps-Stepped, cleaning_up, permitting, releasing, reporting, choosing, checked_before,
  checked_after, reported,
}

module _ (c : NodeClient) (s : Selectors) (v : Vars s) (k : Kontroller) where
  -- The nodes after the first four steps of a pass,
  abbrev pub settled : List Node → List Node
  settled ns = update_where (checked_before k) (permitting k) (
      update_where (reported k) (reporting k) (
        update_where (checked_after k) (releasing k)
          (update_where (λ _. true) (cleaning_up c s v k) ns)))

  -- and after the last one.
  abbrev pub reconciled : ℕ → Bool → List Node → List Node
  reconciled max inside ns =
      if inside
      then update_first (max - load (settled ns)) waiting (choosing k) (settled ns)
      else settled ns

-- A pass of the operator whose steps all succeed is one function of the stored nodes: clean up, release
-- the nodes that passed their checks after a reboot, report those that have rebooted, permit those
-- that passed their checks before one, and, inside the reboot window, choose the first of those
-- that wait, as many as the configured number exceeds the load.
pub steps-eq-reconciled :
    (c : NodeClient) (q : IsQuiet c) (s : Selectors) (v : Vars s)
    → IsLawful s
    → package_vars s ≡ some v
    → (clock : Clock) (k : Kontroller) (max : ℕ) → k.max_rebooting_nodes ≡ pos max
    → (first second : clock.Time) (w : c.World) → DistinctNames (q.nodes w)
    → (steps c s v clock k first second w).0 ≡ ok tt
    → q.nodes (steps c s v clock k first second w).1
      ≡ reconciled c s v k max (inside_reboot_window clock k first second) (q.nodes w)
steps-eq-reconciled c q s v lawful loaded clock k max max-eq first second w d h =
    let (n1, m1, (n2, m2, (n3, m3, (n4, m4, e)))) =
      steps-Stepped c q s v (package_vars-Means s v loaded lawful) clock k max max-eq first second w
        d h in
    let four : n4 ≡ settled c s v k (q.nodes w) =
      m4.eq
      ∙ ap (update_where (checked_before k) (permitting k)) (
          m3.eq
          ∙ ap (update_where (reported k) (reporting k))
              (m2.eq ∙ ap (update_where (checked_after k) (releasing k)) m1.eq)) in
    elim (Bool-cases (inside_reboot_window clock k first second)) [
      | inl open_now ↦ rw open_now (
          (e.inside open_now).1 ∙ ap (λ l. update_first (max - load l) waiting (choosing k) l) four)
      | inr shut ↦ rw shut (e.outside shut ∙ four)
    ]
