-- ===== src/Operator/Process/Stepped.antt =====
-- A pass whose steps all succeed: the nodes between its steps.
use flatcar_linux_update_ope.Prelude.{
  ℕ, ◌-◌, ◌≤◌, ◌≡◌, sym, subst, Bool, true, false, not, ◌&&◌, List, All,
}
use flatcar_linux_update_ope.Prelude.Int.{pos}
use flatcar_linux_update_ope.Constants.{
  true_value, false_value, label_before_reboot, label_after_reboot,
}
use flatcar_linux_update_ope.Exec.{Outcome, ok, Exec, continue, ◌>>◌}
use flatcar_linux_update_ope.Exec.Laws.{continue_passed}
use flatcar_linux_update_ope.Node.{Node}
use flatcar_linux_update_ope.Client.{NodeClient, Selectors}
use flatcar_linux_update_ope.Client.Laws.{IsQuiet}
use flatcar_linux_update_ope.Clock.{Clock}
use flatcar_linux_update_ope.K8sutil.Metadata.{UpdateNode}
use flatcar_linux_update_ope.K8sutil.Metadata.Names.{DistinctNames, KeepsName}
use flatcar_linux_update_ope.K8sutil.Metadata.Loop.{update_first, update_where, Fitting}
use flatcar_linux_update_ope.Operator.Vars.{Vars}
use flatcar_linux_update_ope.Operator.Vars.Meaning.{Means, is_true, just_rebooted}
use flatcar_linux_update_ope.Operator.Config.{Kontroller}
use flatcar_linux_update_ope.Operator.Checks.{
  cleanup_f, check_reboot_f, has_all_annotations, cleanup_state, check_after_reboot,
  check_before_reboot,
}
use flatcar_linux_update_ope.Operator.Marks.{
  mark_f, mark_after_reboot, mark_before_reboot, inside_reboot_window,
}
use flatcar_linux_update_ope.Operator.Process.{steps}
use flatcar_linux_update_ope.Operator.Process.Listed.{Swept}
use flatcar_linux_update_ope.Operator.Process.Sweeps.{
  cleanup_state-Swept, check_after_reboot-Swept, check_before_reboot-Swept, mark_after_reboot-Swept,
  cleanup_f-KeepsName, check_reboot_f-KeepsName, mark_f-KeepsName,
}
use flatcar_linux_update_ope.Operator.Process.Capacity.{load, waiting}
use flatcar_linux_update_ope.Operator.Process.Window.{mark_before_reboot_lem}
use flatcar_linux_update_ope.Operator.Process.Pairwise.{DistinctNames-update_where}

-- Every node that passes the test was updated, and none of the updates panicked.
pub record Moved (p : Node → Bool) (f : UpdateNode) (ns ms : List Node) : Type 0 where
  pub eq : ms ≡ update_where p f ns
  pub fits : All (Fitting p f) ns

module _ (c : NodeClient) (q : IsQuiet c) (p : Node → Bool) (f : UpdateNode)
    (keeps : KeepsName f) where
  -- A step that succeeds, and the rest of the pass after it.
  pub rest_of :
      (Q : List Node → Outcome (Unit {0}) × c.World → Type 0) (rest : Exec c.World (Unit {0}))
      → ((w : c.World) → DistinctNames (q.nodes w) → (rest w).0 ≡ ok tt → Q (q.nodes w) (rest w))
      → (ns : List Node) → DistinctNames ns
      → (r : Outcome (Unit {0}) × c.World) → Swept c q f p ns r
      → (continue r (λ _. rest)).0 ≡ ok tt
      → (ms : List Node) × Moved p f ns ms × Q ms (continue r (λ _. rest))
  rest_of Q rest next ns d r (k, part, all) h =
      let (a, done, passed_rest, same) = continue_passed r (λ _. rest) tt h in
      let (eq, fits) = all done in
      (
        q.nodes r.1,
        record { eq = eq; fits = fits },
        subst (Q (q.nodes r.1)) (sym same) (
            next r.1 (subst DistinctNames (sym eq) (DistinctNames-update_where p f keeps ns d))
              passed_rest),
      )

module _ (k : Kontroller) where
  abbrev pub permitting : UpdateNode
  permitting = check_reboot_f label_before_reboot k.before_reboot_annotations true_value

  abbrev pub releasing : UpdateNode
  releasing = check_reboot_f label_after_reboot k.after_reboot_annotations false_value

  abbrev pub reporting : UpdateNode
  reporting = mark_f label_after_reboot k.after_reboot_annotations

  abbrev pub choosing : UpdateNode
  choosing = mark_f label_before_reboot k.before_reboot_annotations

  abbrev pub checked_before : Node → Bool
  checked_before n =
      is_true n.labels label_before_reboot && has_all_annotations n k.before_reboot_annotations

  abbrev pub checked_after : Node → Bool
  checked_after n =
      is_true n.labels label_after_reboot && has_all_annotations n k.after_reboot_annotations

  abbrev pub reported : Node → Bool
  reported n = not (is_true n.labels label_after_reboot) && just_rebooted n.annotations

module _ (c : NodeClient) (s : Selectors) (v : Vars s) (k : Kontroller) where
  abbrev pub cleaning_up : UpdateNode
  cleaning_up = cleanup_f c s v k.before_reboot_annotations

module _ (c : NodeClient) (q : IsQuiet c) (s : Selectors) (v : Vars s) (means : Means s v)
    (clock : Clock) (k : Kontroller) (max : ℕ) (max-eq : k.max_rebooting_nodes ≡ pos max)
    (first second : clock.Time) where
  -- The last step after the others left the nodes `ns`.
  pub record Ended (ns : List Node) (r : Outcome (Unit {0}) × c.World) : Type 0 where
    pub inside :
        inside_reboot_window clock k first second ≡ true
        → (load ns ≤ max) × (q.nodes r.1 ≡ update_first (max - load ns) waiting (choosing k) ns)
    pub outside : inside_reboot_window clock k first second ≡ false → q.nodes r.1 ≡ ns

  last :
      (w : c.World)
      → DistinctNames (q.nodes w)
      → (mark_before_reboot c s v clock k first second w).0 ≡ ok tt
      → Ended (q.nodes w) (mark_before_reboot c s v clock k first second w)
  last w d h =
      let (j, le, part, whole, shut) =
        mark_before_reboot_lem c q s v means clock k max max-eq first second w d in
      record { inside = whole h; outside = shut }

  abbrev From4 : List Node → Outcome (Unit {0}) × c.World → Type 0
  From4 ns r = (ms : List Node) × Moved (checked_before k) (permitting k) ns ms × Ended ms r

  abbrev From3 : List Node → Outcome (Unit {0}) × c.World → Type 0
  From3 ns r = (ms : List Node) × Moved (reported k) (reporting k) ns ms × From4 ms r

  abbrev From2 : List Node → Outcome (Unit {0}) × c.World → Type 0
  From2 ns r = (ms : List Node) × Moved (checked_after k) (releasing k) ns ms × From3 ms r

  -- The nodes between the steps of a pass.
  abbrev pub Stepped : List Node → Outcome (Unit {0}) × c.World → Type 0
  Stepped ns r = (ms : List Node) × Moved (λ _. true) (cleaning_up c s v k) ns ms × From2 ms r

  from4 :
      (w : c.World)
      → DistinctNames (q.nodes w)
      → ((check_before_reboot c s v k >> mark_before_reboot c s v clock k first second) w).0 ≡ ok tt
      → From4
          (q.nodes w)
          ((check_before_reboot c s v k >> mark_before_reboot c s v clock k first second) w)
  from4 w d =
      rest_of c q (checked_before k) (permitting k) (check_reboot_f-KeepsName _ _ _) Ended _ last
        (q.nodes w) d (check_before_reboot c s v k w)
        (check_before_reboot-Swept c q s v means k w d)

  from3 :
      (w : c.World)
      → DistinctNames (q.nodes w)
      → ((mark_after_reboot c s v k
            >> (check_before_reboot c s v k >> mark_before_reboot c s v clock k first second))
          w).0
        ≡ ok tt
      → From3 (q.nodes w) (
          (mark_after_reboot c s v k
              >> (check_before_reboot c s v k >> mark_before_reboot c s v clock k first second))
            w)
  from3 w d =
      rest_of c q (reported k) (reporting k) (mark_f-KeepsName _ _) From4 _ from4 (q.nodes w) d
        (mark_after_reboot c s v k w) (mark_after_reboot-Swept c q s v means k w d)

  from2 :
      (w : c.World)
      → DistinctNames (q.nodes w)
      → ((check_after_reboot c s v k
            >> (mark_after_reboot c s v k
                >> (check_before_reboot c s v k >> mark_before_reboot c s v clock k first second)))
          w).0
        ≡ ok tt
      → From2 (q.nodes w) (
          (check_after_reboot c s v k
              >> (mark_after_reboot c s v k
                  >> (check_before_reboot c s v k
                      >> mark_before_reboot c s v clock k first second)))
            w)
  from2 w d =
      rest_of c q (checked_after k) (releasing k) (check_reboot_f-KeepsName _ _ _) From3 _ from3
        (q.nodes w) d (check_after_reboot c s v k w) (check_after_reboot-Swept c q s v means k w d)

  pub steps-Stepped :
      (w : c.World)
      → DistinctNames (q.nodes w)
      → (steps c s v clock k first second w).0 ≡ ok tt
      → Stepped (q.nodes w) (steps c s v clock k first second w)
  unfolding steps
  steps-Stepped w d =
      rest_of c q (λ _. true) (cleaning_up c s v k)
        (cleanup_f-KeepsName c q s v means k.before_reboot_annotations) From2 _ from2 (q.nodes w) d
        (cleanup_state c s v k w) (cleanup_state-Swept c q s v means k w d)
