-- ===== src/Coordination/Turns/Visited.antt =====
-- What one visit of a loop does to the node of its name and to the others.
use mathlib.Core.Bool.{false≢true}
use flatcar_linux_update_ope.Prelude.{
  String, ◌==◌, eq_iff, ◌≡◌, ◌≢◌, refl, ◌∙◌, sym, ap, true, false, none, List, [], ◌∷◌, arith, ℕ,
}
use flatcar_linux_update_ope.Constants.{
  true_value, false_value, label_before_reboot, label_after_reboot,
}
use flatcar_linux_update_ope.Exec.{wrapping}
use flatcar_linux_update_ope.Node.{Node}
use flatcar_linux_update_ope.Client.{NodeClient, Selectors}
use flatcar_linux_update_ope.Client.Laws.{IsQuiet}
use flatcar_linux_update_ope.Clock.{Clock}
use flatcar_linux_update_ope.K8sutil.Metadata.{UpdateNode}
use flatcar_linux_update_ope.K8sutil.Metadata.Names.{KeepsName, has_name, or_self}
use flatcar_linux_update_ope.K8sutil.Metadata.Loop.{Updates}
use flatcar_linux_update_ope.Operator.Vars.{Vars}
use flatcar_linux_update_ope.Operator.Vars.Meaning.{Means}
use flatcar_linux_update_ope.Operator.Config.{Kontroller}
use flatcar_linux_update_ope.Operator.Checks.{cleanup_f, check_reboot_f}
use flatcar_linux_update_ope.Operator.Marks.{mark_f, mark}
use flatcar_linux_update_ope.Operator.Process.Flags.{
  checking_after, engaged, WellAnnotated, Cleaned, IsForeign,
}
use flatcar_linux_update_ope.Operator.Process.Nodes.{check_reboot_f-IsChecked, mark_f-IsMarked}
use flatcar_linux_update_ope.Operator.Process.Effects.{
  or_self_lem, or_self_some, reads_true, marked_WellAnnotated, marked_after_Cleaned,
  marked_after_Counted, checked_after_engaged, checked_after_WellAnnotated, checked_after_Cleaned,
  checked_before_Counted, checked_before_WellAnnotated,
}
use flatcar_linux_update_ope.Operator.Process.Cleanup.{
  cleaned-Cleaned, cleaned-engaged, cleaned-WellAnnotated,
}
use flatcar_linux_update_ope.Operator.Process.Listed.{update_node_retry-Updates, wrapping-Updates}
use flatcar_linux_update_ope.Operator.Process.Sweeps.{
  cleanup_f-KeepsName, check_reboot_f-KeepsName, mark_f-KeepsName,
}
use flatcar_linux_update_ope.Coordination.{
  Phase, cleaning, checking_after_reboot, marking_after_reboot, checking_before_reboot,
  marking_before_reboot,
}
use flatcar_linux_update_ope.Coordination.Turns.{visiting, visit}
use flatcar_linux_update_ope.Coordination.Turns.Invariant.{Local, Within}

has_name-here :
    (x n : Node) (rest : List Node) → (x.name == n.name) ≡ true → has_name x.name (n ∷ rest) ≡ true
has_name-here x n rest hit = ground (arith, eq_iff x.name n.name, eq_iff n.name x.name)

has_name-there :
    (x n : Node) (rest : List Node)
    → (x.name == n.name) ≡ false
    → has_name x.name (n ∷ rest) ≡ has_name x.name rest
has_name-there x n rest miss = ground (arith, eq_iff x.name n.name, eq_iff n.name x.name)

-- A node that the visit is not for.
pub missed-Local :
    (p : Phase) (n : Node) (rest : List Node) (x : Node)
    → (x.name == n.name) ≡ false
    → Local (visiting p (n ∷ rest)) x
    → Local (visiting p rest) x
missed-Local cleaning n rest x miss h = λ a. h (has_name-there x n rest miss ∙ a)
missed-Local checking_after_reboot n rest x miss h = h
missed-Local marking_after_reboot n rest x miss (clean, pending, done) = (
  clean,
  (λ a. pending (has_name-there x n rest miss ∙ a)),
  λ a. done (has_name-there x n rest miss ∙ a),
)
missed-Local checking_before_reboot n rest x miss (clean, counts, pending) =
    (clean, counts, λ a. pending (has_name-there x n rest miss ∙ a))
missed-Local marking_before_reboot n rest x miss h = tt

module _ (c : NodeClient) (q : IsQuiet c) (s : Selectors) (v : Vars s) (means : Means s v)
    (clock : Clock) (k : Kontroller) where
  -- The update that a visit makes.
  abbrev pub update_of : Phase → UpdateNode
  update_of cleaning = cleanup_f c s v k.before_reboot_annotations
  update_of checking_after_reboot =
      check_reboot_f label_after_reboot k.after_reboot_annotations false_value
  update_of marking_after_reboot = mark_f label_after_reboot k.after_reboot_annotations
  update_of checking_before_reboot =
      check_reboot_f label_before_reboot k.before_reboot_annotations true_value
  update_of marking_before_reboot = mark_f label_before_reboot k.before_reboot_annotations

  pub update_of-KeepsName : (p : Phase) → KeepsName (update_of p)
  update_of-KeepsName cleaning = cleanup_f-KeepsName c q s v means k.before_reboot_annotations
  update_of-KeepsName checking_after_reboot = check_reboot_f-KeepsName _ _ _
  update_of-KeepsName marking_after_reboot = mark_f-KeepsName _ _
  update_of-KeepsName checking_before_reboot = check_reboot_f-KeepsName _ _ _
  update_of-KeepsName marking_before_reboot = mark_f-KeepsName _ _

  marks :
      (label : String) (annotations : List String) (format : String)
      → Updates c q
          (mark_f label annotations)
          (mark_f-KeepsName _ _)
          (λ n. wrapping format [] (mark c n.name label annotations))
  unfolding mark
  marks label annotations format =
      wrapping-Updates c q (mark_f label annotations) (mark_f-KeepsName _ _) format (λ _. []) _
        (wrapping-Updates c q (mark_f label annotations) (mark_f-KeepsName _ _)
          "setting label %q to %q on node %q: %w" (λ n. label ∷ true_value ∷ n.name ∷ []) _
          (update_node_retry-Updates c q (mark_f label annotations) (mark_f-KeepsName _ _)))

  pub visit-Updates :
      (p : Phase) → Updates c q (update_of p) (update_of-KeepsName p) (visit c s v clock k p)
  unfolding visit
  visit-Updates cleaning =
      wrapping-Updates c q (update_of cleaning) (update_of-KeepsName cleaning)
        "cleaning up node %q: %w" (λ n. n.name ∷ []) _
        (update_node_retry-Updates c q (update_of cleaning) (update_of-KeepsName cleaning))
  visit-Updates checking_after_reboot =
      wrapping-Updates c q (update_of checking_after_reboot) (check_reboot_f-KeepsName _ _ _)
        "updating node %q: %w" (λ n. n.name ∷ []) _
        (update_node_retry-Updates c q (update_of checking_after_reboot)
          (check_reboot_f-KeepsName _ _ _))
  visit-Updates marking_after_reboot =
      marks label_after_reboot k.after_reboot_annotations
        "labeling node for after reboot checks: %w"
  visit-Updates checking_before_reboot =
      wrapping-Updates c q (update_of checking_before_reboot) (check_reboot_f-KeepsName _ _ _)
        "updating node %q: %w" (λ n. n.name ∷ []) _
        (update_node_retry-Updates c q (update_of checking_before_reboot)
          (check_reboot_f-KeepsName _ _ _))
  visit-Updates marking_before_reboot =
      marks label_before_reboot k.before_reboot_annotations
        "labeling node for before reboot checks: %w"

  module _ (before : IsForeign k.before_reboot_annotations)
      (after : IsForeign k.after_reboot_annotations) (n : Node) (rest : List Node) (x : Node)
      (hit : (x.name == n.name) ≡ true) where
    -- The node that the visit is for stays well annotated,
    pub hit-WellAnnotated :
        (p : Phase)
        → Local (visiting p (n ∷ rest)) x
        → WellAnnotated x
        → WellAnnotated (or_self x (update_of p x))
    hit-WellAnnotated cleaning h well =
        cleaned-WellAnnotated c s v means k.before_reboot_annotations x before well
    hit-WellAnnotated checking_after_reboot h well =
        or_self_lem WellAnnotated x (update_of checking_after_reboot x) well λ m e.
          checked_after_WellAnnotated k.after_reboot_annotations after x m
            (check_reboot_f-IsChecked _ _ _ x m e)
    hit-WellAnnotated marking_after_reboot h well =
        or_self_lem WellAnnotated x (update_of marking_after_reboot x) well λ m e.
          marked_WellAnnotated k.after_reboot_annotations after x m label_after_reboot
            (mark_f-IsMarked _ _ x m e) well
    hit-WellAnnotated checking_before_reboot (clean, counts, pending) well =
        or_self_lem WellAnnotated x (update_of checking_before_reboot x) well λ m e.
          checked_before_WellAnnotated k.before_reboot_annotations before x m
            (check_reboot_f-IsChecked _ _ _ x m e) (pending (has_name-here x n rest hit)) clean
    hit-WellAnnotated marking_before_reboot h well =
        or_self_lem WellAnnotated x (update_of marking_before_reboot x) well λ m e.
          marked_WellAnnotated k.before_reboot_annotations before x m label_before_reboot
            (mark_f-IsMarked _ _ x m e) well

    -- it begins to take part in a reboot only by the mark before a reboot,
    pub hit-engaged :
        (p : Phase)
        → p ≢ marking_before_reboot
        → Local (visiting p (n ∷ rest)) x
        → engaged (or_self x (update_of p x)) ≡ true
        → engaged x ≡ true
    hit-engaged cleaning other h = cleaned-engaged c s v means k.before_reboot_annotations x
    hit-engaged checking_after_reboot other h =
        or_self_lem (λ m. engaged m ≡ true → engaged x ≡ true) x (update_of checking_after_reboot x)
          (λ e. e)
          λ m e.
            checked_after_engaged k.after_reboot_annotations after x m
              (check_reboot_f-IsChecked _ _ _ x m e)
    hit-engaged marking_after_reboot other (clean, pending, done) =
        λ _. pending (has_name-here x n rest hit)
    hit-engaged checking_before_reboot other (clean, counts, pending) =
        let b = pending (has_name-here x n rest hit) in λ _. ground (arith, b)
    hit-engaged marking_before_reboot other h = absurd (other refl)

    -- and what the pass has established of it is as for a node that was visited.
    pub hit-Local :
        (p : Phase) (max : ℕ) (ns : List Node)
        → Within max (visiting p (n ∷ rest)) ns
        → update_of p x ≢ none
        → Local (visiting p (n ∷ rest)) x
        → Local (visiting p rest) (or_self x (update_of p x))
    hit-Local cleaning max ns within fits h =
        λ _. cleaned-Cleaned c s v means k.before_reboot_annotations x
    hit-Local checking_after_reboot max ns within fits h =
        or_self_lem Cleaned x (update_of checking_after_reboot x) h λ m e.
          checked_after_Cleaned k.after_reboot_annotations after x m
            (check_reboot_f-IsChecked _ _ _ x m e) h
    hit-Local marking_after_reboot max ns within fits (clean, pending, done) =
        or_self_some (Local (visiting marking_after_reboot rest)) x
          (update_of marking_after_reboot x) fits
          λ m e.
            let r = mark_f-IsMarked label_after_reboot k.after_reboot_annotations x m e in
            let labelled : checking_after m ≡ true = ap reads_true (r.labels label_after_reboot) in
            (
              marked_after_Cleaned k.after_reboot_annotations after x m r clean,
              (λ _. ground (arith, labelled)),
              λ _. marked_after_Counted k.after_reboot_annotations after x m r,
            )
    hit-Local checking_before_reboot max ns (fresh, d) fits (clean, counts, pending) =
        let b = pending (has_name-here x n rest hit) in
        or_self_some (Local (visiting checking_before_reboot rest)) x
          (update_of checking_before_reboot x) fits
          λ m e.
            let r =
              check_reboot_f-IsChecked label_before_reboot k.before_reboot_annotations true_value x
                m e in
            let same : m.name ≡ n.name = r.name ∙ (eq_iff x.name n.name).0 hit in
            (
              (λ t. absurd (false≢true (sym (ap reads_true (r.labels label_before_reboot)) ∙ t))),
              checked_before_Counted k.before_reboot_annotations before x m r b clean,
              λ a. absurd (false≢true (sym fresh ∙ sym (ap (λ j. has_name j rest) same) ∙ a)),
            )
    hit-Local marking_before_reboot max ns within fits h = tt
