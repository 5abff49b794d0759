-- ===== src/Operator/Process/Checked.antt =====
-- `cleanupState` and `checkReboot` of pkg/operator/operator.go, entry by entry of each node.
use flatcar_linux_update_ope.Prelude.{
  String, ◌==◌, ◌≡◌, refl, ◌∙◌, sym, ap, subst, Bool, true, false, ◌&&◌, none, List, [], ◌∷◌, all,
  Bool-cases, inl, inr, if◌then◌else◌, Option, some, map, arith,
}
use flatcar_linux_update_ope.Constants.{true_value, label_before_reboot, label_after_reboot}
use flatcar_linux_update_ope.GoMap.{entry, has, contains, or_empty}
use flatcar_linux_update_ope.GoMap.Laws.{entry-delete, entry-delete_all}
use flatcar_linux_update_ope.Exec.{ok}
use flatcar_linux_update_ope.Node.{Node}
use flatcar_linux_update_ope.Client.{NodeClient, Selectors}
use flatcar_linux_update_ope.Client.Laws.{IsQuiet}
use flatcar_linux_update_ope.K8sutil.Metadata.Names.{DistinctNames, or_self}
use flatcar_linux_update_ope.Operator.Vars.{Vars, package_vars}
use flatcar_linux_update_ope.Operator.Vars.Meaning.{
  IsLawful, Means, package_vars-Means, is_true, rebootable,
}
use flatcar_linux_update_ope.Operator.Config.{Kontroller}
use flatcar_linux_update_ope.Operator.Checks.{
  check_reboot_f, has_all_annotations, is_true_entry, cleanup_f, cleanup_state, check_after_reboot,
  check_before_reboot,
}
use flatcar_linux_update_ope.Operator.Process.Nodes.{IsChecked, check_reboot_f-IsChecked}
use flatcar_linux_update_ope.Operator.Process.Pairwise.{
  Pairwise, Pairwise-map, Swapped, Pairwise-update_where,
}
use flatcar_linux_update_ope.Operator.Process.Sweeps.{
  check_before_reboot-Swept, check_after_reboot-Swept,
}
use flatcar_linux_update_ope.Operator.Process.Stages.{touched, untouched}
use flatcar_linux_update_ope.Operator.Process.Cleanup.{
  removed, spared_unlabelled, spared_wanting, cleaned_wiped,
}
use flatcar_linux_update_ope.Operator.Process.Refinement.{cleanup_state-eq-map}

-- The label and every one of the annotations are "true".
abbrev pub complete : String → List String → Node → Bool
complete label annotations n =
    is_true n.labels label && all (λ a. is_true n.annotations a) annotations

is_true_entry_lem : (o : Option String) → is_true_entry o ≡ (or_empty o == true_value)
is_true_entry_lem none = refl
is_true_entry_lem (some v) = refl

has_all_annotations-eq-all :
    (n : Node) (annotations : List String)
    → has_all_annotations n annotations ≡ all (λ a. is_true n.annotations a) annotations
unfolding has_all_annotations
has_all_annotations-eq-all n [] = refl
has_all_annotations-eq-all n (a ∷ annotations) =
    rw (is_true_entry_lem (entry n.annotations a), has_all_annotations-eq-all n annotations)
      (ground arith)

-- One node before and after its checks were looked at.
pub record Checked (label : String) (annotations : List String) (value : String) (n m : Node)
    : Type 0 where
  pub released : complete label annotations n ≡ true → IsChecked label annotations value n m
  pub kept : complete label annotations n ≡ false → m ≡ n

Swapped-Checked :
    (label : String) (annotations : List String) (value : String) (n m : Node)
    → Swapped
        (λ x. is_true x.labels label && has_all_annotations x annotations)
        (check_reboot_f label annotations value)
        n
        m
    → Checked label annotations value n m
Swapped-Checked label annotations value n m swapped =
    let same : (is_true n.labels label && has_all_annotations n annotations)
        ≡ complete label annotations n =
      ap (λ b. is_true n.labels label && b) (has_all_annotations-eq-all n annotations) in
    record {
      released = λ e.
          touched _ _ n m swapped (IsChecked label annotations value n) (same ∙ e)
            (check_reboot_f-IsChecked label annotations value n);
      kept = λ e. untouched _ _ n m swapped (same ∙ e);
    }

-- One node before and after the cleanup.
pub record Cleared (annotations : List String) (n m : Node) : Type 0 where
  pub unlabelled : has n.labels label_before_reboot ≡ false → m ≡ n
  pub wanting : rebootable n.annotations ≡ true → m ≡ n
  pub name : m.name ≡ n.name
  pub unschedulable : m.unschedulable ≡ n.unschedulable
  pub labels :
      has n.labels label_before_reboot ≡ true
      → rebootable n.annotations ≡ false
      → (j : String)
      → entry m.labels j ≡ (if j == label_before_reboot then none else entry n.labels j)
  pub annotated :
      has n.labels label_before_reboot ≡ true
      → rebootable n.annotations ≡ false
      → (j : String)
      → entry m.annotations j ≡ (if contains annotations j then none else entry n.annotations j)

Pairwise-each :
    (R : Node → Node → Type 0) (g : Node → Node)
    → ((n : Node) → R n (g n))
    → (ns : List Node) → Pairwise R ns (map g ns)
Pairwise-each R g h [] = tt
Pairwise-each R g h (n ∷ ns) = (h n, Pairwise-each R g h ns)

module _ (c : NodeClient) (s : Selectors) (v : Vars s) (means : Means s v)
    (annotations : List String) (n : Node) where
  -- What the cleanup keeps of every node.
  cleaned_keeps :
      (P : Node → Type 0)
      → P n
      → P (removed annotations n)
      → P (or_self n (cleanup_f c s v annotations n))
  cleaned_keeps P same wiped = elim (Bool-cases (has n.labels label_before_reboot)) [
    | inr e ↦ subst P (sym (spared_unlabelled c s v means annotations n e)) same
    | inl e ↦ elim (Bool-cases (rebootable n.annotations)) [
      | inl w ↦ subst P (sym (spared_wanting c s v means annotations n w)) same
      | inr w ↦ subst P (sym (cleaned_wiped c s v means annotations n e w)) wiped
    ]
  ]

  cleaned-Cleared : Cleared annotations n (or_self n (cleanup_f c s v annotations n))
  cleaned-Cleared = record {
    unlabelled = spared_unlabelled c s v means annotations n;
    wanting = spared_wanting c s v means annotations n;
    name = cleaned_keeps (λ m. m.name ≡ n.name) refl refl;
    unschedulable = cleaned_keeps (λ m. m.unschedulable ≡ n.unschedulable) refl refl;
    labels = λ e w j.
        ap (λ m. entry (Node.labels m) j) (cleaned_wiped c s v means annotations n e w)
        ∙ entry-delete n.labels label_before_reboot j;
    annotated = λ e w j.
        ap (λ m. entry (Node.annotations m) j) (cleaned_wiped c s v means annotations n e w)
        ∙ entry-delete_all n.annotations annotations j;
  }

module _ (c : NodeClient) (q : IsQuiet c) (s : Selectors) (v : Vars s) (lawful : IsLawful s)
    (loaded : package_vars s ≡ some v) (k : Kontroller) (w : c.World)
    (d : DistinctNames (q.nodes w)) where
  means : Means s v
  means = package_vars-Means s v loaded lawful

  -- On a quiet API server, and with lawful selectors: after a cleanup that succeeds, every node
  -- stored before that has the label before-reboot, with any value, and is not rebootable has lost
  -- that label and the annotations configured for the checks before a reboot, and kept the others;
  -- and every other node is as it was. A node is rebootable if reboot-needed is "true", and none of
  -- reboot-paused, reboot-ok and reboot-in-progress is.
  pub cleanup_state-Cleared :
      (cleanup_state c s v k w).0 ≡ ok tt
      → Pairwise
          (Cleared k.before_reboot_annotations)
          (q.nodes w)
          (q.nodes (cleanup_state c s v k w).1)
  cleanup_state-Cleared h =
      subst (Pairwise (Cleared k.before_reboot_annotations) (q.nodes w))
        (sym (cleanup_state-eq-map c q s v lawful loaded k w d h))
        (Pairwise-each (Cleared k.before_reboot_annotations) _
          (cleaned-Cleared c s v means k.before_reboot_annotations) (q.nodes w))

  -- On a quiet API server, and with lawful selectors: after `checkBeforeReboot` succeeds, every node
  -- stored before whose label before-reboot and whose configured annotations were all "true" has
  -- lost that label and those annotations, has reboot-ok "true", and kept its other labels and
  -- annotations; and every other node is as it was.
  pub check_before_reboot-Checked :
      (check_before_reboot c s v k w).0 ≡ ok tt
      → Pairwise
          (Checked label_before_reboot k.before_reboot_annotations "true")
          (q.nodes w)
          (q.nodes (check_before_reboot c s v k w).1)
  check_before_reboot-Checked h =
      let (at, fit) = (check_before_reboot-Swept c q s v means k w d).2 h in
      subst (Pairwise (Checked label_before_reboot k.before_reboot_annotations "true") (q.nodes w))
        (sym at)
        (Pairwise-map _ _ (Swapped-Checked label_before_reboot k.before_reboot_annotations "true") _
          _ (Pairwise-update_where _ _ (q.nodes w) fit))

  -- On a quiet API server, and with lawful selectors: after `checkAfterReboot` succeeds, every node
  -- stored before whose label after-reboot and whose configured annotations were all "true" has
  -- lost that label and those annotations, has reboot-ok "false", and kept its other labels and
  -- annotations; and every other node is as it was.
  pub check_after_reboot-Checked :
      (check_after_reboot c s v k w).0 ≡ ok tt
      → Pairwise
          (Checked label_after_reboot k.after_reboot_annotations "false")
          (q.nodes w)
          (q.nodes (check_after_reboot c s v k w).1)
  check_after_reboot-Checked h =
      let (at, fit) = (check_after_reboot-Swept c q s v means k w d).2 h in
      subst (Pairwise (Checked label_after_reboot k.after_reboot_annotations "false") (q.nodes w))
        (sym at)
        (Pairwise-map _ _ (Swapped-Checked label_after_reboot k.after_reboot_annotations "false") _
          _ (Pairwise-update_where _ _ (q.nodes w) fit))
