-- ===== src/Operator/Process/Stages.antt =====
-- The stages of a node's reboot, and what the steps of a pass that succeeds make of them.
use flatcar_linux_update_ope.Prelude.{
  ◌≡◌, refl, sym, subst, ap, ◌∙◌, Bool, true, false, some, Bool-cases, inl, inr, arith,
}
use flatcar_linux_update_ope.Constants.{
  true_value, false_value, label_before_reboot, label_after_reboot, annotation_ok_to_reboot,
}
use flatcar_linux_update_ope.GoMap.{has}
use flatcar_linux_update_ope.Node.{Node}
use flatcar_linux_update_ope.Client.{NodeClient, Selectors}
use flatcar_linux_update_ope.K8sutil.Metadata.{UpdateNode}
use flatcar_linux_update_ope.K8sutil.Metadata.Names.{or_self}
use flatcar_linux_update_ope.Operator.Vars.{Vars}
use flatcar_linux_update_ope.Operator.Vars.Meaning.{Means, just_rebooted, rebootable}
use flatcar_linux_update_ope.Operator.Config.{Kontroller}
use flatcar_linux_update_ope.Operator.Process.Flags.{
  checking_before, checking_after, allowed, IsForeign,
}
use flatcar_linux_update_ope.Operator.Process.Nodes.{check_reboot_f-IsChecked, mark_f-IsMarked}
use flatcar_linux_update_ope.Operator.Process.Effects.{
  or_self_lem, or_self_some, marked_ok, reads_true, unlabelled_false,
}
use flatcar_linux_update_ope.Operator.Process.Cleanup.{
  spared_unlabelled, spared_wanting, cleaned-rebooted,
}
use flatcar_linux_update_ope.Operator.Process.Capacity.{waiting}
use flatcar_linux_update_ope.Operator.Process.Pairwise.{Swapped, Maybe}
use flatcar_linux_update_ope.Operator.Process.Stepped.{
  cleaning_up, permitting, releasing, reporting, choosing, checked_before, checked_after, reported,
}
use flatcar_linux_update_ope.K8sutil.Metadata.Names.{KeepsName, or_self-name}
use flatcar_linux_update_ope.Operator.Process.Sweeps.{check_reboot_f-KeepsName, mark_f-KeepsName}

module _ (p : Node → Bool) (f : UpdateNode) (n m : Node) (swapped : Swapped p f n m) where
  -- A node that the step left alone, and one that it updated.
  pub untouched : p n ≡ false → m ≡ n
  untouched miss = swapped.eq ∙ rw miss refl

  pub touched : (P : Node → Type 0) → p n ≡ true → ((x : Node) → f n ≡ some x → P x) → P m
  touched P hit k =
      let e : m ≡ or_self n (f n) = swapped.eq ∙ rw hit refl in
      subst P (sym e) (or_self_some P n (f n) (swapped.hit hit) k)

  -- Either way.
  maybe_touched : (P : Node → Type 0) → P n → ((x : Node) → f n ≡ some x → P x) → P m
  maybe_touched P h k = elim (Bool-cases (p n)) [
    | inl hit ↦ touched P hit k
    | inr miss ↦ subst P (sym (untouched miss)) h
  ]

  swapped-name : KeepsName f → m.name ≡ n.name
  swapped-name keeps = elim (Bool-cases (p n)) [
    | inl hit ↦
        let e : m ≡ or_self n (f n) = swapped.eq ∙ rw hit refl in
        ap (λ x. x.name) e ∙ or_self-name f keeps n
    | inr miss ↦ ap (λ x. x.name) (untouched miss)
  ]

-- It has rebooted, and its checks have not begun.
abbrev pub Rebooted : Node → Type 0
Rebooted n = (just_rebooted n.annotations ≡ true) × (checking_after n ≡ false)

module _ (k : Kontroller) where
  -- Its checks before the reboot have passed, it still wants to reboot, and no other checks are on.
  abbrev pub Granted : Node → Type 0
  Granted n =
      (checked_before k n ≡ true) × (rebootable n.annotations ≡ true) × (checking_after n ≡ false)

  -- Its checks after the reboot have passed, and it has no label for those before one.
  abbrev pub Recovered : Node → Type 0
  Recovered n = (checked_after k n ≡ true) × (has n.labels label_before_reboot ≡ false)

  -- What one pass makes of a node.
  pub record Progress (n m : Node) : Type 0 where
    pub name : m.name ≡ n.name
    pub granted : Granted n → (allowed m ≡ true) × (checking_after m ≡ false)
    pub rebooted : Rebooted n → checking_after m ≡ true
    pub recovered : Recovered n → (allowed m ≡ false) × (checking_after m ≡ false)

module _ (c : NodeClient) (s : Selectors) (v : Vars s) (means : Means s v) (k : Kontroller)
    (before : IsForeign k.before_reboot_annotations) (after : IsForeign k.after_reboot_annotations)
    (n a b d e m : Node) (first : Swapped (λ _. true) (cleaning_up c s v k) n a)
    (second : Swapped (checked_after k) (releasing k) a b)
    (third : Swapped (reported k) (reporting k) b d)
    (fourth : Swapped (checked_before k) (permitting k) d e)
    (fifth : Maybe waiting (choosing k) e m) where
  -- The choice of a node to reboot changes neither its permission nor its other label.
  chosen : (allowed m ≡ allowed e) × (checking_after m ≡ checking_after e)
  chosen = elim fifth [
    | inl same ↦ (ap allowed same, ap checking_after same)
    | inr updated ↦
        subst (λ x. (allowed x ≡ allowed e) × (checking_after x ≡ checking_after e)) (sym updated)
          (or_self_lem (λ x. (allowed x ≡ allowed e) × (checking_after x ≡ checking_after e)) e
            (choosing k e) (refl, refl)
            λ x h.
              let r = mark_f-IsMarked label_before_reboot k.before_reboot_annotations e x h in
              (
                ap reads_true
                    (marked_ok k.before_reboot_annotations before e x label_before_reboot r),
                ap reads_true (r.labels label_after_reboot),
              ))
  ]

  permits : Granted k n → (allowed m ≡ true) × (checking_after m ≡ false)
  permits g =
      let ga : Granted k a =
        subst (Granted k)
          (sym (first.eq ∙ spared_wanting c s v means k.before_reboot_annotations n g.1)) g in
      let gb : Granted k b =
        subst (Granted k) (sym (untouched _ _ a b second (let q = ga.2 in ground arith))) ga in
      let gd : Granted k d =
        subst (Granted k) (sym (untouched _ _ b d third (let w = gb.1 in ground arith))) gb in
      let (permitted, unlabelled) =
        touched _ _ d e fourth (λ x. (allowed x ≡ true) × (checking_after x ≡ false)) gd.0
          λ x h.
            let r =
              check_reboot_f-IsChecked label_before_reboot k.before_reboot_annotations true_value d
                x h in
            (
              ap reads_true (r.annotated annotation_ok_to_reboot),
              ap reads_true (r.labels label_after_reboot) ∙ gd.2,
            ) in
      (chosen.0 ∙ permitted, chosen.1 ∙ unlabelled)

  reports : Rebooted n → checking_after m ≡ true
  reports g =
      let kept_by = cleaned-rebooted c s v means k.before_reboot_annotations n before in
      let ga : Rebooted a = subst Rebooted (sym first.eq) (kept_by.0 ∙ g.0, kept_by.1 ∙ g.1) in
      let gb : Rebooted b =
        subst Rebooted (sym (untouched _ _ a b second (let q = ga.1 in ground arith))) ga in
      let labelled : checking_after d ≡ true =
        touched _ _ b d third (λ x. checking_after x ≡ true)
          (let w = gb.0 in let q = gb.1 in ground arith)
          λ x h. ap reads_true (
            (mark_f-IsMarked label_after_reboot k.after_reboot_annotations b x h).labels
              label_after_reboot) in
      chosen.1
      ∙ maybe_touched _ _ d e fourth (λ x. checking_after x ≡ true) labelled
          λ x h.
            ap reads_true (
              (check_reboot_f-IsChecked label_before_reboot k.before_reboot_annotations true_value d
                  x h).labels
                label_after_reboot)
            ∙ labelled

  -- It may not reboot and is in no checks.
  abbrev Free : Node → Type 0
  Free x = (allowed x ≡ false) × (checking_after x ≡ false) × (checking_before x ≡ false)

  releases : Recovered k n → (allowed m ≡ false) × (checking_after m ≡ false)
  releases g =
      let ga : Recovered k a =
        subst (Recovered k)
          (sym (first.eq ∙ spared_unlabelled c s v means k.before_reboot_annotations n g.1)) g in
      let fb : Free b = touched _ _ a b second Free ga.0 λ x h.
        let r =
          check_reboot_f-IsChecked label_after_reboot k.after_reboot_annotations false_value a x
            h in
        (
          ap reads_true (r.annotated annotation_ok_to_reboot),
          ap reads_true (r.labels label_after_reboot),
          ap reads_true (r.labels label_before_reboot) ∙ sym (unlabelled_false _ ga.1),
        ) in
      let fd : Free d =
        subst Free (sym (untouched _ _ b d third (let w = fb.0 in ground arith))) fb in
      let fe : Free e =
        subst Free (sym (untouched _ _ d e fourth (let w = fd.2 in ground arith))) fd in
      (chosen.0 ∙ fe.0, chosen.1 ∙ fe.1)

  -- No step renames the node.
  named : KeepsName (cleaning_up c s v k) → m.name ≡ n.name
  named keeps =
      renamed fifth
      ∙ swapped-name _ _ d e fourth (check_reboot_f-KeepsName _ _ _)
      ∙ swapped-name _ _ b d third (mark_f-KeepsName _ _)
      ∙ swapped-name _ _ a b second (check_reboot_f-KeepsName _ _ _)
      ∙ swapped-name _ _ n a first keeps
    where
      renamed : Maybe waiting (choosing k) e m → m.name ≡ e.name
      renamed (inl same) = ap (λ x. x.name) same
      renamed (inr updated) =
          ap (λ x. x.name) updated ∙ or_self-name (choosing k) (mark_f-KeepsName _ _) e

  pub node-Progress : KeepsName (cleaning_up c s v k) → Progress k n m
  node-Progress keeps = record {
    name = named keeps;
    granted = permits;
    rebooted = reports;
    recovered = releases;
  }
