-- ===== src/Operator/Process/Cleanup.antt =====
-- How `cleanupState` moves a node through the reboot protocol.
use mathlib.Core.Bool.{false≢true}
use flatcar_linux_update_ope.Prelude.{
  String, ◌≡◌, refl, inl, inr, true, false, List, Bool-cases, arith, sym, ap, ◌∙◌,
}
use flatcar_linux_update_ope.Constants.{
  annotation_ok_to_reboot, annotation_reboot_needed, annotation_reboot_in_progress,
  label_before_reboot, label_after_reboot,
}
use flatcar_linux_update_ope.GoMap.{has, entry, delete, delete_all, contains}
use flatcar_linux_update_ope.GoMap.Laws.{entry-delete, entry-delete_all}
use flatcar_linux_update_ope.Node.{Node}
use flatcar_linux_update_ope.Client.{NodeClient, Selectors}
use flatcar_linux_update_ope.K8sutil.Metadata.Names.{or_self}
use flatcar_linux_update_ope.Operator.Vars.{Vars}
use flatcar_linux_update_ope.Operator.Vars.Meaning.{Means, rebootable, just_rebooted}
use flatcar_linux_update_ope.Operator.Checks.{cleanup_f}
use flatcar_linux_update_ope.Operator.Process.Flags.{
  checking_before, checking_after, allowed, engaged, WellAnnotated, Cleaned, IsForeign,
}
use flatcar_linux_update_ope.Operator.Process.Effects.{
  reads_true, reads_true_kept, kept, unlabelled_false,
}

abbrev pub removed : List String → Node → Node
removed annotations n = record n {
  labels = delete n.labels label_before_reboot;
  annotations = delete_all n.annotations annotations;
}

module _ (annotations : List String) (n : Node) where
  removed-checking_before : checking_before (removed annotations n) ≡ false
  removed-checking_before =
      ap reads_true (entry-delete n.labels label_before_reboot label_before_reboot)

  removed-engaged : engaged (removed annotations n) ≡ true → engaged n ≡ true
  removed-engaged e =
      let after : checking_after (removed annotations n) ≡ checking_after n =
        ap reads_true (entry-delete n.labels label_before_reboot label_after_reboot) in
      let allows : allowed (removed annotations n) ≡ true → allowed n ≡ true =
        reads_true_kept (contains annotations annotation_ok_to_reboot) _
          (entry n.annotations annotation_ok_to_reboot)
          (entry-delete_all n.annotations annotations annotation_ok_to_reboot) in
      ground (arith, removed-checking_before, after, allows)

  removed-WellAnnotated :
      IsForeign annotations → WellAnnotated n → WellAnnotated (removed annotations n)
  removed-WellAnnotated foreign x =
      rw
        (
          kept _ _ _ foreign.ok
              (entry-delete_all n.annotations annotations annotation_ok_to_reboot),
          kept _ _ _ foreign.needed
              (entry-delete_all n.annotations annotations annotation_reboot_needed),
          kept _ _ _ foreign.in_progress
              (entry-delete_all n.annotations annotations annotation_reboot_in_progress),
        )
        x

  removed-rebooted :
      IsForeign annotations
      → (just_rebooted (removed annotations n).annotations ≡ just_rebooted n.annotations)
        × (checking_after (removed annotations n) ≡ checking_after n)
  removed-rebooted foreign = (
    rw
        (
          kept _ _ _ foreign.ok
              (entry-delete_all n.annotations annotations annotation_ok_to_reboot),
          kept _ _ _ foreign.needed
              (entry-delete_all n.annotations annotations annotation_reboot_needed),
          kept _ _ _ foreign.in_progress
              (entry-delete_all n.annotations annotations annotation_reboot_in_progress),
        )
        refl,
    ap reads_true (entry-delete n.labels label_before_reboot label_after_reboot),
  )

module _ (c : NodeClient) (s : Selectors) (v : Vars s) (means : Means s v) where
  module _ (annotations : List String) (n : Node) where
    abbrev cleaned : Node
    cleaned = or_self n (cleanup_f c s v annotations n)

    -- The three ways through the function of `cleanupState`.
    cleanup_cases :
        (P : Node → Type 0)
        → (has n.labels label_before_reboot ≡ false → P n)
        → (rebootable n.annotations ≡ true → P n)
        → P (removed annotations n)
        → P cleaned
    unfolding cleanup_f
    cleanup_cases P unlabelled wanting gone = elim (Bool-cases (has n.labels label_before_reboot)) [
      | inr e ↦ rw e (unlabelled e)
      | inl e ↦ elim (Bool-cases (s.selects v.rebootable_selector n.annotations)) [
        | inl w ↦ rw (e, w) (wanting (sym (means.wants n.annotations) ∙ w))
        | inr w ↦ rw (e, w) gone
      ]
    ]

    pub cleaned-Cleaned : Cleaned cleaned
    cleaned-Cleaned =
        cleanup_cases Cleaned (λ e b. absurd (false≢true (unlabelled_false _ e ∙ b)))
          (λ e b. ground arith)
          (λ b. absurd (false≢true (sym (removed-checking_before annotations n) ∙ b)))

    pub cleaned-engaged : engaged cleaned ≡ true → engaged n ≡ true
    cleaned-engaged =
        cleanup_cases (λ m. engaged m ≡ true → engaged n ≡ true) (λ _ e. e) (λ _ e. e)
          (removed-engaged annotations n)

    pub cleaned-WellAnnotated : IsForeign annotations → WellAnnotated n → WellAnnotated cleaned
    cleaned-WellAnnotated foreign x =
        cleanup_cases WellAnnotated (λ _. x) (λ _. x)
          (removed-WellAnnotated annotations n foreign x)

    -- A node without the label, or that wants to reboot, stays as it is.
    pub spared_unlabelled : has n.labels label_before_reboot ≡ false → cleaned ≡ n
    unfolding cleanup_f
    spared_unlabelled e = rw e refl

    pub spared_wanting : rebootable n.annotations ≡ true → cleaned ≡ n
    unfolding cleanup_f
    spared_wanting w = elim (Bool-cases (has n.labels label_before_reboot)) [
      | inl e ↦ rw (e, means.wants n.annotations, w) refl
      | inr e ↦ rw e refl
    ]

    -- A node with the label, that does not want to reboot, loses the label and the annotations.
    pub cleaned_wiped :
        has n.labels label_before_reboot ≡ true
        → rebootable n.annotations ≡ false
        → cleaned ≡ removed annotations n
    unfolding cleanup_f
    cleaned_wiped e w = rw (e, means.wants n.annotations, w) refl

    pub cleaned-rebooted :
        IsForeign annotations
        → (just_rebooted cleaned.annotations ≡ just_rebooted n.annotations)
          × (checking_after cleaned ≡ checking_after n)
    cleaned-rebooted foreign =
        cleanup_cases
          (λ m.
            (just_rebooted m.annotations ≡ just_rebooted n.annotations)
            × (checking_after m ≡ checking_after n))
          (λ _. (refl, refl)) (λ _. (refl, refl)) (removed-rebooted annotations n foreign)
