-- ===== src/Coordination/Writes.antt =====
-- A write of an agent keeps what the steps of a pass before it established.
use mathlib.Core.Bool.{false≢true}
use flatcar_linux_update_ope.Prelude.{
  String, ◌≡◌, ◌⊎◌, refl, ◌∙◌, ap, sym, inl, inr, true, false, Bool-cases,
}
use flatcar_linux_update_ope.Prelude.Int.{ℤ}
use flatcar_linux_update_ope.Constants.{
  annotation_reboot_needed, annotation_ok_to_reboot, label_before_reboot, label_after_reboot,
}
use flatcar_linux_update_ope.GoMap.{entry}
use flatcar_linux_update_ope.Node.{Node}
use flatcar_linux_update_ope.K8sutil.Metadata.Names.{or_self}
use flatcar_linux_update_ope.Operator.Vars.Meaning.{is_true}
use flatcar_linux_update_ope.Operator.Process.Flags.{
  checking_before, checking_after, allowed, Cleaned, Counted,
}
use flatcar_linux_update_ope.Operator.Process.Effects.{or_self_lem, reads_true}
use flatcar_linux_update_ope.Updateengine.{Status}
use flatcar_linux_update_ope.Agent.{status_annotations, status_labels}
use flatcar_linux_update_ope.Agent.Writes.{
  Write, info, start, uncordon, schedulable, status, drain, cordon, write_f, Assigned,
  write_f-Assigned, written_annotations, written_labels,
}
use flatcar_linux_update_ope.Agent.Protocol.{needs, before_kept, after_kept, ok_kept}

-- What a write other than the first leaves of the wish to reboot.
abbrev Wants : Node → Type 0
Wants n = is_true n.annotations annotation_reboot_needed ≡ true

module _ (n m : Node) where
  status-Wants :
      (format : ℤ → String) (st : Status)
      → Assigned (status_annotations format st) (status_labels st) n m
      → Wants n
      → Wants m
  unfolding status_annotations
  status-Wants format st r x = elim (Bool-cases (needs st)) [
    | inl e ↦ ap reads_true (r.annotated annotation_reboot_needed) ∙ rw e refl
    | inr e ↦ ap reads_true (r.annotated annotation_reboot_needed) ∙ rw e x
  ]

  module _ (w : Write) (r : Assigned (written_annotations w) (written_labels w) n m) where
    same_before : checking_before m ≡ checking_before n
    same_before = ap reads_true (r.labelled label_before_reboot ∙ before_kept w _)

    same_after : checking_after m ≡ checking_after n
    same_after = ap reads_true (r.labelled label_after_reboot ∙ after_kept w _)

    same_allowed : allowed m ≡ allowed n
    same_allowed = ap reads_true (r.annotated annotation_ok_to_reboot ∙ ok_kept w _)

    Wants-Cleaned : (Wants n → Wants m) → Cleaned n → Cleaned m
    Wants-Cleaned keep x b = keep (x (sym same_before ∙ b))

    Wants-Counted : (Wants n → Wants m) → Counted n → Counted m
    Wants-Counted keep x a = elim (x (sym same_allowed ∙ a)) [
      | inl wants ↦ inl (keep wants)
      | inr checked ↦ inr (same_after ∙ checked)
    ]

    unmarked_Cleaned : checking_before n ≡ false → Cleaned m
    unmarked_Cleaned f b = absurd (false≢true (sym f ∙ sym same_before ∙ b))

    checked_Counted : (allowed n ≡ true → checking_after n ≡ true) → Counted m
    checked_Counted f a = inr (same_after ∙ f (sym same_allowed ∙ a))

  same-Wants :
      entry m.annotations annotation_reboot_needed ≡ entry n.annotations annotation_reboot_needed
      → Wants n
      → Wants m
  same-Wants e x = ap reads_true e ∙ x

  start_or_Wants :
      (w : Write)
      → Assigned (written_annotations w) (written_labels w) n m
      → (w ≡ start) ⊎ (Wants n → Wants m)
  start_or_Wants (info v) r = inr (same-Wants (r.annotated annotation_reboot_needed))
  start_or_Wants start r = inl refl
  start_or_Wants uncordon r = inr (same-Wants (r.annotated annotation_reboot_needed))
  start_or_Wants schedulable r = inr (same-Wants (r.annotated annotation_reboot_needed))
  start_or_Wants (status format st) r = inr (status-Wants format st r)
  start_or_Wants (drain true) r = inr (same-Wants (r.annotated annotation_reboot_needed))
  start_or_Wants (drain false) r = inr (same-Wants (r.annotated annotation_reboot_needed))
  start_or_Wants cordon r = inr (same-Wants (r.annotated annotation_reboot_needed))

module _ (w : Write) (n : Node) where
  pub written-Cleaned :
      (w ≡ start → checking_before n ≡ false) → Cleaned n → Cleaned (or_self n (write_f w n))
  written-Cleaned unmarked x = or_self_lem Cleaned n (write_f w n) x λ m h.
      let r = write_f-Assigned w n m h in
      elim (start_or_Wants n m w r) [
        | inl starts ↦ unmarked_Cleaned n m w r (unmarked starts)
        | inr keeps ↦ Wants-Cleaned n m w r keeps x
      ]

  pub written-Counted :
      (w ≡ start → allowed n ≡ true → checking_after n ≡ true)
      → Counted n
      → Counted (or_self n (write_f w n))
  written-Counted checked x = or_self_lem Counted n (write_f w n) x λ m h.
      let r = write_f-Assigned w n m h in
      elim (start_or_Wants n m w r) [
        | inl starts ↦ checked_Counted n m w r (checked starts)
        | inr keeps ↦ Wants-Counted n m w r keeps x
      ]

  pub written_checking_before : checking_before (or_self n (write_f w n)) ≡ checking_before n
  written_checking_before =
      or_self_lem (λ m. checking_before m ≡ checking_before n) n (write_f w n) refl
        (λ m h. same_before n m w (write_f-Assigned w n m h))

  -- No write changes the permission or the label for the checks after a reboot.
  pub written-permitted :
      (allowed n ≡ true) × (checking_after n ≡ false)
      → (allowed (or_self n (write_f w n)) ≡ true)
        × (checking_after (or_self n (write_f w n)) ≡ false)
  written-permitted x =
      or_self_lem (λ m. (allowed m ≡ true) × (checking_after m ≡ false)) n (write_f w n) x
        λ m h.
          let r = write_f-Assigned w n m h in (same_allowed n m w r ∙ x.0, same_after n m w r ∙ x.1)
