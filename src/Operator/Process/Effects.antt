-- ===== src/Operator/Process/Effects.antt =====
-- How one update of a node moves it through the reboot protocol.
use mathlib.Core.Bool.{false≢true}
use flatcar_linux_update_ope.Prelude.{
  String, ◌==◌, ◌≡◌, ◌≢◌, refl, inl, inr, Bool, true, false, not, ◌&&◌, Option, none, some, List,
  arith, sym, ap, ◌∙◌, if◌then◌else◌,
}
use flatcar_linux_update_ope.Constants.{
  true_value, false_value, annotation_ok_to_reboot, annotation_reboot_needed,
  annotation_reboot_in_progress, label_before_reboot, label_after_reboot,
}
use flatcar_linux_update_ope.GoMap.{or_empty, is_present, entry}
use flatcar_linux_update_ope.Node.{Node}
use flatcar_linux_update_ope.K8sutil.Metadata.Names.{or_self}
use flatcar_linux_update_ope.Operator.Vars.Meaning.{is_true, just_rebooted}
use flatcar_linux_update_ope.Operator.Process.Flags.{
  checking_before, checking_after, allowed, engaged, WellAnnotated, Cleaned, Counted, IsForeign,
}
use flatcar_linux_update_ope.Operator.Process.Nodes.{IsChecked, IsMarked}

pub or_self_lem :
    (P : Node → Type 0) (n : Node) (o : Option Node)
    → P n
    → ((m : Node) → o ≡ some m → P m)
    → P (or_self n o)
or_self_lem P n none h k = h
or_self_lem P n (some m) h k = k m refl

pub or_self_some :
    (P : Node → Type 0) (n : Node) (o : Option Node)
    → o ≢ none
    → ((m : Node) → o ≡ some m → P m)
    → P (or_self n o)
or_self_some P n none h k = absurd (h refl)
or_self_some P n (some m) h k = k m refl

abbrev pub reads_true : Option String → Bool
reads_true o = or_empty o == true_value

abbrev pub reads_false : Option String → Bool
reads_false o = or_empty o == false_value

-- Deleting annotations cannot make another one read "true".
pub reads_true_kept :
    (gone : Bool) (o p : Option String)
    → o ≡ (if gone then none else p)
    → reads_true o ≡ true
    → reads_true p ≡ true
reads_true_kept true o p h t = absurd (false≢true (sym (ap reads_true h) ∙ t))
reads_true_kept false o p h t = sym (ap reads_true h) ∙ t

pub kept :
    (gone : Bool) (o p : Option String) → gone ≡ false → o ≡ (if gone then none else p) → o ≡ p
kept gone o p e h = h ∙ rw e

-- A missing label does not read "true".
pub unlabelled_false : (o : Option String) → is_present o ≡ false → false ≡ reads_true o
unlabelled_false none h = refl
unlabelled_false (some v) h = cc

module _ (annotations : List String) (foreign : IsForeign annotations) (n m : Node) where
  -- `mark`: the protocol's annotations stay, and so do the other labels.
  module _ (label : String) (h : IsMarked label annotations n m) where
    pub marked_ok :
        entry m.annotations annotation_ok_to_reboot ≡ entry n.annotations annotation_ok_to_reboot
    marked_ok = kept _ _ _ foreign.ok (h.annotated annotation_ok_to_reboot)

    marked_needed :
        entry m.annotations annotation_reboot_needed ≡ entry n.annotations annotation_reboot_needed
    marked_needed = kept _ _ _ foreign.needed (h.annotated annotation_reboot_needed)

    marked_in_progress :
        entry m.annotations annotation_reboot_in_progress
        ≡ entry n.annotations annotation_reboot_in_progress
    marked_in_progress = kept _ _ _ foreign.in_progress (h.annotated annotation_reboot_in_progress)

    pub marked_WellAnnotated : WellAnnotated n → WellAnnotated m
    marked_WellAnnotated x = rw (marked_ok, marked_needed, marked_in_progress) x

  -- `mark` for the checks after a reboot.
  module _ (h : IsMarked label_after_reboot annotations n m) where
    pub marked_after_Cleaned : Cleaned n → Cleaned m
    marked_after_Cleaned x b =
        ap reads_true (marked_needed label_after_reboot h)
        ∙ x (sym (ap reads_true (h.labels label_before_reboot)) ∙ b)

    pub marked_after_Counted : Counted m
    marked_after_Counted a = inr (ap reads_true (h.labels label_after_reboot))

  -- `checkReboot`: the protocol's other annotations stay.
  module _ (label ok : String) (h : IsChecked label annotations ok n m) where
    checked_needed :
        entry m.annotations annotation_reboot_needed ≡ entry n.annotations annotation_reboot_needed
    checked_needed = kept _ _ _ foreign.needed (h.annotated annotation_reboot_needed)

    checked_in_progress :
        entry m.annotations annotation_reboot_in_progress
        ≡ entry n.annotations annotation_reboot_in_progress
    checked_in_progress = kept _ _ _ foreign.in_progress (h.annotated annotation_reboot_in_progress)

  -- `checkReboot` after a reboot: the node is no longer allowed to reboot.
  module _ (h : IsChecked label_after_reboot annotations false_value n m) where
    checked_after_allowed : allowed m ≡ false
    checked_after_allowed = ap reads_true (h.annotated annotation_ok_to_reboot)

    pub checked_after_engaged : engaged m ≡ true → engaged n ≡ true
    checked_after_engaged e =
        let before : checking_before m ≡ checking_before n =
          ap reads_true (h.labels label_before_reboot) in
        let after : checking_after m ≡ false = ap reads_true (h.labels label_after_reboot) in
        ground (arith, before, after, checked_after_allowed)

    pub checked_after_WellAnnotated : WellAnnotated m
    checked_after_WellAnnotated a = absurd (false≢true (sym checked_after_allowed ∙ a))

    pub checked_after_Cleaned : Cleaned n → Cleaned m
    checked_after_Cleaned x b =
        ap reads_true (checked_needed label_after_reboot false_value h)
        ∙ x (sym (ap reads_true (h.labels label_before_reboot)) ∙ b)

  -- `checkReboot` before a reboot: the node is allowed to reboot, which it still wants.
  module _ (h : IsChecked label_before_reboot annotations true_value n m) where
    checked_before_needed :
        checking_before n ≡ true → Cleaned n → is_true m.annotations annotation_reboot_needed ≡ true
    checked_before_needed b x =
        ap reads_true (checked_needed label_before_reboot true_value h) ∙ x b

    pub checked_before_Counted : checking_before n ≡ true → Cleaned n → Counted m
    checked_before_Counted b x a = inl (checked_before_needed b x)

    pub checked_before_WellAnnotated : checking_before n ≡ true → Cleaned n → WellAnnotated m
    checked_before_WellAnnotated b x a = inl (checked_before_needed b x)

-- A node that `markAfterReboot` left out is counted already.
pub left_out_Counted :
    (n : Node)
    → (not (checking_after n) && just_rebooted n.annotations) ≡ false
    → WellAnnotated n
    → Counted n
left_out_Counted n h x = ground (arith, x)
