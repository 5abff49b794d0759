-- ===== src/Operator/Vars.antt =====
-- pkg/operator/operator.go: the package variables, the selectors and the requirements.
pub mod Meaning
use flatcar_linux_update_ope.Prelude.{String, ◌<>◌, Option, none, some, List, [], ◌∷◌}
use flatcar_linux_update_ope.Constants.{
  true_value, false_value, annotation_ok_to_reboot, annotation_reboot_needed,
  annotation_reboot_in_progress, annotation_reboot_paused, label_before_reboot, label_after_reboot,
}
use flatcar_linux_update_ope.Client.{Selectors, is_in, not_in}
use flatcar_linux_update_ope.K8sutil.Selector.{new_requirement_or_die}

abbrev pub just_rebooted_set : List (String × String)
just_rebooted_set =
    (annotation_ok_to_reboot, true_value)
    ∷ (annotation_reboot_needed, false_value)
    ∷ (annotation_reboot_in_progress, false_value)
    ∷ []

abbrev pub rebootable_text : String
rebootable_text =
    annotation_reboot_needed <> "==" <> true_value <> "," <> annotation_reboot_paused <> "!="
    <> true_value <> "," <> annotation_ok_to_reboot <> "!=" <> true_value <> ","
    <> annotation_reboot_in_progress <> "!=" <> true_value

abbrev pub still_rebooting_set : List (String × String)
still_rebooting_set =
    (annotation_ok_to_reboot, true_value) ∷ (annotation_reboot_needed, true_value) ∷ []

pub record Vars (s : Selectors) : Type 0 where
  pub just_rebooted_selector : s.FieldSelector
  pub rebootable_selector : s.FieldSelector
  pub still_rebooting_selector : s.FieldSelector
  pub before_reboot_req : s.Requirement
  pub after_reboot_req : s.Requirement
  pub not_before_reboot_req : s.Requirement

abbrev bind : {A B : Type 0} → Option A → (A → Option B) → Option B
bind none f = none
bind (some a) f = f a

module _ (s : Selectors) where
  -- The initialisation of the package; `none` is a panic of one of its `OrDie` calls.
  unfoldable pub package_vars : Option (Vars s)
  unfolding new_requirement_or_die
  package_vars = bind (s.parse_selector_or_die rebootable_text) λ rebootable.
      bind (new_requirement_or_die s label_before_reboot is_in (true_value ∷ [])) λ before.
        bind (new_requirement_or_die s label_after_reboot is_in (true_value ∷ [])) λ after.
          bind (new_requirement_or_die s label_before_reboot not_in (true_value ∷ [])) λ not_before.
            some (record {
              just_rebooted_selector = s.set_as_selector just_rebooted_set;
              rebootable_selector = rebootable;
              still_rebooting_selector = s.set_as_selector still_rebooting_set;
              before_reboot_req = before;
              after_reboot_req = after;
              not_before_reboot_req = not_before;
            })
