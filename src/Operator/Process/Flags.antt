-- ===== src/Operator/Process/Flags.antt =====
-- The states of a node in the reboot protocol, read off its labels and annotations.
use flatcar_linux_update_ope.Prelude.{
  ℕ, ◌≤◌, ◌≡◌, ◌⊎◌, ◌||◌, Bool, true, false, String, List, count, All,
}
use flatcar_linux_update_ope.Constants.{
  annotation_ok_to_reboot, annotation_reboot_needed, annotation_reboot_in_progress,
  annotation_reboot_paused, label_before_reboot, label_after_reboot,
}
use flatcar_linux_update_ope.GoMap.{contains}
use flatcar_linux_update_ope.Node.{Node}
use flatcar_linux_update_ope.K8sutil.Metadata.Names.{DistinctNames}
use flatcar_linux_update_ope.Operator.Vars.Meaning.{is_true, just_rebooted}

abbrev pub checking_before : Node → Bool
checking_before n = is_true n.labels label_before_reboot

abbrev pub checking_after : Node → Bool
checking_after n = is_true n.labels label_after_reboot

abbrev pub allowed : Node → Bool
allowed n = is_true n.annotations annotation_ok_to_reboot

-- The node takes part in a reboot: its checks run, or its agent may reboot it.
abbrev pub engaged : Node → Bool
engaged n = checking_before n || checking_after n || allowed n

-- A node that may reboot still wants to, or has just done it. Agents write nothing else: they set
-- `reboot-needed` and `reboot-in-progress` to "false" in one update.
abbrev pub WellAnnotated : Node → Type 0
WellAnnotated n =
    allowed n ≡ true
    → (is_true n.annotations annotation_reboot_needed ≡ true) ⊎ (just_rebooted n.annotations ≡ true)

-- What `cleanupState` establishes.
abbrev pub Cleaned : Node → Type 0
Cleaned n = checking_before n ≡ true → is_true n.annotations annotation_reboot_needed ≡ true

-- What `markAfterReboot` establishes: a node that may reboot is counted.
abbrev pub Counted : Node → Type 0
Counted n =
    allowed n ≡ true
    → (is_true n.annotations annotation_reboot_needed ≡ true) ⊎ (checking_after n ≡ true)

-- The annotations that the administrator configured for checks are not the protocol's own.
pub record IsForeign (annotations : List String) : Type 0 where
  pub needed : contains annotations annotation_reboot_needed ≡ false
  pub in_progress : contains annotations annotation_reboot_in_progress ≡ false
  pub ok : contains annotations annotation_ok_to_reboot ≡ false
  pub paused : contains annotations annotation_reboot_paused ≡ false

-- No two nodes share a name, the annotations are the protocol's, and at most `max` nodes take part
-- in a reboot.
pub record IsSafe (max : ℕ) (ns : List Node) : Type 0 where
  pub distinct : DistinctNames ns
  pub well : All WellAnnotated ns
  pub few : count engaged ns ≤ max
