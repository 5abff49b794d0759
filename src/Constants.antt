-- ===== src/Constants.antt =====
-- pkg/constants/constants.go: the values, annotation keys and label keys that the agent and the
-- operator share.
use flatcar_linux_update_ope.Prelude.{String, ◌<>◌}

abbrev pub true_value : String
true_value = "true"

abbrev pub false_value : String
false_value = "false"

abbrev pub prefix : String
prefix = "flatcar-linux-update.v1.flatcar-linux.net/"

abbrev pub annotation_reboot_needed : String
annotation_reboot_needed = prefix <> "reboot-needed"

abbrev pub label_reboot_needed : String
label_reboot_needed = prefix <> "reboot-needed"

abbrev pub annotation_reboot_in_progress : String
annotation_reboot_in_progress = prefix <> "reboot-in-progress"

abbrev pub annotation_ok_to_reboot : String
annotation_ok_to_reboot = prefix <> "reboot-ok"

abbrev pub annotation_reboot_paused : String
annotation_reboot_paused = prefix <> "reboot-paused"

abbrev pub annotation_status : String
annotation_status = prefix <> "status"

abbrev pub annotation_last_checked_time : String
annotation_last_checked_time = prefix <> "last-checked-time"

abbrev pub annotation_new_version : String
annotation_new_version = prefix <> "new-version"

abbrev pub annotation_agent_made_unschedulable : String
annotation_agent_made_unschedulable = prefix <> "agent-made-unschedulable"

abbrev pub label_before_reboot : String
label_before_reboot = prefix <> "before-reboot"

abbrev pub label_after_reboot : String
label_after_reboot = prefix <> "after-reboot"

abbrev pub label_id : String
label_id = prefix <> "id"

abbrev pub label_group : String
label_group = prefix <> "group"

abbrev pub label_version : String
label_version = prefix <> "version"

abbrev pub agent_version : String
agent_version = prefix <> "agent-version"
