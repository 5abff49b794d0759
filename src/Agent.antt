-- ===== src/Agent.antt =====
-- pkg/agent/agent.go: the version information of the host, and what the agent writes on its node.
pub mod Writes
pub mod Files
pub mod Config
pub mod Wait
pub mod Process
pub mod Run
pub mod Watch
pub mod Protocol
use flatcar_linux_update_ope.Prelude.{
  String, ◌==◌, Bool, true, false, not, Option, none, some, List, [], ◌∷◌, ◌++◌, if◌then◌else◌,
}
use flatcar_linux_update_ope.Prelude.Int.{ℤ}
use flatcar_linux_update_ope.Constants.{
  true_value, false_value, annotation_status, annotation_last_checked_time, annotation_new_version,
  annotation_reboot_needed, annotation_reboot_in_progress, annotation_ok_to_reboot,
  annotation_agent_made_unschedulable, label_reboot_needed, label_id, label_group, label_version,
}
use flatcar_linux_update_ope.GoMap.{GoMap, index, assign, and_then}
use flatcar_linux_update_ope.Exec.{
  Error, wrap, Outcome, ok, err, panic, Exec, ◌>>=◌, ◌>>◌, pure, continue, wrapping,
}
use flatcar_linux_update_ope.Client.{NodeClient, Selectors}
use flatcar_linux_update_ope.K8sutil.Metadata.{
  or_panic, set_node_labels, set_node_annotations_labels,
}
use flatcar_linux_update_ope.Updateengine.{Status, update_status_updated_need_reboot}

-- What the agent takes from Go's standard library and the host's file system.
pub record Host (W : Type 0) : Type 1 where
  -- `os.ReadFile`, and the text of what it read
  pub read_file : String → Exec W String
  -- `os.IsNotExist`
  pub is_not_exist : Error → Bool
  -- `filepath.Join` of two paths
  pub join : String → String → String
  -- the texts that a `bufio.Scanner` gives
  pub scan : String → List String
  -- `strings.SplitN(s, "=", 2)`
  pub split_2 : String → List String

abbrev pub update_conf_path : String
update_conf_path = "/usr/share/flatcar/update.conf"

abbrev pub update_conf_override_path : String
update_conf_override_path = "/etc/flatcar/update.conf"

abbrev pub os_release_path : String
os_release_path = "/etc/os-release"

-- `map[string]string{}`
abbrev pub empty_map : GoMap
empty_map = some (λ k. none)

-- The body of the loop of `splitNewlineEnv`; `none` is a panic.
unfoldable pub set_pair : GoMap → List String → Option GoMap
set_pair env_vars [] = none
set_pair env_vars (whole ∷ []) = some env_vars
set_pair env_vars (key ∷ value ∷ more) = assign env_vars key value

pub record VersionInfo : Type 0 where
  pub id : String
  pub group : String
  pub version : String

module _ {W : Type 0} (h : Host W) where
  unfoldable pub set_pairs : GoMap → List String → Option GoMap
  set_pairs env_vars [] = some env_vars
  set_pairs env_vars (text ∷ texts) =
      and_then (set_pair env_vars (h.split_2 text)) (λ m. set_pairs m texts)

  unfoldable pub split_newline_env : GoMap → String → Option GoMap
  split_newline_env env_vars envs = set_pairs env_vars (h.scan envs)

  -- A file that is missing reads as empty.
  abbrev pub or_missing : String → Outcome String × W → Outcome String × W
  or_missing path (ok text, w) = (ok text, w)
  or_missing path (err e, w) =
      if not (h.is_not_exist e)
      then (err (wrap "reading file %q: %w" (path ∷ []) e), w)
      else (ok "", w)
  or_missing path (panic, w) = (panic, w)

  unfoldable pub get_update_map : String → Exec W GoMap
  get_update_map files_path_prefix = do
    b ←
        wrapping "reading file %q: %w" (h.join files_path_prefix update_conf_path ∷ [])
          (h.read_file (h.join files_path_prefix update_conf_path))
    infomap ← or_panic (split_newline_env empty_map b)
    update_conf_override ← λ w.
        or_missing (h.join files_path_prefix update_conf_override_path)
          (h.read_file (h.join files_path_prefix update_conf_override_path) w)
    or_panic (split_newline_env infomap update_conf_override)

  unfoldable pub get_release_map : String → Exec W GoMap
  get_release_map files_path_prefix = do
    b ←
        wrapping "reading file %q: %w" (h.join files_path_prefix os_release_path ∷ [])
          (h.read_file (h.join files_path_prefix os_release_path))
    or_panic (split_newline_env empty_map b)

  unfoldable pub get_version_info : String → Exec W VersionInfo
  get_version_info files_path_prefix = do
    updateconf ← wrapping "getting update configuration: %w" [] (get_update_map files_path_prefix)
    osrelease ← wrapping "getting OS release info: %w" [] (get_release_map files_path_prefix)
    pure (record {
      id = index osrelease "ID";
      group = index updateconf "GROUP";
      version = index osrelease "VERSION";
    })

abbrev pub info_labels : VersionInfo → List (String × String)
info_labels version_info =
    (label_id, version_info.id)
    ∷ (label_group, version_info.group)
    ∷ (label_version, version_info.version)
    ∷ []

unfoldable pub set_info_labels :
    (c : NodeClient) → Host c.World → String → String → Exec c.World (Unit {0})
set_info_labels c h host_files_prefix node_name = do
  version_info ← wrapping "getting version info: %w" [] (get_version_info h host_files_prefix)
  wrapping "setting node %q labels: %w" (node_name ∷ [])
      (set_node_labels c node_name (info_labels version_info))

-- What `process` writes first, once the machine has booted.
abbrev pub start_annotations : List (String × String)
start_annotations =
    (annotation_reboot_in_progress, false_value) ∷ (annotation_reboot_needed, false_value) ∷ []

abbrev pub start_labels : List (String × String)
start_labels = (label_reboot_needed, false_value) ∷ []

-- What it writes after it made the node schedulable again.
abbrev pub schedulable_annotations : List (String × String)
schedulable_annotations = (annotation_agent_made_unschedulable, false_value) ∷ []

-- What it writes before the drain.
abbrev pub drain_annotations : Bool → List (String × String)
drain_annotations already_unschedulable =
    (annotation_reboot_in_progress, true_value)
    ∷ (if not already_unschedulable
        then (annotation_agent_made_unschedulable, true_value) ∷ []
        else [])

-- `format` is `fmt.Sprintf("%d", n)`.
unfoldable pub status_annotations : (ℤ → String) → Status → List (String × String)
status_annotations format status =
    (annotation_status, status.current_operation)
    ∷ (annotation_last_checked_time, format status.last_checked_time)
    ∷ (annotation_new_version, status.new_version)
    ∷ (if status.current_operation == update_status_updated_need_reboot
        then (annotation_reboot_needed, true_value) ∷ []
        else [])

unfoldable pub status_labels : Status → List (String × String)
status_labels status =
    if status.current_operation == update_status_updated_need_reboot
    then (label_reboot_needed, true_value) ∷ []
    else []

-- The condition of the poll: an error is logged and tried again.
abbrev succeeded : {W : Type 0} → Outcome (Unit {0}) × W → Outcome Bool × W
succeeded (ok a, w) = (ok true, w)
succeeded (err e, w) = (ok false, w)
succeeded (panic, w) = (panic, w)

-- `if err != nil { klog.Errorf(...) }`
abbrev logged : {W : Type 0} → Outcome (Unit {0}) × W → Outcome (Unit {0}) × W
logged (ok a, w) = (ok tt, w)
logged (err e, w) = (ok tt, w)
logged (panic, w) = (panic, w)

-- `poll` is `wait.PollImmediateUntil(k.pollInterval, condition, ctx.Done())`.
unfoldable pub update_status_callback :
    (c : NodeClient)
    → (Exec c.World Bool → Exec c.World (Unit {0}))
    → (ℤ → String)
    → String
    → Status
    → Exec c.World (Unit {0})
update_status_callback c poll format node_name status w = logged (
    poll
      (λ v. succeeded (
        set_node_annotations_labels c node_name (status_annotations format status)
          (status_labels status) v))
      w)

module _ {W : Type 0} where
  -- The loop of `watchUpdateStatus` over the statuses that its channel gives, with a callback that
  -- is not nil.
  unfoldable pub watch_update_status :
      (Status → Exec W (Unit {0})) → String → List Status → W → Outcome (Unit {0}) × W
  watch_update_status update old_operation [] w = (ok tt, w)
  watch_update_status update old_operation (status ∷ statuses) w =
      let same = watch_update_status update old_operation statuses w in
      let updated =
        continue (update status w)
          (λ _. watch_update_status update status.current_operation statuses) in
      if not (status.current_operation == old_operation) then updated else same

module _ (s : Selectors) where
  -- The condition of `waitForOkToReboot`.
  unfoldable pub should_reboot : GoMap → Bool
  should_reboot annotations =
      s.selects
        (s.set_as_selector
          ((annotation_ok_to_reboot, true_value) ∷ (annotation_reboot_needed, true_value) ∷ []))
        annotations

-- The condition of `waitForNotOkToReboot`.
unfoldable pub not_ok_to_reboot : GoMap → Bool
not_ok_to_reboot annotations = not (index annotations annotation_ok_to_reboot == true_value)
