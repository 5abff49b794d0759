-- ===== src/Agent/Process/Calm.antt =====
-- Properties of the world that the agent's calls keep, up to the reboot.
use flatcar_linux_update_ope.Prelude.{
  String, ◌==◌, inl, inr, Bool, true, false, not, List, [], ◌∷◌, Bool-cases, if◌then◌else◌,
}
use flatcar_linux_update_ope.Constants.{true_value, annotation_agent_made_unschedulable}
use flatcar_linux_update_ope.GoMap.{GoMap, index}
use flatcar_linux_update_ope.Exec.{Error, Outcome, ok, err, panic, Exec, ◌>>◌, pure, wrapping}
use flatcar_linux_update_ope.Result.{Result}
use flatcar_linux_update_ope.Node.{Node}
use flatcar_linux_update_ope.Client.{NodeClient, Selectors}
use flatcar_linux_update_ope.K8sutil.Metadata.{
  UpdateNode, or_panic, update_once, update_node_retry, get_node_retry, set_node_labels,
  set_node_annotations, set_node_annotations_labels, unschedulable, unschedulable_f,
  set_annotations_f, set_annotations_labels_f,
}
use flatcar_linux_update_ope.Agent.{
  Host, get_update_map, get_release_map, get_version_info, set_info_labels, or_missing,
  not_ok_to_reboot, split_newline_env, empty_map, schedulable_annotations, start_annotations,
  start_labels, update_conf_path, update_conf_override_path, os_release_path,
}
use flatcar_linux_update_ope.Agent.Wait.{
  Event, Watching, wait_for_node_condition, wait_for_ok_to_reboot, wait_for_not_ok_to_reboot,
}
use flatcar_linux_update_ope.Agent.Process.{Machine, begin}
use flatcar_linux_update_ope.Exec.Keeps.{
  Keeps, wrapping-Keeps, call-Keeps, or_panic-Keeps, >>=-Keeps,
}

module _ (c : NodeClient) (s : Selectors) (h : Host c.World) (t : Watching c.World)
    (m : Machine c.World) (host_files_prefix node_name : String) where
  -- The calls of the agent that read keep the property.
  pub record Reads (P : c.World → Type 0) : Type 0 where
    pub get : (k : String) → Keeps P (c.get k)
    pub on_error :
        (retriable : Error → Bool) (fn : Exec c.World Node)
        → Keeps P fn
        → Keeps P (c.on_error retriable fn)
    pub read_file : (path : String) → Keeps P (h.read_file path)
    pub watch : (n : Node) → Keeps P (t.watch n)
    pub until_without_retry :
        (watcher : t.Watcher) (f : Event → Result Bool) → Keeps P (t.until_without_retry watcher f)

  -- Every call that the agent makes, but the reboot and the sleep after it, keeps the property: for
  -- one such as "the machine has not been rebooted by the agent".
  pub record Calm (P : c.World → Type 0) : Type 0 where
    pub reads : Reads P
    pub update : (n : Node) → Keeps P (c.update n)
    pub retry_on_conflict :
        (fn : Exec c.World (Unit {0})) → Keeps P fn → Keeps P (c.retry_on_conflict fn)
    pub start_watching : (w : c.World) → P w → P (m.start_watching w)
    pub select :
        (fn : Exec c.World (Unit {0})) → Keeps P fn → (w : c.World) → P w → P (m.select fn w).1
    pub get_pods_for_deletion : (k : String) (w : c.World) → P w → P (m.get_pods_for_deletion k w).1
    pub delete_or_evict_pods : (pods : List m.Pod) → Keeps P (m.delete_or_evict_pods pods)

  module _ (P : c.World → Type 0) (reads : Reads P) where
    pub get_node_retry-Keeps : (k : String) → Keeps P (get_node_retry c k)
    unfolding get_node_retry
    get_node_retry-Keeps k =
        wrapping-Keeps P _ _ (c.on_error (λ _. true) _)
          (reads.on_error (λ _. true) _ (wrapping-Keeps P _ _ (c.get k) (reads.get k)))

    wait_for_node_condition-Keeps :
        (n : Node) (f : GoMap → Bool) → Keeps P (wait_for_node_condition c t node_name n f)
    unfolding wait_for_node_condition
    wait_for_node_condition-Keeps n f =
        >>=-Keeps P _ _ (wrapping-Keeps P _ _ (t.watch n) (reads.watch n)) λ watcher.
          wrapping-Keeps P _ _ (t.until_without_retry watcher _)
            (reads.until_without_retry watcher _)

    pub wait_for_ok_to_reboot-Keeps : Keeps P (wait_for_ok_to_reboot c t node_name s)
    unfolding wait_for_ok_to_reboot
    wait_for_ok_to_reboot-Keeps =
        >>=-Keeps P _ _ (wrapping-Keeps P _ _ (c.get node_name) (reads.get node_name))
          λ n. wait_for_node_condition-Keeps n _

    if-Keeps :
        {A : Type 0} (b : Bool) (x y : Exec c.World A)
        → Keeps P x
        → Keeps P y
        → Keeps P (if b then x else y)
    if-Keeps true x y k l = k
    if-Keeps false x y k l = l

    pub wait_for_not_ok_to_reboot-Keeps : Keeps P (wait_for_not_ok_to_reboot c t node_name)
    unfolding wait_for_not_ok_to_reboot
    wait_for_not_ok_to_reboot-Keeps =
        >>=-Keeps P _ _ (wrapping-Keeps P _ _ (c.get node_name) (reads.get node_name)) λ n.
          if-Keeps (not_ok_to_reboot n.annotations) _ _ (λ w p. p)
            (wait_for_node_condition-Keeps n _)

    or_missing_keeps :
        (path : String) (r : Outcome String × c.World) → P r.1 → P (or_missing h path r).1
    or_missing_keeps path (ok text, w) p = p
    or_missing_keeps path (err e, w) p = elim (Bool-cases (not (h.is_not_exist e))) [
      | inl x ↦ rw x p
      | inr x ↦ rw x p
    ]
    or_missing_keeps path (panic, w) p = p

    get_update_map-Keeps : (prefix : String) → Keeps P (get_update_map h prefix)
    unfolding get_update_map
    get_update_map-Keeps prefix =
        let base = h.join prefix update_conf_path in
        let over = h.join prefix update_conf_override_path in
        >>=-Keeps P (wrapping "reading file %q: %w" (base ∷ []) (h.read_file base)) _
          (wrapping-Keeps P _ _ (h.read_file base) (reads.read_file base))
          λ b.
            >>=-Keeps P (or_panic (split_newline_env h empty_map b)) _
              (or_panic-Keeps P (split_newline_env h empty_map b))
              λ infomap.
                >>=-Keeps P (λ w. or_missing h over (h.read_file over w))
                  (λ text. or_panic (split_newline_env h infomap text))
                  (λ w p. or_missing_keeps over (h.read_file over w) (reads.read_file over w p))
                  λ text. or_panic-Keeps P (split_newline_env h infomap text)

    get_release_map-Keeps : (prefix : String) → Keeps P (get_release_map h prefix)
    unfolding get_release_map
    get_release_map-Keeps prefix =
        let path = h.join prefix os_release_path in
        >>=-Keeps P (wrapping "reading file %q: %w" (path ∷ []) (h.read_file path)) _
          (wrapping-Keeps P _ _ (h.read_file path) (reads.read_file path))
          λ b. or_panic-Keeps P (split_newline_env h empty_map b)

    pub get_version_info-Keeps : (prefix : String) → Keeps P (get_version_info h prefix)
    unfolding get_version_info
    get_version_info-Keeps prefix =
        call-Keeps P "getting update configuration: %w" [] (get_update_map h prefix) _
          (get_update_map-Keeps prefix)
          λ x.
            call-Keeps P "getting OS release info: %w" [] (get_release_map h prefix) (λ y. pure _)
              (get_release_map-Keeps prefix) λ y w p. p

  module _ (P : c.World → Type 0) (calm : Calm P) where
    update_once-Keeps : (k : String) (f : UpdateNode) → Keeps P (update_once c k f)
    unfolding update_once
    update_once-Keeps k f = >>=-Keeps P _ _ (wrapping-Keeps P _ _ (c.get k) (calm.reads.get k)) λ n.
        >>=-Keeps P (or_panic (f n)) _ (or_panic-Keeps P (f n))
          λ u. >>=-Keeps P (c.update u) _ (calm.update u) (λ _ w p. p)

    pub update_node_retry-Keeps : (k : String) (f : UpdateNode) → Keeps P (update_node_retry c k f)
    unfolding update_node_retry
    update_node_retry-Keeps k f =
        wrapping-Keeps P _ _ (c.retry_on_conflict (update_once c k f))
          (calm.retry_on_conflict (update_once c k f) (update_once-Keeps k f))

    set_info_labels-Keeps : Keeps P (set_info_labels c h host_files_prefix node_name)
    unfolding set_info_labels set_node_labels
    set_info_labels-Keeps =
        call-Keeps P "getting version info: %w" [] (get_version_info h host_files_prefix) _
          (get_version_info-Keeps P calm.reads host_files_prefix)
          λ v.
            wrapping-Keeps P _ _ (update_node_retry c node_name _)
              (update_node_retry-Keeps node_name _)

    schedule-Keeps : Keeps P (do
      wrapping "marking node %q as unschedulable: %w"
          (node_name ∷ [])
          (unschedulable c node_name false)
      wrapping "setting node %q annotations: %w"
          (node_name ∷ [])
          (set_node_annotations c node_name schedulable_annotations))
    unfolding set_node_annotations unschedulable
    schedule-Keeps =
        call-Keeps P "marking node %q as unschedulable: %w" (node_name ∷ [])
          (update_node_retry c node_name (unschedulable_f false)) _
          (update_node_retry-Keeps node_name (unschedulable_f false))
          λ _.
            wrapping-Keeps P "setting node %q annotations: %w" (node_name ∷ [])
              (update_node_retry c node_name (set_annotations_f schedulable_annotations))
              (update_node_retry-Keeps node_name (set_annotations_f schedulable_annotations))

    pub begin-Keeps : Keeps P (begin c s h t m host_files_prefix node_name)
    unfolding begin set_node_annotations_labels
    begin-Keeps =
        call-Keeps P "setting node info: %w" [] (set_info_labels c h host_files_prefix node_name) _
          set_info_labels-Keeps
          λ _.
            call-Keeps P "getting node %q: %w" (node_name ∷ []) (get_node_retry c node_name) _
              (get_node_retry-Keeps P calm.reads node_name)
              λ n.
                call-Keeps P "setting node %q labels and annotations: %w" (node_name ∷ [])
                  (update_node_retry c node_name
                    (set_annotations_labels_f start_annotations start_labels))
                  _ (update_node_retry-Keeps node_name _)
                  λ _.
                    call-Keeps P "waiting for not ok to reboot signal from operator: %w" []
                      (wait_for_not_ok_to_reboot c t node_name) _
                      (wait_for_not_ok_to_reboot-Keeps P calm.reads)
                      λ _.
                        if-Keeps P calm.reads
                          (index n.annotations annotation_agent_made_unschedulable == true_value) _
                          _ schedule-Keeps (λ w p. p)
