-- ===== src/Agent/Process/Start.antt =====
-- What the start of the agent leaves on its node.
use flatcar_linux_update_ope.Prelude.{
  String, ◌==◌, ◌≡◌, refl, ◌∙◌, sym, ap, subst, Bool, true, false, some, List, [], ◌∷◌,
  if◌then◌else◌,
}
use flatcar_linux_update_ope.Constants.{true_value, annotation_agent_made_unschedulable}
use flatcar_linux_update_ope.GoMap.{index, or_empty}
use flatcar_linux_update_ope.Exec.{Outcome, ok, ◌>>◌, pure, wrapping}
use flatcar_linux_update_ope.Exec.Laws.{wrapped_passed, wrap_passed}
use flatcar_linux_update_ope.Node.{Node}
use flatcar_linux_update_ope.Client.{NodeClient, Selectors}
use flatcar_linux_update_ope.Client.Laws.{IsQuiet, find}
use flatcar_linux_update_ope.K8sutil.Metadata.{
  get_node_retry, update_node_retry, set_node_labels, set_node_annotations,
  set_node_annotations_labels, unschedulable,
}
use flatcar_linux_update_ope.K8sutil.Metadata.Names.{DistinctNames, modify, find_name}
use flatcar_linux_update_ope.K8sutil.Metadata.Effect.{Fits, update_node_retry_lem}
use flatcar_linux_update_ope.K8sutil.Metadata.Get.{get_node_retry-Got}
use flatcar_linux_update_ope.Operator.Vars.Meaning.{is_true}
use flatcar_linux_update_ope.Operator.Process.Pairwise.{Pairwise, Then, Pairwise-Then, Pairwise-map}
use flatcar_linux_update_ope.Agent.{
  schedulable_annotations, Host, VersionInfo, get_version_info, set_info_labels,
}
use flatcar_linux_update_ope.Agent.Wait.{Watching, wait_for_not_ok_to_reboot}
use flatcar_linux_update_ope.Agent.Writes.{
  Write, info, start, uncordon, schedulable, write_f, write_f-Assigned,
}
use flatcar_linux_update_ope.Agent.Protocol.{write_f-KeepsName, DistinctNames-modify}
use flatcar_linux_update_ope.Agent.Process.{Machine, begin}
use flatcar_linux_update_ope.Agent.Process.Hits.{Hit, modify-Hit, hit-name, Pairwise-find}
use flatcar_linux_update_ope.Agent.Process.Booted.{Pairwise-refl, Scheduled, Started, hits-Started}
use flatcar_linux_update_ope.Agent.Process.Calm.{
  Reads, get_version_info-Keeps, wait_for_not_ok_to_reboot-Keeps,
}

module _ (c : NodeClient) (q : IsQuiet c) (s : Selectors) (h : Host c.World) (t : Watching c.World)
    (m : Machine c.World) (prefix name : String) where
  -- A write that succeeded.
  written :
      (a : Write) (w : c.World) (ns : List Node)
      → q.nodes w ≡ ns
      → DistinctNames ns
      → (update_node_retry c name (write_f a) w).0 ≡ ok tt
      → Pairwise (Hit name a) ns (q.nodes (update_node_retry c name (write_f a) w).1)
        × DistinctNames (q.nodes (update_node_retry c name (write_f a) w).1)
  written a w ns at d e =
      let (now, fits) =
        (update_node_retry_lem c q name (write_f a) (write_f-KeepsName name a) w
            (subst DistinctNames (sym at) d)).0
          e in
      let now1 = now ∙ ap (modify name (write_f a)) at in
      (
        subst (Pairwise (Hit name a) ns) (sym now1)
            (modify-Hit name a ns d (subst (Fits name (write_f a)) at fits)),
        subst DistinctNames (sym now1)
            (DistinctNames-modify name (write_f a) (write_f-KeepsName name a) ns d),
      )

  module _ (reads : (ns : List Node) → Reads c s h t m prefix name (λ w. q.nodes w ≡ ns)) where
    labelled :
        (w : c.World)
        → DistinctNames (q.nodes w)
        → (set_info_labels c h prefix name w).0 ≡ ok tt
        → (v : VersionInfo) × ((get_version_info h prefix w).0 ≡ ok v)
          × Pairwise (Hit name (info v)) (q.nodes w) (q.nodes (set_info_labels c h prefix name w).1)
          × DistinctNames (q.nodes (set_info_labels c h prefix name w).1)
    unfolding set_info_labels set_node_labels write_f
    labelled w d e =
        let (v, got, e1, at) = wrapped_passed _ _ (get_version_info h prefix w) _ tt e in
        let same =
          get_version_info-Keeps c s h t m prefix name (λ x. q.nodes x ≡ q.nodes w)
            (reads (q.nodes w)) prefix w refl in
        let w1 = (get_version_info h prefix w).1 in
        let (done, at1) = wrap_passed _ _ (update_node_retry c name (write_f (info v)) w1) tt e1 in
        let (hits, d1) = written (info v) w1 (q.nodes w) same d done in
        let now = ap (λ (r : Outcome (Unit {0}) × c.World). q.nodes r.1) (sym (at ∙ at1)) in
        (
          v,
          got,
          subst (Pairwise (Hit name (info v)) (q.nodes w)) now hits,
          subst DistinctNames now d1,
        )

    -- The end of `begin`: the node is made schedulable again only if the agent had cordoned it.
    scheduled :
        (was : Bool) (w : c.World) (ns : List Node)
        → q.nodes w ≡ ns
        → DistinctNames ns
        → (r : Outcome (Unit {0}) × c.World)
        → (if was
              then (do
                wrapping "marking node %q as unschedulable: %w"
                    (name ∷ [])
                    (unschedulable c name false)
                wrapping "setting node %q annotations: %w"
                    (name ∷ [])
                    (set_node_annotations c name schedulable_annotations))
              else pure tt)
            w
          ≡ r
        → r.0 ≡ ok tt
        → Pairwise (Scheduled name was) ns (q.nodes r.1)
    unfolding unschedulable set_node_annotations write_f
    scheduled false w ns at d r e done =
        subst (Pairwise (Scheduled name false) ns)
          (sym at ∙ ap (λ (x : Outcome (Unit {0}) × c.World). q.nodes x.1) e)
          (Pairwise-refl name ns)
    scheduled true w ns at d r e done =
        let done' = ap (λ (x : Outcome (Unit {0}) × c.World). x.0) e ∙ done in
        let (u, free, e1, at1) =
          wrapped_passed _ _ (update_node_retry c name (write_f uncordon) w) _ tt done' in
        let (hits, d1) = written uncordon w ns at d free in
        let w1 = (update_node_retry c name (write_f uncordon) w).1 in
        let (noted, at2) =
          wrap_passed _ _ (update_node_retry c name (write_f schedulable) w1) tt e1 in
        let (hits2, d2) = written schedulable w1 _ refl d1 noted in
        subst (Pairwise (Scheduled name true) ns)
          (ap (λ (x : Outcome (Unit {0}) × c.World). q.nodes x.1) (sym (at1 ∙ at2) ∙ e))
          (Pairwise-Then (Hit name uncordon) (Hit name schedulable) ns _ _ hits hits2)

    -- The start of the agent on a quiet API server, where the names of the nodes are distinct and
    -- reading changes none of them. When it succeeds, the version information of the host was read,
    -- and the stored node of its name has the labels of the version information with its
    -- identifier, group and version, the label reboot-needed "false" and the annotations
    -- reboot-needed and reboot-in-progress "false". Exactly if that node carried the note that the
    -- agent had cordoned it, it is schedulable and the note is "false"; otherwise the note stays,
    -- and it is schedulable if it was. The other labels and annotations and the other nodes do not
    -- change.
    pub begin-Started :
        (w : c.World)
        → DistinctNames (q.nodes w)
        → (begin c s h t m prefix name w).0 ≡ ok tt
        → (v : VersionInfo) × (n : Node) × ((get_version_info h prefix w).0 ≡ ok v)
          × (find name (q.nodes w) ≡ some n)
          × Pairwise
              (Started name v (is_true n.annotations annotation_agent_made_unschedulable))
              (q.nodes w)
              (q.nodes (begin c s h t m prefix name w).1)
    unfolding begin set_node_annotations_labels write_f
    begin-Started w d e =
        let (u1, done1, e1, at1) = wrapped_passed _ _ (set_info_labels c h prefix name w) _ tt e in
        let (v, got, hits1, d1) = labelled w d done1 in
        let w1 = (set_info_labels c h prefix name w).1 in
        let (n, done2, e2, at2) = wrapped_passed _ _ (get_node_retry c name w1) _ tt e1 in
        let read = get_node_retry-Got c q name w1 in
        let w2 = (get_node_retry c name w1).1 in
        let (n0, found, hit) =
          Pairwise-find (Hit name (info v)) (hit-name name (info v)) name (q.nodes w) (q.nodes w1)
            hits1 n (read.found n done2) in
        let same : index n.annotations annotation_agent_made_unschedulable
            ≡ index n0.annotations annotation_agent_made_unschedulable =
          ap or_empty (
            (write_f-Assigned (info v) n0 n
                (hit.hit (find_name name (q.nodes w) n0 found))).annotated
              annotation_agent_made_unschedulable) in
        let (u3, done3, e3, at3) =
          wrapped_passed _ _ (update_node_retry c name (write_f start) w2) _ tt e2 in
        let (hits3, d3) = written start w2 _ read.same d1 done3 in
        let w3 = (update_node_retry c name (write_f start) w2).1 in
        let (u4, done4, e4, at4) =
          wrapped_passed _ _ (wait_for_not_ok_to_reboot c t name w3) _ tt e3 in
        let now4 =
          wait_for_not_ok_to_reboot-Keeps c s h t m prefix name (λ x. q.nodes x ≡ q.nodes w3)
            (reads (q.nodes w3)) w3 refl in
        let was = index n.annotations annotation_agent_made_unschedulable == true_value in
        let last =
          scheduled was (wait_for_not_ok_to_reboot c t name w3).1 (q.nodes w3) now4 d3
            (begin c s h t m prefix name w) (sym (at1 ∙ at2 ∙ at3 ∙ at4)) e in
        let whole =
          Pairwise-Then (Then (Hit name (info v)) (Hit name start)) (Scheduled name was) (q.nodes w)
            _ _ (Pairwise-Then (Hit name (info v)) (Hit name start) (q.nodes w) _ _ hits1 hits3)
            last in
        (
          v,
          n0,
          got,
          found,
          subst
              (λ b.
                Pairwise (Started name v b) (q.nodes w) (q.nodes (begin c s h t m prefix name w).1))
              (ap (λ x. x == true_value) same)
              (Pairwise-map _ _ (hits-Started name v was) _ _ whole),
        )
