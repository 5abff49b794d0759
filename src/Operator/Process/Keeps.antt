-- ===== src/Operator/Process/Keeps.antt =====
-- Each step of a pass keeps the invariant, and what the steps before it established.
use native.Mathlib.Nat.{le_trans}
use flatcar_linux_update_ope.Prelude.{ℕ, ◌≡◌, sym, subst, Bool, true, List, All, arith}
use flatcar_linux_update_ope.Constants.{
  true_value, false_value, label_before_reboot, label_after_reboot,
}
use flatcar_linux_update_ope.Exec.{ok}
use flatcar_linux_update_ope.Node.{Node}
use flatcar_linux_update_ope.Client.{NodeClient, Selectors}
use flatcar_linux_update_ope.Client.Laws.{IsQuiet}
use flatcar_linux_update_ope.K8sutil.Metadata.{UpdateNode}
use flatcar_linux_update_ope.K8sutil.Metadata.Names.{KeepsName, or_self, or_self-name}
use flatcar_linux_update_ope.K8sutil.Metadata.Loop.{update_first, Fitting}
use flatcar_linux_update_ope.Operator.Vars.{Vars}
use flatcar_linux_update_ope.Operator.Vars.Meaning.{Means}
use flatcar_linux_update_ope.Operator.Config.{Kontroller}
use flatcar_linux_update_ope.Operator.Checks.{
  cleanup_f, check_reboot_f, cleanup_state, check_after_reboot, check_before_reboot,
}
use flatcar_linux_update_ope.Operator.Marks.{mark_f, mark_after_reboot}
use flatcar_linux_update_ope.Operator.Process.Flags.{
  engaged, WellAnnotated, Cleaned, Counted, IsForeign, IsSafe,
}
use flatcar_linux_update_ope.Operator.Process.Counting.{
  All-zip, All-update_first, All-update_where, count-update_first-le, DistinctNames-update_first,
}
use flatcar_linux_update_ope.Operator.Process.Nodes.{check_reboot_f-IsChecked, mark_f-IsMarked}
use flatcar_linux_update_ope.Operator.Process.Effects.{
  or_self_lem, or_self_some, marked_WellAnnotated, marked_after_Cleaned, marked_after_Counted,
  checked_after_engaged, checked_after_WellAnnotated, checked_after_Cleaned, checked_before_Counted,
  checked_before_WellAnnotated, left_out_Counted,
}
use flatcar_linux_update_ope.Operator.Process.Cleanup.{
  cleaned-Cleaned, cleaned-engaged, cleaned-WellAnnotated,
}
use flatcar_linux_update_ope.Operator.Process.Sweeps.{
  cleanup_f-KeepsName, check_reboot_f-KeepsName, mark_f-KeepsName, cleanup_state-Swept,
  check_after_reboot-Swept, check_before_reboot-Swept, mark_after_reboot-Swept, passed,
  newly_rebooted,
}

-- An update of some of the nodes that sets no node's flag `engaged` keeps the invariant.
pub IsSafe-update_first :
    (p : Node → Bool) (f : UpdateNode) (keeps : KeepsName f) (P : Node → Type 0) (max k : ℕ)
    (ns : List Node)
    → ((n : Node) → p n ≡ true → WellAnnotated n × P n → WellAnnotated (or_self n (f n)))
    → ((n : Node) → p n ≡ true → engaged (or_self n (f n)) ≡ true → engaged n ≡ true)
    → IsSafe max ns
    → All P ns
    → IsSafe max (update_first k p f ns)
IsSafe-update_first p f keeps P max k ns well fewer safe h = record {
  distinct = DistinctNames-update_first p f (or_self-name f keeps) k ns safe.distinct;
  well =
      All-update_first p f (λ n. WellAnnotated n × P n) WellAnnotated well (λ n x. x.0) k ns
        (All-zip WellAnnotated P ns safe.well h);
  few = le_trans (count-update_first-le p f engaged fewer k ns) safe.few;
}

module _ (c : NodeClient) (q : IsQuiet c) (s : Selectors) (v : Vars s) (means : Means s v) where
  module _ (k : Kontroller) (max : ℕ) (w : c.World) (safe : IsSafe max (q.nodes w)) where
    module _ (foreign : IsForeign k.before_reboot_annotations) where
      pub cleanup_state-IsSafe :
          IsSafe max (q.nodes (cleanup_state c s v k w).1)
          × ((cleanup_state c s v k w).0 ≡ ok tt
              → All Cleaned (q.nodes (cleanup_state c s v k w).1))
      cleanup_state-IsSafe =
          let f = cleanup_f c s v k.before_reboot_annotations in
          let (j, part, whole) = cleanup_state-Swept c q s v means k w safe.distinct in
          (
            subst (IsSafe max) (sym part) (
                IsSafe-update_first (λ _. true) f
                  (cleanup_f-KeepsName c q s v means k.before_reboot_annotations) WellAnnotated max
                  j (q.nodes w)
                  (λ n _ x.
                    cleaned-WellAnnotated c s v means k.before_reboot_annotations n foreign x.0)
                  (λ n _. cleaned-engaged c s v means k.before_reboot_annotations n) safe
                  safe.well),
            λ h. subst (All Cleaned) (sym (whole h).0) (
                All-update_where (λ _. true) f WellAnnotated Cleaned
                  (λ n _ _. cleaned-Cleaned c s v means k.before_reboot_annotations n) (λ n e _. cc)
                  (q.nodes w) safe.well),
          )

      pub check_before_reboot-IsSafe :
          All Cleaned (q.nodes w)
          → All Counted (q.nodes w)
          → IsSafe max (q.nodes (check_before_reboot c s v k w).1)
            × All Counted (q.nodes (check_before_reboot c s v k w).1)
      check_before_reboot-IsSafe clean counted =
          let f = check_reboot_f label_before_reboot k.before_reboot_annotations true_value in
          let p = passed c q s v means label_before_reboot k.before_reboot_annotations in
          let (j, part, whole) = check_before_reboot-Swept c q s v means k w safe.distinct in
          (
            subst (IsSafe max) (sym part) (
                IsSafe-update_first p f (check_reboot_f-KeepsName _ _ _) Cleaned max j (q.nodes w)
                  (λ n hit x. or_self_lem WellAnnotated n (f n) x.0 (λ m e.
                    checked_before_WellAnnotated k.before_reboot_annotations foreign n m
                      (check_reboot_f-IsChecked _ _ _ n m e) (ground arith) x.1))
                  (λ n hit _. ground arith) safe clean),
            subst (All Counted) (sym part) (
                All-update_first p f (λ n. Cleaned n × Counted n) Counted
                  (λ n hit x. or_self_lem Counted n (f n) x.1 (λ m e.
                    checked_before_Counted k.before_reboot_annotations foreign n m
                      (check_reboot_f-IsChecked _ _ _ n m e) (ground arith) x.0))
                  (λ n x. x.1) j (q.nodes w) (All-zip Cleaned Counted (q.nodes w) clean counted)),
          )

    module _ (foreign : IsForeign k.after_reboot_annotations) where
      pub check_after_reboot-IsSafe :
          All Cleaned (q.nodes w)
          → IsSafe max (q.nodes (check_after_reboot c s v k w).1)
            × All Cleaned (q.nodes (check_after_reboot c s v k w).1)
      check_after_reboot-IsSafe clean =
          let f = check_reboot_f label_after_reboot k.after_reboot_annotations false_value in
          let p = passed c q s v means label_after_reboot k.after_reboot_annotations in
          let (j, part, whole) = check_after_reboot-Swept c q s v means k w safe.distinct in
          (
            subst (IsSafe max) (sym part) (
                IsSafe-update_first p f (check_reboot_f-KeepsName _ _ _) WellAnnotated max j
                  (q.nodes w)
                  (λ n hit x. or_self_lem WellAnnotated n (f n) x.0 (λ m e.
                    checked_after_WellAnnotated k.after_reboot_annotations foreign n m
                      (check_reboot_f-IsChecked _ _ _ n m e)))
                  (λ n hit.
                    or_self_lem (λ m. engaged m ≡ true → engaged n ≡ true) n (f n) (λ e. e)
                      (λ m e.
                        checked_after_engaged k.after_reboot_annotations foreign n m
                          (check_reboot_f-IsChecked _ _ _ n m e)))
                  safe safe.well),
            subst (All Cleaned) (sym part) (
                All-update_first p f Cleaned Cleaned
                  (λ n hit x. or_self_lem Cleaned n (f n) x (λ m e.
                    checked_after_Cleaned k.after_reboot_annotations foreign n m
                      (check_reboot_f-IsChecked _ _ _ n m e) x))
                  (λ n x. x) j (q.nodes w) clean),
          )

      pub mark_after_reboot-IsSafe :
          All Cleaned (q.nodes w)
          → IsSafe max (q.nodes (mark_after_reboot c s v k w).1)
            × All Cleaned (q.nodes (mark_after_reboot c s v k w).1)
            × ((mark_after_reboot c s v k w).0 ≡ ok tt
                → All Counted (q.nodes (mark_after_reboot c s v k w).1))
      mark_after_reboot-IsSafe clean =
          let f = mark_f label_after_reboot k.after_reboot_annotations in
          let p = newly_rebooted c q s v means in
          let (j, part, whole) = mark_after_reboot-Swept c q s v means k w safe.distinct in
          (
            subst (IsSafe max) (sym part) (
                IsSafe-update_first p f (mark_f-KeepsName _ _) WellAnnotated max j (q.nodes w)
                  (λ n hit x. or_self_lem WellAnnotated n (f n) x.0 (λ m e.
                    marked_WellAnnotated k.after_reboot_annotations foreign n m label_after_reboot
                      (mark_f-IsMarked _ _ n m e) x.0))
                  (λ n hit _. ground arith) safe safe.well),
            subst (All Cleaned) (sym part) (
                All-update_first p f Cleaned Cleaned
                  (λ n hit x. or_self_lem Cleaned n (f n) x (λ m e.
                    marked_after_Cleaned k.after_reboot_annotations foreign n m
                      (mark_f-IsMarked _ _ n m e) x))
                  (λ n x. x) j (q.nodes w) clean),
            λ h. subst (All Counted) (sym (whole h).0) (
                All-update_where p f (λ n. WellAnnotated n × Fitting p f n) Counted
                  (λ n hit x. or_self_some Counted n (f n) (x.1 hit) (λ m e.
                    marked_after_Counted k.after_reboot_annotations foreign n m
                      (mark_f-IsMarked _ _ n m e)))
                  (λ n miss x. left_out_Counted n miss x.0) (q.nodes w)
                  (All-zip WellAnnotated (Fitting p f) (q.nodes w) safe.well (whole h).1)),
          )
