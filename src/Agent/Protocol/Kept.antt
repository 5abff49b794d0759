-- ===== src/Agent/Protocol/Kept.antt =====
-- What the operator and the agents keep of each other's keys: the updates of `process` in
-- pkg/agent/agent.go, and its two conditions against the selectors of pkg/operator/operator.go.
use flatcar_linux_update_ope.Prelude.{
  ℕ, String, ◌==◌, ◌≡◌, refl, ◌∙◌, sym, true, false, some, List, [], ◌∷◌, All, Bool-cases, inl, inr,
  arith,
}
use flatcar_linux_update_ope.Constants.{
  annotation_ok_to_reboot, label_before_reboot, label_after_reboot,
}
use flatcar_linux_update_ope.GoMap.{GoMap, entry}
use flatcar_linux_update_ope.Node.{Node}
use flatcar_linux_update_ope.Client.{Selectors}
use flatcar_linux_update_ope.K8sutil.Metadata.Names.{or_self, modify}
use flatcar_linux_update_ope.Operator.Vars.{Vars, package_vars}
use flatcar_linux_update_ope.Operator.Vars.Meaning.{
  still_rebooting, just_rebooted, IsLawful, package_vars-Means,
}
use flatcar_linux_update_ope.Operator.Process.Flags.{IsSafe}
use flatcar_linux_update_ope.Operator.Process.Effects.{or_self_lem}
use flatcar_linux_update_ope.Operator.Process.Pairwise.{Pairwise}
use flatcar_linux_update_ope.Agent.{should_reboot, not_ok_to_reboot}
use flatcar_linux_update_ope.Agent.Writes.{Write, write_f, write_f-Assigned}
use flatcar_linux_update_ope.Agent.Protocol.{
  Ready, before_kept, after_kept, ok_kept, write_f-IsSafe, should_reboot_lem,
}

-- The keys that only the operator writes are as they were, and so is the name.
pub record Kept (n m : Node) : Type 0 where
  pub name : m.name ≡ n.name
  pub before : entry m.labels label_before_reboot ≡ entry n.labels label_before_reboot
  pub after : entry m.labels label_after_reboot ≡ entry n.labels label_after_reboot
  pub permission :
      entry m.annotations annotation_ok_to_reboot ≡ entry n.annotations annotation_ok_to_reboot

same-Kept : (n : Node) → Kept n n
same-Kept n = record { name = refl; before = refl; after = refl; permission = refl }

written-Kept : (w : Write) (n : Node) → Kept n (or_self n (write_f w n))
written-Kept w n = or_self_lem (Kept n) n (write_f w n) (same-Kept n) λ m h.
    let r = write_f-Assigned w n m h in
    record {
      name = r.name;
      before = r.labelled label_before_reboot ∙ before_kept w _;
      after = r.labelled label_after_reboot ∙ after_kept w _;
      permission = r.annotated annotation_ok_to_reboot ∙ ok_kept w _;
    }

modify-Kept : (k : String) (w : Write) (ns : List Node) → Pairwise Kept ns (modify k (write_f w) ns)
modify-Kept k w [] = tt
modify-Kept k w (n ∷ ns) = elim (Bool-cases (n.name == k)) [
  | inl here ↦ rw here (written-Kept w n, modify-Kept k w ns)
  | inr there ↦ rw there (same-Kept n, modify-Kept k w ns)
]

-- Every update that an agent makes of its node keeps the operator's invariant: names stay
-- distinct, nodes stay well annotated, and no more nodes take part in reboots than before. And it
-- leaves to every node its name, both labels of the checks and the annotation reboot-ok, so that no
-- node begins or ceases to take part in a reboot. For the update before the drain, the node must
-- still want a reboot, as `waitForOkToReboot` saw.
pub write_f-Kept :
    (k : String) (w : Write) (max : ℕ) (ns : List Node)
    → All (λ n. n.name ≡ k → Ready w n) ns
    → IsSafe max ns
    → IsSafe max (modify k (write_f w) ns) × Pairwise Kept ns (modify k (write_f w) ns)
write_f-Kept k w max ns ready safe = (write_f-IsSafe k w max ns ready safe, modify-Kept k w ns)

-- The agent goes on to reboot in exactly the states that the operator's own selector counts as
-- still rebooting, in which reboot-ok and reboot-needed are both "true"; and neither there nor in
-- those that the operator's other selector takes for rebooted does it count as reset by the
-- operator. The variables of the operator's package are initialised, and the selectors lawful.
pub should_reboot-eq :
    (s : Selectors) (v : Vars s)
    → IsLawful s
    → package_vars s ≡ some v
    → (m : GoMap)
    → (should_reboot s m ≡ s.selects v.still_rebooting_selector m)
      × (should_reboot s m ≡ still_rebooting m)
      × (should_reboot s m ≡ true → not_ok_to_reboot m ≡ false)
      × (s.selects v.just_rebooted_selector m ≡ true → not_ok_to_reboot m ≡ false)
unfolding not_ok_to_reboot
should_reboot-eq s v lawful loaded m =
    let means = package_vars-Means s v loaded lawful in
    let meaning = should_reboot_lem s lawful m in
    (
      meaning ∙ sym (means.still m),
      meaning,
      λ h. (let h1 : still_rebooting m ≡ true = sym meaning ∙ h in ground arith),
      λ h. (let h1 : just_rebooted m ≡ true = sym (means.just m) ∙ h in ground arith),
    )
