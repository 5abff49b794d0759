-- ===== src/Agent/Protocol.antt =====
-- The agent's side of the reboot protocol against the operator's invariant.
pub mod Kept
use flatcar_linux_update_ope.Prelude.{
  eq_iff, String, ◌==◌, ◌≡◌, refl, ◌∙◌, Bool, true, false, not, Option, some, List, [], ◌∷◌, arith,
  ℕ, inl, inr, All, count, Bool-cases,
}
use flatcar_linux_update_ope.Prelude.Int.{ℤ}
use flatcar_linux_update_ope.Constants.{
  annotation_reboot_needed, annotation_ok_to_reboot, annotation_reboot_in_progress,
  label_before_reboot, label_after_reboot, true_value,
}
use flatcar_linux_update_ope.GoMap.{GoMap, entry}
use flatcar_linux_update_ope.Node.{Node}
use flatcar_linux_update_ope.Client.{Selectors}
use flatcar_linux_update_ope.K8sutil.Metadata.{UpdateNode}
use flatcar_linux_update_ope.K8sutil.Metadata.Names.{
  KeepsName, DistinctNames, has_name, or_self, or_self-name, modify,
}
use flatcar_linux_update_ope.Operator.Vars.Meaning.{is_true, still_rebooting, IsLawful}
use flatcar_linux_update_ope.Operator.Process.Flags.{engaged, allowed, WellAnnotated, IsSafe}
use flatcar_linux_update_ope.Operator.Process.Effects.{or_self_lem}
use flatcar_linux_update_ope.Updateengine.{Status, update_status_updated_need_reboot}
use flatcar_linux_update_ope.Agent.{
  should_reboot, not_ok_to_reboot, status_annotations, status_labels,
}
use flatcar_linux_update_ope.Agent.Writes.{
  Write, info, start, uncordon, schedulable, status, drain, cordon, write_f, assigned, Assigned,
  write_f-Assigned, written_annotations, written_labels,
}

-- Before the drain the agent has waited for a node that may reboot and wants to.
abbrev pub Ready : Write → Node → Type 0
Ready (info v) n = Unit
Ready start n = Unit
Ready uncordon n = Unit
Ready schedulable n = Unit
Ready (status format st) n = Unit
Ready (drain already) n = is_true n.annotations annotation_reboot_needed ≡ true
Ready cordon n = Unit

-- The annotation reboot-needed after a status is "true" if the status says so.
abbrev pub needs : Status → Bool
needs st = st.current_operation == update_status_updated_need_reboot

pub ok_kept :
    (w : Write) (o : Option String) → assigned annotation_ok_to_reboot (written_annotations w) o ≡ o
unfolding status_annotations
ok_kept (info v) o = refl
ok_kept start o = refl
ok_kept uncordon o = refl
ok_kept schedulable o = refl
ok_kept (status format st) o = elim (Bool-cases (needs st)) [
  | inl e ↦ rw e refl
  | inr e ↦ rw e refl
]
ok_kept (drain true) o = refl
ok_kept (drain false) o = refl
ok_kept cordon o = refl

pub before_kept :
    (w : Write) (o : Option String) → assigned label_before_reboot (written_labels w) o ≡ o
unfolding status_labels
before_kept (info v) o = refl
before_kept start o = refl
before_kept uncordon o = refl
before_kept schedulable o = refl
before_kept (status format st) o = elim (Bool-cases (needs st)) [
  | inl e ↦ rw e refl
  | inr e ↦ rw e refl
]
before_kept (drain already) o = refl
before_kept cordon o = refl

pub after_kept :
    (w : Write) (o : Option String) → assigned label_after_reboot (written_labels w) o ≡ o
unfolding status_labels
after_kept (info v) o = refl
after_kept start o = refl
after_kept uncordon o = refl
after_kept schedulable o = refl
after_kept (status format st) o = elim (Bool-cases (needs st)) [
  | inl e ↦ rw e refl
  | inr e ↦ rw e refl
]
after_kept (drain already) o = refl
after_kept cordon o = refl

module _ (n m : Node) where
  -- The protocol's annotations are the same.
  same_WellAnnotated :
      entry m.annotations annotation_ok_to_reboot ≡ entry n.annotations annotation_ok_to_reboot
      → entry m.annotations annotation_reboot_needed ≡ entry n.annotations annotation_reboot_needed
      → entry m.annotations annotation_reboot_in_progress
        ≡ entry n.annotations annotation_reboot_in_progress
      → WellAnnotated n
      → WellAnnotated m
  same_WellAnnotated a b d x = rw (a, b, d) x

  needed_WellAnnotated :
      entry m.annotations annotation_reboot_needed ≡ some true_value → WellAnnotated m
  needed_WellAnnotated e _ = inl (rw e refl)

  started_WellAnnotated :
      entry m.annotations annotation_reboot_needed ≡ some "false"
      → entry m.annotations annotation_reboot_in_progress ≡ some "false"
      → WellAnnotated m
  started_WellAnnotated a b h = inr (rw (a, b, h) refl)

  status_WellAnnotated :
      (format : ℤ → String) (st : Status)
      → Assigned (status_annotations format st) (status_labels st) n m
      → WellAnnotated n
      → WellAnnotated m
  unfolding status_annotations
  status_WellAnnotated format st r x = elim (Bool-cases (needs st)) [
    | inl e ↦ needed_WellAnnotated (r.annotated annotation_reboot_needed ∙ rw e refl)
    | inr e ↦
        same_WellAnnotated (r.annotated annotation_ok_to_reboot ∙ rw e refl)
          (r.annotated annotation_reboot_needed ∙ rw e refl)
          (r.annotated annotation_reboot_in_progress ∙ rw e refl) x
  ]

  drain_WellAnnotated :
      (already : Bool)
      → is_true n.annotations annotation_reboot_needed ≡ true
      → entry m.annotations annotation_reboot_needed ≡ entry n.annotations annotation_reboot_needed
      → WellAnnotated m
  drain_WellAnnotated already ready e _ = inl (rw e ready)

  kept_WellAnnotated :
      (w : Write)
      → Assigned (written_annotations w) (written_labels w) n m
      → Ready w n
      → WellAnnotated n
      → WellAnnotated m
  kept_WellAnnotated (info v) r ready x =
      same_WellAnnotated (r.annotated _) (r.annotated _) (r.annotated _) x
  kept_WellAnnotated start r ready x =
      started_WellAnnotated (r.annotated annotation_reboot_needed)
        (r.annotated annotation_reboot_in_progress)
  kept_WellAnnotated uncordon r ready x =
      same_WellAnnotated (r.annotated _) (r.annotated _) (r.annotated _) x
  kept_WellAnnotated schedulable r ready x =
      same_WellAnnotated (r.annotated annotation_ok_to_reboot)
        (r.annotated annotation_reboot_needed) (r.annotated annotation_reboot_in_progress) x
  kept_WellAnnotated (status format st) r ready x = status_WellAnnotated format st r x
  kept_WellAnnotated (drain true) r ready x =
      drain_WellAnnotated true ready (r.annotated annotation_reboot_needed)
  kept_WellAnnotated (drain false) r ready x =
      drain_WellAnnotated false ready (r.annotated annotation_reboot_needed)
  kept_WellAnnotated cordon r ready x =
      same_WellAnnotated (r.annotated _) (r.annotated _) (r.annotated _) x

  kept_engaged :
      (w : Write) → Assigned (written_annotations w) (written_labels w) n m → engaged m ≡ engaged n
  kept_engaged w r =
      rw
        (
          r.labelled label_before_reboot ∙ before_kept w _,
          r.labelled label_after_reboot ∙ after_kept w _,
          r.annotated annotation_ok_to_reboot ∙ ok_kept w _,
        )
        refl

module _ (k : String) (f : UpdateNode) (keeps : KeepsName f) where
  has_name-modify : (j : String) (ns : List Node) → has_name j (modify k f ns) ≡ has_name j ns
  has_name-modify j [] = refl
  has_name-modify j (n ∷ ns) = elim (Bool-cases (n.name == k)) [
    | inl here ↦ rw (here, or_self-name f keeps n, has_name-modify j ns) refl
    | inr there ↦ rw (there, has_name-modify j ns) refl
  ]

  pub DistinctNames-modify : (ns : List Node) → DistinctNames ns → DistinctNames (modify k f ns)
  DistinctNames-modify [] d = tt
  DistinctNames-modify (n ∷ ns) (fresh, d) = elim (Bool-cases (n.name == k)) [
    | inl here ↦
        rw (here, or_self-name f keeps n, has_name-modify n.name ns)
          (fresh, DistinctNames-modify ns d)
    | inr there ↦ rw (there, has_name-modify n.name ns) (fresh, DistinctNames-modify ns d)
  ]

-- A property that the update keeps on every node that it may be made of.
pub All-modify :
    (P C : Node → Type 0) (k : String) (f : UpdateNode)
    → ((n : Node) → C n → P n → P (or_self n (f n)))
    → (ns : List Node) → All (λ n. n.name ≡ k → C n) ns
    → All P ns
    → All P (modify k f ns)
All-modify P C k f keep [] c h = tt
All-modify P C k f keep (n ∷ ns) (r, c) (x, h) = elim (Bool-cases (n.name == k)) [
  | inl here ↦ rw here (keep n (r ((eq_iff n.name k).0 here)) x, All-modify P C k f keep ns c h)
  | inr there ↦ rw there (x, All-modify P C k f keep ns c h)
]

-- An update that the agent made, as an update of one node.
module _ (k : String) (w : Write) where
  pub write_f-KeepsName : KeepsName (write_f w)
  write_f-KeepsName n m h = (write_f-Assigned w n m h).name

  written_WellAnnotated :
      (n : Node) → Ready w n → WellAnnotated n → WellAnnotated (or_self n (write_f w n))
  written_WellAnnotated n ready x =
      or_self_lem WellAnnotated n (write_f w n) x
        (λ m h. kept_WellAnnotated n m w (write_f-Assigned w n m h) ready x)

  pub written_engaged : (n : Node) → engaged (or_self n (write_f w n)) ≡ engaged n
  written_engaged n =
      or_self_lem (λ m. engaged m ≡ engaged n) n (write_f w n) refl
        (λ m h. kept_engaged n m w (write_f-Assigned w n m h))

  All-WellAnnotated-modify :
      (ns : List Node)
      → All (λ n. n.name ≡ k → Ready w n) ns
      → All WellAnnotated ns
      → All WellAnnotated (modify k (write_f w) ns)
  All-WellAnnotated-modify = All-modify WellAnnotated (Ready w) k (write_f w) written_WellAnnotated

  pub count-engaged-modify :
      (ns : List Node) → count engaged (modify k (write_f w) ns) ≡ count engaged ns
  count-engaged-modify [] = refl
  count-engaged-modify (n ∷ ns) = elim (Bool-cases (n.name == k)) [
    | inl here ↦ rw (here, written_engaged n, count-engaged-modify ns) refl
    | inr there ↦ rw (there, count-engaged-modify ns) refl
  ]

-- Every update that an agent makes of its node keeps the operator's invariant. For the update
-- before the drain, the node must still want a reboot, as `waitForOkToReboot` saw.
pub write_f-IsSafe :
    (k : String) (w : Write) (max : ℕ) (ns : List Node)
    → All (λ n. n.name ≡ k → Ready w n) ns
    → IsSafe max ns
    → IsSafe max (modify k (write_f w) ns)
write_f-IsSafe k w max ns ready safe = record {
  distinct = DistinctNames-modify k (write_f w) (write_f-KeepsName k w) ns safe.distinct;
  well = All-WellAnnotated-modify k w ns ready safe.well;
  few = rw (count-engaged-modify k w ns) safe.few;
}

-- What the selector of `shouldReboot` tests.
pub should_reboot_lem :
    (s : Selectors) → IsLawful s → (m : GoMap) → should_reboot s m ≡ still_rebooting m
unfolding should_reboot
should_reboot_lem s lawful m = lawful.set_as_selector_lem _ m ∙ ground arith
