-- ===== src/Agent/Writes.antt =====
-- Each update that the agent makes of its node keeps the operator's invariant.
use mathlib.Core.Option.{some-injective}
use flatcar_linux_update_ope.Prelude.{
  subst, String, ◌==◌, ◌≡◌, refl, ◌∙◌, ap, sym, Bool, true, false, Option, none, some, List, [],
  ◌∷◌, if◌then◌else◌,
}
use flatcar_linux_update_ope.Prelude.Int.{ℤ}
use flatcar_linux_update_ope.GoMap.{GoMap, entry, assign, assign_all}
use flatcar_linux_update_ope.Node.{Node}
use flatcar_linux_update_ope.K8sutil.Metadata.{
  UpdateNode, set_labels_f, set_annotations_f, set_annotations_labels_f, unschedulable_f,
  with_labels, with_annotations, then_update,
}
use flatcar_linux_update_ope.Updateengine.{Status}
use flatcar_linux_update_ope.Agent.{
  VersionInfo, info_labels, start_annotations, start_labels, schedulable_annotations,
  drain_annotations, status_annotations, status_labels,
}

-- What an entry is after the assignments.
abbrev pub assigned : String → List (String × String) → Option String → Option String
assigned k [] o = o
assigned k ((j, v) ∷ rest) o = assigned k rest (if k == j then some v else o)

pub entry-assign_all :
    (from : List (String × String)) (m n : GoMap) (k : String)
    → assign_all m from ≡ some n
    → entry n k ≡ assigned k from (entry m k)
unfolding assign_all assign
entry-assign_all [] m n k h = ap (λ x. entry x k) (sym (some-injective m n h))
entry-assign_all ((j, v) ∷ rest) none n k h = cc
entry-assign_all ((j, v) ∷ rest) (some d) n k h =
    entry-assign_all rest (some (λ i. if i == j then some v else d i)) n k h

-- The node `m` is `n` after the assignments.
pub record Assigned (annotations labels : List (String × String)) (n m : Node) : Type 0 where
  pub name : m.name ≡ n.name
  pub annotated :
      (k : String) → entry m.annotations k ≡ assigned k annotations (entry n.annotations k)
  pub labelled : (k : String) → entry m.labels k ≡ assigned k labels (entry n.labels k)

-- The updates of its own node that the agent makes, in the order of the source.
pub data Write : Type 0 where
  info : VersionInfo → Write
  start : Write
  uncordon : Write
  schedulable : Write
  status : (ℤ → String) → Status → Write
  drain : Bool → Write
  cordon : Write

unfoldable pub write_f : Write → UpdateNode
write_f (info v) = set_labels_f (info_labels v)
write_f start = set_annotations_labels_f start_annotations start_labels
write_f uncordon = unschedulable_f false
write_f schedulable = set_annotations_f schedulable_annotations
write_f (status format st) =
    set_annotations_labels_f (status_annotations format st) (status_labels st)
write_f (drain already) = set_annotations_f (drain_annotations already)
write_f cordon = unschedulable_f true

abbrev pub written_annotations : Write → List (String × String)
written_annotations (info v) = []
written_annotations start = start_annotations
written_annotations uncordon = []
written_annotations schedulable = schedulable_annotations
written_annotations (status format st) = status_annotations format st
written_annotations (drain already) = drain_annotations already
written_annotations cordon = []

abbrev pub written_labels : Write → List (String × String)
written_labels (info v) = info_labels v
written_labels start = start_labels
written_labels uncordon = []
written_labels schedulable = []
written_labels (status format st) = status_labels st
written_labels (drain already) = []
written_labels cordon = []

labels-Assigned :
    (l : List (String × String)) (n m : Node) (o : Option GoMap)
    → assign_all n.labels l ≡ o
    → with_labels n o ≡ some m
    → Assigned [] l n m
labels-Assigned l n m none e h = cc
labels-Assigned l n m (some x) e h = subst (Assigned [] l n) (some-injective _ m h) (record {
  name = refl;
  annotated = λ k. refl;
  labelled = λ k. entry-assign_all l n.labels x k e;
})

annotations-Assigned :
    (a : List (String × String)) (n m : Node) (o : Option GoMap)
    → assign_all n.annotations a ≡ o
    → with_annotations n o ≡ some m
    → Assigned a [] n m
annotations-Assigned a n m none e h = cc
annotations-Assigned a n m (some x) e h = subst (Assigned a [] n) (some-injective _ m h) (record {
  name = refl;
  annotated = λ k. entry-assign_all a n.annotations x k e;
  labelled = λ k. refl;
})

both-Assigned :
    (a l : List (String × String)) (n m : Node) (o : Option GoMap)
    → assign_all n.annotations a ≡ o
    → then_update (with_annotations n o) (set_labels_f l) ≡ some m
    → Assigned a l n m
unfolding set_labels_f
both-Assigned a l n m none e h = cc
both-Assigned a l n m (some x) e h =
    let r = labels-Assigned l (record n { annotations = x }) m (assign_all n.labels l) refl h in
    record {
      name = r.name;
      annotated = λ k. r.annotated k ∙ entry-assign_all a n.annotations x k e;
      labelled = r.labelled;
    }

pub write_f-Assigned :
    (w : Write) (n m : Node)
    → write_f w n ≡ some m
    → Assigned (written_annotations w) (written_labels w) n m
unfolding write_f set_labels_f set_annotations_f set_annotations_labels_f unschedulable_f
write_f-Assigned (info v) n m h = labels-Assigned (info_labels v) n m _ refl h
write_f-Assigned start n m h = both-Assigned start_annotations start_labels n m _ refl h
write_f-Assigned uncordon n m h =
    subst (Assigned [] [] n) (some-injective _ m h)
      (record { name = refl; annotated = λ k. refl; labelled = λ k. refl })
write_f-Assigned schedulable n m h = annotations-Assigned schedulable_annotations n m _ refl h
write_f-Assigned (status format st) n m h =
    both-Assigned (status_annotations format st) (status_labels st) n m _ refl h
write_f-Assigned (drain already) n m h =
    annotations-Assigned (drain_annotations already) n m _ refl h
write_f-Assigned cordon n m h =
    subst (Assigned [] [] n) (some-injective _ m h)
      (record { name = refl; annotated = λ k. refl; labelled = λ k. refl })
