-- ===== src/Agent/Process/Booted.antt =====
-- The node of the agent before and after its start, entry by entry.
use mathlib.Core.Option.{some-injective}
use flatcar_linux_update_ope.Prelude.{
  String, ◌==◌, ◌≡◌, ◌≢◌, refl, ◌∙◌, sym, ap, subst, Bool, true, false, Option, none, some, List,
  [], ◌∷◌, ◌&&◌, if◌then◌else◌,
}
use flatcar_linux_update_ope.Constants.{
  annotation_agent_made_unschedulable, annotation_reboot_needed, annotation_reboot_in_progress,
  label_id, label_group, label_version, label_reboot_needed,
}
use flatcar_linux_update_ope.GoMap.{GoMap, entry}
use flatcar_linux_update_ope.Node.{Node}
use flatcar_linux_update_ope.K8sutil.Metadata.{
  set_labels_f, set_annotations_f, set_annotations_labels_f, unschedulable_f, with_labels,
  with_annotations, then_update,
}
use flatcar_linux_update_ope.Operator.Process.Pairwise.{Pairwise, Then}
use flatcar_linux_update_ope.Agent.{VersionInfo}
use flatcar_linux_update_ope.Agent.Writes.{
  info, start, uncordon, schedulable, write_f, write_f-Assigned,
}
use flatcar_linux_update_ope.Agent.Process.Hits.{Hit}

-- The node is made schedulable again, or left alone.
abbrev pub Scheduled : String → Bool → Node → Node → Type 0
Scheduled k true = Then (Hit k uncordon) (Hit k schedulable)
Scheduled k false = λ n m. m ≡ n

pub Pairwise-refl : (k : String) (ns : List Node) → Pairwise (Scheduled k false) ns ns
Pairwise-refl k [] = tt
Pairwise-refl k (n ∷ ns) = (refl, Pairwise-refl k ns)

labels_same :
    (n m : Node) (o : Option GoMap) → with_labels n o ≡ some m → m.unschedulable ≡ n.unschedulable
labels_same n m none h = cc
labels_same n m (some x) h = sym (ap Node.unschedulable (some-injective _ m h))

annotations_same :
    (n m : Node) (o : Option GoMap)
    → with_annotations n o ≡ some m
    → m.unschedulable ≡ n.unschedulable
annotations_same n m none h = cc
annotations_same n m (some x) h = sym (ap Node.unschedulable (some-injective _ m h))

both_same :
    (n m : Node) (o : Option GoMap) (l : List (String × String))
    → then_update (with_annotations n o) (set_labels_f l) ≡ some m
    → m.unschedulable ≡ n.unschedulable
unfolding set_labels_f
both_same n m none l h = cc
both_same n m (some x) l h = labels_same (record n { annotations = x }) m _ h

-- What the writes of the start do to the mark of the scheduler.
info_same :
    (v : VersionInfo) (n m : Node) → write_f (info v) n ≡ some m → m.unschedulable ≡ n.unschedulable
unfolding write_f set_labels_f
info_same v n m h = labels_same n m _ h

start_same : (n m : Node) → write_f start n ≡ some m → m.unschedulable ≡ n.unschedulable
unfolding write_f set_annotations_labels_f
start_same n m h = both_same n m _ _ h

schedulable_same : (n m : Node) → write_f schedulable n ≡ some m → m.unschedulable ≡ n.unschedulable
unfolding write_f set_annotations_f
schedulable_same n m h = annotations_same n m _ h

uncordoned : (n m : Node) → write_f uncordon n ≡ some m → m.unschedulable ≡ false
unfolding write_f unschedulable_f
uncordoned n m h = sym (ap Node.unschedulable (some-injective _ m h))

-- The agent's own node, with the version information and the note of its own cordon.
pub record Booted (v : VersionInfo) (noted : Bool) (n m : Node) : Type 0 where
  pub name : m.name ≡ n.name
  pub labels :
      (j : String)
      → entry m.labels j ≡ (
          if j == label_reboot_needed
          then some "false"
          else if j == label_version
          then some v.version
          else if j == label_group
          then some v.group
          else if j == label_id
          then some v.id
          else entry n.labels j)
  pub annotated :
      (j : String)
      → entry m.annotations j ≡ (
          if noted && (j == annotation_agent_made_unschedulable)
          then some "false"
          else if j == annotation_reboot_needed
          then some "false"
          else if j == annotation_reboot_in_progress
          then some "false"
          else entry n.annotations j)
  pub unschedulable : m.unschedulable ≡ (if noted then false else n.unschedulable)

-- The agent's node has booted, and the others are as they were.
pub record Started (k : String) (v : VersionInfo) (noted : Bool) (n m : Node) : Type 0 where
  pub own : n.name ≡ k → Booted v noted n m
  pub other : n.name ≢ k → m ≡ n

hits-Booted :
    (k : String) (v : VersionInfo) (noted : Bool) (n a b m : Node)
    → n.name ≡ k
    → Hit k (info v) n a
    → Hit k start a b
    → Scheduled k noted b m
    → Booted v noted n m
hits-Booted k v false n a b m same h1 h2 h3 =
    let e1 = h1.hit same in
    let r1 = write_f-Assigned (info v) n a e1 in
    let e2 = h2.hit (r1.name ∙ same) in
    let r2 = write_f-Assigned start a b e2 in
    subst (Booted v false n) (sym h3) (record {
      name = r2.name ∙ r1.name;
      labels = λ j. r2.labelled j ∙ rw (r1.labelled j) refl;
      annotated = λ j. r2.annotated j ∙ rw (r1.annotated j) refl;
      unschedulable = start_same a b e2 ∙ info_same v n a e1;
    })
hits-Booted k v true n a b m same h1 h2 (x, h3, h4) =
    let e1 = h1.hit same in
    let r1 = write_f-Assigned (info v) n a e1 in
    let e2 = h2.hit (r1.name ∙ same) in
    let r2 = write_f-Assigned start a b e2 in
    let e3 = h3.hit (r2.name ∙ r1.name ∙ same) in
    let r3 = write_f-Assigned uncordon b x e3 in
    let e4 = h4.hit (r3.name ∙ r2.name ∙ r1.name ∙ same) in
    let r4 = write_f-Assigned schedulable x m e4 in
    record {
      name = r4.name ∙ r3.name ∙ r2.name ∙ r1.name;
      labels = λ j. r4.labelled j ∙ r3.labelled j ∙ r2.labelled j ∙ rw (r1.labelled j) refl;
      annotated = λ j. r4.annotated j ∙ rw (r3.annotated j, r2.annotated j, r1.annotated j) refl;
      unschedulable = schedulable_same x m e4 ∙ uncordoned b x e3;
    }

hits_missed :
    (k : String) (v : VersionInfo) (noted : Bool) (n a b m : Node)
    → n.name ≢ k
    → Hit k (info v) n a
    → Hit k start a b
    → Scheduled k noted b m
    → m ≡ n
hits_missed k v noted n a b m other h1 h2 h3 =
    let e1 = h1.missed other in
    let e2 = h2.missed (λ e. other (ap Node.name (sym e1) ∙ e)) ∙ e1 in
    scheduled_missed noted m (λ e. other (ap Node.name (sym e2) ∙ e)) h3 ∙ e2
  where
    scheduled_missed : (was : Bool) (m : Node) → b.name ≢ k → Scheduled k was b m → m ≡ b
    scheduled_missed false m left h = h
    scheduled_missed true m left (x, h4, h5) =
        let e = h4.missed left in h5.missed (λ f. left (ap Node.name (sym e) ∙ f)) ∙ e

pub hits-Started :
    (k : String) (v : VersionInfo) (noted : Bool) (n m : Node)
    → Then (Then (Hit k (info v)) (Hit k start)) (Scheduled k noted) n m
    → Started k v noted n m
hits-Started k v noted n m (b, (a, h1, h2), h3) = record {
  own = λ same. hits-Booted k v noted n a b m same h1 h2 h3;
  other = λ other. hits_missed k v noted n a b m other h1 h2 h3;
}
