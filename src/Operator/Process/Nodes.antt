-- ===== src/Operator/Process/Nodes.antt =====
-- What the update functions of the operator do to the labels and annotations of one node.
use mathlib.Core.Option.{some-injective}
use flatcar_linux_update_ope.Prelude.{
  String, ◌==◌, ◌≡◌, refl, ◌∙◌, subst, Option, none, some, List, if◌then◌else◌,
}
use flatcar_linux_update_ope.Constants.{true_value, annotation_ok_to_reboot}
use flatcar_linux_update_ope.GoMap.{GoMap, entry, delete, delete_all, assign, contains}
use flatcar_linux_update_ope.GoMap.Laws.{entry-delete, entry-delete_all, entry-assign}
use flatcar_linux_update_ope.Node.{Node}
use flatcar_linux_update_ope.K8sutil.Metadata.{with_labels, with_annotations}
use flatcar_linux_update_ope.Operator.Checks.{check_reboot_f}
use flatcar_linux_update_ope.Operator.Marks.{mark_f}

-- The node `m` is `n` after `checkReboot`.
pub record IsChecked (label : String) (annotations : List String) (ok : String) (n m : Node)
    : Type 0 where
  pub name : m.name ≡ n.name
  pub labels : (j : String) → entry m.labels j ≡ (if j == label then none else entry n.labels j)
  pub annotated :
      (j : String)
      → entry m.annotations j ≡ (
          if j == annotation_ok_to_reboot
          then some ok
          else if contains annotations j
          then none
          else entry n.annotations j)

IsChecked-parts :
    (label : String) (annotations : List String) (ok : String) (n m : Node) (o : Option GoMap)
    → assign (delete_all n.annotations annotations) annotation_ok_to_reboot ok ≡ o
    → with_annotations (record n { labels = delete n.labels label }) o ≡ some m
    → IsChecked label annotations ok n m
IsChecked-parts label annotations ok n m none e h = cc
IsChecked-parts label annotations ok n m (some a) e h =
    subst (IsChecked label annotations ok n) (some-injective _ m h) (record {
      name = refl;
      labels = λ j. entry-delete n.labels label j;
      annotated = λ j.
          entry-assign (delete_all n.annotations annotations) a annotation_ok_to_reboot ok j e
          ∙ rw entry-delete_all;
    })

pub check_reboot_f-IsChecked :
    (label : String) (annotations : List String) (ok : String) (n m : Node)
    → check_reboot_f label annotations ok n ≡ some m
    → IsChecked label annotations ok n m
unfolding check_reboot_f
check_reboot_f-IsChecked label annotations ok n m h =
    IsChecked-parts label annotations ok n m _ refl h

-- The node `m` is `n` after `mark`.
pub record IsMarked (label : String) (annotations : List String) (n m : Node) : Type 0 where
  pub name : m.name ≡ n.name
  pub labels :
      (j : String) → entry m.labels j ≡ (if j == label then some true_value else entry n.labels j)
  pub annotated :
      (j : String)
      → entry m.annotations j ≡ (if contains annotations j then none else entry n.annotations j)

IsMarked-parts :
    (label : String) (annotations : List String) (n m : Node) (o : Option GoMap)
    → assign n.labels label true_value ≡ o
    → with_labels (record n { annotations = delete_all n.annotations annotations }) o ≡ some m
    → IsMarked label annotations n m
IsMarked-parts label annotations n m none e h = cc
IsMarked-parts label annotations n m (some a) e h =
    subst (IsMarked label annotations n) (some-injective _ m h) (record {
      name = refl;
      labels = λ j. entry-assign n.labels a label true_value j e;
      annotated = entry-delete_all n.annotations annotations;
    })

pub mark_f-IsMarked :
    (label : String) (annotations : List String) (n m : Node)
    → mark_f label annotations n ≡ some m
    → IsMarked label annotations n m
unfolding mark_f
mark_f-IsMarked label annotations n m h = IsMarked-parts label annotations n m _ refl h
