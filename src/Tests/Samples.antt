-- ===== src/Tests/Samples.antt =====
-- Sample nodes and settings, and a clock whose calendar is one long month.
use flatcar_linux_update_ope.Prelude.{
  ℕ, ◌+◌, ◌-◌, ◌*◌, ◌/◌, ◌%◌, String, ◌==◌, Option, none, some, List, [], ◌∷◌, false, ltb, eqb,
  if◌then◌else◌,
}
use flatcar_linux_update_ope.Prelude.Int.{pos, pos_part, neg_part, sub_ℕ}
use flatcar_linux_update_ope.Constants.{
  true_value, false_value, annotation_ok_to_reboot, annotation_reboot_needed,
  annotation_reboot_in_progress, label_after_reboot, label_before_reboot,
}
use flatcar_linux_update_ope.GoMap.{GoMap}
use flatcar_linux_update_ope.Node.{Node}
use flatcar_linux_update_ope.Clock.{Clock}
use flatcar_linux_update_ope.Operator.Config.{Kontroller}

abbrev assoc : List (String × String) → String → Option String
assoc [] k = none
assoc ((j, v) ∷ rest) k = if k == j then some v else assoc rest k

abbrev pub map_of : List (String × String) → GoMap
map_of entries = some (assoc entries)

abbrev pub node : String → List (String × String) → List (String × String) → Node
node name labels annotations = record {
  name = name;
  labels = map_of labels;
  annotations = map_of annotations;
  unschedulable = false;
  os_image = "Flatcar Container Linux by Kinvolk";
}

-- Wants to reboot.
abbrev pub wanting : Node
wanting =
    node "a" []
      ((annotation_reboot_needed, true_value) ∷ (annotation_reboot_in_progress, false_value) ∷ [])

-- Has just rebooted.
abbrev pub rebooted : Node
rebooted = node "b" [] (
    (annotation_ok_to_reboot, true_value)
    ∷ (annotation_reboot_needed, false_value)
    ∷ (annotation_reboot_in_progress, false_value)
    ∷ [])

-- Has passed its checks before a reboot.
abbrev pub ready : Node
ready = node "c" ((label_before_reboot, true_value) ∷ []) (
    (annotation_reboot_needed, true_value)
    ∷ (annotation_reboot_in_progress, false_value)
    ∷ ("example.com/ready", true_value)
    ∷ [])

-- Has passed its checks after a reboot.
abbrev pub healthy : Node
healthy = node "d" ((label_after_reboot, true_value) ∷ []) (
    (annotation_ok_to_reboot, true_value)
    ∷ (annotation_reboot_needed, false_value)
    ∷ (annotation_reboot_in_progress, false_value)
    ∷ ("example.com/healthy", true_value)
    ∷ [])

abbrev pub cluster : List Node
cluster = wanting ∷ rebooted ∷ ready ∷ healthy ∷ []

abbrev pub settings : Kontroller
settings = record {
  before_reboot_annotations = "example.com/ready" ∷ [];
  after_reboot_annotations = "example.com/healthy" ∷ [];
  namespace = "reboot-coordinator";
  reboot_window = none;
  max_rebooting_nodes = pos 3;
  reconciliation_period = pos 30000000000;
  leader_election_lease = pos 90000000000;
}

abbrev day_ns : ℕ
day_ns = 86400000000000

abbrev pub long_month : Clock
long_month = record {
  Time = ℕ;
  Location = Unit;
  year = λ t. pos 0;
  month = λ t. pos 0;
  day = λ t. pos (t / day_ns);
  location = λ t. tt;
  weekday = λ t. t / day_ns % 7;
  date = λ y m d hour min sec nsec loc.
      pos_part d * day_ns
      + (pos_part hour * 3600 + pos_part min * 60 + pos_part sec) * 1000000000
      + pos_part nsec;
  zero_time = 0;
  sub = λ a b. sub_ℕ a b;
  add = λ t d. t + pos_part d - neg_part d;
  before = λ a b. ltb a b;
  after = λ a b. ltb b a;
  equal = λ a b. eqb a b;
}
