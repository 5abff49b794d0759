-- ===== src/Tests/Interleaved.antt =====
-- The operator and agents taking turns: a safe run, and a start that comes at the wrong time.
use mathlib.Core.Bool.{false≢true}
use flatcar_linux_update_ope.Prelude.{◌≡◌, eq_iff, refl, false, List, [], ◌∷◌, All, count}
use flatcar_linux_update_ope.Prelude.Int.{pos}
use flatcar_linux_update_ope.Constants.{
  true_value, annotation_ok_to_reboot, annotation_reboot_needed, annotation_reboot_in_progress,
}
use flatcar_linux_update_ope.Node.{Node}
use flatcar_linux_update_ope.K8sutil.Metadata.{
  update_node_retry, set_annotations_labels_f, set_labels_f, set_annotations_f,
}
use flatcar_linux_update_ope.GoMap.{assign_all}
use flatcar_linux_update_ope.Operator.Config.{Kontroller}
use flatcar_linux_update_ope.Operator.Checks.{
  cleanup_state, check_after_reboot, check_before_reboot,
}
use flatcar_linux_update_ope.Operator.Marks.{mark_after_reboot, mark_before_reboot}
use flatcar_linux_update_ope.Operator.Process.Flags.{engaged}
use flatcar_linux_update_ope.Agent.Writes.{start, drain, write_f}
use flatcar_linux_update_ope.Agent.Protocol.{Ready}
use flatcar_linux_update_ope.Coordination.{
  cleaning, advance, Timely, State, operator, agent, Reach, here, later,
}
use flatcar_linux_update_ope.Tests.Memory.{memory, memory-IsQuiet, plain_selectors}
use flatcar_linux_update_ope.Tests.Samples.{node, cluster, wanting, settings, long_month}
use flatcar_linux_update_ope.Tests.Pass.{vars, steps_run}

abbrev drained : List Node
drained = (update_node_retry memory "a" (write_f (drain false)) cluster).1

-- Node "a" prepares its drain, and then the operator cleans up.
abbrev pub cleaned : State memory plain_selectors vars long_month settings
cleaned = record {
  phase = advance cleaning (cleanup_state memory plain_selectors vars settings drained).0;
  world = (cleanup_state memory plain_selectors vars settings drained).1;
}

only_a :
    All
      (λ (n : Node). n.name ≡ "a" → Ready (drain false) n × Timely cleaning (drain false) n)
      cluster
only_a = (
  λ e. (refl, tt),
  (
    λ e. absurd (false≢true ((eq_iff "b" "a").1 e)),
    (λ e. (refl, tt), (λ e. absurd (false≢true ((eq_iff "d" "a").1 e)), tt)),
  ),
)

abbrev pub beginning : State memory plain_selectors vars long_month settings
beginning = record { phase = cleaning; world = cluster }

pub cleaned_run :
    Reach memory plain_selectors vars long_month settings memory-IsQuiet beginning cleaned
cleaned_run = later (later here (agent "a" (drain false) only_a)) (operator 0 0)

abbrev one_at_a_time : Kontroller
one_at_a_time = record settings { max_rebooting_nodes = pos 1 }

-- Node "b" may reboot and has not reported back, and node "a" waits.
abbrev rebooting : List Node
rebooting =
    wanting
    ∷ node "b" [] (
        (annotation_ok_to_reboot, true_value)
        ∷ (annotation_reboot_needed, true_value)
        ∷ (annotation_reboot_in_progress, true_value)
        ∷ [])
    ∷ []

-- The agent of "b" starts after `markAfterReboot` and before `markBeforeReboot`.
abbrev restarted : List Node
restarted =
    let w = (cleanup_state memory plain_selectors vars one_at_a_time rebooting).1 in
    let w1 = (check_after_reboot memory plain_selectors vars one_at_a_time w).1 in
    let w2 = (mark_after_reboot memory plain_selectors vars one_at_a_time w1).1 in
    (update_node_retry memory "b" (write_f start) w2).1

-- One node may take part, and two do.
two_engaged :
    count engaged
      (mark_before_reboot memory plain_selectors vars long_month one_at_a_time 0 0
        (check_before_reboot memory plain_selectors vars one_at_a_time restarted).1).1
    ≡ 2
unfolding steps_run write_f set_annotations_labels_f set_labels_f set_annotations_f assign_all
two_engaged = refl

one_engaged : count engaged rebooting ≡ 1
one_engaged = refl
