-- ===== src/Tests/Waits.antt =====
-- The agent's configuration and its wait for the operator.
use flatcar_linux_update_ope.Prelude.{
  ◌≡◌, refl, Bool, true, false, some, ◌⊎◌, inl, inr, List, [], ◌∷◌,
}
use flatcar_linux_update_ope.Prelude.Int.{pos}
use flatcar_linux_update_ope.Constants.{
  true_value, annotation_ok_to_reboot, annotation_reboot_needed,
}
use flatcar_linux_update_ope.Exec.{Outcome, ok, err, message}
use flatcar_linux_update_ope.Result.{Result}
use flatcar_linux_update_ope.Node.{Node}
use flatcar_linux_update_ope.Agent.{should_reboot}
use flatcar_linux_update_ope.Agent.Config.{Config, Klocksmith, new, assembled}
use flatcar_linux_update_ope.Agent.Wait.{
  Event, modified, watch_f, Watching, wait_for_node_condition, wait_for_ok_to_reboot, Until,
  IsUntil, Watched, wait_for_ok_to_reboot-Watched,
}
use flatcar_linux_update_ope.Tests.Memory.{memory, plain_selectors, plain_selectors-IsLawful}
use flatcar_linux_update_ope.Tests.Samples.{map_of, cluster}

abbrev config : Config Unit Unit Unit
config = record {
  node_name = "a";
  pod_deletion_grace_period = pos 0;
  force_node_drain = false;
  clientset = some tt;
  status_receiver = some tt;
  rebooter = some tt;
  host_files_prefix = "";
  poll_interval = pos 0;
  max_operator_response_time = pos 0;
}

abbrev pub agent : Klocksmith Unit Unit Unit
agent = assembled config tt tt tt

accepted : new config ≡ Result.ok agent
unfolding new
accepted = refl

abbrev pub permitting : Event
permitting = modified (
    Result.ok (
      map_of ((annotation_ok_to_reboot, true_value) ∷ (annotation_reboot_needed, true_value) ∷ [])))

abbrev pub finished : Result Bool → Outcome (Unit {0})
finished (Result.ok true) = ok tt
finished (Result.ok false) = err (message "watch closed before UntilWithoutRetry timeout" [])
finished (Result.err e) = err e

-- The node is first seen without the permission, and then with it.
abbrev events : List Event
events = modified (Result.ok (map_of [])) ∷ permitting ∷ []

abbrev or_next : Result Bool → Result Bool → Result Bool
or_next (Result.ok true) rest = Result.ok true
or_next (Result.ok false) rest = rest
or_next (Result.err e) rest = Result.err e

abbrev first_answer : List Event → (Event → Result Bool) → Result Bool
first_answer [] f = Result.ok false
first_answer (e ∷ es) f = let rest = first_answer es f in or_next (f e) rest

abbrev watching : Watching (List Node)
watching = record {
  Watcher = Unit {0};
  watch = λ node w. (ok tt, w);
  until_without_retry = λ watcher f w. (finished (first_answer events f), w);
}

-- The events of this watch.
abbrev gives : Unit {0} → List Node → List Event
gives watcher w = events

finished-true : (r : Result Bool) → finished r ≡ ok tt → r ≡ Result.ok true
finished-true (Result.ok true) h = refl
finished-true (Result.ok false) h = cc
finished-true (Result.err e) h = cc

or_next-true :
    (r rest : Result Bool)
    → or_next r rest ≡ Result.ok true
    → (r ≡ Result.ok true) ⊎ ((r ≡ Result.ok false) × (rest ≡ Result.ok true))
or_next-true (Result.ok true) rest h = inl refl
or_next-true (Result.ok false) rest h = inr (refl, h)
or_next-true (Result.err e) rest h = cc

first_answer-Until :
    (es : List Event) (f : Event → Result Bool)
    → first_answer es f ≡ Result.ok true
    → Until (λ e. f e ≡ Result.ok false) (λ e. f e ≡ Result.ok true) es
first_answer-Until [] f h = cc
first_answer-Until (e ∷ es) f h = elim (or_next-true (f e) (first_answer es f) h) [
  | inl now ↦ inl now
  | inr (not_yet, later) ↦ inr (not_yet, first_answer-Until es f later)
]

watching-IsUntil : IsUntil watching gives
watching-IsUntil watcher f w h =
    first_answer-Until events f (finished-true (first_answer events f) h)

waited : (wait_for_ok_to_reboot memory watching "a" plain_selectors cluster).0 ≡ ok tt
unfolding wait_for_ok_to_reboot wait_for_node_condition watch_f should_reboot
waited = refl

wait_for_ok_to_reboot-Watched_example : Watched memory watching gives "a" plain_selectors cluster
wait_for_ok_to_reboot-Watched_example =
    wait_for_ok_to_reboot-Watched memory watching gives "a" plain_selectors plain_selectors-IsLawful
      watching-IsUntil cluster waited
