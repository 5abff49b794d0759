-- ===== src/Agent/Wait.antt =====
-- pkg/agent/agent.go: `waitForNodeCondition` and the two waits of `process`.
use flatcar_linux_update_ope.Prelude.{
  String, ◌≡◌, refl, ◌∙◌, sym, Bool, true, false, ◌⊎◌, inl, inr, List, [], ◌∷◌, if◌then◌else◌,
}
use flatcar_linux_update_ope.Constants.{annotation_ok_to_reboot}
use flatcar_linux_update_ope.GoMap.{GoMap}
use flatcar_linux_update_ope.Exec.{message, ok, Exec, ◌>>=◌, pure, wrapping}
use flatcar_linux_update_ope.Result.{Result}
use flatcar_linux_update_ope.Result
use flatcar_linux_update_ope.Node.{Node}
use flatcar_linux_update_ope.Client.{NodeClient, Selectors}
use flatcar_linux_update_ope.Exec.Laws.{wrapped_done, wrapped_passed}
use flatcar_linux_update_ope.Operator.Vars.Meaning.{IsLawful, still_rebooting}
use flatcar_linux_update_ope.Agent.{should_reboot, not_ok_to_reboot}
use flatcar_linux_update_ope.Agent.Protocol.{should_reboot_lem}

-- `watch.Event`, with what `meta.NewAccessor().Annotations` gives for its object.
pub data Event : Type 0 where
  added modified : Result GoMap → Event
  error : String → Event
  deleted bookmark : Event
  unknown : String → Event

-- `conditionF` on the annotations of an event
abbrev pub check_annotations : (GoMap → Bool) → Result GoMap → Result Bool
check_annotations condition_f r =
    Result.◌>>=◌ (Result.wrapping "extracting annotations from event object: %w" [] r)
      λ annotations. Result.ok (condition_f annotations)

unfoldable pub watch_f : (GoMap → Bool) → Event → Result Bool
watch_f condition_f (added object) = check_annotations condition_f object
watch_f condition_f (modified object) = check_annotations condition_f object
watch_f condition_f (error object) = Result.err (message "watching node: %v" (object ∷ []))
watch_f condition_f deleted =
    Result.err (message "our node was deleted while we were waiting for ready" [])
watch_f condition_f bookmark = Result.err (message "unexpected watch bookmark received" [])
watch_f condition_f (unknown type) = Result.err (message "unknown event type: %v" (type ∷ []))

-- `nc.Watch` for one node from its version on, and `watchtools.UntilWithoutRetry` with the timeout.
pub record Watching (W : Type 0) : Type 1 where
  pub Watcher : Type 0
  pub watch : Node → Exec W Watcher
  pub until_without_retry : Watcher → (Event → Result Bool) → Exec W (Unit {0})

module _ (c : NodeClient) (t : Watching c.World) (node_name : String) where
  unfoldable pub wait_for_node_condition : Node → (GoMap → Bool) → Exec c.World (Unit {0})
  wait_for_node_condition node condition_f = do
    watcher ← wrapping "creating watcher for self node (%q): %w" (node_name ∷ []) (t.watch node)
    wrapping "waiting for annotation %q: %w" (annotation_ok_to_reboot ∷ [])
        (t.until_without_retry watcher (watch_f condition_f))

  unfoldable pub wait_for_ok_to_reboot : Selectors → Exec c.World (Unit {0})
  wait_for_ok_to_reboot s = do
    node ← wrapping "getting self node (%q): %w" (node_name ∷ []) (c.get node_name)
    wait_for_node_condition node (should_reboot s)

  unfoldable pub wait_for_not_ok_to_reboot : Exec c.World (Unit {0})
  wait_for_not_ok_to_reboot = do
    node ← wrapping "getting self node (%q): %w" (node_name ∷ []) (c.get node_name)
    if not_ok_to_reboot node.annotations
        then pure tt
        else wait_for_node_condition node not_ok_to_reboot

-- An event in which the node was added or modified, with annotations for which it is `b` that
-- reboot-ok and reboot-needed are both "true".
abbrev pub Sees : Bool → Event → Type 0
Sees b (added object) = (m : GoMap) × (object ≡ Result.ok m) × (still_rebooting m ≡ b)
Sees b (modified object) = (m : GoMap) × (object ≡ Result.ok m) × (still_rebooting m ≡ b)
Sees b (error object) = ⊥
Sees b deleted = ⊥
Sees b bookmark = ⊥
Sees b (unknown type) = ⊥

-- Some events of the first kind, and after them one of the second.
abbrev pub Until : (Event → Type 0) → (Event → Type 0) → List Event → Type 0
Until P Q [] = ⊥
Until P Q (e ∷ events) = Q e ⊎ (P e × Until P Q events)

-- The documented behaviour of `UntilWithoutRetry`, where `gives` are the events that a watcher gives
-- from a world on: it tries its condition on them, one after another, and succeeds only if that is
-- false, without an error, for some of them and then true for the next.
abbrev pub IsUntil : {W : Type 0} → (t : Watching W) → (t.Watcher → W → List Event) → Type 0
IsUntil {W} t gives =
    (watcher : t.Watcher) (f : Event → Result Bool) (w : W)
    → (t.until_without_retry watcher f w).0 ≡ ok tt
    → Until (λ e. f e ≡ Result.ok false) (λ e. f e ≡ Result.ok true) (gives watcher w)

check_annotations-ok :
    (condition_f : GoMap → Bool) (r : Result GoMap) (b : Bool)
    → check_annotations condition_f r ≡ Result.ok b
    → (m : GoMap) × (r ≡ Result.ok m) × (condition_f m ≡ b)
check_annotations-ok condition_f (Result.ok m) b h =
    (m, refl, Result.ok_injective (condition_f m) b h)
check_annotations-ok condition_f (Result.err e) b h = cc

Until-map :
    (P Q R S : Event → Type 0)
    → ((e : Event) → P e → R e)
    → ((e : Event) → Q e → S e)
    → (events : List Event) → Until P Q events
    → Until R S events
Until-map P Q R S f g [] h = h
Until-map P Q R S f g (e ∷ events) (inl q) = inl (g e q)
Until-map P Q R S f g (e ∷ events) (inr (p, h)) = inr (f e p, Until-map P Q R S f g events h)

module _ (s : Selectors) (lawful : IsLawful s) (b : Bool) where
  seen :
      (r : Result GoMap)
      → check_annotations (should_reboot s) r ≡ Result.ok b
      → (m : GoMap) × (r ≡ Result.ok m) × (still_rebooting m ≡ b)
  seen r h =
      let (m, got, met) = check_annotations-ok (should_reboot s) r b h in
      (m, got, sym (should_reboot_lem s lawful m) ∙ met)

  watch_f-Sees : (e : Event) → watch_f (should_reboot s) e ≡ Result.ok b → Sees b e
  unfolding watch_f
  watch_f-Sees (added object) h = seen object h
  watch_f-Sees (modified object) h = seen object h
  watch_f-Sees (error object) h = cc
  watch_f-Sees deleted h = cc
  watch_f-Sees bookmark h = cc
  watch_f-Sees (unknown type) h = cc

module _ (c : NodeClient) (t : Watching c.World) (gives : t.Watcher → c.World → List Event)
    (node_name : String) (s : Selectors) where
  -- The node was read and watched, and the events of that watch show it waiting and then permitted.
  pub record Watched (w : c.World) : Type 0 where
    pub node : Node
    pub got : (c.get node_name w).0 ≡ ok node
    pub watcher : t.Watcher
    pub watched : (t.watch node (c.get node_name w).1).0 ≡ ok watcher
    pub permitted :
        Until (Sees false) (Sees true) (gives watcher (t.watch node (c.get node_name w).1).1)

  -- When `waitForOkToReboot` succeeds, it read the node and watched it from there, and the events
  -- that this watch gave began with some in which the node was added or modified, without reboot-ok
  -- and reboot-needed both "true", and then one in which it was added or modified and both were
  -- "true". The selectors are lawful, and `UntilWithoutRetry` behaves as documented on the events
  -- that the watch gives.
  pub wait_for_ok_to_reboot-Watched :
      IsLawful s
      → IsUntil t gives
      → (w : c.World) → (wait_for_ok_to_reboot c t node_name s w).0 ≡ ok tt
      → Watched w
  unfolding wait_for_ok_to_reboot wait_for_node_condition
  wait_for_ok_to_reboot-Watched lawful until w h =
      let (node, got, h1, e1) = wrapped_passed _ _ (c.get node_name w) _ tt h in
      let (watcher, watched, h2, e2) =
        wrapped_passed _ _ (t.watch node (c.get node_name w).1) _ tt h1 in
      record {
        node = node;
        got = got;
        watcher = watcher;
        watched = watched;
        permitted =
            Until-map _ _ _ _ (watch_f-Sees s lawful false) (watch_f-Sees s lawful true) _
              (until watcher (watch_f (should_reboot s)) _ (wrapped_done _ _ _ h2));
      }
