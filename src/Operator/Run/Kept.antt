-- ===== src/Operator/Run/Kept.antt =====
-- What holds in every state of `Run` is kept by every step.
use flatcar_linux_update_ope.Prelude.{refl, ap, true}
use flatcar_linux_update_ope.Client.{NodeClient, Selectors}
use flatcar_linux_update_ope.Clock.{Clock}
use flatcar_linux_update_ope.Operator.Vars.{Vars}
use flatcar_linux_update_ope.Operator.Config.{Kontroller}
use flatcar_linux_update_ope.Operator.Run.{
  leading, sending_lost, State, start, Step, closes_stop, sees_stop, sends_nil, cancels, acquires,
  gives_up, stops_leading, sends_lost, cancels_lost, leads, passes, leaves_loop, returns, Reach,
  here, later,
}
use flatcar_linux_update_ope.Operator.Run.Invariant.{sent_lost, IsConsistent, start-IsConsistent}
use flatcar_linux_update_ope.Operator.Run.Invariant.Stopping.{sees, sends, ends_stop}
use flatcar_linux_update_ope.Operator.Run.Invariant.Electing.{turns, loses, ends_lost}
use flatcar_linux_update_ope.Operator.Run.Invariant.Looping.{starts_loop, ends_loop, comes_back}

module _ (c : NodeClient) (s : Selectors) (v : Vars s) (clock : Clock) (k : Kontroller)
    (w : c.World) where
  pub Step-IsConsistent :
      {x y : State c s v clock k}
      → Step c s v clock k x y
      → IsConsistent c s v clock k w x
      → IsConsistent c s v clock k w y
  Step-IsConsistent closes_stop i = record {
    holds_nil = i.holds_nil;
    holds_lost = i.holds_lost;
    stopped_nil = i.stopped_nil;
    stopped_lost = i.stopped_lost;
    asked = λ a. refl;
    over_cancelled = i.over_cancelled;
    ended_cancelled = i.ended_cancelled;
    by_whom = i.by_whom;
    left_cancelled = i.left_cancelled;
    announced = i.announced;
    not_led = i.not_led;
    held_nil = i.held_nil;
    held_lost = i.held_lost;
    untouched = i.untouched;
  }
  Step-IsConsistent {x} (sees_stop h e) i = sees c s v clock k w x h e i
  Step-IsConsistent {x} (sends_nil e n) i = sends c s v clock k w x e i
  Step-IsConsistent {x} (cancels e) i = ends_stop c s v clock k w x e i
  Step-IsConsistent {x} (acquires e) i =
      turns c s v clock k w x leading true (ap sent_lost e) refl (λ a. cc) i
  Step-IsConsistent {x} (gives_up e h) i =
      turns c s v clock k w x sending_lost x.announcing (ap sent_lost e) refl (λ a. cc) i
  Step-IsConsistent {x} (stops_leading e) i =
      turns c s v clock k w x sending_lost x.announcing (ap sent_lost e) refl (λ a. cc) i
  Step-IsConsistent {x} (sends_lost e n) i = loses c s v clock k w x e i
  Step-IsConsistent {x} (cancels_lost e) i = ends_lost c s v clock k w x e i
  Step-IsConsistent {x} (leads e h) i = starts_loop c s v clock k w x e h i
  Step-IsConsistent {x} (passes first second e h) i = record {
    holds_nil = i.holds_nil;
    holds_lost = i.holds_lost;
    stopped_nil = i.stopped_nil;
    stopped_lost = i.stopped_lost;
    asked = i.asked;
    over_cancelled = i.over_cancelled;
    ended_cancelled = i.ended_cancelled;
    by_whom = i.by_whom;
    left_cancelled = i.left_cancelled;
    announced = i.announced;
    not_led = i.not_led;
    held_nil = i.held_nil;
    held_lost = i.held_lost;
    untouched = λ a. cc;
  }
  Step-IsConsistent {x} (leaves_loop e h) i = ends_loop c s v clock k w x e h i
  Step-IsConsistent {x} (returns m e g) i = comes_back c s v clock k w x m e g i

  pub Reach-IsConsistent :
      {x : State c s v clock k}
      → Reach c s v clock k (start c s v clock k w) x
      → IsConsistent c s v clock k w x
  Reach-IsConsistent here = start-IsConsistent c s v clock k w
  Reach-IsConsistent (later r st) = Step-IsConsistent st (Reach-IsConsistent r)
