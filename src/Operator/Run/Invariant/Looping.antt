-- ===== src/Operator/Run/Invariant/Looping.antt =====
-- What holds in every state of `Run` is kept by `Run` itself.
use flatcar_linux_update_ope.Prelude.{◌≡◌, refl, ap, true, false, none, some}
use flatcar_linux_update_ope.Client.{NodeClient, Selectors}
use flatcar_linux_update_ope.Clock.{Clock}
use flatcar_linux_update_ope.Operator.Vars.{Vars}
use flatcar_linux_update_ope.Operator.Config.{Kontroller}
use flatcar_linux_update_ope.Operator.Run.{
  Message, awaiting_lead, looping, receiving, returned, State,
}
use flatcar_linux_update_ope.Operator.Run.Invariant.{has_returned, IsConsistent}

module _ (c : NodeClient) (s : Selectors) (v : Vars s) (clock : Clock) (k : Kontroller)
    (w : c.World) where
  pub starts_loop :
      (x : State c s v clock k)
      → x.runner ≡ awaiting_lead
      → x.announcing ≡ true
      → IsConsistent c s v clock k w x
      → IsConsistent c s v clock k w (record x { runner = looping; announcing = false })
  starts_loop x e h i = record {
    holds_nil = i.holds_nil;
    holds_lost = i.holds_lost;
    stopped_nil = λ a. cc;
    stopped_lost = λ a. cc;
    asked = i.asked;
    over_cancelled = i.over_cancelled;
    ended_cancelled = i.ended_cancelled;
    by_whom = i.by_whom;
    left_cancelled = λ a. cc;
    announced = λ a. refl;
    not_led = λ a. (let d = i.announced a in cc);
    held_nil = λ a. i.held_nil (ap has_returned e);
    held_lost = λ a. i.held_lost (ap has_returned e);
    untouched = λ a. cc;
  }

  pub ends_loop :
      (x : State c s v clock k)
      → x.runner ≡ looping
      → x.cancelled ≡ true
      → IsConsistent c s v clock k w x
      → IsConsistent c s v clock k w (record x { runner = receiving })
  ends_loop x e h i = record {
    holds_nil = i.holds_nil;
    holds_lost = i.holds_lost;
    stopped_nil = λ a. cc;
    stopped_lost = λ a. cc;
    asked = i.asked;
    over_cancelled = i.over_cancelled;
    ended_cancelled = i.ended_cancelled;
    by_whom = i.by_whom;
    left_cancelled = λ a. h;
    announced = i.announced;
    not_led = λ a. (let d = i.not_led a in cc);
    held_nil = λ a. i.held_nil (ap has_returned e);
    held_lost = λ a. i.held_lost (ap has_returned e);
    untouched = λ a. cc;
  }

  pub comes_back :
      (x : State c s v clock k) (m : Message)
      → x.runner ≡ receiving
      → x.err_ch ≡ some m
      → IsConsistent c s v clock k w x
      → IsConsistent c s v clock k w (record x { runner = returned m; err_ch = none })
  comes_back x m e g i = record {
    holds_nil = λ a. cc;
    holds_lost = λ a. cc;
    stopped_nil = λ a. i.holds_nil cc;
    stopped_lost = λ a. i.holds_lost cc;
    asked = i.asked;
    over_cancelled = i.over_cancelled;
    ended_cancelled = i.ended_cancelled;
    by_whom = i.by_whom;
    left_cancelled = λ a. cc;
    announced = i.announced;
    not_led = λ a. (let d = i.not_led a in cc);
    held_nil = λ a b. cc;
    held_lost = λ a b. cc;
    untouched = λ a. cc;
  }
