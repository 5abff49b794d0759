-- ===== src/Operator/Run/Invariant/Stopping.antt =====
-- What holds in every state of `Run` is kept by the goroutine that waits for `stop`.
use flatcar_linux_update_ope.Prelude.{◌≡◌, refl, ap, true, some}
use flatcar_linux_update_ope.Client.{NodeClient, Selectors}
use flatcar_linux_update_ope.Clock.{Clock}
use flatcar_linux_update_ope.Operator.Vars.{Vars}
use flatcar_linux_update_ope.Operator.Config.{Kontroller}
use flatcar_linux_update_ope.Operator.Run.{nil, awaiting, sending_nil, cancelling, over, State}
use flatcar_linux_update_ope.Operator.Run.Invariant.{sent_nil, IsConsistent}

module _ (c : NodeClient) (s : Selectors) (v : Vars s) (clock : Clock) (k : Kontroller)
    (w : c.World) where
  pub sees :
      (x : State c s v clock k)
      → x.stop_closed ≡ true
      → x.stopper ≡ awaiting
      → IsConsistent c s v clock k w x
      → IsConsistent c s v clock k w (record x { stopper = sending_nil })
  sees x h e i = record {
    holds_nil = λ a. (let b = i.holds_nil a in cc);
    holds_lost = i.holds_lost;
    stopped_nil = λ a. (let b = i.stopped_nil a in cc);
    stopped_lost = i.stopped_lost;
    asked = λ a. h;
    over_cancelled = λ a. cc;
    ended_cancelled = i.ended_cancelled;
    by_whom = λ a b. i.by_whom a (λ d. cc);
    left_cancelled = i.left_cancelled;
    announced = i.announced;
    not_led = i.not_led;
    held_nil = λ a b. cc;
    held_lost = i.held_lost;
    untouched = i.untouched;
  }

  pub sends :
      (x : State c s v clock k)
      → x.stopper ≡ sending_nil
      → IsConsistent c s v clock k w x
      → IsConsistent c s v clock k w (record x { stopper = cancelling; err_ch = some nil })
  sends x e i = record {
    holds_nil = λ a. refl;
    holds_lost = λ a. cc;
    stopped_nil = λ a. refl;
    stopped_lost = i.stopped_lost;
    asked = λ a. i.asked (λ b. cc);
    over_cancelled = λ a. cc;
    ended_cancelled = i.ended_cancelled;
    by_whom = λ a b. i.by_whom a (λ d. cc);
    left_cancelled = i.left_cancelled;
    announced = i.announced;
    not_led = i.not_led;
    held_nil = λ a b d. cc;
    held_lost = λ a b d. cc;
    untouched = i.untouched;
  }

  pub ends_stop :
      (x : State c s v clock k)
      → x.stopper ≡ cancelling
      → IsConsistent c s v clock k w x
      → IsConsistent c s v clock k w (record x { stopper = over; cancelled = true })
  ends_stop x e i = record {
    holds_nil = λ a. refl;
    holds_lost = i.holds_lost;
    stopped_nil = λ a. refl;
    stopped_lost = i.stopped_lost;
    asked = λ a. i.asked (λ b. cc);
    over_cancelled = λ a. refl;
    ended_cancelled = λ a. refl;
    by_whom = λ a b. absurd (b refl);
    left_cancelled = λ a. refl;
    announced = i.announced;
    not_led = i.not_led;
    held_nil = λ a b. i.held_nil a (ap sent_nil e);
    held_lost = i.held_lost;
    untouched = i.untouched;
  }
