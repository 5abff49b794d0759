-- ===== src/Operator/Run/Invariant/Electing.antt =====
-- What holds in every state of `Run` is kept by the leader elector and its callbacks.
use flatcar_linux_update_ope.Prelude.{◌≡◌, ◌≢◌, refl, ap, Bool, true, false, some}
use flatcar_linux_update_ope.Client.{NodeClient, Selectors}
use flatcar_linux_update_ope.Clock.{Clock}
use flatcar_linux_update_ope.Operator.Vars.{Vars}
use flatcar_linux_update_ope.Operator.Config.{Kontroller}
use flatcar_linux_update_ope.Operator.Run.{
  leader_election_lost, Elector, acquiring, sending_lost, cancelling_lost, ended, State,
}
use flatcar_linux_update_ope.Operator.Run.Invariant.{sent_lost, IsConsistent}

module _ (c : NodeClient) (s : Selectors) (v : Vars s) (clock : Clock) (k : Kontroller)
    (w : c.World) where
  pub turns :
      (x : State c s v clock k) (to : Elector) (flag : Bool)
      → sent_lost x.elector ≡ false
      → sent_lost to ≡ false
      → to ≢ acquiring
      → IsConsistent c s v clock k w x
      → IsConsistent c s v clock k w (record x { elector = to; announcing = flag })
  turns x to flag e e1 e2 i = record {
    holds_nil = i.holds_nil;
    holds_lost = λ a. (let b = i.holds_lost a in cc);
    stopped_nil = i.stopped_nil;
    stopped_lost = λ a. (let b = i.stopped_lost a in cc);
    asked = i.asked;
    over_cancelled = i.over_cancelled;
    ended_cancelled = λ a. (let b = ap sent_lost a in cc);
    by_whom = λ a b. (let d = ap sent_lost (i.by_whom a b) in cc);
    left_cancelled = i.left_cancelled;
    announced = λ a. absurd (e2 a);
    not_led = λ a. absurd (e2 a);
    held_nil = i.held_nil;
    held_lost = λ a b. cc;
    untouched = i.untouched;
  }

  pub loses :
      (x : State c s v clock k)
      → x.elector ≡ sending_lost
      → IsConsistent c s v clock k w x
      → IsConsistent c s v clock k w
          (record x { elector = cancelling_lost; err_ch = some leader_election_lost })
  loses x e i = record {
    holds_nil = λ a. cc;
    holds_lost = λ a. refl;
    stopped_nil = i.stopped_nil;
    stopped_lost = λ a. refl;
    asked = i.asked;
    over_cancelled = i.over_cancelled;
    ended_cancelled = λ a. cc;
    by_whom = λ a b. (let d = i.by_whom a b in cc);
    left_cancelled = i.left_cancelled;
    announced = λ a. cc;
    not_led = λ a. cc;
    held_nil = λ a b d. cc;
    held_lost = λ a b d. cc;
    untouched = i.untouched;
  }

  pub ends_lost :
      (x : State c s v clock k)
      → x.elector ≡ cancelling_lost
      → IsConsistent c s v clock k w x
      → IsConsistent c s v clock k w (record x { elector = ended; cancelled = true })
  ends_lost x e i = record {
    holds_nil = i.holds_nil;
    holds_lost = λ a. refl;
    stopped_nil = i.stopped_nil;
    stopped_lost = λ a. refl;
    asked = i.asked;
    over_cancelled = λ a. refl;
    ended_cancelled = λ a. refl;
    by_whom = λ a b. refl;
    left_cancelled = λ a. refl;
    announced = λ a. cc;
    not_led = λ a. cc;
    held_nil = i.held_nil;
    held_lost = λ a b. i.held_lost a (ap sent_lost e);
    untouched = i.untouched;
  }
