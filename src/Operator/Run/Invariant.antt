-- ===== src/Operator/Run/Invariant.antt =====
-- What holds in every state of `Run`, and does when it starts.
pub mod Stopping
pub mod Electing
pub mod Looping
use flatcar_linux_update_ope.Prelude.{◌≡◌, ◌≢◌, refl, ap, Bool, true, false, none, some}
use flatcar_linux_update_ope.Client.{NodeClient, Selectors}
use flatcar_linux_update_ope.Clock.{Clock}
use flatcar_linux_update_ope.Operator.Vars.{Vars}
use flatcar_linux_update_ope.Operator.Config.{Kontroller}
use flatcar_linux_update_ope.Operator.Run.{
  Message, nil, leader_election_lost, Stopper, awaiting, sending_nil, cancelling, over, Elector,
  acquiring, leading, sending_lost, cancelling_lost, ended, Runner, awaiting_lead, looping,
  receiving, returned, State, start, Step, closes_stop, sees_stop, sends_nil, cancels, acquires,
  gives_up, stops_leading, sends_lost, cancels_lost, leads, passes, leaves_loop, returns, Reach,
  here, later,
}

-- The stopper has sent its message.
abbrev pub sent_nil : Stopper → Bool
sent_nil awaiting = false
sent_nil sending_nil = false
sent_nil cancelling = true
sent_nil over = true

abbrev pub sent_lost : Elector → Bool
sent_lost acquiring = false
sent_lost leading = false
sent_lost sending_lost = false
sent_lost cancelling_lost = true
sent_lost ended = true

abbrev pub has_returned : Runner → Bool
has_returned awaiting_lead = false
has_returned looping = false
has_returned receiving = false
has_returned (returned m) = true

module _ (c : NodeClient) (s : Selectors) (v : Vars s) (clock : Clock) (k : Kontroller)
    (w : c.World) where
  pub record IsConsistent (x : State c s v clock k) : Type 0 where
    pub holds_nil : x.err_ch ≡ some nil → sent_nil x.stopper ≡ true
    pub holds_lost : x.err_ch ≡ some leader_election_lost → sent_lost x.elector ≡ true
    pub stopped_nil : x.runner ≡ returned nil → sent_nil x.stopper ≡ true
    pub stopped_lost : x.runner ≡ returned leader_election_lost → sent_lost x.elector ≡ true
    pub asked : x.stopper ≢ awaiting → x.stop_closed ≡ true
    pub over_cancelled : x.stopper ≡ over → x.cancelled ≡ true
    pub ended_cancelled : x.elector ≡ ended → x.cancelled ≡ true
    pub by_whom : x.cancelled ≡ true → x.stopper ≢ over → x.elector ≡ ended
    pub left_cancelled : x.runner ≡ receiving → x.cancelled ≡ true
    pub announced : x.elector ≡ acquiring → x.announcing ≡ false
    pub not_led : x.elector ≡ acquiring → x.runner ≡ awaiting_lead
    pub held_nil : has_returned x.runner ≡ false → sent_nil x.stopper ≡ true → x.err_ch ≢ none
    pub held_lost : has_returned x.runner ≡ false → sent_lost x.elector ≡ true → x.err_ch ≢ none
    pub untouched : x.runner ≡ awaiting_lead → x.world ≡ w

  pub start-IsConsistent : IsConsistent (start c s v clock k w)
  start-IsConsistent = record {
    holds_nil = λ h. cc;
    holds_lost = λ h. cc;
    stopped_nil = λ h. cc;
    stopped_lost = λ h. cc;
    asked = λ h. absurd (h refl);
    over_cancelled = λ h. cc;
    ended_cancelled = λ h. cc;
    by_whom = λ h. cc;
    left_cancelled = λ h. cc;
    announced = λ h. refl;
    not_led = λ h. refl;
    held_nil = λ h e. cc;
    held_lost = λ h e. cc;
    untouched = λ h. refl;
  }
