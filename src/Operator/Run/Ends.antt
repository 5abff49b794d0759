-- ===== src/Operator/Run/Ends.antt =====
-- When `Run` of pkg/operator/operator.go returns, and when it never does.
use flatcar_linux_update_ope.Prelude.{
  ℕ, zero, suc, ◌+◌, ◌≤◌, ◌<◌, ◌≡◌, ◌≢◌, refl, ◌∙◌, ap, ◌⊎◌, inl, inr, true, false, Option, none,
  some, Bool-cases, arith,
}
use flatcar_linux_update_ope.Client.{NodeClient, Selectors}
use flatcar_linux_update_ope.Client.Laws.{IsQuiet}
use flatcar_linux_update_ope.Clock.{Clock}
use flatcar_linux_update_ope.Operator.Vars.{Vars}
use flatcar_linux_update_ope.Operator.Config.{Kontroller}
use flatcar_linux_update_ope.Operator.Run.{
  Message, nil, leader_election_lost, Stopper, awaiting, sending_nil, cancelling, over, Elector,
  acquiring, leading, sending_lost, cancelling_lost, ended, Runner, awaiting_lead, looping,
  receiving, returned, State, start, Step, sees_stop, sends_nil, cancels, sends_lost, cancels_lost,
  leaves_loop, returns, Reach, here, later,
}
use flatcar_linux_update_ope.Operator.Run.Passes.{Passed, Reach-Passed}
use flatcar_linux_update_ope.Operator.Run.Invariant.{
  sent_nil, sent_lost, has_returned, IsConsistent,
}
use flatcar_linux_update_ope.Operator.Run.Kept.{Step-IsConsistent, Reach-IsConsistent}

abbrev stopper_rank : Stopper → ℕ
stopper_rank awaiting = 3
stopper_rank sending_nil = 2
stopper_rank cancelling = 1
stopper_rank over = 0

abbrev elector_rank : Elector → ℕ
elector_rank acquiring = 4
elector_rank leading = 3
elector_rank sending_lost = 2
elector_rank cancelling_lost = 1
elector_rank ended = 0

abbrev runner_rank : Runner → ℕ
runner_rank awaiting_lead = 3
runner_rank looping = 2
runner_rank receiving = 1
runner_rank (returned m) = 0

sent_nil-awake : (g : Stopper) → sent_nil g ≡ true → g ≢ awaiting
sent_nil-awake g h e = cc

channel_cases :
    (o : Option Message) → (o ≡ none) ⊎ ((o ≡ some nil) ⊎ (o ≡ some leader_election_lost))
channel_cases none = inl refl
channel_cases (some nil) = inr (inl refl)
channel_cases (some leader_election_lost) = inr (inr refl)

module _ (c : NodeClient) (s : Selectors) (v : Vars s) (clock : Clock) (k : Kontroller)
    (w : c.World) where
  -- What `Run` has seen and done when it is in the state.
  pub record Answered (x : State c s v clock k) : Type 0 where
    pub by_stop : x.runner ≡ returned nil → x.stop_closed ≡ true
    pub by_loss : x.runner ≡ returned leader_election_lost → sent_lost x.elector ≡ true
    pub idle : x.runner ≡ awaiting_lead → x.world ≡ w
    pub passed : (q : IsQuiet c) → Passed c s v clock k q w x.world

  -- In every state that `Run` reaches from its start: if it has returned nil, then `stop` was
  -- closed; if it has returned the error, then the leader elector has stopped leading, or has given
  -- up; until it is told that it leads, it has not touched the world; and on a quiet API server the
  -- world is one that the steps of the operator reach between two passes, as in the system with
  -- the agents.
  pub Reach-Answered :
      (x : State c s v clock k) → Reach c s v clock k (start c s v clock k w) x → Answered x
  Reach-Answered x r =
      let i = Reach-IsConsistent c s v clock k w r in
      record {
        by_stop = λ e. i.asked (sent_nil-awake x.stopper (i.stopped_nil e));
        by_loss = i.stopped_lost;
        idle = i.untouched;
        passed = λ q. Reach-Passed c s v clock k q w r;
      }

module _ (c : NodeClient) (s : Selectors) (v : Vars s) (clock : Clock) (k : Kontroller)
    (w : c.World) where
  abbrev rank : State c s v clock k → ℕ
  rank x = stopper_rank x.stopper + elector_rank x.elector + runner_rank x.runner

  -- The operator is asked to end: `stop` is closed, or the leader elector does not lead.
  abbrev pub Asked : State c s v clock k → Type 0
  Asked x = (x.stop_closed ≡ true) ⊎ (x.elector ≢ leading)

  abbrev Next : State c s v clock k → Type 0
  Next x =
      (y : State c s v clock k) × Step c s v clock k x y
      × (rank y < rank x)
      × (y.runner ≢ awaiting_lead)
      × Asked y
      × (y.world ≡ x.world)

  module _ (x : State c s v clock k) (i : IsConsistent c s v clock k w x)
      (led : x.runner ≢ awaiting_lead) (asked : Asked x) where
    -- A message is there to be received.
    full : x.cancelled ≡ true → has_returned x.runner ≡ false → x.err_ch ≢ none
    full h f e = elim (stopper_cases x.stopper) [
      | inl z ↦ i.held_nil f (ap sent_nil z) e
      | inr z ↦ i.held_lost f (ap sent_lost (i.by_whom h z)) e
    ]
      where
        stopper_cases : (g : Stopper) → (g ≡ over) ⊎ (g ≢ over)
        stopper_cases awaiting = inr (λ a. cc)
        stopper_cases sending_nil = inr (λ a. cc)
        stopper_cases cancelling = inr (λ a. cc)
        stopper_cases over = inl refl

    receive : x.runner ≡ receiving → Next x
    receive e = elim (channel_cases x.err_ch) [
      | inl z ↦ absurd (full (i.left_cancelled e) (ap has_returned e) z)
      | inr (inl z) ↦ got nil z
      | inr (inr z) ↦ got leader_election_lost z
    ]
      where
        got : (m : Message) → x.err_ch ≡ some m → Next x
        got m z =
            let d = ap runner_rank e in (_, returns m e z, omega arith, (λ a. cc), asked, refl)

    module _ (e : x.runner ≡ looping) (going : x.cancelled ≡ false) where
      -- The elector has sent its message.
      lost : sent_lost x.elector ≡ true → Next x
      lost h = elim (sent_cases x.elector h) [
        | inl z ↦
            let d = ap elector_rank z in (_, cancels_lost z, omega arith, led, inr (λ a. cc), refl)
        | inr z ↦ (let b = i.ended_cancelled z in cc)
      ]
        where
          sent_cases : (g : Elector) → sent_lost g ≡ true → (g ≡ cancelling_lost) ⊎ (g ≡ ended)
          sent_cases acquiring h = cc
          sent_cases leading h = cc
          sent_cases sending_lost h = cc
          sent_cases cancelling_lost h = inl refl
          sent_cases ended h = inr refl

      stopping : x.stopper ≡ sending_nil → Next x
      stopping z = elim (channel_cases x.err_ch) [
        | inl n ↦ let d = ap stopper_rank z in (_, sends_nil z n, omega arith, led, asked, refl)
        | inr (inl n) ↦ (let b = i.holds_nil n in cc)
        | inr (inr n) ↦ lost (i.holds_lost n)
      ]

      losing : x.stopper ≡ awaiting → x.elector ≡ sending_lost → Next x
      losing z f = elim (channel_cases x.err_ch) [
        | inl n ↦
            let d = ap elector_rank f in (_, sends_lost f n, omega arith, led, inr (λ a. cc), refl)
        | inr (inl n) ↦ (let b = i.holds_nil n in cc)
        | inr (inr n) ↦ lost (i.holds_lost n)
      ]

      unasked : x.stopper ≡ awaiting → (g : Elector) → x.elector ≡ g → g ≢ leading → Next x
      unasked z acquiring f h = absurd (led (i.not_led f))
      unasked z leading f h = absurd (h refl)
      unasked z sending_lost f h = losing z f
      unasked z cancelling_lost f h = lost (ap sent_lost f)
      unasked z ended f h = lost (ap sent_lost f)

      going_on : (g : Stopper) → x.stopper ≡ g → Next x
      going_on awaiting z = elim asked [
        | inl h ↦ let d = ap stopper_rank z in (_, sees_stop h z, omega arith, led, inl h, refl)
        | inr h ↦ unasked z x.elector refl h
      ]
      going_on sending_nil z = stopping z
      going_on cancelling z =
          let d = ap stopper_rank z in (_, cancels z, omega arith, led, asked, refl)
      going_on over z = (let b = i.over_cancelled z in cc)

    loop : x.runner ≡ looping → Next x
    loop e = elim (Bool-cases x.cancelled) [
      | inl h ↦
          let d = ap runner_rank e in (_, leaves_loop e h, omega arith, (λ a. cc), asked, refl)
      | inr h ↦ going_on e h x.stopper refl
    ]

    next : (g : Runner) → x.runner ≡ g → ((m : Message) × (x.runner ≡ returned m)) ⊎ Next x
    next awaiting_lead e = absurd (led e)
    next looping e = inr (loop e)
    next receiving e = inr (receive e)
    next (returned m) e = inl (m, e)

  pub earlier :
      {x y z : State c s v clock k}
      → Step c s v clock k x y
      → Reach c s v clock k y z
      → Reach c s v clock k x z
  earlier st here = later here st
  earlier st (later r last) = later (earlier st r) last

  -- A state in which `Run` has returned can be reached, without another pass.
  abbrev pub Returns : State c s v clock k → Type 0
  Returns x =
      (y : State c s v clock k) × (m : Message) × Reach c s v clock k x y
      × (y.runner ≡ returned m)
      × (y.world ≡ x.world)

  run_on :
      (n : ℕ) (x : State c s v clock k)
      → rank x ≤ n
      → IsConsistent c s v clock k w x
      → x.runner ≢ awaiting_lead
      → Asked x
      → Returns x
  run_on zero x le i led asked = elim (next x i led asked x.runner refl) [
    | inl (m, e) ↦ (x, m, here, e, refl)
    | inr (y, st, lower, led1, asked1, same) ↦ absurd (omega arith)
  ]
  run_on (suc n) x le i led asked = elim (next x i led asked x.runner refl) [
    | inl (m, e) ↦ (x, m, here, e, refl)
    | inr (y, st, lower, led1, asked1, same) ↦
        let (z, m, r, e, same1) =
          run_on n y (omega arith) (Step-IsConsistent c s v clock k w st i) led1 asked1 in
        (z, m, earlier st r, e, same1 ∙ same)
  ]

  -- In every state that is reached after `Run` was told that it leads, once `stop` is closed or the
  -- leader elector no longer leads, the goroutines can go on, without another pass and without a
  -- change of the world, until `Run` has returned: none of them is in the way of another.
  pub Reach-Returns :
      (x : State c s v clock k)
      → Reach c s v clock k (start c s v clock k w) x
      → x.runner ≢ awaiting_lead
      → Asked x
      → Returns x
  Reach-Returns x r led asked =
      run_on (rank x) x (omega arith) (Reach-IsConsistent c s v clock k w r) led asked
