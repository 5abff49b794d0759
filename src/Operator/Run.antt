-- ===== src/Operator/Run.antt =====
-- pkg/operator/operator.go: `Run` and `withLeaderElection`, their goroutines and channels.
pub mod Invariant
pub mod Kept
pub mod Passes
pub mod Ends
pub mod Hangs
use flatcar_linux_update_ope.Prelude.{◌≡◌, Bool, true, false, Option, none, some}
use flatcar_linux_update_ope.Client.{NodeClient, Selectors}
use flatcar_linux_update_ope.Clock.{Clock}
use flatcar_linux_update_ope.Operator.Vars.{Vars}
use flatcar_linux_update_ope.Operator.Config.{Kontroller}
use flatcar_linux_update_ope.Operator.Process.{process}

-- What is sent on `errCh`: nil, or the error "leaderelection lost".
pub data Message : Type 0 where
  nil leader_election_lost : Message

-- The goroutine that waits for `stop`: it waits, sends nil, cancels the context, and is over.
pub data Stopper : Type 0 where
  awaiting sending_nil cancelling over : Stopper

-- The goroutine of `leaderelection.RunOrDie`: it acquires the lease and leads; `OnStoppedLeading`
-- sends the error and cancels the context.
pub data Elector : Type 0 where
  acquiring leading sending_lost cancelling_lost ended : Elector

-- `Run` itself: it waits for `waitLeading`, is in `wait.Until`, receives from `errCh`, or has
-- returned.
pub data Runner : Type 0 where
  awaiting_lead looping receiving : Runner
  returned : Message → Runner

module _ (c : NodeClient) (s : Selectors) (v : Vars s) (clock : Clock) (k : Kontroller) where
  pub record State : Type 0 where
    pub stop_closed : Bool
    pub cancelled : Bool
    -- the buffer of `errCh`, which holds one message
    pub err_ch : Option Message
    pub stopper : Stopper
    pub elector : Elector
    -- the goroutine of `OnStartedLeading` is about to send on `waitLeading`
    pub announcing : Bool
    pub runner : Runner
    pub world : c.World

  abbrev pub start : c.World → State
  start w = record {
    stop_closed = false;
    cancelled = false;
    err_ch = none;
    stopper = awaiting;
    elector = acquiring;
    announcing = false;
    runner = awaiting_lead;
    world = w;
  }

  -- `RunOrDie` gives up the acquisition only when its context is cancelled, and stops leading at
  -- any time.
  pub data Step (x : State) : State → Type 0 where
    closes_stop : Step x (record x { stop_closed = true })
    sees_stop :
        x.stop_closed ≡ true → x.stopper ≡ awaiting → Step x (record x { stopper = sending_nil })
    sends_nil :
        x.stopper ≡ sending_nil
        → x.err_ch ≡ none
        → Step x (record x { stopper = cancelling; err_ch = some nil })
    cancels : x.stopper ≡ cancelling → Step x (record x { stopper = over; cancelled = true })
    acquires : x.elector ≡ acquiring → Step x (record x { elector = leading; announcing = true })
    gives_up :
        x.elector ≡ acquiring → x.cancelled ≡ true → Step x (record x { elector = sending_lost })
    stops_leading : x.elector ≡ leading → Step x (record x { elector = sending_lost })
    sends_lost :
        x.elector ≡ sending_lost
        → x.err_ch ≡ none
        → Step x (record x { elector = cancelling_lost; err_ch = some leader_election_lost })
    cancels_lost :
        x.elector ≡ cancelling_lost → Step x (record x { elector = ended; cancelled = true })
    leads :
        x.runner ≡ awaiting_lead
        → x.announcing ≡ true
        → Step x (record x { runner = looping; announcing = false })
    passes :
        (first second : clock.Time)
        → x.runner ≡ looping
        → x.cancelled ≡ false
        → Step x (record x { world = (process c s v clock k first second x.world).1 })
    leaves_loop : x.runner ≡ looping → x.cancelled ≡ true → Step x (record x { runner = receiving })
    returns :
        (m : Message)
        → x.runner ≡ receiving
        → x.err_ch ≡ some m
        → Step x (record x { runner = returned m; err_ch = none })

  pub data Reach (x : State) : State → Type 0 where
    here : Reach x x
    later : {y z : State} → Reach x y → Step y z → Reach x z
