-- ===== src/Operator/Run/Hangs.antt =====
-- `Run` of pkg/operator/operator.go when it is stopped before it leads.
use flatcar_linux_update_ope.Prelude.{◌≡◌, ◌≢◌, refl, true, false, some}
use flatcar_linux_update_ope.Client.{NodeClient, Selectors}
use flatcar_linux_update_ope.Clock.{Clock}
use flatcar_linux_update_ope.Operator.Vars.{Vars}
use flatcar_linux_update_ope.Operator.Config.{Kontroller}
use flatcar_linux_update_ope.Operator.Run.{
  nil, over, acquiring, sending_lost, awaiting_lead, State, start, Step, closes_stop, sees_stop,
  sends_nil, cancels, acquires, gives_up, stops_leading, sends_lost, cancels_lost, leads, passes,
  leaves_loop, returns, Reach, here, later,
}

module _ (c : NodeClient) (s : Selectors) (v : Vars s) (clock : Clock) (k : Kontroller) where
  -- `Run` waits for a message that nobody will send.
  record Hung (x : State c s v clock k) : Type 0 where
    pub waits : x.runner ≡ awaiting_lead
    pub unannounced : x.announcing ≡ false
    pub acquired_or_not : x.elector ≢ acquiring

  Step-Hung : {x y : State c s v clock k} → Step c s v clock k x y → Hung x → Hung y
  Step-Hung closes_stop h = record {
    waits = h.waits;
    unannounced = h.unannounced;
    acquired_or_not = h.acquired_or_not;
  }
  Step-Hung (sees_stop e f) h = record {
    waits = h.waits;
    unannounced = h.unannounced;
    acquired_or_not = h.acquired_or_not;
  }
  Step-Hung (sends_nil e f) h = record {
    waits = h.waits;
    unannounced = h.unannounced;
    acquired_or_not = h.acquired_or_not;
  }
  Step-Hung (cancels e) h = record {
    waits = h.waits;
    unannounced = h.unannounced;
    acquired_or_not = h.acquired_or_not;
  }
  Step-Hung (acquires e) h = absurd (h.acquired_or_not e)
  Step-Hung (gives_up e f) h = absurd (h.acquired_or_not e)
  Step-Hung (stops_leading e) h = record {
    waits = h.waits;
    unannounced = h.unannounced;
    acquired_or_not = λ a. cc;
  }
  Step-Hung (sends_lost e f) h = record {
    waits = h.waits;
    unannounced = h.unannounced;
    acquired_or_not = λ a. cc;
  }
  Step-Hung (cancels_lost e) h = record {
    waits = h.waits;
    unannounced = h.unannounced;
    acquired_or_not = λ a. cc;
  }
  Step-Hung (leads e f) h = (let b = h.unannounced in cc)
  Step-Hung (passes first second e f) h = (let b = h.waits in cc)
  Step-Hung (leaves_loop e f) h = (let b = h.waits in cc)
  Step-Hung (returns m e f) h = (let b = h.waits in cc)

  Reach-Hung : {x y : State c s v clock k} → Reach c s v clock k x y → Hung x → Hung y
  Reach-Hung here h = h
  Reach-Hung (later r st) h = Step-Hung st (Reach-Hung r h)

  -- `stop` was closed before the leader elector acquired the lease: it gave up.
  abbrev pub given_up : c.World → State c s v clock k
  given_up w = record {
    stop_closed = true;
    cancelled = true;
    err_ch = some nil;
    stopper = over;
    elector = sending_lost;
    announcing = false;
    runner = awaiting_lead;
    world = w;
  }

  -- A state is reached from the start of `Run` in which `stop` is closed and from which, whatever
  -- the steps, `Run` waits to be told that it leads and does not return.
  pub Reach_given_up :
      (w : c.World)
      → (x : State c s v clock k) × Reach c s v clock k (start c s v clock k w) x
        × (x.stop_closed ≡ true)
        × ((y : State c s v clock k) → Reach c s v clock k x y → y.runner ≡ awaiting_lead)
  Reach_given_up w = (
    given_up w,
    later
        (later (later (later (later here closes_stop) (sees_stop refl refl)) (sends_nil refl refl))
          (cancels refl))
        (gives_up refl refl),
    refl,
    λ y r.
        (Reach-Hung r
          (record { waits = refl; unannounced = refl; acquired_or_not = λ a. cc })).waits,
  )
