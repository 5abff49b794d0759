-- ===== src/Operator/Run/Passes.antt =====
-- What `Run` of pkg/operator/operator.go does to the world: passes of the operator alone.
use flatcar_linux_update_ope.Client.{NodeClient, Selectors}
use flatcar_linux_update_ope.Client.Laws.{IsQuiet}
use flatcar_linux_update_ope.Clock.{Clock}
use flatcar_linux_update_ope.Operator.Vars.{Vars}
use flatcar_linux_update_ope.Operator.Config.{Kontroller}
use flatcar_linux_update_ope.Operator.Run.{
  State, start, Step, closes_stop, sees_stop, sends_nil, cancels, acquires, gives_up, stops_leading,
  sends_lost, cancels_lost, leads, passes, leaves_loop, returns, Reach, here, later,
}
use flatcar_linux_update_ope.Coordination as Coordination
use flatcar_linux_update_ope.Coordination.{cleaning}
use flatcar_linux_update_ope.Coordination.Passes.{process-Reach}

module _ (c : NodeClient) (s : Selectors) (v : Vars s) (clock : Clock) (k : Kontroller)
    (q : IsQuiet c) (w : c.World) where
  -- Between two passes, in a world that the operator's steps reach from the first one.
  abbrev pub Passed : c.World → Type 0
  Passed z =
      Coordination.Reach c s v clock k q (record { phase = cleaning; world = w })
        (record { phase = cleaning; world = z })

  Step-Passed :
      {x y : State c s v clock k} → Step c s v clock k x y → Passed x.world → Passed y.world
  Step-Passed closes_stop h = h
  Step-Passed (sees_stop e f) h = h
  Step-Passed (sends_nil e f) h = h
  Step-Passed (cancels e) h = h
  Step-Passed (acquires e) h = h
  Step-Passed (gives_up e f) h = h
  Step-Passed (stops_leading e) h = h
  Step-Passed (sends_lost e f) h = h
  Step-Passed (cancels_lost e) h = h
  Step-Passed (leads e f) h = h
  Step-Passed {x} (passes first second e f) h =
      process-Reach c s v clock k q first second (record { phase = cleaning; world = w }) x.world h
  Step-Passed (leaves_loop e f) h = h
  Step-Passed (returns m e f) h = h

  pub Reach-Passed :
      {x : State c s v clock k} → Reach c s v clock k (start c s v clock k w) x → Passed x.world
  Reach-Passed here = Coordination.here
  Reach-Passed (later r st) = Step-Passed st (Reach-Passed r)
