-- ===== src/Commands/UpdateOperator.antt =====
-- cmd/update-operator/main.go: the end of `main`, after `Run` has returned.
use mathlib.Core.Bool.{false≢true}
use flatcar_linux_update_ope.Prelude.{String, ◌≡◌, refl, sym, ◌∙◌, false, [], ◌∷◌}
use flatcar_linux_update_ope.Exec.{Error, Outcome, ok, err, message, wrap}
use flatcar_linux_update_ope.Client.{NodeClient, Selectors}
use flatcar_linux_update_ope.Clock.{Clock}
use flatcar_linux_update_ope.Operator.Vars.{Vars}
use flatcar_linux_update_ope.Operator.Config.{Kontroller}
use flatcar_linux_update_ope.Operator.Run.{
  Message, nil, leader_election_lost, State, start, Reach, returned,
}
use flatcar_linux_update_ope.Operator.Run.Ends.{Reach-Answered}

abbrev pub lost : String → Error
lost program = wrap "Error while running %s: %v" (program ∷ []) (message "leaderelection lost" [])

-- The error of `Run` is a `klog.Fatalf`. Only after that is `stop` closed, by a deferred call.
unfoldable pub run_ended : String → Message → Outcome (Unit {0})
run_ended program nil = ok tt
run_ended program leader_election_lost = err (lost program)

module _ (c : NodeClient) (s : Selectors) (v : Vars s) (clock : Clock) (k : Kontroller)
    (w : c.World) where
  -- As long as `stop` is not closed, which `main` does not do before `Run` has returned, `Run` does
  -- not return nil, so `main` ends with the error that the lease was lost, or not at all.
  pub run_ended-lost :
      (program : String) (x : State c s v clock k) (m : Message)
      → Reach c s v clock k (start c s v clock k w) x
      → x.stop_closed ≡ false
      → x.runner ≡ returned m
      → run_ended program m ≡ err (lost program)
  unfolding run_ended
  run_ended-lost program x nil r open_still e =
      absurd (false≢true (sym open_still ∙ (Reach-Answered c s v clock k w x r).by_stop e))
  run_ended-lost program x leader_election_lost r open_still e = refl
