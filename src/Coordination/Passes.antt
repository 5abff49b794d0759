-- ===== src/Coordination/Passes.antt =====
-- A pass of the operator that nothing interrupts is a run of its steps.
use flatcar_linux_update_ope.Prelude.{◌≡◌, refl, sym, subst}
use flatcar_linux_update_ope.Exec.{Outcome, ok, err, panic, Exec, continue, ◌>>◌}
use flatcar_linux_update_ope.Client.{NodeClient, Selectors}
use flatcar_linux_update_ope.Client.Laws.{IsQuiet}
use flatcar_linux_update_ope.Clock.{Clock}
use flatcar_linux_update_ope.Operator.Vars.{Vars}
use flatcar_linux_update_ope.Operator.Config.{Kontroller}
use flatcar_linux_update_ope.Operator.Checks.{
  cleanup_state, check_after_reboot, check_before_reboot,
}
use flatcar_linux_update_ope.Operator.Marks.{mark_after_reboot, mark_before_reboot}
use flatcar_linux_update_ope.Operator.Process.{log_error, steps, process}
use flatcar_linux_update_ope.Coordination.{
  Phase, cleaning, checking_after_reboot, marking_after_reboot, checking_before_reboot,
  marking_before_reboot, advance, State, operator, Reach, later,
}

advance_last : (o : Outcome (Unit {0})) → advance marking_before_reboot o ≡ cleaning
advance_last (ok a) = refl
advance_last (err e) = refl
advance_last panic = refl

module _ {W : Type 0} where
  log_error-world : (r : Outcome (Unit {0}) × W) → (log_error r).1 ≡ r.1
  log_error-world (ok a, w) = refl
  log_error-world (err e, w) = refl
  log_error-world (panic, w) = refl

module _ (c : NodeClient) (s : Selectors) (v : Vars s) (clock : Clock) (k : Kontroller)
    (q : IsQuiet c) (first second : clock.Time) (x : State c s v clock k) where
  abbrev To : Phase → c.World → Type 0
  To p w = Reach c s v clock k q x (record { phase = p; world = w })

  -- The rest of a pass after the step of phase `p` came out as `r`.
  after_step :
      (p : Phase) (rest : Exec c.World (Unit {0}))
      → ((w : c.World) → To (advance p (ok tt)) w → To cleaning (rest w).1)
      → (r : Outcome (Unit {0}) × c.World) → To (advance p r.0) r.1
      → To cleaning (continue r (λ _. rest)).1
  after_step p rest next (ok tt, w) h = next w h
  after_step p rest next (err e, w) h = h
  after_step p rest next (panic, w) h = h

  last :
      (w : c.World)
      → To marking_before_reboot w
      → To cleaning (mark_before_reboot c s v clock k first second w).1
  last w h =
      subst (λ p. To p (mark_before_reboot c s v clock k first second w).1)
        (advance_last (mark_before_reboot c s v clock k first second w).0)
        (later h (operator first second))

  from_checking_before :
      (w : c.World)
      → To checking_before_reboot w
      → To cleaning
          ((check_before_reboot c s v k >> mark_before_reboot c s v clock k first second) w).1
  from_checking_before w h =
      after_step checking_before_reboot _ last (check_before_reboot c s v k w)
        (later h (operator first second))

  from_marking_after :
      (w : c.World)
      → To marking_after_reboot w
      → To cleaning
          ((mark_after_reboot c s v k
              >> (check_before_reboot c s v k >> mark_before_reboot c s v clock k first second))
            w).1
  from_marking_after w h =
      after_step marking_after_reboot _ from_checking_before (mark_after_reboot c s v k w)
        (later h (operator first second))

  from_checking_after :
      (w : c.World)
      → To checking_after_reboot w
      → To cleaning
          ((check_after_reboot c s v k
              >> (mark_after_reboot c s v k
                  >> (check_before_reboot c s v k
                      >> mark_before_reboot c s v clock k first second)))
            w).1
  from_checking_after w h =
      after_step checking_after_reboot _ from_marking_after (check_after_reboot c s v k w)
        (later h (operator first second))

  steps-Reach : (w : c.World) → To cleaning w → To cleaning (steps c s v clock k first second w).1
  unfolding steps
  steps-Reach w h =
      after_step cleaning _ from_checking_after (cleanup_state c s v k w)
        (later h (operator first second))

  -- A pass from the state that was reached, whatever its errors, ends in a state that the steps of
  -- the operator reach, where the next pass begins.
  pub process-Reach :
      (w : c.World) → To cleaning w → To cleaning (process c s v clock k first second w).1
  unfolding process
  process-Reach w h =
      subst (To cleaning) (sym (log_error-world (steps c s v clock k first second w)))
        (steps-Reach w h)
