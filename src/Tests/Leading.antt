-- ===== src/Tests/Leading.antt =====
-- The operator's `Run` on a sample cluster: it leads, makes a pass, and is stopped.
use flatcar_linux_update_ope.Prelude.{ℕ, arith, ◌≡◌, refl, true, false, none, inl}
use flatcar_linux_update_ope.Operator.Process.{process}
use flatcar_linux_update_ope.Operator.Run.{
  awaiting, leading, awaiting_lead, looping, State, start, closes_stop, acquires, leads, passes,
  Reach, here, later,
}
use flatcar_linux_update_ope.Operator.Run.Ends.{Answered, Reach-Answered, Returns, Reach-Returns}
use flatcar_linux_update_ope.Operator.Run.Hangs.{Reach_given_up}
use flatcar_linux_update_ope.Prelude.Int.{pos}
use flatcar_linux_update_ope.Operator.Lease.{renew_deadline, retry_period, Accepts, lease-Accepts}
use flatcar_linux_update_ope.Tests.Memory.{memory, plain_selectors}
use flatcar_linux_update_ope.Tests.Samples.{cluster, settings, long_month}
use flatcar_linux_update_ope.Tests.Pass.{vars}

abbrev Running : Type 0
Running = State memory plain_selectors vars long_month settings

-- After one pass, `stop` is closed.
abbrev stopped : Running
stopped = record {
  stop_closed = true;
  cancelled = false;
  err_ch = none;
  stopper = awaiting;
  elector = leading;
  announcing = false;
  runner = looping;
  world = (process memory plain_selectors vars long_month settings 0 0 cluster).1;
}

abbrev beginning : Running
beginning = start memory plain_selectors vars long_month settings cluster

one_pass : Reach memory plain_selectors vars long_month settings beginning stopped
one_pass =
    later (later (later (later here (acquires refl)) (leads refl refl)) (passes 0 0 refl refl))
      closes_stop

Reach-Answered_example : Answered memory plain_selectors vars long_month settings cluster stopped
Reach-Answered_example =
    Reach-Answered memory plain_selectors vars long_month settings cluster stopped one_pass

Reach-Returns_example : Returns memory plain_selectors vars long_month settings cluster stopped
Reach-Returns_example =
    Reach-Returns memory plain_selectors vars long_month settings cluster stopped one_pass (λ e. cc)
      (inl refl)

Reach_given_up_example :
    (x : Running) × Reach memory plain_selectors vars long_month settings beginning x
    × (x.stop_closed ≡ true)
    × ((y : Running)
        → Reach memory plain_selectors vars long_month settings x y
        → y.runner ≡ awaiting_lead)
Reach_given_up_example = Reach_given_up memory plain_selectors vars long_month settings cluster

lease-Accepts_example :
    (renewal : ℕ) × (retry : ℕ) × (renew_deadline (pos 90000000000) ≡ pos renewal)
    × (retry_period (pos 90000000000) ≡ pos retry)
    × Accepts 90000000000 renewal retry
lease-Accepts_example = lease-Accepts 90000000000 (omega arith) (omega arith)
