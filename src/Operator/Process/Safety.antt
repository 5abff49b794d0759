-- ===== src/Operator/Process/Safety.antt =====
-- A whole pass of the operator keeps the invariant, whatever fails in it.
use flatcar_linux_update_ope.Prelude.{ℕ, ◌≡◌, refl, some, All, List}
use flatcar_linux_update_ope.Prelude.Int.{pos}
use flatcar_linux_update_ope.Exec.{Outcome, ok, err, panic, Exec, continue, ◌>>◌}
use flatcar_linux_update_ope.Node.{Node}
use flatcar_linux_update_ope.Client.{NodeClient, Selectors}
use flatcar_linux_update_ope.Client.Laws.{IsQuiet}
use flatcar_linux_update_ope.Clock.{Clock}
use flatcar_linux_update_ope.Operator.Vars.{Vars, package_vars}
use flatcar_linux_update_ope.Operator.Vars.Meaning.{IsLawful, Means, package_vars-Means}
use flatcar_linux_update_ope.Operator.Config.{Kontroller}
use flatcar_linux_update_ope.Operator.Checks.{
  cleanup_state, check_after_reboot, check_before_reboot,
}
use flatcar_linux_update_ope.Operator.Marks.{mark_after_reboot, mark_before_reboot}
use flatcar_linux_update_ope.Operator.Process.{log_error, steps, process}
use flatcar_linux_update_ope.Operator.Process.Flags.{Cleaned, Counted, IsForeign, IsSafe}
use flatcar_linux_update_ope.Operator.Process.Keeps.{
  cleanup_state-IsSafe, check_after_reboot-IsSafe, mark_after_reboot-IsSafe,
  check_before_reboot-IsSafe,
}
use flatcar_linux_update_ope.Operator.Process.Window.{mark_before_reboot-IsSafe}

module _ (c : NodeClient) (q : IsQuiet c) (max : ℕ) where
  -- Safe after any outcome, and `P` of the nodes after success.
  abbrev Keeps : (List Node → Type 0) → Outcome (Unit {0}) × c.World → Type 0
  Keeps P r = IsSafe max (q.nodes r.1) × (r.0 ≡ ok tt → P (q.nodes r.1))

  -- The rest of a pass after a step.
  and_then :
      (P Q : List Node → Type 0) (rest : Exec c.World (Unit {0}))
      → ((w : c.World) → IsSafe max (q.nodes w) → P (q.nodes w) → Keeps Q (rest w))
      → (r : Outcome (Unit {0}) × c.World) → Keeps P r
      → Keeps Q (continue r (λ _. rest))
  and_then P Q rest next (ok a, w) (safe, p) = next w safe (p refl)
  and_then P Q rest next (err e, w) (safe, p) = (safe, λ h. cc)
  and_then P Q rest next (panic, w) (safe, p) = (safe, λ h. cc)

  logged :
      (r : Outcome (Unit {0}) × c.World)
      → IsSafe max (q.nodes r.1)
      → IsSafe max (q.nodes (log_error r).1)
  logged (ok a, w) h = h
  logged (err e, w) h = h
  logged (panic, w) h = h

module _ (c : NodeClient) (q : IsQuiet c) (s : Selectors) (v : Vars s) (means : Means s v)
    (clock : Clock) (k : Kontroller) (max : ℕ) (max-eq : k.max_rebooting_nodes ≡ pos max)
    (before : IsForeign k.before_reboot_annotations) (after : IsForeign k.after_reboot_annotations)
    (first second : clock.Time) where
  after_marks :
      (w : c.World)
      → IsSafe max (q.nodes w)
      → All Cleaned (q.nodes w) × All Counted (q.nodes w)
      → Keeps c q max
          (λ _. Unit {0})
          ((check_before_reboot c s v k >> mark_before_reboot c s v clock k first second) w)
  after_marks w safe (cleaned, counted) =
      let (s1, counted1) =
        check_before_reboot-IsSafe c q s v means k max w safe before cleaned counted in
      and_then c q max (All Counted) (λ _. Unit {0}) _
        (λ w1 s2 counted2. (
          mark_before_reboot-IsSafe c q s v means clock k max max-eq first second w1 before s2
              counted2,
          λ _. tt,
        ))
        (check_before_reboot c s v k w) (s1, λ _. counted1)

  after_checks :
      (w : c.World)
      → IsSafe max (q.nodes w)
      → All Cleaned (q.nodes w)
      → Keeps c q max
          (λ _. Unit {0})
          ((mark_after_reboot c s v k
              >> (check_before_reboot c s v k >> mark_before_reboot c s v clock k first second))
            w)
  after_checks w safe cleaned =
      let (s1, cleaned1, counted1) =
        mark_after_reboot-IsSafe c q s v means k max w safe after cleaned in
      and_then c q max (λ ns. All Cleaned ns × All Counted ns) (λ _. Unit {0}) _ after_marks
        (mark_after_reboot c s v k w) (s1, λ h. (cleaned1, counted1 h))

  steps-IsSafe :
      (w : c.World)
      → IsSafe max (q.nodes w)
      → Keeps c q max (λ _. Unit {0}) (steps c s v clock k first second w)
  unfolding steps
  steps-IsSafe w safe =
      and_then c q max (All Cleaned) (λ _. Unit {0}) _
        (λ w1 s1 cleaned.
          let (s2, cleaned2) = check_after_reboot-IsSafe c q s v means k max w1 s1 after cleaned in
          and_then c q max (All Cleaned) (λ _. Unit {0}) _ after_checks
            (check_after_reboot c s v k w1) (s2, λ _. cleaned2))
        (cleanup_state c s v k w) (cleanup_state-IsSafe c q s v means k max w safe before)

-- One pass of the operator on a quiet API server, whether it ends well, with an error or with a
-- panic, keeps the invariant: distinct names, well annotated nodes, and no more nodes taking part
-- in reboots than the configured number. The annotations configured for the checks must not be
-- the protocol's own.
pub process-IsSafe :
    (c : NodeClient) (q : IsQuiet c) (s : Selectors) (v : Vars s)
    → IsLawful s
    → package_vars s ≡ some v
    → (clock : Clock) (k : Kontroller) (max : ℕ) → k.max_rebooting_nodes ≡ pos max
    → IsForeign k.before_reboot_annotations
    → IsForeign k.after_reboot_annotations
    → (first second : clock.Time) (w : c.World) → IsSafe max (q.nodes w)
    → IsSafe max (q.nodes (process c s v clock k first second w).1)
unfolding process
process-IsSafe c q s v lawful loaded clock k max max-eq before after first second w safe =
    logged c q max (steps c s v clock k first second w)
      (steps-IsSafe c q s v (package_vars-Means s v loaded lawful) clock k max max-eq before after
        first second w safe).0
