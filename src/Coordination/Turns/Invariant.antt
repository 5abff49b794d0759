-- ===== src/Coordination/Turns/Invariant.antt =====
-- What holds of the nodes whatever the turns, by what the operator does next.
use flatcar_linux_update_ope.Prelude.{ℕ, ◌+◌, ◌≤◌, ◌≡◌, true, false, List, All, count, length}
use flatcar_linux_update_ope.Node.{Node}
use flatcar_linux_update_ope.K8sutil.Metadata.Names.{DistinctNames, has_name}
use flatcar_linux_update_ope.Operator.Process.Flags.{
  checking_before, engaged, Cleaned, Counted, IsSafe,
}
use flatcar_linux_update_ope.Coordination.{
  cleaning, checking_after_reboot, marking_after_reboot, checking_before_reboot,
  marking_before_reboot,
}
use flatcar_linux_update_ope.Coordination.Turns.{Work, listing, visiting}

-- Of each node: what the pass has established of it so far.
abbrev pub Local : Work → Node → Type 0
Local (listing cleaning) n = Unit
Local (visiting cleaning nodes) n = has_name n.name nodes ≡ false → Cleaned n
Local (listing checking_after_reboot) n = Cleaned n
Local (visiting checking_after_reboot nodes) n = Cleaned n
Local (listing marking_after_reboot) n = Cleaned n
Local (visiting marking_after_reboot nodes) n =
    Cleaned n
    × (has_name n.name nodes ≡ true → engaged n ≡ true)
    × (has_name n.name nodes ≡ false → Counted n)
Local (listing checking_before_reboot) n = Cleaned n × Counted n
Local (visiting checking_before_reboot nodes) n =
    Cleaned n × Counted n × (has_name n.name nodes ≡ true → checking_before n ≡ true)
Local (listing marking_before_reboot) n = Counted n
Local (visiting marking_before_reboot nodes) n = Unit

-- Of the loop as a whole: no node is visited twice, and there is room for those to be marked.
abbrev pub Within : ℕ → Work → List Node → Type 0
Within max (listing p) ns = Unit
Within max (visiting cleaning nodes) ns = Unit
Within max (visiting checking_after_reboot nodes) ns = Unit
Within max (visiting marking_after_reboot nodes) ns = Unit
Within max (visiting checking_before_reboot nodes) ns = DistinctNames nodes
Within max (visiting marking_before_reboot nodes) ns = count engaged ns + length nodes ≤ max

pub record IsOrderly (max : ℕ) (x : Work) (ns : List Node) : Type 0 where
  pub safe : IsSafe max ns
  pub each : All (Local x) ns
  pub within : Within max x ns
