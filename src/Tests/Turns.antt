-- ===== src/Tests/Turns.antt =====
-- Single calls of the operator with an agent's write between two visits of one loop.
use mathlib.Core.Bool.{false≢true}
use flatcar_linux_update_ope.Prelude.{◌≡◌, eq_iff, refl, false, [], ◌∷◌, All}
use flatcar_linux_update_ope.Node.{Node}
use flatcar_linux_update_ope.K8sutil.Metadata.{update_node_retry}
use flatcar_linux_update_ope.Agent.Writes.{drain, write_f}
use flatcar_linux_update_ope.Agent.Protocol.{Ready}
use flatcar_linux_update_ope.Operator.Process.Flags.{IsSafe}
use flatcar_linux_update_ope.Coordination.{cleaning}
use flatcar_linux_update_ope.Coordination.Turns.{
  listing, visiting, visited, Opportune, gather, visit, Moment, lists, visits, writes, Runs, here,
  later,
}
use flatcar_linux_update_ope.Coordination.Turns.Safety.{Runs-IsSafe}
use flatcar_linux_update_ope.Tests.Memory.{
  memory, memory-IsQuiet, plain_selectors, plain_selectors-IsLawful,
}
use flatcar_linux_update_ope.Tests.Samples.{
  wanting, rebooted, ready, healthy, cluster, settings, long_month,
}
use flatcar_linux_update_ope.Tests.Pass.{
  vars, loaded, cluster-IsSafe, ready_IsForeign, healthy_IsForeign,
}

abbrev Instant : Type 0
Instant = Moment memory plain_selectors vars long_month settings

-- The operator has listed the nodes for its cleanup,
abbrev listed : Instant
listed = record { work = visiting cleaning cluster; world = cluster }

-- then node "a" prepares its drain,
abbrev drained : Instant
drained = record {
  work = visiting cleaning cluster;
  world = (update_node_retry memory "a" (write_f (drain false)) cluster).1;
}

-- and then the operator visits it.
abbrev first_visited : Instant
first_visited = record {
  work =
      visited cleaning (rebooted ∷ ready ∷ healthy ∷ [])
        (visit memory plain_selectors vars long_month settings cleaning wanting drained.world).0;
  world = (visit memory plain_selectors vars long_month settings cleaning wanting drained.world).1;
}

abbrev start : Instant
start = record { work = listing cleaning; world = cluster }

lists_all : Runs memory plain_selectors vars long_month settings memory-IsQuiet start listed
unfolding gather
lists_all = later here (lists cleaning 0 0 refl)

only_a :
    All
      (λ (n : Node).
        n.name ≡ "a"
        → Ready (drain false) n × Opportune (visiting cleaning cluster) (drain false) n)
      cluster
only_a = (
  λ e. (refl, tt),
  (
    λ e. absurd (false≢true ((eq_iff "b" "a").1 e)),
    (λ e. (refl, tt), (λ e. absurd (false≢true ((eq_iff "d" "a").1 e)), tt)),
  ),
)

interleaved :
    Runs memory plain_selectors vars long_month settings memory-IsQuiet start first_visited
interleaved =
    later (later lists_all (writes "a" (drain false) only_a))
      (visits cleaning wanting (rebooted ∷ ready ∷ healthy ∷ []) refl)

Runs-IsSafe_example : IsSafe 3 first_visited.world
Runs-IsSafe_example =
    Runs-IsSafe memory memory-IsQuiet plain_selectors vars plain_selectors-IsLawful loaded
      long_month settings 3 refl ready_IsForeign healthy_IsForeign cluster first_visited
      cluster-IsSafe interleaved
