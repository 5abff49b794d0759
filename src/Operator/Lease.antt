-- ===== src/Operator/Lease.antt =====
-- pkg/operator/operator.go: the times that `withLeaderElection` derives from the lease.
use flatcar_linux_update_ope.Prelude.{ℕ, ◌*◌, ◌/◌, ◌≤◌, ◌<◌, ◌≡◌, refl, ap, arith}
use flatcar_linux_update_ope.Prelude.Int.{ℤ, pos, ◌*ℤ◌, to_int64, quotient}

unfoldable pub renew_deadline : ℤ → ℤ
renew_deadline lease = quotient (to_int64 (lease *ℤ pos 2)) 3

unfoldable pub retry_period : ℤ → ℤ
retry_period lease = quotient lease 3

-- What `leaderelection.NewLeaderElector` documents of the three times, in nanoseconds: they are
-- positive, the lease is longer than the renewal, and the renewal longer than the retry period
-- with its jitter of a fifth.
pub record Accepts (lease renewal retry : ℕ) : Type 0 where
  pub retries : 1 ≤ retry
  pub jitters : 6 * retry < 5 * renewal
  pub renews : renewal < lease

kept : (n : ℕ) → n < 4611686018427387904 → to_int64 (pos n *ℤ pos 2) ≡ pos (n * 2)
unfolding ◌*ℤ◌
kept n high = ground arith

-- Every lease from 3 nanoseconds to less than 2 ^ 62, about 146 years, gives a deadline for the
-- renewal and a retry period that are positive and that the leader elector accepts with it.
pub lease-Accepts :
    (n : ℕ)
    → 3 ≤ n
    → n < 4611686018427387904
    → (renewal : ℕ) × (retry : ℕ) × (renew_deadline (pos n) ≡ pos renewal)
      × (retry_period (pos n) ≡ pos retry)
      × Accepts n renewal retry
unfolding renew_deadline retry_period ◌*ℤ◌
lease-Accepts n low high = (
  n * 2 / 3,
  n / 3,
  ap (λ a. quotient a 3) (kept n high),
  refl,
  record { retries = omega arith; jitters = omega arith; renews = omega arith },
)
