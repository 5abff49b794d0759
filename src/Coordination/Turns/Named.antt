-- ===== src/Coordination/Turns/Named.antt =====
-- Updates of the node of one name, and which names a filtered list has.
use mathlib.Core.Bool.{false≢true}
use text.Mathlib.TextPositions.{eq_refl}
use flatcar_linux_update_ope.Prelude.{
  suc, ◌≤◌, String, ◌==◌, eq_iff, ◌≡◌, ◌≢◌, refl, sym, ◌∙◌, subst, inl, inr, Bool, true, false,
  none, List, [], ◌∷◌, All, filter, count, Bool-cases, arith,
}
use flatcar_linux_update_ope.Node.{Node}
use flatcar_linux_update_ope.K8sutil.Metadata.{UpdateNode}
use flatcar_linux_update_ope.K8sutil.Metadata.Names.{
  DistinctNames, has_name, or_self, modify, modify_absent,
}
use flatcar_linux_update_ope.K8sutil.Metadata.Effect.{Fits}

pub All-any : (ns : List Node) → All (λ _. Unit {0}) ns
All-any [] = tt
All-any (n ∷ ns) = (tt, All-any ns)

module _ (k : String) (f : UpdateNode) where
  pub All-modify_each :
      (P Q : Node → Type 0)
      → ((n : Node) → (n.name == k) ≡ true → P n → Q (or_self n (f n)))
      → ((n : Node) → (n.name == k) ≡ false → P n → Q n)
      → (ns : List Node) → All P ns
      → All Q (modify k f ns)
  All-modify_each P Q hits misses [] h = tt
  All-modify_each P Q hits misses (n ∷ ns) (x, h) = elim (Bool-cases (n.name == k)) [
    | inl hit ↦ rw hit (hits n hit x, All-modify_each P Q hits misses ns h)
    | inr miss ↦ rw miss (misses n miss x, All-modify_each P Q hits misses ns h)
  ]

  -- An update that sets the flag `e` only where it was set raises no count.
  pub count-modify-le :
      (e : Node → Bool) (P : Node → Type 0)
      → ((n : Node) → (n.name == k) ≡ true → P n → e (or_self n (f n)) ≡ true → e n ≡ true)
      → (ns : List Node) → All P ns
      → count e (modify k f ns) ≤ count e ns
  count-modify-le e P keep [] h = omega arith
  count-modify-le e P keep (n ∷ ns) (x, h) = ground (arith, keep n, count-modify-le e P keep ns h)

  -- Any update of the one node of a name raises the count by one at most.
  pub count-modify-le_suc :
      (e : Node → Bool) (ns : List Node)
      → DistinctNames ns
      → count e (modify k f ns) ≤ suc (count e ns)
  count-modify-le_suc e [] d = omega arith
  count-modify-le_suc e (n ∷ ns) (fresh, d) = elim (Bool-cases (n.name == k)) [
    | inl hit ↦
        rw
          (
            hit,
            modify_absent k f ns
                (subst (λ j. has_name j ns ≡ false) ((eq_iff n.name k).0 hit) fresh),
          )
          (ground arith)
    | inr miss ↦ rw miss (ground (arith, count-modify-le_suc e ns d))
  ]

  -- On the nodes of that name the update function does not panic.
  pub Fits-All :
      (ns : List Node)
      → DistinctNames ns
      → Fits k f ns
      → All (λ n. (n.name == k) ≡ true → f n ≢ none) ns
  Fits-All [] d fits = tt
  Fits-All (n ∷ ns) (fresh, d) fits = elim (Bool-cases (n.name == k)) [
    | inl hit ↦ (
      λ _. fits n (rw hit refl),
      absent ns (subst (λ j. has_name j ns ≡ false) ((eq_iff n.name k).0 hit) fresh),
    )
    | inr miss ↦
        (λ hit. absurd (false≢true (sym miss ∙ hit)), Fits-All ns d (λ m h. fits m (rw miss h)))
  ]
    where
      absent :
          (ns : List Node) → has_name k ns ≡ false → All (λ n. (n.name == k) ≡ true → f n ≢ none) ns
      absent [] h = tt
      absent (n ∷ ns) h = elim (Bool-cases (n.name == k)) [
        | inl hit ↦ absurd (ground arith)
        | inr miss ↦ (λ hit. absurd (false≢true (sym miss ∙ hit)), absent ns (rw miss at h))
      ]

module _ (p : Node → Bool) where
  has_name-filter_absent :
      (k : String) (ns : List Node) → has_name k ns ≡ false → has_name k (filter p ns) ≡ false
  has_name-filter_absent k [] h = refl
  has_name-filter_absent k (n ∷ ns) h = ground (arith, has_name-filter_absent k ns)

  pub DistinctNames-filter : (ns : List Node) → DistinctNames ns → DistinctNames (filter p ns)
  DistinctNames-filter [] d = tt
  DistinctNames-filter (n ∷ ns) (fresh, d) = elim (Bool-cases (p n)) [
    | inl hit ↦ rw hit (has_name-filter_absent n.name ns fresh, DistinctNames-filter ns d)
    | inr miss ↦ rw miss (DistinctNames-filter ns d)
  ]

  -- A node is by its name in the filtered list exactly if it passes the test.
  abbrev Found : List Node → Node → Type 0
  Found ns n = has_name n.name (filter p ns) ≡ p n

  Found-cons :
      (n : Node) (all ns : List Node)
      → has_name n.name ns ≡ false
      → All (Found all) ns
      → All (Found (n ∷ all)) ns
  Found-cons n all [] fresh h = tt
  Found-cons n all (x ∷ ns) fresh (y, h) = (
    ground (arith, eq_iff x.name n.name, eq_iff n.name x.name),
    Found-cons n all ns (ground arith) h,
  )

  pub has_name-filter :
      (ns : List Node) → DistinctNames ns → All (λ n. has_name n.name (filter p ns) ≡ p n) ns
  has_name-filter [] d = tt
  has_name-filter (n ∷ ns) (fresh, d) = (
    elim (Bool-cases (p n)) [
      | inl hit ↦ rw (hit, eq_refl n.name) refl
      | inr miss ↦ rw miss (has_name-filter_absent n.name ns fresh)
    ],
    Found-cons n ns ns fresh (has_name-filter ns d),
  )
