-- ===== src/Operator/Process/Counting.antt =====
-- Invariants and counts of a list of nodes of which some are updated.
use flatcar_linux_update_ope.Prelude.{
  ℕ, zero, suc, ◌+◌, ◌≤◌, ◌≡◌, refl, ◌||◌, Bool, true, false, List, [], ◌∷◌, count, All, arith,
  Bool-cases, inl, inr, String,
}
use flatcar_linux_update_ope.Node.{Node}
use flatcar_linux_update_ope.K8sutil.Metadata.{UpdateNode}
use flatcar_linux_update_ope.K8sutil.Metadata.Names.{DistinctNames, has_name, or_self}
use flatcar_linux_update_ope.K8sutil.Metadata.Loop.{update_first, update_where}

pub All-map :
    (P Q : Node → Type 0) → ((n : Node) → P n → Q n) → (ns : List Node) → All P ns → All Q ns
All-map P Q g [] h = tt
All-map P Q g (n ∷ ns) (x, h) = (g n x, All-map P Q g ns h)

pub All-zip : (P Q : Node → Type 0) (ns : List Node) → All P ns → All Q ns → All (λ n. P n × Q n) ns
All-zip P Q [] h g = tt
All-zip P Q (n ∷ ns) (x, h) (y, g) = ((x, y), All-zip P Q ns h g)

module _ (p : Node → Bool) (f : UpdateNode) where
  pub All-update_first :
      (P Q : Node → Type 0)
      → ((n : Node) → p n ≡ true → P n → Q (or_self n (f n)))
      → ((n : Node) → P n → Q n)
      → (k : ℕ) (ns : List Node) → All P ns
      → All Q (update_first k p f ns)
  All-update_first P Q hits others zero ns h = All-map P Q others ns h
  All-update_first P Q hits others (suc k) [] h = tt
  All-update_first P Q hits others (suc k) (n ∷ ns) (x, h) = elim (Bool-cases (p n)) [
    | inl hit ↦ rw hit (hits n hit x, All-update_first P Q hits others k ns h)
    | inr miss ↦ rw miss (others n x, All-update_first P Q hits others (suc k) ns h)
  ]

  pub All-update_where :
      (P Q : Node → Type 0)
      → ((n : Node) → p n ≡ true → P n → Q (or_self n (f n)))
      → ((n : Node) → p n ≡ false → P n → Q n)
      → (ns : List Node) → All P ns
      → All Q (update_where p f ns)
  All-update_where P Q hits misses [] h = tt
  All-update_where P Q hits misses (n ∷ ns) (x, h) = elim (Bool-cases (p n)) [
    | inl hit ↦ rw hit (hits n hit x, All-update_where P Q hits misses ns h)
    | inr miss ↦ rw miss (misses n miss x, All-update_where P Q hits misses ns h)
  ]

  -- An update that sets the flag `e` only where it was set raises no count.
  pub count-update_first-le :
      (e : Node → Bool)
      → ((n : Node) → p n ≡ true → e (or_self n (f n)) ≡ true → e n ≡ true)
      → (k : ℕ) (ns : List Node) → count e (update_first k p f ns) ≤ count e ns
  count-update_first-le e keep zero ns = omega arith
  count-update_first-le e keep (suc k) [] = omega arith
  count-update_first-le e keep (suc k) (n ∷ ns) =
      ground
        (arith, keep n, count-update_first-le e keep k ns, count-update_first-le e keep (suc k) ns)

  -- Any update of `k` nodes raises the count by `k` at most.
  pub count-update_first-le_add :
      (e : Node → Bool) (k : ℕ) (ns : List Node) → count e (update_first k p f ns) ≤ count e ns + k
  count-update_first-le_add e zero ns = omega arith
  count-update_first-le_add e (suc k) [] = omega arith
  count-update_first-le_add e (suc k) (n ∷ ns) =
      ground (arith, count-update_first-le_add e k ns, count-update_first-le_add e (suc k) ns)

  module _ (keeps : (n : Node) → (or_self n (f n)).name ≡ n.name) where
    has_name-update_first :
        (j : String) (k : ℕ) (ns : List Node) → has_name j (update_first k p f ns) ≡ has_name j ns
    has_name-update_first j zero ns = refl
    has_name-update_first j (suc k) [] = refl
    has_name-update_first j (suc k) (n ∷ ns) = elim (Bool-cases (p n)) [
      | inl hit ↦ rw (hit, keeps n, has_name-update_first j k ns) refl
      | inr miss ↦ rw (miss, has_name-update_first j (suc k) ns) refl
    ]

    pub DistinctNames-update_first :
        (k : ℕ) (ns : List Node) → DistinctNames ns → DistinctNames (update_first k p f ns)
    DistinctNames-update_first zero ns d = d
    DistinctNames-update_first (suc k) [] d = tt
    DistinctNames-update_first (suc k) (n ∷ ns) (fresh, d) = elim (Bool-cases (p n)) [
      | inl hit ↦
          rw (hit, keeps n, has_name-update_first n.name k ns)
            (fresh, DistinctNames-update_first k ns d)
      | inr miss ↦
          rw (miss, has_name-update_first n.name (suc k) ns)
            (fresh, DistinctNames-update_first (suc k) ns d)
    ]

-- Nodes with the flag `e` are counted by one of the three others.
pub count-le-add :
    (e a b c : Node → Bool) (ns : List Node)
    → All (λ n. e n ≡ true → (a n || b n || c n) ≡ true) ns
    → count e ns ≤ count a ns + count b ns + count c ns
count-le-add e a b c [] h = omega arith
count-le-add e a b c (n ∷ ns) (x, h) = ground (arith, x, count-le-add e a b c ns h)
