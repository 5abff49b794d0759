-- ===== src/Operator/Process/Pairwise.antt =====
-- Relations between the nodes before and after an update of some of them, node by node.
use flatcar_linux_update_ope.Prelude.{
  ◌∙◌, ap, sym, String, ℕ, zero, suc, ◌≡◌, ◌≢◌, refl, ◌⊎◌, inl, inr, Bool, true, none, List, [],
  ◌∷◌, All, count, Bool-cases, subst, if◌then◌else◌,
}
use flatcar_linux_update_ope.Node.{Node}
use flatcar_linux_update_ope.K8sutil.Metadata.{UpdateNode}
use flatcar_linux_update_ope.K8sutil.Metadata.Names.{
  has_name, DistinctNames, KeepsName, or_self, or_self-name,
}
use flatcar_linux_update_ope.K8sutil.Metadata.Loop.{
  update_first, update_where, update_first-count, Fitting,
}
use flatcar_linux_update_ope.Operator.Process.Counting.{DistinctNames-update_first}

-- The lists have the same length, and the relation holds of the nodes at each position.
abbrev pub Pairwise : (Node → Node → Type 0) → List Node → List Node → Type 0
Pairwise R [] [] = Unit
Pairwise R [] (m ∷ ms) = ⊥
Pairwise R (n ∷ ns) [] = ⊥
Pairwise R (n ∷ ns) (m ∷ ms) = R n m × Pairwise R ns ms

abbrev pub Then : (Node → Node → Type 0) → (Node → Node → Type 0) → Node → Node → Type 0
Then R S n l = (m : Node) × R n m × S m l

pub Pairwise-map :
    (R S : Node → Node → Type 0)
    → ((n m : Node) → R n m → S n m)
    → (ns ms : List Node) → Pairwise R ns ms
    → Pairwise S ns ms
Pairwise-map R S g [] [] h = tt
Pairwise-map R S g [] (m ∷ ms) h = absurd h
Pairwise-map R S g (n ∷ ns) [] h = absurd h
Pairwise-map R S g (n ∷ ns) (m ∷ ms) (x, h) = (g n m x, Pairwise-map R S g ns ms h)

pub Pairwise-Then :
    (R S : Node → Node → Type 0) (ns ms ls : List Node)
    → Pairwise R ns ms
    → Pairwise S ms ls
    → Pairwise (Then R S) ns ls
Pairwise-Then R S [] [] [] x y = tt
Pairwise-Then R S [] [] (l ∷ ls) x y = absurd y
Pairwise-Then R S [] (m ∷ ms) ls x y = absurd x
Pairwise-Then R S (n ∷ ns) [] ls x y = absurd x
Pairwise-Then R S (n ∷ ns) (m ∷ ms) [] x y = absurd y
Pairwise-Then R S (n ∷ ns) (m ∷ ms) (l ∷ ls) (x, xs) (y, ys) =
    ((m, x, y), Pairwise-Then R S ns ms ls xs ys)

-- What becomes of the nodes of one name.
pub Pairwise-named :
    (R : Node → Node → Type 0) (j : String) (P Q : Node → Type 0)
    → ((n m : Node) → R n m → (m.name ≡ n.name) × (P n → Q m))
    → (ns ms : List Node) → Pairwise R ns ms
    → All (λ n. n.name ≡ j → P n) ns
    → All (λ m. m.name ≡ j → Q m) ms
Pairwise-named R j P Q g [] [] h x = tt
Pairwise-named R j P Q g [] (m ∷ ms) h x = absurd h
Pairwise-named R j P Q g (n ∷ ns) [] h x = absurd h
Pairwise-named R j P Q g (n ∷ ns) (m ∷ ms) (r, h) (x, xs) =
    let (same, moves) = g n m r in
    ((λ e. moves (x (sym same ∙ e))), Pairwise-named R j P Q g ns ms h xs)

module _ (R : Node → Node → Type 0) (names : (n m : Node) → R n m → m.name ≡ n.name) where
  Pairwise-has_name :
      (j : String) (ns ms : List Node) → Pairwise R ns ms → has_name j ms ≡ has_name j ns
  Pairwise-has_name j [] [] h = refl
  Pairwise-has_name j [] (m ∷ ms) h = absurd h
  Pairwise-has_name j (n ∷ ns) [] h = absurd h
  Pairwise-has_name j (n ∷ ns) (m ∷ ms) (r, h) = rw (names n m r, Pairwise-has_name j ns ms h) refl

  pub Pairwise-DistinctNames :
      (ns ms : List Node) → Pairwise R ns ms → DistinctNames ns → DistinctNames ms
  Pairwise-DistinctNames [] [] h d = tt
  Pairwise-DistinctNames [] (m ∷ ms) h d = absurd h
  Pairwise-DistinctNames (n ∷ ns) [] h d = absurd h
  Pairwise-DistinctNames (n ∷ ns) (m ∷ ms) (r, h) (fresh, d) = (
    ap (λ j. has_name j ms) (names n m r) ∙ Pairwise-has_name n.name ns ms h ∙ fresh,
    Pairwise-DistinctNames ns ms h d,
  )

module _ (p : Node → Bool) (f : UpdateNode) where
  -- The node was updated if it passed the test, and without a panic.
  pub record Swapped (n m : Node) : Type 0 where
    pub hit : p n ≡ true → f n ≢ none
    pub eq : m ≡ (if p n then or_self n (f n) else n)

  pub Pairwise-update_where :
      (ns : List Node) → All (Fitting p f) ns → Pairwise Swapped ns (update_where p f ns)
  Pairwise-update_where [] h = tt
  Pairwise-update_where (n ∷ ns) (x, h) =
      (record { hit = x; eq = refl }, Pairwise-update_where ns h)

  -- The node is as it was, or updated.
  abbrev pub Maybe : Node → Node → Type 0
  Maybe n m = (m ≡ n) ⊎ (m ≡ or_self n (f n))

  pub Pairwise-same : (ns : List Node) → Pairwise Maybe ns ns
  Pairwise-same [] = tt
  Pairwise-same (n ∷ ns) = (inl refl, Pairwise-same ns)

  pub Pairwise-update_first : (k : ℕ) (ns : List Node) → Pairwise Maybe ns (update_first k p f ns)
  Pairwise-update_first zero ns = Pairwise-same ns
  Pairwise-update_first (suc k) [] = tt
  Pairwise-update_first (suc k) (n ∷ ns) = elim (Bool-cases (p n)) [
    | inl hit ↦ rw hit (inr refl, Pairwise-update_first k ns)
    | inr miss ↦ rw miss (inl refl, Pairwise-update_first (suc k) ns)
  ]

  pub DistinctNames-update_where :
      KeepsName f → (ns : List Node) → DistinctNames ns → DistinctNames (update_where p f ns)
  DistinctNames-update_where keeps ns d =
      subst DistinctNames (update_first-count p f ns)
        (DistinctNames-update_first p f (or_self-name f keeps) (count p ns) ns d)
