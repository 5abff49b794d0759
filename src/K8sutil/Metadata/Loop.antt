-- ===== src/K8sutil/Metadata/Loop.antt =====
-- A loop of updates over the nodes that pass a test, on a quiet API server.
use mathlib.Core.Bool.{false≢true}
use mathlib.Core.List.{append_assoc}
use native.Mathlib.Nat.{le_refl}
use text.Mathlib.TextPositions.{eq_refl}
use flatcar_linux_update_ope.Prelude.{
  ℕ, zero, suc, ◌≤◌, String, ◌==◌, eq_iff, ◌≡◌, ◌≢◌, All, refl, ◌∙◌, sym, ap, ◌⊎◌, inl, inr, Bool,
  true, false, none, some, List, [], ◌∷◌, ◌++◌, take, take-length, length, length-filter, filter,
  count, map, arith, if◌then◌else◌, Bool-cases, subst,
}
use flatcar_linux_update_ope.Exec.{Outcome, ok, err, panic, Exec, continue, for_each}
use flatcar_linux_update_ope.Node.{Node}
use flatcar_linux_update_ope.Client.{NodeClient}
use flatcar_linux_update_ope.Client.Laws.{IsQuiet, find}
use flatcar_linux_update_ope.K8sutil.Metadata.{UpdateNode}
use flatcar_linux_update_ope.K8sutil.Metadata.Effect.{Fits}
use flatcar_linux_update_ope.K8sutil.Metadata.Names.{
  DistinctNames, KeepsName, has_name, modify, modify_absent, or_self, or_self-name,
}

-- `f` on the first `k` nodes that pass the test.
abbrev pub update_first : ℕ → (Node → Bool) → UpdateNode → List Node → List Node
update_first zero p f ns = ns
update_first (suc k) p f [] = []
update_first (suc k) p f (n ∷ ns) =
    let hit = or_self n (f n) ∷ update_first k p f ns in
    let miss = n ∷ update_first (suc k) p f ns in if p n then hit else miss

-- `f` on every node that passes the test.
abbrev pub update_where : (Node → Bool) → UpdateNode → List Node → List Node
update_where p f = map (λ n. if p n then or_self n (f n) else n)

has_name_swap :
    (k : String) (pre : List Node) (n m : Node) (ns : List Node)
    → m.name ≡ n.name
    → has_name k (pre ++ n ∷ ns) ≡ has_name k (pre ++ m ∷ ns)
has_name_swap k [] n m ns e = rw e
has_name_swap k (x ∷ pre) n m ns e = rw (has_name_swap k pre n m ns e)

DistinctNames-swap :
    (pre : List Node) (n m : Node) (ns : List Node)
    → m.name ≡ n.name
    → DistinctNames (pre ++ n ∷ ns)
    → DistinctNames (pre ++ m ∷ ns)
DistinctNames-swap [] n m ns e (fresh, d) = (rw e fresh, d)
DistinctNames-swap (x ∷ pre) n m ns e (fresh, d) =
    (sym (has_name_swap x.name pre n m ns e) ∙ fresh, DistinctNames-swap pre n m ns e d)

absent_here :
    (k : String) (pre : List Node) (n : Node) (ns : List Node)
    → has_name k (pre ++ n ∷ ns) ≡ false
    → (k == n.name) ≡ false
absent_here k [] n ns h = ground (arith, eq_iff k n.name, eq_iff n.name k)
absent_here k (x ∷ pre) n ns h = absent_here k pre n ns (ground arith)

modify_middle :
    (f : UpdateNode) (pre : List Node) (n : Node) (ns : List Node)
    → DistinctNames (pre ++ n ∷ ns)
    → modify n.name f (pre ++ n ∷ ns) ≡ pre ++ or_self n (f n) ∷ ns
modify_middle f [] n ns (fresh, d) = rw (eq_refl n.name, modify_absent n.name f ns fresh)
modify_middle f (x ∷ pre) n ns (fresh, d) =
    rw (absent_here x.name pre n ns fresh) (ap (λ ys. x ∷ ys) (modify_middle f pre n ns d))

update_first_miss :
    (k : ℕ) (p : Node → Bool) (f : UpdateNode) (n : Node) (ns : List Node)
    → p n ≡ false
    → update_first k p f (n ∷ ns) ≡ n ∷ update_first k p f ns
update_first_miss zero p f n ns h = refl
update_first_miss (suc k) p f n ns h = rw h

filter_hit :
    (p : Node → Bool) (n : Node) (ns : List Node) → p n ≡ true → filter p (n ∷ ns) ≡ n ∷ filter p ns
filter_hit p n ns h = rw h

filter_miss :
    (p : Node → Bool) (n : Node) (ns : List Node) → p n ≡ false → filter p (n ∷ ns) ≡ filter p ns
filter_miss p n ns h = rw h

pub update_first-count :
    (p : Node → Bool) (f : UpdateNode) (ns : List Node)
    → update_first (count p ns) p f ns ≡ update_where p f ns
update_first-count p f [] = refl
update_first-count p f (n ∷ ns) = elim (Bool-cases (p n)) [
  | inl hit ↦ rw (hit, hit) (ap (λ ys. or_self n (f n) ∷ ys) (update_first-count p f ns))
  | inr miss ↦
      rw miss (
        update_first_miss (count p ns) p f n ns miss
        ∙ ap (λ ys. n ∷ ys) (update_first-count p f ns))
]

-- If it passes the test, the update function does not panic on the node.
abbrev pub Fitting : (Node → Bool) → UpdateNode → Node → Type 0
Fitting p f n = p n ≡ true → f n ≢ none

none_pass :
    (p : Node → Bool) (f : UpdateNode) (ns : List Node) → count p ns ≤ 0 → All (Fitting p f) ns
none_pass p f [] h = tt
none_pass p f (n ∷ ns) h = elim (Bool-cases (p n)) [
  | inl hit ↦ absurd (ground arith)
  | inr miss ↦ (λ e. absurd (false≢true (sym miss ∙ e)), none_pass p f ns (ground arith))
]

find_middle :
    (pre : List Node) (n : Node) (ns : List Node)
    → DistinctNames (pre ++ n ∷ ns)
    → find n.name (pre ++ n ∷ ns) ≡ some n
find_middle [] n ns d = rw (eq_refl n.name)
find_middle (x ∷ pre) n ns (fresh, d) =
    rw (absent_here x.name pre n ns fresh) (find_middle pre n ns d)

take_all : (ns : List Node) (m : ℕ) → length ns ≡ m → take m ns ≡ ns
take_all ns m e = subst (λ k. take k ns ≡ ns) e (take-length ns)

module _ (c : NodeClient) (q : IsQuiet c) (f : UpdateNode) (keeps : KeepsName f) where
  -- An action that updates the node it is given by `f`, or fails; `update_node_retry_lem` shows it
  -- of `UpdateNodeRetry`.
  abbrev pub Updates : (Node → Exec c.World (Unit {0})) → Type 0
  Updates body =
      (n : Node) (w : c.World)
      → DistinctNames (q.nodes w)
      → ((body n w).0 ≡ ok tt
          → (q.nodes (body n w).1 ≡ modify n.name f (q.nodes w)) × Fits n.name f (q.nodes w))
        × ((q.nodes (body n w).1 ≡ modify n.name f (q.nodes w))
            ⊎ (q.nodes (body n w).1 ≡ q.nodes w))

  module _ (body : Node → Exec c.World (Unit {0})) (updates : Updates body) (p : Node → Bool) where
    abbrev Looped : ℕ → List Node → List Node → Outcome (Unit {0}) × c.World → Type 0
    Looped m pre ns r =
        (k : ℕ) × (k ≤ m)
        × (q.nodes r.1 ≡ pre ++ update_first k p f ns)
        × (r.0 ≡ ok tt → q.nodes r.1 ≡ pre ++ update_first m p f ns)
        × (r.0 ≡ ok tt → count p ns ≤ m → All (Fitting p f) ns)

    -- After one step of the loop.
    step :
        (m : ℕ) (pre : List Node) (n : Node) (ns : List Node)
        → p n ≡ true
        → (rest : Exec c.World (Unit {0})) → (r : Outcome (Unit {0}) × c.World)
        → (r.0 ≡ ok tt → Looped m (pre ++ or_self n (f n) ∷ []) ns (rest r.1) × (f n ≢ none))
        → ((q.nodes r.1 ≡ pre ++ or_self n (f n) ∷ ns) ⊎ (q.nodes r.1 ≡ pre ++ n ∷ ns))
        → Looped (suc m) pre (n ∷ ns) (continue r (λ _. rest))
    step m pre n ns hit rest (ok a, w) go either =
        let ((k, le, some_done, all_done, fit), here) = go refl in
        (
          suc k,
          omega arith,
          rw hit (some_done ∙ append_assoc pre _ _),
          λ h. rw hit (all_done h ∙ append_assoc pre _ _),
          λ h few. (λ _. here, fit h (ground arith)),
        )
    step m pre n ns hit rest (err e, w) go (inl x) = (1, omega arith, rw hit x, λ h. cc, λ h. cc)
    step m pre n ns hit rest (err e, w) go (inr x) = (0, omega arith, x, λ h. cc, λ h. cc)
    step m pre n ns hit rest (panic, w) go (inl x) = (1, omega arith, rw hit x, λ h. cc, λ h. cc)
    step m pre n ns hit rest (panic, w) go (inr x) = (0, omega arith, x, λ h. cc, λ h. cc)

    -- A node that the filter left out.
    skip :
        (m : ℕ) (pre : List Node) (n : Node) (ns : List Node)
        → p n ≡ false
        → (r : Outcome (Unit {0}) × c.World) → Looped m (pre ++ n ∷ []) ns r
        → Looped m pre (n ∷ ns) r
    skip m pre n ns miss r (k, le, some_done, all_done, fit) = (
      k,
      le,
      some_done
          ∙ append_assoc pre _ _
          ∙ ap (λ ys. pre ++ ys) (sym (update_first_miss k p f n ns miss)),
      λ h.
          all_done h
          ∙ append_assoc pre _ _
          ∙ ap (λ ys. pre ++ ys) (sym (update_first_miss m p f n ns miss)),
      λ h few. (λ e. absurd (false≢true (sym miss ∙ e)), fit h (ground arith)),
    )

    loop :
        (m : ℕ) (pre ns : List Node) (w : c.World)
        → q.nodes w ≡ pre ++ ns
        → DistinctNames (pre ++ ns)
        → Looped m pre ns (for_each (take m (filter p ns)) body w)
    unfolding for_each
    loop zero pre ns w at d = (0, omega arith, at, λ h. at, λ h few. none_pass p f ns few)
    loop (suc m) pre [] w at d = (0, omega arith, at, λ h. at, λ h few. tt)
    loop (suc m) pre (n ∷ ns) w at d = elim (Bool-cases (p n)) [
      | inl hit ↦
          let here : q.nodes w ≡ pre ++ n ∷ ns = at in
          let u = updates n w (subst DistinctNames (sym at) d) in
          let target : modify n.name f (q.nodes w) ≡ pre ++ or_self n (f n) ∷ ns =
            ap (modify n.name f) at ∙ modify_middle f pre n ns d in
          subst (λ l. Looped (suc m) pre (n ∷ ns) (for_each (take (suc m) l) body w))
            (sym (filter_hit p n ns hit))
            (step m pre n ns hit (for_each (take m (filter p ns)) body) (body n w)
              (λ done. (
                loop m (pre ++ or_self n (f n) ∷ []) ns (body n w).1
                    ((u.0 done).0 ∙ target ∙ sym (append_assoc pre _ _))
                    (subst DistinctNames (sym (append_assoc pre _ _))
                      (DistinctNames-swap pre n (or_self n (f n)) ns (or_self-name f keeps n) d)),
                (u.0 done).1 n (ap (find n.name) at ∙ find_middle pre n ns d),
              ))
              (elim u.1 [ inl x ↦ inl (x ∙ target) | inr x ↦ inr (x ∙ at) ]))
      | inr miss ↦
          subst (λ l. Looped (suc m) pre (n ∷ ns) (for_each (take (suc m) l) body w))
            (sym (filter_miss p n ns miss))
            (skip (suc m) pre n ns miss _ (
              loop (suc m) (pre ++ n ∷ []) ns w (at ∙ sym (append_assoc pre _ _))
                (subst DistinctNames (sym (append_assoc pre _ _)) d)))
    ]

    -- The loop over the first `m` nodes that pass the test updates the first `k` of these, where
    -- `k ≤ m`, and all `m` of them if it succeeds.
    pub for_each-take :
        (m : ℕ) (w : c.World)
        → DistinctNames (q.nodes w)
        → let r = for_each (take m (filter p (q.nodes w))) body w in
          (k : ℕ) × (k ≤ m)
          × (q.nodes r.1 ≡ update_first k p f (q.nodes w))
          × (r.0 ≡ ok tt → q.nodes r.1 ≡ update_first m p f (q.nodes w))
    for_each-take m w d =
        let (k, le, some_done, all_done, fit) = loop m [] (q.nodes w) w refl d in
        (k, le, some_done, all_done)

    -- The loop over all of them.
    pub for_each-filter :
        (w : c.World)
        → DistinctNames (q.nodes w)
        → let r = for_each (filter p (q.nodes w)) body w in
          (k : ℕ) × (q.nodes r.1 ≡ update_first k p f (q.nodes w))
          × (r.0 ≡ ok tt
              → (q.nodes r.1 ≡ update_where p f (q.nodes w)) × All (Fitting p f) (q.nodes w))
    for_each-filter w d =
        let (k, le, some_done, all_done, fit) =
          subst (λ l. Looped (count p (q.nodes w)) [] (q.nodes w) (for_each l body w))
            (take_all (filter p (q.nodes w)) (count p (q.nodes w)) (length-filter p (q.nodes w)))
            (loop (count p (q.nodes w)) [] (q.nodes w) w refl d) in
        (k, some_done, λ h. (all_done h ∙ update_first-count p f (q.nodes w), fit h (le_refl _)))
