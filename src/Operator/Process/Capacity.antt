-- ===== src/Operator/Process/Capacity.antt =====
-- `markBeforeReboot`: how many nodes it marks, and which.
use native.Mathlib.Nat.{add-zero}
use Prim.Native.Nat.add
use flatcar_linux_update_ope.Prelude.{
  ℕ, ◌+◌, ◌-◌, ◌≤◌, ◌≡◌, ◌∙◌, sym, ap, subst, fun_ext, inl, inr, Bool, true, false, not, ◌&&◌, none,
  some, List, [], ◌∷◌, ◌++◌, take, filter, filter-filter, count, length, length-append,
  length-filter, leb, Bool-cases, if◌then◌else◌, arith,
}
use flatcar_linux_update_ope.Prelude.Int.{pos, sub_ℕ, ◌-ℤ◌}
use flatcar_linux_update_ope.Constants.{true_value, label_before_reboot}
use flatcar_linux_update_ope.Exec.{Outcome, ok, panic, Exec, wrapping, for_each}
use flatcar_linux_update_ope.Node.{Node}
use flatcar_linux_update_ope.Client.{NodeClient, Selectors}
use flatcar_linux_update_ope.Client.Laws.{IsQuiet}
use flatcar_linux_update_ope.K8sutil.Metadata.{UpdateNode}
use flatcar_linux_update_ope.K8sutil.Metadata.Names.{DistinctNames, KeepsName}
use flatcar_linux_update_ope.K8sutil.Metadata.Loop.{update_first, for_each-take}
use flatcar_linux_update_ope.K8sutil.Selector.{
  filter_nodes_by_annotation, filter_nodes_by_requirement,
}
use flatcar_linux_update_ope.Operator.Vars.{Vars}
use flatcar_linux_update_ope.Operator.Vars.Meaning.{Means, rebootable, still_rebooting}
use flatcar_linux_update_ope.Operator.Config.{Kontroller}
use flatcar_linux_update_ope.Operator.Marks.{
  mark_f, mark, rebooting_nodes, remaining_rebooting_capacity, nodes_requiring_reboot, choose,
  rebootable_nodes, mark_chosen,
}
use flatcar_linux_update_ope.Operator.Process.Flags.{checking_before, checking_after}
use flatcar_linux_update_ope.Operator.Process.Listed.{update_node_retry-Updates, wrapping-Updates}
use flatcar_linux_update_ope.Operator.Process.Sweeps.{mark_f-KeepsName}

abbrev pub still : Node → Bool
still n = still_rebooting n.annotations

-- The nodes that count against the capacity, once for each reason.
abbrev pub load : List Node → ℕ
load ns = count still ns + count checking_before ns + count checking_after ns

-- The nodes that want to reboot and are not marked.
abbrev pub waiting : Node → Bool
waiting n = rebootable n.annotations && not (checking_before n)

le→leb : (a b : ℕ) → a ≤ b → leb a b ≡ true
le→leb a b h = ground arith

-- `make` with a negative capacity, and the loop up to the capacity.
choose_sub :
    (m l : ℕ) (ns : List Node)
    → choose (sub_ℕ m l) ns ≡ (if leb l m then some (take (m - l) ns) else none)
choose_sub m l ns = elim (Bool-cases (leb l m)) [ inl e ↦ rw e | inr e ↦ rw e ]

module _ (s : Selectors) (v : Vars s) (means : Means s v) where
  length-rebooting_nodes : (ns : List Node) → length (rebooting_nodes s v ns) ≡ load ns
  unfolding rebooting_nodes filter_nodes_by_annotation filter_nodes_by_requirement
  length-rebooting_nodes ns =
      let a = filter (λ n. s.selects v.still_rebooting_selector n.annotations) ns in
      let b = filter (λ n. s.meets v.before_reboot_req n.labels) ns in
      let d = filter (λ n. s.meets v.after_reboot_req n.labels) ns in
      let ea : length a ≡ count still ns =
        length-filter _ ns ∙ ap (λ p. count p ns) (fun_ext λ n. means.still n.annotations) in
      let eb : length b ≡ count checking_before ns =
        length-filter _ ns ∙ ap (λ p. count p ns) (fun_ext λ n. means.before n.labels) in
      let ed : length d ≡ count checking_after ns =
        length-filter _ ns ∙ ap (λ p. count p ns) (fun_ext λ n. means.after n.labels) in
      omega (arith, length-append (a ++ b) d, length-append a b, ea, eb, ed)

  nodes_requiring_reboot-eq : (ns : List Node) → nodes_requiring_reboot s v ns ≡ filter waiting ns
  unfolding nodes_requiring_reboot filter_nodes_by_annotation filter_nodes_by_requirement
  nodes_requiring_reboot-eq ns =
      filter-filter _ _ ns
      ∙ ap (λ p. filter p ns)
          (fun_ext λ n.
            ap (λ b. b && s.meets v.not_before_reboot_req n.labels) (means.wants n.annotations)
            ∙ ap (λ b. rebootable n.annotations && b) (means.not_before n.labels))

  -- The nodes to mark are the first that wait, as many as the capacity exceeds the load; the
  -- computation panics exactly if the load exceeds the capacity.
  pub rebootable_nodes_lem :
      (k : Kontroller) (max : ℕ) (ns : List Node)
      → k.max_rebooting_nodes ≡ pos max
      → rebootable_nodes s v k ns
        ≡ (if leb (load ns) max then some (take (max - load ns) (filter waiting ns)) else none)
  unfolding rebootable_nodes remaining_rebooting_capacity ◌-ℤ◌
  rebootable_nodes_lem k max ns e =
      rw
        (
          e,
          length-rebooting_nodes ns,
          nodes_requiring_reboot-eq ns,
          add-zero max,
          add.zero (load ns),
        )
        (choose_sub max (load ns) (filter waiting ns))

module _ (c : NodeClient) (q : IsQuiet c) (s : Selectors) (v : Vars s) (means : Means s v) where
  module _ (k : Kontroller) (max : ℕ) (max-eq : k.max_rebooting_nodes ≡ pos max) (ns : List Node)
      (d : DistinctNames ns) where
    abbrev pub marking : UpdateNode
    marking = mark_f label_before_reboot k.before_reboot_annotations

    -- At most as many waiting nodes are marked as the capacity exceeds the load, and as many as
    -- that, if there are, after success.
    abbrev pub Marked : Outcome (Unit {0}) × c.World → Type 0
    Marked r =
        (j : ℕ) × (j ≤ max - load ns)
        × (q.nodes r.1 ≡ update_first j waiting marking ns)
        × (r.0 ≡ ok tt → q.nodes r.1 ≡ update_first (max - load ns) waiting marking ns)

    pub mark_chosen_lem :
        (w : c.World) → q.nodes w ≡ ns → load ns ≤ max → Marked (mark_chosen c s v k ns w)
    unfolding mark_chosen mark
    mark_chosen_lem w at fits =
        let keeps : KeepsName marking = mark_f-KeepsName _ _ in
        let body : Node → Exec c.World (Unit {0}) = λ n.
          wrapping "labeling node for before reboot checks: %w" []
            (mark c n.name label_before_reboot k.before_reboot_annotations) in
        rw (rebootable_nodes_lem s v means k max ns max-eq, le→leb _ _ fits)
          (subst
            (λ l.
              (j : ℕ) × (j ≤ max - load ns)
              × (q.nodes (for_each (take (max - load ns) (filter waiting l)) body w).1
                  ≡ update_first j waiting marking l)
              × ((for_each (take (max - load ns) (filter waiting l)) body w).0 ≡ ok tt
                  → q.nodes (for_each (take (max - load ns) (filter waiting l)) body w).1
                    ≡ update_first (max - load ns) waiting marking l))
            at
            (for_each-take c q marking keeps body
              (wrapping-Updates c q marking keeps "labeling node for before reboot checks: %w"
                (λ _. []) _
                (wrapping-Updates c q marking keeps "setting label %q to %q on node %q: %w"
                  (λ n. label_before_reboot ∷ true_value ∷ n.name ∷ []) _
                  (update_node_retry-Updates c q marking keeps)))
              waiting (max - load ns) w (subst DistinctNames (sym at) d)))

    pub mark_chosen_overloaded :
        (w : c.World) → leb (load ns) max ≡ false → mark_chosen c s v k ns w ≡ (panic, w)
    unfolding mark_chosen
    mark_chosen_overloaded w over = rw (rebootable_nodes_lem s v means k max ns max-eq, over)
