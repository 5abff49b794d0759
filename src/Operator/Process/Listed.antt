-- ===== src/Operator/Process/Listed.antt =====
-- A step of the operator lists the nodes and updates those that pass a test, one by one.
use flatcar_linux_update_ope.Prelude.{
  ℕ, String, ◌≡◌, refl, sym, ap, subst, Bool, true, List, [], ◌∷◌, All, filter,
}
use flatcar_linux_update_ope.Exec.{
  Outcome, ok, err, panic, Exec, continue, for_each, wrap_outcome, wrapping,
}
use flatcar_linux_update_ope.Exec.Laws.{wrapped_done, wrapped_world}
use flatcar_linux_update_ope.Node.{Node}
use flatcar_linux_update_ope.Client.{NodeClient}
use flatcar_linux_update_ope.Client.Laws.{IsQuiet}
use flatcar_linux_update_ope.K8sutil.Metadata.{UpdateNode, update_node_retry}
use flatcar_linux_update_ope.K8sutil.Metadata.Effect.{update_node_retry_lem}
use flatcar_linux_update_ope.K8sutil.Metadata.Names.{DistinctNames, KeepsName}
use flatcar_linux_update_ope.K8sutil.Metadata.Loop.{
  update_first, update_where, Fitting, Updates, for_each-filter,
}

pub filter_every : (ns : List Node) → filter (λ _. true) ns ≡ ns
filter_every [] = refl
filter_every (n ∷ ns) = ap (λ ys. n ∷ ys) (filter_every ns)

-- Some of the nodes that pass the test `p` are updated by `f`. After success all of them
-- are, and `f` panicked on none.
module _ (c : NodeClient) (q : IsQuiet c) (f : UpdateNode) where
  abbrev pub Swept : (Node → Bool) → List Node → Outcome (Unit {0}) × c.World → Type 0
  Swept p ns r =
      (k : ℕ) × (q.nodes r.1 ≡ update_first k p f ns)
      × (r.0 ≡ ok tt → (q.nodes r.1 ≡ update_where p f ns) × All (Fitting p f) ns)

module _ (c : NodeClient) (q : IsQuiet c) (f : UpdateNode) (keeps : KeepsName f) where
  pub update_node_retry-Updates : Updates c q f keeps (λ n. update_node_retry c n.name f)
  update_node_retry-Updates n w d = update_node_retry_lem c q n.name f keeps w d

  pub wrapping-Updates :
      (format : String) (args : Node → List String) (body : Node → Exec c.World (Unit {0}))
      → Updates c q f keeps body
      → Updates c q f keeps (λ n. wrapping format (args n) (body n))
  wrapping-Updates format args body u n w d =
      let (done, either) = u n w d in
      rw (wrapped_world (body n w) format (args n))
        (λ h. done (wrapped_done (body n w) format (args n) h), either)

  module _ (body : Node → Exec c.World (Unit {0})) (updates : Updates c q f keeps body) where
    pub sweep :
        (p : Node → Bool) (chosen : List Node → List Node) (ns : List Node) (format : String)
        → DistinctNames ns
        → (r : Outcome (List Node) × c.World) → q.nodes r.1 ≡ ns
        → ((listed : List Node) → r.0 ≡ ok listed → chosen listed ≡ filter p ns)
        → Swept c q f p ns
            (continue (wrap_outcome format [] r) (λ listed. for_each (chosen listed) body))
    sweep p chosen ns format d (ok listed, w) at all =
        subst (λ l. Swept c q f p ns (for_each l body w)) (sym (all listed refl))
          (subst (λ l. Swept c q f p l (for_each (filter p l) body w)) at
            (for_each-filter c q f keeps body updates p w (subst DistinctNames (sym at) d)))
    sweep p chosen ns format d (err e, w) at all = (0, at, λ h. cc)
    sweep p chosen ns format d (panic, w) at all = (0, at, λ h. cc)
