-- ===== src/K8sutil/Metadata/Get.antt =====
-- What `GetNodeRetry` returns on a quiet API server.
use flatcar_linux_update_ope.Prelude.{
  ℕ, zero, suc, String, ◌≡◌, refl, ◌∙◌, sym, ap, subst, true, some, List, [], ◌∷◌,
}
use flatcar_linux_update_ope.Exec.{Outcome, ok, err, panic, Exec, wrap_outcome, wrapping}
use flatcar_linux_update_ope.Exec.Laws.{wrap_passed}
use flatcar_linux_update_ope.Node.{Node}
use flatcar_linux_update_ope.Client.{NodeClient}
use flatcar_linux_update_ope.Client.Laws.{IsQuiet, find, again, attempts, default_retries}
use flatcar_linux_update_ope.K8sutil.Metadata.{get_node_retry}
use flatcar_linux_update_ope.Exec.Laws.{wrapped_world}

module _ (c : NodeClient) (q : IsQuiet c) (k : String) where
  -- The stored nodes are as before, and a node that was got is stored.
  pub record Got (ns : List Node) (r : Outcome Node × c.World) : Type 0 where
    pub same : q.nodes r.1 ≡ ns
    pub found : (n : Node) → r.0 ≡ ok n → find k ns ≡ some n

  module _ (ns : List Node) where
    fetched_once :
        (w : c.World)
        → q.nodes w ≡ ns
        → Got ns (wrap_outcome "getting node %q: %w" (k ∷ []) (c.get k w))
    fetched_once w at = record {
      same = ap q.nodes (wrapped_world (c.get k w) _ _) ∙ q.nodes-get k w ∙ at;
      found = λ n h. ap (find k) (sym at) ∙ q.get_finds k w n (wrap_passed _ _ (c.get k w) n h).0;
    }

    fetched_again :
        (next : Exec c.World Node)
        → ((w : c.World) → q.nodes w ≡ ns → Got ns (next w))
        → (r : Outcome Node × c.World) → Got ns r
        → Got ns (again (λ _. true) next r)
    fetched_again next keep (ok n, w) g = g
    fetched_again next keep (err e, w) g = keep w g.same
    fetched_again next keep (panic, w) g = g

    attempts-Got :
        (n : ℕ) (w : c.World)
        → q.nodes w ≡ ns
        → Got ns
            (attempts (λ _. true) q.pause (wrapping "getting node %q: %w" (k ∷ []) (c.get k)) n w)
    unfolding attempts
    attempts-Got zero w at = fetched_once w at
    attempts-Got (suc n) w at =
        fetched_again
          (λ v.
            attempts (λ _. true) q.pause (wrapping "getting node %q: %w" (k ∷ []) (c.get k)) n
              (q.pause v))
          (λ v e. attempts-Got n (q.pause v) (q.nodes-pause v ∙ e))
          (wrap_outcome "getting node %q: %w" (k ∷ []) (c.get k w)) (fetched_once w at)

  -- `GetNodeRetry` leaves the stored nodes as they are, and the node that it returns is the stored
  -- one of that name, at whichever attempt it was got.
  pub get_node_retry-Got : (w : c.World) → Got (q.nodes w) (get_node_retry c k w)
  unfolding get_node_retry
  get_node_retry-Got w =
      let fn = wrapping "getting node %q: %w" (k ∷ []) (c.get k) in
      let r = c.on_error (λ _. true) fn w in
      let g : Got (q.nodes w) r =
        subst (Got (q.nodes w)) (sym (q.on_error_lem (λ _. true) fn w))
          (attempts-Got (q.nodes w) default_retries w refl) in
      record {
        same = ap q.nodes (wrapped_world r _ _) ∙ g.same;
        found = λ n h. g.found n (wrap_passed _ _ r n h).0;
      }
