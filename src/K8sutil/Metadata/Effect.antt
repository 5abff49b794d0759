-- ===== src/K8sutil/Metadata/Effect.antt =====
-- What `UpdateNodeRetry` does to the stored nodes of a quiet API server.
use mathlib.Core.Option.{some-injective, some-ne-none}
use flatcar_linux_update_ope.Prelude.{
  ℕ, zero, suc, String, ◌≡◌, ◌≢◌, refl, ◌∙◌, sym, ap, ◌⊎◌, inl, inr, Bool, true, Option, none, some,
  List, [], ◌∷◌, Bool-cases, subst,
}
use flatcar_linux_update_ope.Exec.{Error, Outcome, ok, err, panic, Exec, continue, wrap_outcome}
use flatcar_linux_update_ope.Exec.Laws.{wrapped_done, wrapped_world}
use flatcar_linux_update_ope.Node.{Node}
use flatcar_linux_update_ope.Client.{NodeClient}
use flatcar_linux_update_ope.Client.Laws.{IsQuiet, find, replace, again, attempts, default_retries}
use flatcar_linux_update_ope.K8sutil.Metadata.{UpdateNode, or_panic, update_once, update_node_retry}
use flatcar_linux_update_ope.K8sutil.Metadata.Names.{
  DistinctNames, KeepsName, modify, replace_found,
}

error_or : {A : Type 0} → Error → Outcome A → Error
error_or d (ok a) = d
error_or d (err e) = e
error_or d panic = d

err_injective : (x e : Error) → ◌≡◌ {A = Outcome (Unit {0})} (err x) (err e) → x ≡ e
unfolding error_or
err_injective x e h = ap (error_or x) h

-- The update function does not panic on the node of that name.
abbrev pub Fits : String → UpdateNode → List Node → Type 0
Fits k f ns = (n : Node) → find k ns ≡ some n → f n ≢ none

-- Of a run that found the nodes `old` and may have written `new`: after success `new` is stored,
-- after a conflict `old`, after anything else one of the two.
pub record Effect (is_conflict : Error → Bool) (fits : Type 0) (old new : List Node)
    (r : Outcome (Unit {0})) (result : List Node) : Type 0 where
  pub done : r ≡ ok tt → result ≡ new
  pub fitted : r ≡ ok tt → fits
  pub undone : (e : Error) → r ≡ err e → is_conflict e ≡ true → result ≡ old
  pub either : (result ≡ new) ⊎ (result ≡ old)

module _ (c : NodeClient) (q : IsQuiet c) (k : String) (f : UpdateNode) (keeps : KeepsName f) where
  module _ (ns : List Node) (d : DistinctNames ns) where
    abbrev Ran : Outcome (Unit {0}) × c.World → Type 0
    Ran r = Effect c.is_conflict (Fits k f ns) ns (modify k f ns) r.0 (q.nodes r.1)

    after_update :
        Fits k f ns
        → (r : Outcome Node × c.World) → ((s : Node) → r.0 ≡ ok s → q.nodes r.1 ≡ modify k f ns)
        → ((e : Error) → r.0 ≡ err e → c.is_conflict e ≡ true → q.nodes r.1 ≡ ns)
        → ((q.nodes r.1 ≡ modify k f ns) ⊎ (q.nodes r.1 ≡ ns))
        → Ran (continue r (λ _ v. (ok tt, v)))
    after_update fits (ok s, v) stores conflicts may = record {
      done = λ _. stores s refl;
      fitted = λ _. fits;
      undone = λ e h _. cc;
      either = may;
    }
    after_update fits (err x, v) stores conflicts may = record {
      done = λ h. cc;
      fitted = λ h. cc;
      undone = λ e h. conflicts e (ap err (err_injective x e h));
      either = may;
    }
    after_update fits (panic, v) stores conflicts may = record {
      done = λ h. cc;
      fitted = λ h. cc;
      undone = λ e h _. cc;
      either = may;
    }

    Fits-here : (n m : Node) → find k ns ≡ some n → f n ≡ some m → Fits k f ns
    Fits-here n m found updated x here nothing =
        let same : x ≡ n = some-injective x n (sym here ∙ found) in
        some-ne-none m (sym updated ∙ ap f (sym same) ∙ nothing)

    after_found :
        (n : Node) (w : c.World)
        → q.nodes w ≡ ns
        → find k ns ≡ some n
        → (o : Option Node) → f n ≡ o
        → Ran (continue (or_panic o w) (λ u v. continue (c.update u v) (λ _ z. (ok tt, z))))
    after_found n w at found none updated = record {
      done = λ h. cc;
      fitted = λ h. cc;
      undone = λ e h _. cc;
      either = inr at;
    }
    after_found n w at found (some m) updated =
        let stored : replace m (q.nodes w) ≡ modify k f ns =
          ap (replace m) at ∙ replace_found k f ns n m d found updated (keeps n m updated) in
        after_update (Fits-here n m found updated) (c.update m w)
          (λ s h. q.update_stores m s w h ∙ stored) (λ e h x. q.update_conflicts m e w h x ∙ at)
          (elim (q.update_may_store m w) [ inl y ↦ inl (y ∙ stored) | inr y ↦ inr (y ∙ at) ])

    after_get :
        (r : Outcome Node × c.World)
        → q.nodes r.1 ≡ ns
        → ((n : Node) → r.0 ≡ ok n → find k ns ≡ some n)
        → Ran (
            continue (wrap_outcome "getting node %q: %w" (k ∷ []) r) (λ n w.
              continue (or_panic (f n) w) (λ u v. continue (c.update u v) (λ _ z. (ok tt, z)))))
    after_get (ok n, w) at found = after_found n w at (found n refl) (f n) refl
    after_get (err x, w) at found = record {
      done = λ h. cc;
      fitted = λ h. cc;
      undone = λ e h _. at;
      either = inr at;
    }
    after_get (panic, w) at found = record {
      done = λ h. cc;
      fitted = λ h. cc;
      undone = λ e h _. cc;
      either = inr at;
    }

    update_once-Effect : (w : c.World) → q.nodes w ≡ ns → Ran (update_once c k f w)
    unfolding update_once
    update_once-Effect w at =
        after_get (c.get k w) (q.nodes-get k w ∙ at)
          (λ n h. ap (find k) (sym at) ∙ q.get_finds k w n h)

    again-Effect :
        (next : Exec c.World (Unit {0}))
        → ((w : c.World) → q.nodes w ≡ ns → Ran (next w))
        → (r : Outcome (Unit {0}) × c.World) → Ran r
        → Ran (again c.is_conflict next r)
    again-Effect next keep (ok a, w) h = h
    again-Effect next keep (err e, w) h = elim (Bool-cases (c.is_conflict e)) [
      | inl conflicts ↦ rw conflicts (keep w (h.undone e refl conflicts))
      | inr other ↦ rw other h
    ]
    again-Effect next keep (panic, w) h = h

    attempts-Effect :
        (n : ℕ) (w : c.World)
        → q.nodes w ≡ ns
        → Ran (attempts c.is_conflict q.pause (update_once c k f) n w)
    unfolding attempts
    attempts-Effect zero w at = update_once-Effect w at
    attempts-Effect (suc n) w at =
        again-Effect (λ v. attempts c.is_conflict q.pause (update_once c k f) n (q.pause v))
          (λ v h. attempts-Effect n (q.pause v) (q.nodes-pause v ∙ h)) (update_once c k f w)
          (update_once-Effect w at)

  -- After an update that succeeded the named node is updated, once and alone. After one that did
  -- not, the nodes are as they were or so updated.
  pub update_node_retry_lem :
      (w : c.World)
      → DistinctNames (q.nodes w)
      → ((update_node_retry c k f w).0 ≡ ok tt
          → (q.nodes (update_node_retry c k f w).1 ≡ modify k f (q.nodes w)) × Fits k f (q.nodes w))
        × ((q.nodes (update_node_retry c k f w).1 ≡ modify k f (q.nodes w))
            ⊎ (q.nodes (update_node_retry c k f w).1 ≡ q.nodes w))
  unfolding update_node_retry
  update_node_retry_lem w d =
      let r = c.retry_on_conflict (update_once c k f) w in
      let ran : Ran (q.nodes w) d r =
        subst (Ran (q.nodes w) d) (sym (q.retry_on_conflict_lem (update_once c k f) w))
          (attempts-Effect (q.nodes w) d default_retries w refl) in
      rw (wrapped_world r "updating node %q: %w" (k ∷ []))
        (λ h. (ran.done (wrapped_done r _ _ h), ran.fitted (wrapped_done r _ _ h)), ran.either)

  -- On a quiet API server, where no other client writes while `UpdateNodeRetry` runs: after it
  -- succeeds, the stored nodes are those before it with the node of that name changed by the
  -- update function, once and alone, even if the server answered some attempts with a conflict.
  -- The names of the nodes are distinct, and the update function keeps the name.
  pub update_node_retry-modify :
      (w : c.World)
      → DistinctNames (q.nodes w)
      → (update_node_retry c k f w).0 ≡ ok tt
      → q.nodes (update_node_retry c k f w).1 ≡ modify k f (q.nodes w)
  update_node_retry-modify w d h = ((update_node_retry_lem w d).0 h).0

  -- On a quiet API server, where no other client writes while `UpdateNodeRetry` runs: whatever it
  -- returns, the stored nodes are those before it with the node of that name changed by the update
  -- function, once and alone, or they are as they were. The names of the nodes are distinct, and
  -- the update function keeps the name.
  pub update_node_retry_never_partial :
      (w : c.World)
      → DistinctNames (q.nodes w)
      → (q.nodes (update_node_retry c k f w).1 ≡ modify k f (q.nodes w))
        ⊎ (q.nodes (update_node_retry c k f w).1 ≡ q.nodes w)
  update_node_retry_never_partial w d = (update_node_retry_lem w d).1
