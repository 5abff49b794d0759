-- ===== src/Coordination/Turns/Kept.antt =====
-- A visit of a loop keeps the invariant, whatever its outcome.
use flatcar_linux_update_ope.Prelude.{
  ℕ, ◌≤◌, ◌≡◌, ◌≢◌, refl, sym, subst, ◌⊎◌, inl, inr, List, ◌∷◌, All, count, arith,
}
use flatcar_linux_update_ope.Prelude.Int.{pos}
use flatcar_linux_update_ope.Exec.{Outcome, ok, err, panic}
use flatcar_linux_update_ope.Node.{Node}
use flatcar_linux_update_ope.Client.{NodeClient, Selectors}
use flatcar_linux_update_ope.Client.Laws.{IsQuiet}
use flatcar_linux_update_ope.Clock.{Clock}
use flatcar_linux_update_ope.K8sutil.Metadata.Names.{modify}
use flatcar_linux_update_ope.K8sutil.Metadata.Effect.{Fits}
use flatcar_linux_update_ope.Operator.Vars.{Vars}
use flatcar_linux_update_ope.Operator.Vars.Meaning.{Means}
use flatcar_linux_update_ope.Operator.Config.{Kontroller}
use flatcar_linux_update_ope.Operator.Process.Flags.{engaged, WellAnnotated, IsForeign, IsSafe}
use flatcar_linux_update_ope.Operator.Process.Counting.{All-zip}
use flatcar_linux_update_ope.Agent.Protocol.{DistinctNames-modify}
use flatcar_linux_update_ope.Coordination.{
  Phase, cleaning, checking_after_reboot, marking_after_reboot, checking_before_reboot,
  marking_before_reboot,
}
use flatcar_linux_update_ope.Coordination.Turns.{listing, visiting, visited}
use flatcar_linux_update_ope.Coordination.Turns.Invariant.{Local, Within, IsOrderly}
use flatcar_linux_update_ope.Coordination.Turns.Named.{
  All-any, All-modify_each, count-modify-le, count-modify-le_suc, Fits-All,
}
use flatcar_linux_update_ope.Coordination.Turns.Visited.{
  missed-Local, update_of, update_of-KeepsName, hit-WellAnnotated, hit-engaged, hit-Local,
}

module _ (c : NodeClient) (q : IsQuiet c) (s : Selectors) (v : Vars s) (means : Means s v)
    (clock : Clock) (k : Kontroller) (max : ℕ) (max-eq : k.max_rebooting_nodes ≡ pos max)
    (before : IsForeign k.before_reboot_annotations) (after : IsForeign k.after_reboot_annotations)
    (n : Node) (rest ns : List Node) where
  module _ (p : Phase) (o : IsOrderly max (visiting p (n ∷ rest)) ns) where
    -- The nodes after the update.
    abbrev updated : List Node
    updated = modify n.name (update_of c q s v means clock k p) ns

    engaged_kept : p ≢ marking_before_reboot → count engaged updated ≤ count engaged ns
    engaged_kept other =
        count-modify-le n.name (update_of c q s v means clock k p) engaged
          (Local (visiting p (n ∷ rest)))
          (λ x hit h. hit-engaged c q s v means clock k before after n rest x hit p other h) ns
          o.each

    updated-IsSafe : count engaged updated ≤ max → IsSafe max updated
    updated-IsSafe few = record {
      distinct =
          DistinctNames-modify n.name (update_of c q s v means clock k p)
            (update_of-KeepsName c q s v means clock k p) ns o.safe.distinct;
      well =
          All-modify_each n.name (update_of c q s v means clock k p)
            (λ x. Local (visiting p (n ∷ rest)) x × WellAnnotated x) WellAnnotated
            (λ x hit (h, well).
              hit-WellAnnotated c q s v means clock k before after n rest x hit p h well)
            (λ x miss (h, well). well) ns (All-zip _ _ ns o.each o.safe.well);
      few = few;
    }

    updated-Local :
        Fits n.name (update_of c q s v means clock k p) ns → All (Local (visiting p rest)) updated
    updated-Local fits =
        All-modify_each n.name (update_of c q s v means clock k p) _ (Local (visiting p rest))
          (λ x hit (h, fit).
            hit-Local c q s v means clock k before after n rest x hit p max ns o.within (fit hit) h)
          (λ x miss (h, fit). missed-Local p n rest x miss h) ns
          (All-zip _ _ ns o.each
            (Fits-All n.name (update_of c q s v means clock k p) ns o.safe.distinct fits))

  updated-few :
      (p : Phase) (o : IsOrderly max (visiting p (n ∷ rest)) ns) → count engaged (updated p o) ≤ max
  updated-few cleaning o = omega (arith, engaged_kept cleaning o (λ e. cc), o.safe.few)
  updated-few checking_after_reboot o =
      omega (arith, engaged_kept checking_after_reboot o (λ e. cc), o.safe.few)
  updated-few marking_after_reboot o =
      omega (arith, engaged_kept marking_after_reboot o (λ e. cc), o.safe.few)
  updated-few checking_before_reboot o =
      omega (arith, engaged_kept checking_before_reboot o (λ e. cc), o.safe.few)
  updated-few marking_before_reboot o = omega (
    arith,
    count-modify-le_suc n.name (update_of c q s v means clock k marking_before_reboot) engaged ns
        o.safe.distinct,
    o.within,
  )

  updated-Within :
      (p : Phase) (o : IsOrderly max (visiting p (n ∷ rest)) ns)
      → Within max (visiting p rest) (updated p o)
  updated-Within cleaning o = tt
  updated-Within checking_after_reboot o = tt
  updated-Within marking_after_reboot o = tt
  updated-Within checking_before_reboot o = o.within.1
  updated-Within marking_before_reboot o = omega (
    arith,
    count-modify-le_suc n.name (update_of c q s v means clock k marking_before_reboot) engaged ns
        o.safe.distinct,
    o.within,
  )

  module _ (p : Phase) (o : IsOrderly max (visiting p (n ∷ rest)) ns) where
    failed-IsOrderly :
        (result : List Node)
        → (result ≡ updated p o) ⊎ (result ≡ ns)
        → IsOrderly max (listing cleaning) result
    failed-IsOrderly result either = record {
      safe = elim either [
        | inl e ↦ subst (IsSafe max) (sym e) (updated-IsSafe p o (updated-few p o))
        | inr e ↦ subst (IsSafe max) (sym e) o.safe
      ];
      each = All-any result;
      within = tt;
    }

    pub outcome-IsOrderly :
        (r : Outcome (Unit {0}) × c.World)
        → (r.0 ≡ ok tt
            → (q.nodes r.1 ≡ updated p o) × Fits n.name (update_of c q s v means clock k p) ns)
        → ((q.nodes r.1 ≡ updated p o) ⊎ (q.nodes r.1 ≡ ns))
        → IsOrderly max (visited p rest r.0) (q.nodes r.1)
    outcome-IsOrderly (ok tt, z) done either =
        subst (IsOrderly max (visiting p rest)) (sym (done refl).0) (record {
          safe = updated-IsSafe p o (updated-few p o);
          each = updated-Local p o (done refl).1;
          within = updated-Within p o;
        })
    outcome-IsOrderly (err e, z) done either = failed-IsOrderly (q.nodes z) either
    outcome-IsOrderly (panic, z) done either = failed-IsOrderly (q.nodes z) either
