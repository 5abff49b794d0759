-- ===== src/Coordination/Turns/Passes.antt =====
-- Whole steps of the operator, with the agents' writes between them, are runs of single calls.
use flatcar_linux_update_ope.Prelude.{
  ◌≡◌, refl, sym, subst, Bool, true, false, Option, List, [], ◌∷◌, if◌then◌else◌,
}
use flatcar_linux_update_ope.Exec.{
  Error, Outcome, ok, err, panic, Exec, continue, pure, for_each, wrap_outcome,
}
use flatcar_linux_update_ope.Node.{Node}
use flatcar_linux_update_ope.Client.{NodeClient, Selectors}
use flatcar_linux_update_ope.Client.Laws.{IsQuiet, after_reboot_ne_true}
use flatcar_linux_update_ope.Clock.{Clock}
use flatcar_linux_update_ope.K8sutil.Metadata.{or_panic}
use flatcar_linux_update_ope.Operator.Vars.{Vars}
use flatcar_linux_update_ope.Operator.Config.{Kontroller}
use flatcar_linux_update_ope.Operator.Checks.{
  cleanup_state, check_reboot, check_after_reboot, check_before_reboot,
}
use flatcar_linux_update_ope.Operator.Marks.{
  mark_chosen, mark_after_reboot, mark_before_reboot, inside_reboot_window, rebootable_nodes,
}
use flatcar_linux_update_ope.Operator.Process.Counting.{All-map}
use flatcar_linux_update_ope.Agent.Writes.{
  Write, info, start, uncordon, schedulable, status, drain, cordon,
}
use flatcar_linux_update_ope.Coordination.{
  Phase, cleaning, checking_after_reboot, marking_after_reboot, checking_before_reboot,
  marking_before_reboot, advance, Timely, operate, State, operator, agent, Reach,
}
use flatcar_linux_update_ope.Coordination.Turns.{
  listing, visiting, gathered, visited, Opportune, gather, visit, Moment, lists, visits, ends,
  writes, Runs,
}

advance_err : (p : Phase) (e : Error) → advance p (err e) ≡ cleaning
advance_err cleaning e = refl
advance_err checking_after_reboot e = refl
advance_err marking_after_reboot e = refl
advance_err checking_before_reboot e = refl
advance_err marking_before_reboot e = refl

advance_panic : (p : Phase) → advance p panic ≡ cleaning
advance_panic cleaning = refl
advance_panic checking_after_reboot = refl
advance_panic marking_after_reboot = refl
advance_panic checking_before_reboot = refl
advance_panic marking_before_reboot = refl

-- The choice of the nodes and the loop over them, apart.
module _ {W A : Type 0} (loop : A → Exec W (Unit {0})) where
  chosen_first :
      {B : Type 0}
      → (choose : B → A) (r : Outcome B × W)
      → continue r (λ l. loop (choose l)) ≡ continue (continue r (λ l. pure (choose l))) loop
  chosen_first choose (ok l, w) = refl
  chosen_first choose (err e, w) = refl
  chosen_first choose (panic, w) = refl

Timely-Opportune : (p : Phase) (a : Write) (n : Node) → Timely p a n → Opportune (listing p) a n
Timely-Opportune p (info v) n t = t
Timely-Opportune p start n t = t
Timely-Opportune p uncordon n t = t
Timely-Opportune p schedulable n t = t
Timely-Opportune p (status format st) n t = t
Timely-Opportune p (drain already) n t = t
Timely-Opportune p cordon n t = t

module _ (c : NodeClient) (s : Selectors) (v : Vars s) (clock : Clock) (k : Kontroller) where
  window_first :
      (first second : clock.Time) (r : Outcome (List Node) × c.World)
      → continue r (λ l.
        if inside_reboot_window clock k first second then mark_chosen c s v k l else pure tt)
        ≡ continue
            (continue r (λ l.
              if inside_reboot_window clock k first second
              then or_panic (rebootable_nodes s v k l)
              else pure []))
            (λ nodes. for_each nodes (visit c s v clock k marking_before_reboot))
  unfolding mark_chosen visit for_each
  window_first first second (ok l, w) =
      within (inside_reboot_window clock k first second) (rebootable_nodes s v k l)
    where
      loop : List Node → Exec c.World (Unit {0})
      loop nodes = for_each nodes (visit c s v clock k marking_before_reboot)

      within :
          (inside : Bool) (chosen : Option (List Node))
          → (if inside then (λ w. continue (or_panic chosen w) loop) else pure tt) w
            ≡ continue ((if inside then or_panic chosen else pure []) w) loop
      within true chosen = refl
      within false chosen = refl
  window_first first second (err e, w) = refl
  window_first first second (panic, w) = refl

  -- A step is its choice of the nodes and then its loop.
  operate-gather :
      (p : Phase) (first second : clock.Time) (w : c.World)
      → operate c s v clock k p first second w
        ≡ continue
            (gather c s v clock k p first second w)
            (λ nodes. for_each nodes (visit c s v clock k p))
  unfolding cleanup_state check_reboot check_after_reboot check_before_reboot mark_after_reboot
      mark_before_reboot gather visit
  operate-gather cleaning first second w = refl
  operate-gather checking_after_reboot first second w =
      chosen_first _ _ (wrap_outcome "listing nodes: %w" [] (c.list "" w))
  operate-gather marking_after_reboot first second w =
      chosen_first _ _ (wrap_outcome "listing nodes: %w" [] (c.list after_reboot_ne_true w))
  operate-gather checking_before_reboot first second w =
      chosen_first _ _ (wrap_outcome "listing nodes: %w" [] (c.list "" w))
  operate-gather marking_before_reboot first second w =
      window_first first second (wrap_outcome "listing nodes: %w" [] (c.list "" w))

  module _ (q : IsQuiet c) (x : Moment c s v clock k) where
    abbrev Comes : Phase → c.World → Type 0
    Comes p w = Runs c s v clock k q x (record { work = listing p; world = w })

    -- The rest of the loop after one visit.
    visited-Runs :
        (p : Phase) (rest : List Node) (loop : Exec c.World (Unit {0}))
        → ((z : c.World)
            → Runs c s v clock k q x (record { work = visiting p rest; world = z })
            → Comes (advance p (loop z).0) (loop z).1)
        → (o : Outcome (Unit {0}) × c.World)
        → Runs c s v clock k q x (record { work = visited p rest o.0; world = o.1 })
        → Comes (advance p (continue o (λ _. loop)).0) (continue o (λ _. loop)).1
    visited-Runs p rest loop next (ok a, z) r = next z r
    visited-Runs p rest loop next (err e, z) r = subst (λ j. Comes j z) (sym (advance_err p e)) r
    visited-Runs p rest loop next (panic, z) r = subst (λ j. Comes j z) (sym (advance_panic p)) r

    -- The loop of a step to its end, whatever its outcome.
    loop-Runs :
        (p : Phase) (nodes : List Node) (w : c.World)
        → Runs c s v clock k q x (record { work = visiting p nodes; world = w })
        → Comes
            (advance p (for_each nodes (visit c s v clock k p) w).0)
            (for_each nodes (visit c s v clock k p) w).1
    unfolding for_each
    loop-Runs p [] w r = Runs.later r (ends p refl)
    loop-Runs p (n ∷ rest) w r =
        visited-Runs p rest (for_each rest (visit c s v clock k p)) (loop-Runs p rest)
          (visit c s v clock k p n w) (Runs.later r (visits p n rest refl))

    gathered-Runs :
        (p : Phase) (o : Outcome (List Node) × c.World)
        → Runs c s v clock k q x (record { work = gathered p o.0; world = o.1 })
        → Comes
            (advance p (continue o (λ nodes. for_each nodes (visit c s v clock k p))).0)
            (continue o (λ nodes. for_each nodes (visit c s v clock k p))).1
    gathered-Runs p (ok nodes, z) r = loop-Runs p nodes z r
    gathered-Runs p (err e, z) r = subst (λ j. Comes j z) (sym (advance_err p e)) r
    gathered-Runs p (panic, z) r = subst (λ j. Comes j z) (sym (advance_panic p)) r

    operate-Runs :
        (p : Phase) (first second : clock.Time) (w : c.World)
        → Comes p w
        → Comes
            (advance p (operate c s v clock k p first second w).0)
            (operate c s v clock k p first second w).1
    operate-Runs p first second w r =
        subst (λ (o : Outcome (Unit {0}) × c.World). Comes (advance p o.0) o.1)
          (sym (operate-gather p first second w))
          (gathered-Runs p (gather c s v clock k p first second w)
            (Runs.later r (lists p first second refl)))

-- What the whole steps of the operator reach, with the agents' writes between them, the single calls
-- of the operator reach too, with the same writes in the same order: the runs by single calls have
-- all the runs by steps.
pub Reach-Runs :
    (c : NodeClient) (s : Selectors) (v : Vars s) (clock : Clock) (k : Kontroller) (q : IsQuiet c)
    (x y : State c s v clock k)
    → Reach c s v clock k q x y
    → Runs c s v clock k q
        (record { work = listing x.phase; world = x.world })
        (record { work = listing y.phase; world = y.world })
Reach-Runs c s v clock k q x y Reach.here = Runs.here
Reach-Runs c s v clock k q x y (Reach.later {y = z} r (operator first second)) =
    operate-Runs c s v clock k q (record { work = listing x.phase; world = x.world }) z.phase first
      second z.world (Reach-Runs c s v clock k q x z r)
Reach-Runs c s v clock k q x y (Reach.later {y = z} r (agent name a t)) =
    Runs.later (Reach-Runs c s v clock k q x z r)
      (writes name a (All-map _ _ (λ n h e. ((h e).0, Timely-Opportune z.phase a n (h e).1)) _ t))
