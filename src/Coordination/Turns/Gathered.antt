-- ===== src/Coordination/Turns/Gathered.antt =====
-- Which nodes a step chooses for its loop, and what that establishes.
use mathlib.Core.Bool.{false≢true}
use flatcar_linux_update_ope.Prelude.{
  ℕ, zero, suc, ◌+◌, ◌-◌, ◌≤◌, ◌≡◌, refl, ◌∙◌, sym, ap, subst, ◌⊎◌, inl, inr, Bool, true, false,
  Option, none, some, List, [], ◌∷◌, All, count, length, take, filter, leb, Bool-cases,
  if◌then◌else◌, arith,
}
use flatcar_linux_update_ope.Prelude.Int.{pos}
use flatcar_linux_update_ope.Constants.{label_before_reboot, label_after_reboot}
use flatcar_linux_update_ope.Exec.{Outcome, ok, err, panic, continue, wrap_outcome, pure}
use flatcar_linux_update_ope.Exec.Laws.{wrapped_done, wrapped_world}
use flatcar_linux_update_ope.Node.{Node}
use flatcar_linux_update_ope.Client.{NodeClient, Selectors}
use flatcar_linux_update_ope.Client.Laws.{IsQuiet, after_reboot_ne_true}
use flatcar_linux_update_ope.Clock.{Clock}
use flatcar_linux_update_ope.K8sutil.Metadata.{or_panic}
use flatcar_linux_update_ope.K8sutil.Metadata.Names.{DistinctNames, has_name}
use flatcar_linux_update_ope.Operator.Vars.{Vars}
use flatcar_linux_update_ope.Operator.Vars.Meaning.{Means}
use flatcar_linux_update_ope.Operator.Config.{Kontroller}
use flatcar_linux_update_ope.Operator.Marks.{rebootable_nodes, inside_reboot_window}
use flatcar_linux_update_ope.Operator.Process.Flags.{engaged, WellAnnotated, Cleaned, Counted}
use flatcar_linux_update_ope.Operator.Process.Counting.{All-map, All-zip}
use flatcar_linux_update_ope.Operator.Process.Effects.{left_out_Counted}
use flatcar_linux_update_ope.Operator.Process.Listed.{filter_every}
use flatcar_linux_update_ope.Operator.Process.Sweeps.{
  passed, newly_rebooted, checked_nodes, rebooted_nodes,
}
use flatcar_linux_update_ope.Operator.Process.Capacity.{load, waiting, rebootable_nodes_lem}
use flatcar_linux_update_ope.Operator.Process.Window.{engaged-le-load}
use flatcar_linux_update_ope.Coordination.{
  Phase, cleaning, checking_after_reboot, marking_after_reboot, checking_before_reboot,
  marking_before_reboot,
}
use flatcar_linux_update_ope.Coordination.Turns.{Work, listing, visiting, gathered, gather}
use flatcar_linux_update_ope.Coordination.Turns.Named.{
  All-any, has_name-filter, DistinctNames-filter,
}
use flatcar_linux_update_ope.Coordination.Turns.Invariant.{Local, IsOrderly}

pub length-take_le : {A : Type 0} (m : ℕ) (xs : List A) → length (take m xs) ≤ m
length-take_le zero xs = omega arith
length-take_le (suc m) [] = omega arith
length-take_le (suc m) (x ∷ xs) = omega (arith, length-take_le m xs)

-- The nodes to mark fit into the capacity that the load leaves.
abbrev pub Spare : ℕ → List Node → List Node → Type 0
Spare max ns nodes = (nodes ≡ []) ⊎ ((load ns ≤ max) × (length nodes ≤ max - load ns))

module _ (c : NodeClient) (q : IsQuiet c) (ns : List Node) where
  -- The stored nodes are as they were, and the nodes for the loop have the property.
  abbrev pub Gathers : (List Node → Type 0) → Outcome (List Node) × c.World → Type 0
  Gathers P r = (q.nodes r.1 ≡ ns) × ((nodes : List Node) → r.0 ≡ ok nodes → P nodes)

  choosing :
      (choose : List Node → List Node) (test : Node → Bool) (r : Outcome (List Node) × c.World)
      → q.nodes r.1 ≡ ns
      → ((listed : List Node) → r.0 ≡ ok listed → choose listed ≡ filter test ns)
      → Gathers
          (λ nodes. nodes ≡ filter test ns)
          (continue (wrap_outcome "listing nodes: %w" [] r) (λ nodelist. pure (choose nodelist)))
  choosing choose test (ok listed, w) at all = (at, λ nodes h. (let x = all listed refl in cc))
  choosing choose test (err e, w) at all = (at, λ nodes h. cc)
  choosing choose test (panic, w) at all = (at, λ nodes h. cc)

  listed_only :
      (test : Node → Bool) (r : Outcome (List Node) × c.World)
      → q.nodes r.1 ≡ ns
      → ((listed : List Node) → r.0 ≡ ok listed → listed ≡ filter test ns)
      → Gathers (λ nodes. nodes ≡ filter test ns) (wrap_outcome "listing nodes: %w" [] r)
  listed_only test r at all = (
    ap q.nodes (wrapped_world r "listing nodes: %w" []) ∙ at,
    λ nodes h. all nodes (wrapped_done r _ _ h),
  )

  -- The nodes to mark, inside the window or outside.
  chosen_Spare :
      (max : ℕ) (inside : Bool) (o : Option (List Node)) (wanting : List Node) (w : c.World)
      → q.nodes w ≡ ns
      → o ≡ (if leb (load ns) max then some (take (max - load ns) wanting) else none)
      → Gathers (Spare max ns) ((if inside then or_panic o else pure []) w)
  chosen_Spare max false o wanting w at e = (at, λ nodes h. inl cc)
  chosen_Spare max true none wanting w at e = (at, λ nodes h. cc)
  chosen_Spare max true (some l) wanting w at e = (at, λ nodes h. spare nodes h)
    where
      spare :
          (nodes : List Node) → ◌≡◌ {A = Outcome (List Node)} (ok l) (ok nodes) → Spare max ns nodes
      spare nodes h = elim (Bool-cases (leb (load ns) max)) [
        | inl fits ↦
            let taken : nodes ≡ take (max - load ns) wanting = (let x = rw fits at e in cc) in
            inr (
              ground arith,
              subst (λ l. length l ≤ max - load ns) (sym taken)
                  (length-take_le (max - load ns) wanting),
            )
        | inr over ↦ (let x = rw over at e in cc)
      ]

module _ (c : NodeClient) (q : IsQuiet c) (s : Selectors) (v : Vars s) (means : Means s v)
    (clock : Clock) (k : Kontroller) (max : ℕ) (max-eq : k.max_rebooting_nodes ≡ pos max) where
  abbrev pub Picked : Phase → List Node → List Node → Type 0
  Picked cleaning ns nodes = nodes ≡ filter (λ _. true) ns
  Picked checking_after_reboot ns nodes =
      nodes ≡ filter (passed c q s v means label_after_reboot k.after_reboot_annotations) ns
  Picked marking_after_reboot ns nodes = nodes ≡ filter (newly_rebooted c q s v means) ns
  Picked checking_before_reboot ns nodes =
      nodes ≡ filter (passed c q s v means label_before_reboot k.before_reboot_annotations) ns
  Picked marking_before_reboot ns nodes = Spare max ns nodes

  pub gather-Gathers :
      (p : Phase) (first second : clock.Time) (w : c.World)
      → Gathers c q (q.nodes w) (Picked p (q.nodes w)) (gather c s v clock k p first second w)
  unfolding gather
  gather-Gathers cleaning first second w =
      listed_only c q (q.nodes w) (λ _. true) (c.list "" w) (q.nodes-list "" w)
        (λ l h. q.list_all w l h ∙ sym (filter_every (q.nodes w)))
  gather-Gathers checking_after_reboot first second w =
      choosing c q (q.nodes w) _ _ (c.list "" w) (q.nodes-list "" w) (λ l h. rw (q.list_all w l h) (
        checked_nodes c q s v means v.after_reboot_req label_after_reboot k.after_reboot_annotations
          (q.nodes w) (λ n. means.after n.labels)))
  gather-Gathers marking_after_reboot first second w =
      choosing c q (q.nodes w) _ _ (c.list after_reboot_ne_true w)
        (q.nodes-list after_reboot_ne_true w)
        (λ l h. rw (q.list_ne w l h) (rebooted_nodes c q s v means (q.nodes w)))
  gather-Gathers checking_before_reboot first second w =
      choosing c q (q.nodes w) _ _ (c.list "" w) (q.nodes-list "" w) (λ l h. rw (q.list_all w l h) (
        checked_nodes c q s v means v.before_reboot_req label_before_reboot
          k.before_reboot_annotations (q.nodes w) (λ n. means.before n.labels)))
  gather-Gathers marking_before_reboot first second w =
      marking (c.list "" w) (q.nodes-list "" w) (q.list_all w)
    where
      marking :
          (r : Outcome (List Node) × c.World)
          → q.nodes r.1 ≡ q.nodes w
          → ((l : List Node) → r.0 ≡ ok l → l ≡ q.nodes w)
          → Gathers c q (q.nodes w) (Spare max (q.nodes w)) (
              continue (wrap_outcome "listing nodes: %w" [] r) (λ nodelist.
                if inside_reboot_window clock k first second
                then or_panic (rebootable_nodes s v k nodelist)
                else pure []))
      marking (ok l, z) at all =
          chosen_Spare c q (q.nodes w) max (inside_reboot_window clock k first second)
            (rebootable_nodes s v k l) (filter waiting (q.nodes w)) z at
            (ap (rebootable_nodes s v k) (all l refl)
              ∙ rebootable_nodes_lem s v means k max (q.nodes w) max-eq)
      marking (err e, z) at all = (at, λ nodes h. cc)
      marking (panic, z) at all = (at, λ nodes h. cc)

  -- When the nodes for the loop are chosen, the invariant holds before the first visit.
  picked-IsOrderly :
      (p : Phase) (ns nodes : List Node)
      → IsOrderly max (listing p) ns
      → Picked p ns nodes
      → IsOrderly max (visiting p nodes) ns
  picked-IsOrderly cleaning ns nodes o e = record {
    safe = o.safe;
    each =
        subst (λ l. All (Local (visiting cleaning l)) ns) (sym e)
          (All-map _ _ (λ n h absent. absurd (false≢true (sym absent ∙ h))) ns
            (has_name-filter (λ _. true) ns o.safe.distinct));
    within = tt;
  }
  picked-IsOrderly checking_after_reboot ns nodes o e = record {
    safe = o.safe;
    each = o.each;
    within = tt;
  }
  picked-IsOrderly marking_after_reboot ns nodes o e =
      let test = newly_rebooted c q s v means in
      record {
        safe = o.safe;
        each =
            subst (λ l. All (Local (visiting marking_after_reboot l)) ns) (sym e)
              (All-map
                (λ n. (has_name n.name (filter test ns) ≡ test n) × (Cleaned n × WellAnnotated n)) _
                (λ n (same, (clean, well)). (
                  clean,
                  (λ h. (let hit = sym same ∙ h in ground arith)),
                  λ h. left_out_Counted n (sym same ∙ h) well,
                ))
                ns
                (All-zip _ _ ns (has_name-filter test ns o.safe.distinct)
                  (All-zip _ _ ns o.each o.safe.well)));
        within = tt;
      }
  picked-IsOrderly checking_before_reboot ns nodes o e =
      let test = passed c q s v means label_before_reboot k.before_reboot_annotations in
      record {
        safe = o.safe;
        each =
            subst (λ l. All (Local (visiting checking_before_reboot l)) ns) (sym e)
              (All-map (λ n. (has_name n.name (filter test ns) ≡ test n) × (Cleaned n × Counted n))
                _
                (λ n (same, (clean, counts)).
                  (clean, counts, (λ h. (let hit = sym same ∙ h in ground arith))))
                ns (All-zip _ _ ns (has_name-filter test ns o.safe.distinct) o.each));
        within = subst DistinctNames (sym e) (DistinctNames-filter test ns o.safe.distinct);
      }
  picked-IsOrderly marking_before_reboot ns nodes o e = record {
    safe = o.safe;
    each = All-any ns;
    within = room e;
  }
    where
      room : Spare max ns nodes → count engaged ns + length nodes ≤ max
      room (inl empty) = rw empty (omega (arith, o.safe.few))
      room (inr (fits, few)) = omega (arith, fits, few, engaged-le-load ns o.each)

  -- A new pass begins with the invariant alone.
  pub again : (x : Work) (ns : List Node) → IsOrderly max x ns → IsOrderly max (listing cleaning) ns
  again x ns o = record { safe = o.safe; each = All-any ns; within = tt }

  pub gathered-IsOrderly :
      (p : Phase) (first second : clock.Time) (w : c.World)
      → IsOrderly max (listing p) (q.nodes w)
      → IsOrderly max
          (gathered p (gather c s v clock k p first second w).0)
          (q.nodes (gather c s v clock k p first second w).1)
  gathered-IsOrderly p first second w o =
      after (gather c s v clock k p first second w) (gather-Gathers p first second w)
    where
      after :
          (r : Outcome (List Node) × c.World)
          → Gathers c q (q.nodes w) (Picked p (q.nodes w)) r
          → IsOrderly max (gathered p r.0) (q.nodes r.1)
      after (ok nodes, z) (at, picked) =
          subst (IsOrderly max (visiting p nodes)) (sym at)
            (picked-IsOrderly p (q.nodes w) nodes o (picked nodes refl))
      after (err e, z) (at, picked) =
          subst (IsOrderly max (listing cleaning)) (sym at) (again (listing p) (q.nodes w) o)
      after (panic, z) (at, picked) =
          subst (IsOrderly max (listing cleaning)) (sym at) (again (listing p) (q.nodes w) o)
