-- ===== src/Operator/Process/Window.antt =====
-- `markBeforeReboot` as a whole: the list, the reboot window, the capacity and the marks.
use mathlib.Core.Bool.{false≢true}
use flatcar_linux_update_ope.Prelude.{
  ℕ, ◌-◌, ◌≤◌, ◌≡◌, refl, ◌∙◌, sym, subst, Bool, true, false, ◌||◌, List, [], All, count, leb,
  Bool-cases, inl, inr, arith, if◌then◌else◌,
}
use flatcar_linux_update_ope.Prelude.Int.{pos}
use flatcar_linux_update_ope.Constants.{label_before_reboot}
use flatcar_linux_update_ope.Exec.{Outcome, ok, err, panic, continue, wrap_outcome, pure}
use flatcar_linux_update_ope.Node.{Node}
use flatcar_linux_update_ope.Client.{NodeClient, Selectors}
use flatcar_linux_update_ope.Client.Laws.{IsQuiet}
use flatcar_linux_update_ope.Clock.{Clock}
use flatcar_linux_update_ope.K8sutil.Metadata.{UpdateNode}
use flatcar_linux_update_ope.K8sutil.Metadata.Names.{DistinctNames, or_self-name}
use flatcar_linux_update_ope.K8sutil.Metadata.Loop.{update_first}
use flatcar_linux_update_ope.Operator.Vars.{Vars}
use flatcar_linux_update_ope.Operator.Vars.Meaning.{Means}
use flatcar_linux_update_ope.Operator.Config.{Kontroller}
use flatcar_linux_update_ope.Operator.Marks.{
  mark_f, inside_reboot_window, mark_chosen, mark_before_reboot,
}
use flatcar_linux_update_ope.Operator.Process.Flags.{
  engaged, checking_before, checking_after, WellAnnotated, Counted, IsForeign, IsSafe,
}
use flatcar_linux_update_ope.Operator.Process.Counting.{
  All-map, All-update_first, count-update_first-le_add, count-le-add, DistinctNames-update_first,
}
use flatcar_linux_update_ope.Operator.Process.Nodes.{mark_f-IsMarked}
use flatcar_linux_update_ope.Operator.Process.Effects.{or_self_lem, marked_WellAnnotated}
use flatcar_linux_update_ope.Operator.Process.Sweeps.{mark_f-KeepsName}
use flatcar_linux_update_ope.Operator.Process.Capacity.{
  still, load, waiting, mark_chosen_lem, mark_chosen_overloaded,
}

-- Counted nodes take part for a reason that the load counts.
Counted-load :
    (n : Node)
    → Counted n
    → engaged n ≡ true
    → (still n || checking_before n || checking_after n) ≡ true
Counted-load n x e = ground (arith, x)

pub engaged-le-load : (ns : List Node) → All Counted ns → count engaged ns ≤ load ns
engaged-le-load ns h =
    count-le-add engaged still checking_before checking_after ns
      (All-map Counted _ Counted-load ns h)

module _ (c : NodeClient) (q : IsQuiet c) (s : Selectors) (v : Vars s) (means : Means s v) where
  module _ (clock : Clock) (k : Kontroller) (max : ℕ) (max-eq : k.max_rebooting_nodes ≡ pos max)
      (first second : clock.Time) where
    abbrev inside : Bool
    inside = inside_reboot_window clock k first second

    abbrev marked : UpdateNode
    marked = mark_f label_before_reboot k.before_reboot_annotations

    abbrev Opened : List Node → Outcome (Unit {0}) × c.World → Type 0
    Opened ns r =
        (j : ℕ) × (j ≤ max - load ns)
        × (q.nodes r.1 ≡ update_first j waiting marked ns)
        × (r.0 ≡ ok tt
            → inside ≡ true
            → (load ns ≤ max) × (q.nodes r.1 ≡ update_first (max - load ns) waiting marked ns))
        × (inside ≡ false → q.nodes r.1 ≡ ns)

    opened :
        (ns : List Node) (w : c.World)
        → DistinctNames ns
        → q.nodes w ≡ ns
        → inside ≡ true
        → Opened ns (mark_chosen c s v k ns w)
    opened ns w d at open_now = elim (Bool-cases (leb (load ns) max)) [
      | inl fits ↦
          let few : load ns ≤ max = ground arith in
          let (j, le, part, whole) = mark_chosen_lem c q s v means k max max-eq ns d w at few in
          (j, le, part, λ h _. (few, whole h), λ shut. cc)
      | inr over ↦
          rw (mark_chosen_overloaded c q s v means k max max-eq ns d w over)
            (0, omega arith, at, λ h. cc, λ _. at)
    ]

    branch :
        (ns : List Node) (w : c.World)
        → DistinctNames ns
        → q.nodes w ≡ ns
        → (b : Bool) → inside ≡ b
        → Opened ns ((if b then mark_chosen c s v k ns else pure tt) w)
    branch ns w d at true e = opened ns w d at e
    branch ns w d at false e = (0, omega arith, at, λ _ o. absurd (false≢true (sym e ∙ o)), λ _. at)

    listed :
        (ns : List Node)
        → DistinctNames ns
        → (r : Outcome (List Node) × c.World) → q.nodes r.1 ≡ ns
        → ((l : List Node) → r.0 ≡ ok l → l ≡ ns)
        → Opened ns (
            continue
              (wrap_outcome "listing nodes: %w" [] r)
              (λ l. if inside then mark_chosen c s v k l else pure tt))
    listed ns d (ok l, w) at all =
        subst (λ l. Opened ns ((if inside then mark_chosen c s v k l else pure tt) w))
          (sym (all l refl)) (branch ns w d at inside refl)
    listed ns d (err e, w) at all = (0, omega arith, at, λ h. cc, λ _. at)
    listed ns d (panic, w) at all = (0, omega arith, at, λ h. cc, λ _. at)

    -- On every path at most as many waiting nodes are marked as the capacity exceeds the load.
    -- After success inside the window the load fits, and as many are marked as that; outside the
    -- window nothing changes.
    pub mark_before_reboot_lem :
        (w : c.World)
        → DistinctNames (q.nodes w)
        → Opened (q.nodes w) (mark_before_reboot c s v clock k first second w)
    unfolding mark_before_reboot
    mark_before_reboot_lem w d =
        listed (q.nodes w) d (c.list "" w) (q.nodes-list "" w) (q.list_all w)

    pub mark_before_reboot-IsSafe :
        (w : c.World)
        → IsForeign k.before_reboot_annotations
        → IsSafe max (q.nodes w)
        → All Counted (q.nodes w)
        → IsSafe max (q.nodes (mark_before_reboot c s v clock k first second w).1)
    mark_before_reboot-IsSafe w foreign safe counted =
        let ns = q.nodes w in
        let (j, le, part, whole, shut) = mark_before_reboot_lem w safe.distinct in
        subst (IsSafe max) (sym part) (record {
          distinct =
              DistinctNames-update_first waiting marked (or_self-name marked (mark_f-KeepsName _ _))
                j ns safe.distinct;
          well =
              All-update_first waiting marked WellAnnotated WellAnnotated
                (λ n _ x. or_self_lem WellAnnotated n (marked n) x (λ m e.
                  marked_WellAnnotated k.before_reboot_annotations foreign n m label_before_reboot
                    (mark_f-IsMarked _ _ n m e) x))
                (λ n x. x) j ns safe.well;
          few = omega (
            arith,
            le,
            safe.few,
            count-update_first-le_add waiting marked engaged j ns,
            engaged-le-load ns counted,
          );
        })
