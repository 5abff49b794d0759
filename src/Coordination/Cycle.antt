-- ===== src/Coordination/Cycle.antt =====
-- From the operator's permission over the restart of the agent to the checks after the reboot.
use mathlib.Core.Bool.{false≢true}
use flatcar_linux_update_ope.Prelude.{
  ℕ, String, eq_iff, ◌≡◌, ◌∙◌, sym, ap, subst, inl, inr, true, false, some, List, [], ◌∷◌, All,
  arith,
}
use flatcar_linux_update_ope.Prelude.Int.{pos}
use flatcar_linux_update_ope.Constants.{
  annotation_ok_to_reboot, annotation_reboot_needed, annotation_reboot_in_progress,
  label_after_reboot,
}
use flatcar_linux_update_ope.Exec.{ok}
use flatcar_linux_update_ope.Node.{Node}
use flatcar_linux_update_ope.Client.{NodeClient, Selectors}
use flatcar_linux_update_ope.Client.Laws.{IsQuiet}
use flatcar_linux_update_ope.Clock.{Clock}
use flatcar_linux_update_ope.K8sutil.Metadata.{update_node_retry}
use flatcar_linux_update_ope.K8sutil.Metadata.Names.{DistinctNames, or_self-name, modify}
use flatcar_linux_update_ope.K8sutil.Metadata.Effect.{
  update_node_retry_lem, update_node_retry_never_partial,
}
use flatcar_linux_update_ope.Operator.Vars.{Vars, package_vars}
use flatcar_linux_update_ope.Operator.Vars.Meaning.{IsLawful}
use flatcar_linux_update_ope.Operator.Config.{Kontroller}
use flatcar_linux_update_ope.Operator.Process.{steps}
use flatcar_linux_update_ope.Operator.Process.Flags.{checking_after, allowed, IsForeign}
use flatcar_linux_update_ope.Operator.Process.Effects.{or_self_some, reads_true, reads_false}
use flatcar_linux_update_ope.Operator.Process.Counting.{All-zip}
use flatcar_linux_update_ope.Operator.Process.Pairwise.{Pairwise-named, Pairwise-DistinctNames}
use flatcar_linux_update_ope.Operator.Process.Stages.{Granted, Rebooted, Progress}
use flatcar_linux_update_ope.Operator.Process.Progress.{steps-Progress}
use flatcar_linux_update_ope.Agent.Writes.{Write, start, write_f, write_f-Assigned}
use flatcar_linux_update_ope.Agent.Protocol.{DistinctNames-modify, write_f-KeepsName}
use flatcar_linux_update_ope.Coordination.Writes.{written-permitted}
use flatcar_linux_update_ope.Coordination.Turns.Named.{All-modify_each, Fits-All}

-- The operator permits the reboot of the node, and has not begun its checks after it.
abbrev pub Permitted : Node → Type 0
Permitted n = (allowed n ≡ true) × (checking_after n ≡ false)

-- The agent starts on the node that was permitted to reboot.
started-Rebooted : (n m : Node) → write_f start n ≡ some m → Permitted n → Rebooted m
started-Rebooted n m h (permitted, unlabelled) =
    let r = write_f-Assigned start n m h in
    let still = ap reads_true (r.annotated annotation_ok_to_reboot) in
    let unneeded = ap reads_false (r.annotated annotation_reboot_needed) in
    let over = ap reads_false (r.annotated annotation_reboot_in_progress) in
    (
      ground (arith, still, unneeded, over, permitted),
      ap reads_true (r.labelled label_after_reboot) ∙ unlabelled,
    )

module _ (c : NodeClient) (q : IsQuiet c) where
  -- Writes of the agents one after the other, whatever comes of them.
  abbrev pub write_all : List (String × Write) → c.World → c.World
  write_all [] w = w
  write_all ((name, a) ∷ rest) w = write_all rest (update_node_retry c name (write_f a) w).1

  abbrev Waits : String → List Node → Type 0
  Waits j ns = DistinctNames ns × All (λ n. n.name ≡ j → Permitted n) ns

  modify-Waits :
      (j name : String) (a : Write) (ns : List Node)
      → Waits j ns
      → Waits j (modify name (write_f a) ns)
  modify-Waits j name a ns (d, h) = (
    DistinctNames-modify name (write_f a) (write_f-KeepsName name a) ns d,
    All-modify_each name (write_f a) (λ n. n.name ≡ j → Permitted n) (λ n. n.name ≡ j → Permitted n)
        (λ n hit x e.
          written-permitted a n
            (x (sym (or_self-name (write_f a) (write_f-KeepsName name a) n) ∙ e)))
        (λ n miss x. x) ns h,
  )

  write_all-Waits :
      (j : String) (ws : List (String × Write)) (w : c.World)
      → Waits j (q.nodes w)
      → Waits j (q.nodes (write_all ws w))
  write_all-Waits j [] w h = h
  write_all-Waits j ((name, a) ∷ rest) w h =
      write_all-Waits j rest (update_node_retry c name (write_f a) w).1
        (elim (update_node_retry_never_partial c q name (write_f a) (write_f-KeepsName name a) w
          h.0) [
            | inl e ↦ subst (Waits j) (sym e) (modify-Waits j name a (q.nodes w) h)
            | inr e ↦ subst (Waits j) (sym e) h
          ])

  start-Rebooted :
      (j : String) (w : c.World)
      → Waits j (q.nodes w)
      → (update_node_retry c j (write_f start) w).0 ≡ ok tt
      → DistinctNames (q.nodes (update_node_retry c j (write_f start) w).1)
        × All (λ n. n.name ≡ j → Rebooted n) (q.nodes (update_node_retry c j (write_f start) w).1)
  start-Rebooted j w (d, h) done =
      let (e, fits) =
        (update_node_retry_lem c q j (write_f start) (write_f-KeepsName j start) w d).0 done in
      subst (λ ns. DistinctNames ns × All (λ n. n.name ≡ j → Rebooted n) ns) (sym e)
        (
          DistinctNames-modify j (write_f start) (write_f-KeepsName j start) (q.nodes w) d,
          All-modify_each j (write_f start) _ (λ n. n.name ≡ j → Rebooted n)
              (λ n hit (x, fit) _.
                or_self_some Rebooted n (write_f start n) (fit hit)
                  λ m written. started-Rebooted n m written (x ((eq_iff n.name j).0 hit)))
              (λ n miss (x, fit) e. absurd (false≢true (sym miss ∙ (eq_iff n.name j).1 e)))
              (q.nodes w)
              (All-zip _ _ (q.nodes w) h (Fits-All j (write_f start) (q.nodes w) d fits)),
        )

module _ (c : NodeClient) (q : IsQuiet c) (s : Selectors) (v : Vars s) (clock : Clock)
    (k : Kontroller) (name : String) (first second third fourth : clock.Time)
    (ws : List (String × Write)) (w : c.World) where
  -- A pass, writes of agents, the start of the agent of that node, and another pass.
  abbrev pub permitted_world : c.World
  permitted_world = (steps c s v clock k first second w).1

  abbrev pub written_world : c.World
  written_world = write_all c q ws permitted_world

  abbrev pub started_world : c.World
  started_world = (update_node_retry c name (write_f start) written_world).1

  -- Take a node that has passed its checks before a reboot, still wants to reboot and is in no checks
  -- after one. After a pass of the operator, any writes of any agents, the start of its own agent,
  -- and another pass, it is in the checks after a reboot, if the steps of both passes and the write
  -- of the start succeed; the other writes may fail. The annotations configured for the checks must
  -- not be the protocol's own.
  pub steps-checking_after :
      IsLawful s
      → package_vars s ≡ some v
      → (max : ℕ) → k.max_rebooting_nodes ≡ pos max
      → IsForeign k.before_reboot_annotations
      → IsForeign k.after_reboot_annotations
      → DistinctNames (q.nodes w)
      → All (λ n. n.name ≡ name → Granted k n) (q.nodes w)
      → (steps c s v clock k first second w).0 ≡ ok tt
      → (update_node_retry c name (write_f start) written_world).0 ≡ ok tt
      → (steps c s v clock k third fourth started_world).0 ≡ ok tt
      → All
          (λ n. n.name ≡ name → checking_after n ≡ true)
          (q.nodes (steps c s v clock k third fourth started_world).1)
  steps-checking_after lawful loaded max max-eq before after d granted passed started passed_again =
      let one =
        steps-Progress c q s v lawful loaded clock k max max-eq before after first second w d
          passed in
      let waits = write_all-Waits c q name ws permitted_world (
        Pairwise-DistinctNames (Progress k) (λ n m p. p.name) (q.nodes w) _ one d,
        Pairwise-named (Progress k) name (Granted k) Permitted (λ n m p. (p.name, p.granted))
            (q.nodes w) _ one granted,
      ) in
      let (d2, rebooted) = start-Rebooted c q name written_world waits started in
      Pairwise-named (Progress k) name Rebooted (λ m. checking_after m ≡ true)
        (λ n m p. (p.name, p.rebooted)) (q.nodes started_world) _
        (steps-Progress c q s v lawful loaded clock k max max-eq before after third fourth
          started_world d2 passed_again)
        rebooted
