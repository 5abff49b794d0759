-- ===== src/Coordination/Turns/Written.antt =====
-- The writes of the agents and the end of a step keep the invariant.
use flatcar_linux_update_ope.Prelude.{
  ℕ, String, ◌≡◌, refl, ◌∙◌, sym, ap, subst, inl, inr, List, [], All,
}
use flatcar_linux_update_ope.Exec.{ok}
use flatcar_linux_update_ope.Node.{Node}
use flatcar_linux_update_ope.Client.{NodeClient}
use flatcar_linux_update_ope.Client.Laws.{IsQuiet}
use flatcar_linux_update_ope.K8sutil.Metadata.{update_node_retry}
use flatcar_linux_update_ope.K8sutil.Metadata.Names.{has_name, or_self, or_self-name, modify}
use flatcar_linux_update_ope.K8sutil.Metadata.Effect.{update_node_retry_never_partial}
use flatcar_linux_update_ope.Operator.Process.Counting.{All-map}
use flatcar_linux_update_ope.Agent.Writes.{Write, start, write_f}
use flatcar_linux_update_ope.Agent.Protocol.{
  Ready, All-modify, write_f-KeepsName, write_f-IsSafe, written_engaged, count-engaged-modify,
}
use flatcar_linux_update_ope.Coordination.{
  Phase, cleaning, checking_after_reboot, marking_after_reboot, checking_before_reboot,
  marking_before_reboot, advance,
}
use flatcar_linux_update_ope.Coordination.Writes.{
  written-Cleaned, written-Counted, written_checking_before,
}
use flatcar_linux_update_ope.Coordination.Turns.{Work, listing, visiting, Free, Opportune}
use flatcar_linux_update_ope.Coordination.Turns.Invariant.{Local, Within, IsOrderly}

-- After the last visit the step has established what the next one needs.
ended-Local :
    (p : Phase) (n : Node) → Local (visiting p []) n → Local (listing (advance p (ok tt))) n
ended-Local cleaning n h = h refl
ended-Local checking_after_reboot n h = h
ended-Local marking_after_reboot n (clean, pending, done) = (clean, done refl)
ended-Local checking_before_reboot n (clean, counts, pending) = counts
ended-Local marking_before_reboot n h = tt

pub ended-IsOrderly :
    (max : ℕ) (p : Phase) (ns : List Node)
    → IsOrderly max (visiting p []) ns
    → IsOrderly max (listing (advance p (ok tt))) ns
ended-IsOrderly max p ns o = record {
  safe = o.safe;
  each = All-map _ _ (ended-Local p) ns o.each;
  within = tt;
}

module _ (name : String) (a : Write) where
  written_name : (n : Node) → (or_self n (write_f a n)).name ≡ n.name
  written_name = or_self-name (write_f a) (write_f-KeepsName name a)

  -- Whether the loop has still to visit a node that an agent wrote.
  still :
      (n : Node) (nodes : List Node)
      → has_name (or_self n (write_f a n)).name nodes ≡ has_name n.name nodes
  still n nodes = ap (λ j. has_name j nodes) (written_name n)

  written-Local :
      (x : Work) (n : Node) → (a ≡ start → Free x n) → Local x n → Local x (or_self n (write_f a n))
  written-Local (listing cleaning) n free h = tt
  written-Local (listing checking_after_reboot) n free h = written-Cleaned a n free h
  written-Local (listing marking_after_reboot) n free h = written-Cleaned a n free h
  written-Local (listing checking_before_reboot) n free (clean, counts) =
      (written-Cleaned a n (λ e. (free e).0) clean, written-Counted a n (λ e. (free e).1) counts)
  written-Local (listing marking_before_reboot) n free h = written-Counted a n free h
  written-Local (visiting cleaning nodes) n free h = λ absent.
      let gone = sym (still n nodes) ∙ absent in written-Cleaned a n (λ e. free e gone) (h gone)
  written-Local (visiting checking_after_reboot nodes) n free h = written-Cleaned a n free h
  written-Local (visiting marking_after_reboot nodes) n free (clean, pending, done) = (
    written-Cleaned a n (λ e. (free e).0) clean,
    (λ here. written_engaged name a n ∙ pending (sym (still n nodes) ∙ here)),
    λ absent.
        let gone = sym (still n nodes) ∙ absent in
        written-Counted a n (λ e. (free e).1 gone) (done gone),
  )
  written-Local (visiting checking_before_reboot nodes) n free (clean, counts, pending) = (
    written-Cleaned a n (λ e. (free e).0) clean,
    written-Counted a n (λ e. (free e).1) counts,
    λ here. written_checking_before a n ∙ pending (sym (still n nodes) ∙ here),
  )
  written-Local (visiting marking_before_reboot nodes) n free h = tt

  written-Within :
      (max : ℕ) (x : Work) (ns : List Node)
      → Within max x ns
      → Within max x (modify name (write_f a) ns)
  written-Within max (listing p) ns h = tt
  written-Within max (visiting cleaning nodes) ns h = tt
  written-Within max (visiting checking_after_reboot nodes) ns h = tt
  written-Within max (visiting marking_after_reboot nodes) ns h = tt
  written-Within max (visiting checking_before_reboot nodes) ns h = h
  written-Within max (visiting marking_before_reboot nodes) ns h =
      rw (count-engaged-modify name a ns) h

  written-IsOrderly :
      (max : ℕ) (x : Work) (ns : List Node)
      → All (λ n. n.name ≡ name → Ready a n × Opportune x a n) ns
      → IsOrderly max x ns
      → IsOrderly max x (modify name (write_f a) ns)
  written-IsOrderly max x ns t o = record {
    safe = write_f-IsSafe name a max ns (All-map _ _ (λ n r e. (r e).0) ns t) o.safe;
    each =
        All-modify (Local x) (λ n. Ready a n × Opportune x a n) name (write_f a)
          (λ n (ready, opportune).
            written-Local x n (λ e. subst (λ w. Opportune x w n) e opportune))
          ns t o.each;
    within = written-Within max x ns o.within;
  }

  pub write-IsOrderly :
      (c : NodeClient) (q : IsQuiet c) (max : ℕ) (x : Work) (w : c.World)
      → All (λ n. n.name ≡ name → Ready a n × Opportune x a n) (q.nodes w)
      → IsOrderly max x (q.nodes w)
      → IsOrderly max x (q.nodes (update_node_retry c name (write_f a) w).1)
  write-IsOrderly c q max x w t o =
      elim (update_node_retry_never_partial c q name (write_f a) (write_f-KeepsName name a) w
        o.safe.distinct) [
          | inl written ↦
              subst (IsOrderly max x) (sym written) (written-IsOrderly max x (q.nodes w) t o)
          | inr same ↦ subst (IsOrderly max x) (sym same) o
        ]
