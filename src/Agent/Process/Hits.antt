-- ===== src/Agent/Process/Hits.antt =====
-- A write of the agent that changed its own node and no other.
use mathlib.Core.Bool.{false≢true}
use mathlib.Core.Option.{some-injective, some-ne-none}
use flatcar_linux_update_ope.Prelude.{
  String, ◌==◌, eq_iff, ◌≡◌, ◌≢◌, refl, ◌∙◌, sym, ap, subst, true, false, none, some, List, [], ◌∷◌,
  inl, inr, Bool-cases,
}
use flatcar_linux_update_ope.Node.{Node}
use flatcar_linux_update_ope.Client.Laws.{find}
use flatcar_linux_update_ope.K8sutil.Metadata.Names.{has_name, DistinctNames, or_self, modify}
use flatcar_linux_update_ope.K8sutil.Metadata.Effect.{Fits}
use flatcar_linux_update_ope.Operator.Process.Pairwise.{Pairwise}
use flatcar_linux_update_ope.Operator.Process.Effects.{or_self_some}
use flatcar_linux_update_ope.Agent.Writes.{Write, write_f, write_f-Assigned}

-- The write changed the node of the name, and no other.
pub record Hit (k : String) (a : Write) (n m : Node) : Type 0 where
  pub hit : n.name ≡ k → write_f a n ≡ some m
  pub missed : n.name ≢ k → m ≡ n

missed-Hit : (k : String) (a : Write) (n : Node) → (n.name == k) ≡ false → Hit k a n n
missed-Hit k a n e = record {
  hit = λ same. absurd (false≢true (sym e ∙ (eq_iff n.name k).1 same));
  missed = λ other. refl;
}

absent-Hit :
    (k : String) (a : Write) (ns : List Node)
    → has_name k ns ≡ false
    → Pairwise (Hit k a) ns (modify k (write_f a) ns)
absent-Hit k a [] h = tt
absent-Hit k a (n ∷ ns) h = elim (Bool-cases (n.name == k)) [
  | inl here ↦ absurd (false≢true (sym h ∙ rw here refl))
  | inr there ↦ rw there (missed-Hit k a n there, absent-Hit k a ns (rw there at h))
]

written-Hit :
    (k : String) (a : Write) (n : Node)
    → (n.name == k) ≡ true
    → write_f a n ≢ none
    → Hit k a n (or_self n (write_f a n))
written-Hit k a n e fits =
    or_self_some (Hit k a n) n (write_f a n) fits
      λ m h. record { hit = λ same. h; missed = λ other. absurd (other ((eq_iff n.name k).0 e)) }

pub modify-Hit :
    (k : String) (a : Write) (ns : List Node)
    → DistinctNames ns
    → Fits k (write_f a) ns
    → Pairwise (Hit k a) ns (modify k (write_f a) ns)
modify-Hit k a [] d fits = tt
modify-Hit k a (n ∷ ns) (fresh, d) fits = elim (Bool-cases (n.name == k)) [
  | inl here ↦ rw here (
    written-Hit k a n here (fits n (rw here refl)),
    absent-Hit k a ns (subst (λ j. has_name j ns ≡ false) ((eq_iff n.name k).0 here) fresh),
  )
  | inr there ↦ rw there (missed-Hit k a n there, modify-Hit k a ns d (λ x e. fits x (rw there e)))
]

pub hit-name : (k : String) (a : Write) (n m : Node) → Hit k a n m → m.name ≡ n.name
hit-name k a n m h = elim (Bool-cases (n.name == k)) [
  | inl here ↦ (write_f-Assigned a n m (h.hit ((eq_iff n.name k).0 here))).name
  | inr there ↦ ap (λ x. x.name) (h.missed λ e. false≢true (sym there ∙ (eq_iff n.name k).1 e))
]

-- The node of a name comes from one of that name.
pub Pairwise-find :
    (R : Node → Node → Type 0) (names : (n m : Node) → R n m → m.name ≡ n.name) (k : String)
    (ns ms : List Node)
    → Pairwise R ns ms
    → (m : Node) → find k ms ≡ some m
    → (n : Node) × (find k ns ≡ some n) × R n m
Pairwise-find R names k [] [] h m e = absurd (some-ne-none m (sym e))
Pairwise-find R names k [] (x ∷ ms) h m e = absurd h
Pairwise-find R names k (n ∷ ns) [] h m e = absurd h
Pairwise-find R names k (n ∷ ns) (x ∷ ms) (r, h) m e = elim (Bool-cases (n.name == k)) [
  | inl here ↦
      let same : x ≡ m = some-injective x m (sym (rw (names n x r, here) refl) ∙ e) in
      (n, rw here refl, subst (R n) same r)
  | inr there ↦
      let later : find k ms ≡ some m = sym (rw (names n x r, there) refl) ∙ e in
      let (y, found, s) = Pairwise-find R names k ns ms h m later in (y, rw there found, s)
]
