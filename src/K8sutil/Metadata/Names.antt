-- ===== src/K8sutil/Metadata/Names.antt =====
-- Lists of nodes with distinct names, and the update of one of them by its name.
use flatcar_linux_update_ope.Prelude.{
  String, ◌==◌, eq_iff, ◌≡◌, refl, Bool, true, false, Option, none, some, List, [], ◌∷◌, arith,
  if◌then◌else◌, Bool-cases, inl, inr, sym, ap, ◌∙◌, subst,
}
use flatcar_linux_update_ope.Node.{Node}
use flatcar_linux_update_ope.Client.Laws.{find, replace}
use flatcar_linux_update_ope.K8sutil.Metadata.{UpdateNode}

abbrev pub has_name : String → List Node → Bool
has_name k [] = false
has_name k (n ∷ ns) = if n.name == k then true else has_name k ns

-- The API server keeps one node to a name.
abbrev pub DistinctNames : List Node → Type 0
DistinctNames [] = Unit
DistinctNames (n ∷ ns) = (has_name n.name ns ≡ false) × DistinctNames ns

abbrev pub or_self : Node → Option Node → Node
or_self n none = n
or_self n (some m) = m

-- The update function on the node of one name, and nothing on the others.
abbrev pub modify : String → UpdateNode → List Node → List Node
modify k f [] = []
modify k f (n ∷ ns) = (if n.name == k then or_self n (f n) else n) ∷ modify k f ns

abbrev pub KeepsName : UpdateNode → Type 0
KeepsName f = (n m : Node) → f n ≡ some m → m.name ≡ n.name

pub or_self-name : (f : UpdateNode) → KeepsName f → (n : Node) → (or_self n (f n)).name ≡ n.name
or_self-name f keeps n = go (f n) refl
  where
    go : (o : Option Node) → f n ≡ o → (or_self n o).name ≡ n.name
    go none e = refl
    go (some m) e = keeps n m e

pub modify_absent :
    (k : String) (f : UpdateNode) (ns : List Node) → has_name k ns ≡ false → modify k f ns ≡ ns
modify_absent k f [] h = refl
modify_absent k f (n ∷ ns) h = ground (arith, modify_absent k f ns)

replace_absent : (m : Node) (ns : List Node) → has_name m.name ns ≡ false → replace m ns ≡ ns
replace_absent m [] h = refl
replace_absent m (n ∷ ns) h = ground (arith, replace_absent m ns)

pub find_name : (k : String) (ns : List Node) (n : Node) → find k ns ≡ some n → n.name ≡ k
find_name k [] n h = ground arith
find_name k (x ∷ ns) n h = ground (arith, eq_iff x.name k, find_name k ns n)

-- Writing the updated node that was found is the update in place.
pub replace_found :
    (k : String) (f : UpdateNode) (ns : List Node) (n m : Node)
    → DistinctNames ns
    → find k ns ≡ some n
    → f n ≡ some m
    → m.name ≡ n.name
    → replace m ns ≡ modify k f ns
replace_found k f [] n m d found updated same = ground arith
replace_found k f (x ∷ ns) n m (fresh, d) found updated same = elim (Bool-cases (x.name == k)) [
  | inl here ↦
      let e : x ≡ n = ground arith in
      let p : x.name ≡ k = (eq_iff x.name k).0 here in
      let q : x.name ≡ m.name = ap (λ (y : Node). y.name) e ∙ sym same in
      rw (here, e, updated, (eq_iff n.name m.name).1 (sym same))
        (ap (λ ys. m ∷ ys)
          (replace_absent m ns (subst (λ s. has_name s ns ≡ false) q fresh)
            ∙ sym (modify_absent k f ns (subst (λ s. has_name s ns ≡ false) p fresh))))
  | inr there ↦
      let later : find k ns ≡ some n = rw there at found in
      let q : m.name ≡ k = same ∙ find_name k ns n later in
      rw (q, there) (ap (λ ys. x ∷ ys) (replace_found k f ns n m d later updated same))
]
