-- ===== src/GoMap/Laws.antt =====
-- Reading a map after a delete or an assignment.
use flatcar_linux_update_ope.Prelude.{
  String, ◌==◌, ◌≡◌, refl, sym, ap, Bool, true, false, Option, none, some, List, [], ◌∷◌, arith,
  if◌then◌else◌,
}
use flatcar_linux_update_ope.GoMap.{GoMap, entry, delete, assign, delete_all, contains}

pub entry-delete :
    (m : GoMap) (k j : String) → entry (delete m k) j ≡ (if j == k then none else entry m j)
unfolding delete
entry-delete none k j = ground arith
entry-delete (some d) k j = refl

pub entry-delete_all :
    (m : GoMap) (ks : List String) (j : String)
    → entry (delete_all m ks) j ≡ (if contains ks j then none else entry m j)
unfolding delete_all
entry-delete_all m [] j = refl
entry-delete_all m (k ∷ ks) j =
    ground (arith, entry-delete_all (delete m k) ks j, entry-delete m k j)

-- A map that is not nil.
abbrev pub is_made : GoMap → Bool
is_made none = false
is_made (some d) = true

pub is_made-delete : (m : GoMap) (k : String) → is_made (delete m k) ≡ is_made m
unfolding delete
is_made-delete none k = refl
is_made-delete (some d) k = refl

pub is_made-delete_all : (m : GoMap) (ks : List String) → is_made (delete_all m ks) ≡ is_made m
unfolding delete_all
is_made-delete_all m [] = refl
is_made-delete_all m (k ∷ ks) =
    ground (arith, is_made-delete_all (delete m k) ks, is_made-delete m k)

-- The map after an assignment that did not panic.
abbrev pub or_nil : Option GoMap → GoMap
or_nil none = none
or_nil (some m) = m

pub entry-assign :
    (m n : GoMap) (k v j : String)
    → assign m k v ≡ some n
    → entry n j ≡ (if j == k then some v else entry m j)
unfolding assign
entry-assign none n k v j h = ground arith
entry-assign (some d) n k v j h = sym (ap (λ (o : Option GoMap). entry (or_nil o) j) h)

-- An assignment panics exactly on the nil map.
pub is_made-assign :
    (m : GoMap) (k v : String) → is_made m ≡ true → (n : GoMap) × (assign m k v ≡ some n)
unfolding assign
is_made-assign none k v h = ground arith
is_made-assign (some d) k v h = (_, refl)
