-- ===== src/GoMap.antt =====
-- Go's `map[string]string`, as the fields `Labels` and `Annotations` of a node hold it. `none` is
-- the nil map: it reads as empty, a delete leaves it alone, and an assignment to it panics.
pub mod Laws
use flatcar_linux_update_ope.Prelude.{
  String, ◌==◌, Bool, true, false, Option, none, some, List, [], ◌∷◌, ◌&&◌, if◌then◌else◌,
}

abbrev pub GoMap : Type 0
GoMap = Option (String → Option String)

-- `v, ok := m[k]`
abbrev pub entry : GoMap → String → Option String
entry none k = none
entry (some d) k = d k

abbrev pub or_empty : Option String → String
or_empty none = ""
or_empty (some v) = v

-- `m[k]`, with Go's zero value for a missing key
abbrev pub index : GoMap → String → String
index m k = or_empty (entry m k)

abbrev pub is_present : Option String → Bool
is_present none = false
is_present (some v) = true

-- `_, ok := m[k]`
abbrev pub has : GoMap → String → Bool
has m k = is_present (entry m k)

-- `delete(m, k)`
unfoldable pub delete : GoMap → String → GoMap
delete none k = none
delete (some d) k = some (λ j. if j == k then none else d j)

-- `m[k] = v`; `none` is the panic on a nil map
unfoldable pub assign : GoMap → String → String → Option GoMap
assign none k v = none
assign (some d) k v = some (some (λ j. if j == k then some v else d j))

-- `for _, k := range ks { delete(m, k) }`
unfoldable pub delete_all : GoMap → List String → GoMap
unfolding delete
delete_all m [] = m
delete_all m (k ∷ ks) = delete_all (delete m k) ks

abbrev pub and_then : Option GoMap → (GoMap → Option GoMap) → Option GoMap
and_then none f = none
and_then (some m) f = f m

-- `for k, v := range from { m[k] = v }`
unfoldable pub assign_all : GoMap → List (String × String) → Option GoMap
unfolding assign
assign_all m [] = some m
assign_all m ((k, v) ∷ rest) = and_then (assign m k v) (λ n. assign_all n rest)

abbrev pub contains : List String → String → Bool
contains [] k = false
contains (j ∷ js) k = if k == j then true else contains js k
