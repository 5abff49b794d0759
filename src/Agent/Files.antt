-- ===== src/Agent/Files.antt =====
-- What `splitNewlineEnv` and `getUpdateMap` leave in their map.
use flatcar_linux_update_ope.Prelude.{
  String, ◌==◌, ◌≡◌, ◌≢◌, refl, ◌∙◌, ap, true, Option, none, some, List, [], ◌∷◌, arith,
  if◌then◌else◌,
}
use flatcar_linux_update_ope.GoMap.{GoMap, entry, assign}
use flatcar_linux_update_ope.GoMap.Laws.{is_made}
use flatcar_linux_update_ope.Exec.{ok}
use flatcar_linux_update_ope.Agent.{
  Host, empty_map, update_conf_path, update_conf_override_path, get_update_map, set_pair, set_pairs,
  split_newline_env,
}

abbrev pub or_else : Option String → Option String → Option String
or_else none o = o
or_else (some v) o = some v

abbrev value_of : String → List String → Option String
value_of k [] = none
value_of k (whole ∷ []) = none
value_of k (key ∷ value ∷ more) = if k == key then some value else none

module _ {W : Type 0} (h : Host W) where
  -- The value of the last line that sets the key.
  abbrev pub last_value : String → List String → Option String
  last_value k [] = none
  last_value k (text ∷ texts) = or_else (last_value k texts) (value_of k (h.split_2 text))

  set_pair_lem :
      (m : GoMap) (spl : List String)
      → is_made m ≡ true
      → spl ≢ []
      → (n : GoMap) × (set_pair m spl ≡ some n)
        × (is_made n ≡ true)
        × ((k : String) → entry n k ≡ or_else (value_of k spl) (entry m k))
  unfolding set_pair assign
  set_pair_lem m [] made full = absurd (full refl)
  set_pair_lem m (a ∷ []) made full = (m, refl, made, λ k. refl)
  set_pair_lem (some d) (a ∷ b ∷ more) made full =
      (some (λ j. if j == a then some b else d j), refl, refl, λ k. ground arith)
  set_pair_lem none (a ∷ b ∷ more) made full = absurd (ground arith)

  or_else-none : (a : Option String) → or_else a none ≡ a
  or_else-none none = refl
  or_else-none (some v) = refl

  or_else_assoc : (a b x : Option String) → or_else a (or_else b x) ≡ or_else (or_else a b) x
  or_else_assoc none b x = refl
  or_else_assoc (some v) b x = refl

  module _ (full : (s : String) → h.split_2 s ≢ []) where
    set_pairs_lem :
        (m : GoMap) (texts : List String)
        → is_made m ≡ true
        → (n : GoMap) × (set_pairs h m texts ≡ some n)
          × (is_made n ≡ true)
          × ((k : String) → entry n k ≡ or_else (last_value k texts) (entry m k))
    unfolding set_pairs
    set_pairs_lem m [] made = (m, refl, made, λ k. refl)
    set_pairs_lem m (text ∷ texts) made =
        let (n, e, made1, reads) = set_pair_lem m (h.split_2 text) made (full text) in
        let (r, e1, made2, reads1) = set_pairs_lem n texts made1 in
        (
          r,
          rw e e1,
          made2,
          λ k.
              reads1 k
              ∙ ap (or_else (last_value k texts)) (reads k)
              ∙ or_else_assoc (last_value k texts) (value_of k (h.split_2 text)) (entry m k),
        )

    -- `splitNewlineEnv` on a map that is made does not panic, if a split gives one part at least,
    -- and a key then has the value of the last line that sets it, or else the value it had.
    pub split_newline_env-entry :
        (m : GoMap) (envs : String)
        → is_made m ≡ true
        → (n : GoMap) × (split_newline_env h m envs ≡ some n)
          × (is_made n ≡ true)
          × ((k : String) → entry n k ≡ or_else (last_value k (h.scan envs)) (entry m k))
    unfolding split_newline_env
    split_newline_env-entry m envs made = set_pairs_lem m (h.scan envs) made

    -- When both files of the update configuration can be read and a split gives one part at least,
    -- `getUpdateMap` returns a map in
    -- which the last line of the override that sets a key gives its value, or else the last line
    -- of the default file.
    pub get_update_map-entry :
        (prefix base_text override_text : String) (w w1 w2 : W)
        → h.read_file (h.join prefix update_conf_path) w ≡ (ok base_text, w1)
        → h.read_file (h.join prefix update_conf_override_path) w1 ≡ (ok override_text, w2)
        → (n : GoMap) × (get_update_map h prefix w ≡ (ok n, w2))
          × ((k : String)
              → entry n k
                ≡ or_else (last_value k (h.scan override_text)) (last_value k (h.scan base_text)))
    unfolding get_update_map
    get_update_map-entry prefix base_text override_text w w1 w2 first second =
        let (m, e, made, reads) = split_newline_env-entry empty_map base_text refl in
        let (n, e1, made1, reads1) = split_newline_env-entry m override_text made in
        (
          n,
          rw (first, e, second, e1) refl,
          λ k.
              reads1 k
              ∙ ap (or_else (last_value k (h.scan override_text)))
                  (reads k ∙ or_else-none (last_value k (h.scan base_text))),
        )
