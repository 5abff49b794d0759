-- ===== src/Operator/Vars/Meaning.antt =====
-- What the selectors and requirements of the package test, from the documentation of the libraries
-- that make them.
use flatcar_linux_update_ope.Prelude.{
  String, ◌<>◌, ◌==◌, ◌≡◌, refl, ◌∙◌, ap, Bool, true, false, not, ◌&&◌, Option, none, some, List,
  [], ◌∷◌, all, arith,
}
use flatcar_linux_update_ope.Constants.{
  true_value, false_value, annotation_ok_to_reboot, annotation_reboot_needed,
  annotation_reboot_in_progress, annotation_reboot_paused, label_before_reboot, label_after_reboot,
}
use flatcar_linux_update_ope.GoMap.{GoMap, index, has, contains, entry, or_empty, is_present}
use flatcar_linux_update_ope.Client.{Selectors, is_in, not_in}
use flatcar_linux_update_ope.Operator.Vars.{
  Vars, just_rebooted_set, rebootable_text, still_rebooting_set, package_vars,
}

-- `m[k] == "true"`
abbrev pub is_true : GoMap → String → Bool
is_true m k = index m k == true_value

abbrev pub is_false : GoMap → String → Bool
is_false m k = index m k == false_value

abbrev pub just_rebooted : GoMap → Bool
just_rebooted m =
    is_true m annotation_ok_to_reboot
    && is_false m annotation_reboot_needed
    && is_false m annotation_reboot_in_progress

abbrev pub rebootable : GoMap → Bool
rebootable m =
    is_true m annotation_reboot_needed
    && not (is_true m annotation_reboot_paused)
    && not (is_true m annotation_ok_to_reboot)
    && not (is_true m annotation_reboot_in_progress)

abbrev pub still_rebooting : GoMap → Bool
still_rebooting m = is_true m annotation_ok_to_reboot && is_true m annotation_reboot_needed

-- A clause of a selector's text: the key has the value "true", or it has not.
abbrev clause : Bool → String → String
clause true k = k <> "==true"
clause false k = k <> "!=true"

-- What `rebootable` says, as the text of a selector.
abbrev wants_text : String
wants_text =
    clause true annotation_reboot_needed
    <> ","
    <> clause false annotation_reboot_paused
    <> ","
    <> clause false annotation_ok_to_reboot
    <> ","
    <> clause false annotation_reboot_in_progress

-- The documented behaviour of `fields` and `labels`: a selector of a set compares every key, the
-- text of four clauses between commas is their conjunction, `in` wants the key present with one of
-- the values, and `notin` is its negation.
pub record IsLawful (s : Selectors) : Type 0 where
  pub set_as_selector_lem :
      (ts : List (String × String)) (m : GoMap)
      → s.selects (s.set_as_selector ts) m ≡ all (λ t. index m t.0 == t.1) ts
  pub parse_rebootable :
      (sel : s.FieldSelector) (m : GoMap)
      → s.parse_selector_or_die wants_text ≡ some sel
      → s.selects sel m ≡ rebootable m
  pub meets_in :
      (k : String) (vs : List String) (r : s.Requirement) (m : GoMap)
      → s.new_requirement k is_in vs ≡ some r
      → s.meets r m ≡ (has m k && contains vs (index m k))
  pub meets_not_in :
      (k : String) (vs : List String) (r : s.Requirement) (m : GoMap)
      → s.new_requirement k not_in vs ≡ some r
      → s.meets r m ≡ not (has m k && contains vs (index m k))

pub record Means (s : Selectors) (v : Vars s) : Type 0 where
  pub just : (m : GoMap) → s.selects v.just_rebooted_selector m ≡ just_rebooted m
  pub wants : (m : GoMap) → s.selects v.rebootable_selector m ≡ rebootable m
  pub still : (m : GoMap) → s.selects v.still_rebooting_selector m ≡ still_rebooting m
  pub before : (m : GoMap) → s.meets v.before_reboot_req m ≡ is_true m label_before_reboot
  pub after : (m : GoMap) → s.meets v.after_reboot_req m ≡ is_true m label_after_reboot
  pub not_before :
      (m : GoMap) → s.meets v.not_before_reboot_req m ≡ not (is_true m label_before_reboot)

and_true : (a : Bool) → (a && true) ≡ a
and_true true = refl
and_true false = refl

and_three : (a b c : Bool) → (a && (b && (c && true))) ≡ (a && b && c)
and_three a b c = ground arith

-- A missing key reads as the empty text, which is not "true".
has_true :
    (o : Option String)
    → (is_present o && contains (true_value ∷ []) (or_empty o)) ≡ (or_empty o == true_value)
has_true none = refl
has_true (some v) = ground arith

module _ (s : Selectors) (v : Vars s) (h : package_vars s ≡ some v) where
  -- Each variable is what its initialiser returned.
  initialised :
      (v.just_rebooted_selector ≡ s.set_as_selector just_rebooted_set)
      × (v.still_rebooting_selector ≡ s.set_as_selector still_rebooting_set)
      × (s.parse_selector_or_die rebootable_text ≡ some v.rebootable_selector)
      × (s.new_requirement label_before_reboot is_in (true_value ∷ []) ≡ some v.before_reboot_req)
      × (s.new_requirement label_after_reboot is_in (true_value ∷ []) ≡ some v.after_reboot_req)
      × (s.new_requirement label_before_reboot not_in (true_value ∷ [])
          ≡ some v.not_before_reboot_req)
  unfolding package_vars
  initialised = ground arith

  pub package_vars-Means : IsLawful s → Means s v
  package_vars-Means l = record {
    just = λ m.
        rw (initialised.0, l.set_as_selector_lem)
          (and_three _ _ (is_false m annotation_reboot_in_progress));
    wants = λ m. l.parse_rebootable v.rebootable_selector m initialised.2;
    still = λ m.
        rw (initialised.1, l.set_as_selector_lem)
          (ap (λ b. is_true m annotation_ok_to_reboot && b) (and_true _));
    before = λ m. l.meets_in _ _ _ m initialised.3 ∙ has_true (entry m label_before_reboot);
    after = λ m. l.meets_in _ _ _ m initialised.4 ∙ has_true (entry m label_after_reboot);
    not_before =
        λ m. l.meets_not_in _ _ _ m initialised.5 ∙ ap not (has_true (entry m label_before_reboot));
  }
