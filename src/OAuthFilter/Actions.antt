-- ===== src/OAuthFilter/Actions.antt =====
-- src/rest/oauth_filter.cc: the order in which `get_action` takes its rules.
use fiware_io_tagent_cpluspl.Common.{
  Bytes, codes, Bool, Bool-cases, List, [], ◌∷◌, ◌++◌, ◌≡◌, refl, sym, ap, ◌∙◌, inl, inr, is_empty,
  if◌then◌else◌,
}
use fiware_io_tagent_cpluspl.OAuthFilter.{OAuthFilter, rule_loop, verb_action, get_action}

-- The names of the rules that a request matches, in the order of the rules.
unfoldable pub matching : (Bytes → Bytes → Bool) → Bytes → List (Bytes × Bytes) → List Bytes
matching matches uri [] = []
matching matches uri ((name, regex) ∷ rules) =
    let rest = matching matches uri rules in if matches regex uri then name ∷ rest else rest

unfoldable pub first_named : List Bytes → Bytes
first_named [] = []
first_named (name ∷ names) = let rest = first_named names in if is_empty name then rest else name

module _ (matches : Bytes → Bytes → Bool) (uri : Bytes) where
  rule_loop-first_named :
      (rules : List (Bytes × Bytes)) (more : List Bytes) (action : Bytes)
      → (if is_empty (rule_loop matches uri rules action)
          then first_named more
          else rule_loop matches uri rules action)
        ≡ (if is_empty action then first_named (matching matches uri rules ++ more) else action)
  unfolding rule_loop matching first_named
  rule_loop-first_named [] more action = refl
  rule_loop-first_named ((name, regex) ∷ rules) more action = elim (Bool-cases (is_empty action)) [
    | inr named ↦ rw (named, named) refl
    | inl empty ↦ elim (Bool-cases (matches regex uri)) [
      | inl m ↦ rw (empty, m) (rule_loop-first_named rules more name)
      | inr m ↦ rw (empty, m) (rule_loop-first_named rules more action ∙ rw empty refl)
    ]
  ]

first_named_one : (name : Bytes) → first_named (name ∷ []) ≡ name
unfolding first_named
first_named_one [] = refl
first_named_one (c ∷ name) = refl

-- The action of a request is the first name that is not empty among the configured rules that it
-- matches, in their order, then the rules of the context operations that it matches, then the action
-- of its verb; and it is empty when there is none.
pub get_action-first_named :
    (matches : Bytes → Bytes → Bool) (f : OAuthFilter) (verb uri : Bytes)
    → get_action matches f verb uri
      ≡ first_named (
          matching matches (verb ++ (codes " " ++ uri)) f.pep_rules
          ++ (matching matches (verb ++ (codes " " ++ uri)) f.uri_actions
              ++ (verb_action verb ∷ [])))
unfolding get_action
get_action-first_named matches f verb uri =
    let u = verb ++ (codes " " ++ uri) in
    let by_rule = rule_loop matches u f.pep_rules [] in
    let last = verb_action verb ∷ [] in
    let more = matching matches u f.uri_actions ++ last in
    let rules = rule_loop-first_named matches u f.pep_rules more [] in
    elim (Bool-cases (is_empty by_rule)) [
      | inr named ↦
          let kept : (if is_empty by_rule then first_named more else by_rule) ≡ by_rule =
            rw named refl in
          rw (named, named) (sym kept ∙ rules)
      | inl empty ↦
          let uris = rule_loop-first_named matches u f.uri_actions last by_rule in
          let by_uri = rule_loop matches u f.uri_actions by_rule in
          rw empty (
            ap (λ (t : Bytes). if is_empty by_uri then t else by_uri)
              (sym (first_named_one (verb_action verb)))
            ∙ uris
            ∙ rules)
    ]
