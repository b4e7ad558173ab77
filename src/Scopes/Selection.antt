-- ===== src/Scopes/Selection.antt =====
-- When a scope is selected (auth/client_auth/scope.rs).
use rust_mcp_sdk.Prelude.{
  ◌≡◌, refl, ◌↔◌, true, false, Option, none, some, List, [], ◌∷◌, map, is_empty, arith, All,
  Bool-cases, Option-cases, inl, inr,
}
use rust_mcp_sdk.Prelude.Text.{Text, codes, trim}
use rust_mcp_sdk.Prelude.Split.{join}
use rust_mcp_sdk.Scopes.{trimmed_scope, not_empty, joined_scopes, select_scope}

abbrev pub IsBlank : Text → Type 0
IsBlank s = is_empty (trim s) ≡ true

abbrev pub IsBlankOption : Option Text → Type 0
IsBlankOption none = Unit
IsBlankOption (some s) = IsBlank s

abbrev pub IsBlankList : Option (List Text) → Type 0
IsBlankList none = Unit
IsBlankList (some l) = All IsBlank l

is_empty-join :
    (s : Text) (l : List Text) → is_empty s ≡ false → is_empty (join (codes " ") (s ∷ l)) ≡ false
is_empty-join [] l h = cc
is_empty-join (c ∷ s) [] h = refl
is_empty-join (c ∷ s) (t ∷ l) h = refl

join-IsBlank :
    (l : List Text) → (is_empty (join (codes " ") (not_empty (map trim l))) ≡ true) ↔ All IsBlank l
join-IsBlank [] = (λ h. tt, λ h. refl)
join-IsBlank (s ∷ l) = elim (Bool-cases (is_empty (trim s))) [
  | inl e ↦ rw e (λ h. (refl, (join-IsBlank l).0 h), λ (_, h). (join-IsBlank l).1 h)
  | inr e ↦
      rw e (λ h. ground (arith, h, is_empty-join (trim s) (not_empty (map trim l)) e), λ (h, _). cc)
]

trimmed_scope-none : (o : Option Text) → (trimmed_scope o ≡ none) ↔ IsBlankOption o
unfolding trimmed_scope
trimmed_scope-none none = (λ h. tt, λ h. refl)
trimmed_scope-none (some s) = elim (Bool-cases (is_empty (trim s))) [
  | inl e ↦ rw e (λ h. refl, λ h. refl)
  | inr e ↦ rw e (λ h. cc, λ h. cc)
]

joined_scopes-none : (o : Option (List Text)) → (joined_scopes o ≡ none) ↔ IsBlankList o
unfolding joined_scopes
joined_scopes-none none = (λ h. tt, λ h. refl)
joined_scopes-none (some l) =
    elim (Bool-cases (is_empty (join (codes " ") (not_empty (map trim l))))) [
      | inl e ↦ (λ h. (join-IsBlank l).0 e, λ h. rw e refl)
      | inr e ↦ (λ h. ground (arith, h, e), λ h. ground (arith, e, (join-IsBlank l).1 h))
    ]

-- No scope is selected exactly when the challenge's scope is missing or blank, the supported scopes
-- are missing or all blank, and the configured scope is missing or blank.
pub select_scope-none :
    (www : Option Text) (prm : Option (List Text)) (configured : Option Text)
    → (select_scope www prm configured ≡ none)
      ↔ (IsBlankOption www × IsBlankList prm × IsBlankOption configured)
unfolding select_scope
select_scope-none www prm configured = elim (Option-cases (trimmed_scope www)) [
  | inr (s, e) ↦
      rw (e, select_scope) (λ h. cc, λ (a, b, c). ground (arith, e, (trimmed_scope-none www).1 a))
  | inl e ↦
      rw (e, select_scope)
        (elim (Option-cases (joined_scopes prm)) [
          | inr (s, f) ↦
              rw f (λ h. cc, λ (a, b, c). ground (arith, f, (joined_scopes-none prm).1 b))
          | inl f ↦ rw f (
            λ h. (
              (trimmed_scope-none www).0 e,
              (joined_scopes-none prm).0 f,
              (trimmed_scope-none configured).0 h,
            ),
            λ (a, b, c). (trimmed_scope-none configured).1 c,
          )
        ])
]
