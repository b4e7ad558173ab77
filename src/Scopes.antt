-- ===== src/Scopes.antt =====
-- The scope that an OAuth client asks for: `select_scope` and `union_scopes` of
-- crates/rust-mcp-sdk/src/auth/client_auth/scope.rs.
pub mod Selection
pub mod Union
mod Tests
use rust_mcp_sdk.Prelude.{
  Bool, true, false, not, Option, none, some, List, [], ◌∷◌, ◌++◌, map, retain, is_empty,
  if◌then◌else◌,
}
use rust_mcp_sdk.Prelude.Text.{Text, codes, trim, is_whitespace, text_beq, text_leb}
use rust_mcp_sdk.Prelude.Split.{join}

-- A scope that is given, unless it is blank.
unfoldable pub trimmed_scope : Option Text → Option Text
trimmed_scope none = none
trimmed_scope (some s) = if is_empty (trim s) then none else some (trim s)

abbrev pub not_empty : List Text → List Text
not_empty = retain (λ s. not (is_empty s))

unfoldable pub joined_scopes : Option (List Text) → Option Text
joined_scopes none = none
joined_scopes (some scopes) =
    let joined = join (codes " ") (not_empty (map trim scopes)) in
    if is_empty joined then none else some joined

unfoldable pub select_scope : Option Text → Option (List Text) → Option Text → Option Text
select_scope www_authenticate_scope prm_scopes_supported configured_scope =
    elim (trimmed_scope www_authenticate_scope) [
      | some s ↦ some s
      | none ↦ elim (joined_scopes prm_scopes_supported) [
        | some joined ↦ some joined
        | none ↦ trimmed_scope configured_scope
      ]
    ]

-- `split_whitespace`, by the word that has been begun.
unfoldable pub words_from : Text → Text → List Text
words_from word [] = if is_empty word then [] else word ∷ []
words_from word (c ∷ s) =
    let others = words_from [] s in
    let longer = words_from (word ++ c ∷ []) s in
    if is_whitespace c then (if is_empty word then others else word ∷ others) else longer

abbrev pub split_whitespace : Text → List Text
split_whitespace s = words_from [] s

-- A set of texts in their order.
unfoldable pub insert_scope : Text → List Text → List Text
insert_scope s [] = s ∷ []
insert_scope s (t ∷ set) =
    let rest = insert_scope s set in
    if text_beq s t then t ∷ set else if text_leb s t then s ∷ t ∷ set else t ∷ rest

abbrev pub insert_all : List Text → List Text → List Text
insert_all [] set = set
insert_all (s ∷ scopes) set = insert_all scopes (if is_empty s then set else insert_scope s set)

abbrev pub scope_words : Option Text → List Text
scope_words none = []
scope_words (some s) = split_whitespace s

abbrev pub joined_set : List Text → Option Text
joined_set [] = none
joined_set (s ∷ set) = some (join (codes " ") (s ∷ set))

unfoldable pub union_scopes : Option Text → Option Text → Option Text
union_scopes prior challenged =
    joined_set (insert_all (scope_words challenged) (insert_all (scope_words prior) []))
