-- ===== src/Scopes/Tests.antt =====
-- The union of scopes at a concrete input.
use rust_mcp_sdk.Prelude.{◌≡◌, ◌||◌, some}
use rust_mcp_sdk.Prelude.Text.{codes}
use rust_mcp_sdk.Scopes.{scope_words, union_scopes}
use rust_mcp_sdk.Scopes.Union.{has_word, has_word-union_scopes}

has_word-union_scopes_example :
    has_word (codes "b") (scope_words (union_scopes (some (codes "a  b")) (some (codes " b c"))))
    ≡ (has_word (codes "b") (scope_words (some (codes "a  b")))
        || has_word (codes "b") (scope_words (some (codes " b c"))))
has_word-union_scopes_example =
    has_word-union_scopes (codes "b") (some (codes "a  b")) (some (codes " b c"))
