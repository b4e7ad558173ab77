-- ===== src/Http/Compose.antt =====
-- The order of composed middleware (mcp_http/middleware.rs).
use rust_mcp_sdk.Prelude.{◌≡◌, refl, ap, ◌∙◌, sym, List, [], ◌∷◌, ◌++◌}
use mathlib.Core.List.{reverse, reverse_aux-eq}
use rust_mcp_sdk.Http.{Handler, Middleware, wrap_all, compose}

module _ {Req Resp : Type 0} where
  wrap_all-append :
      (l r : List (Middleware Req Resp)) (handler : Handler Req Resp)
      → wrap_all (l ++ r) handler ≡ wrap_all r (wrap_all l handler)
  unfolding wrap_all
  wrap_all-append [] r handler = refl
  wrap_all-append (mw ∷ l) r handler = wrap_all-append l r (λ req. mw req handler)

  compose-cons :
      (mw : Middleware Req Resp) (l : List (Middleware Req Resp)) (handler : Handler Req Resp)
      → compose (mw ∷ l) handler ≡ (λ req. mw req (compose l handler))
  unfolding compose wrap_all
  compose-cons mw l handler =
      ap (λ r. wrap_all r handler) (reverse_aux-eq l (mw ∷ []))
      ∙ wrap_all-append (reverse l) (mw ∷ []) handler

  -- Composed middleware runs in the order of the list: each is given the request by the one before
  -- it and has the rest as its next handler, so that two lists, composed one inside the other, are
  -- their concatenation composed, and the first of a list is the outermost.
  pub compose-append :
      (l r : List (Middleware Req Resp)) (handler : Handler Req Resp) (mw : Middleware Req Resp)
      → (compose (l ++ r) handler ≡ compose l (compose r handler))
        × (compose (mw ∷ l) handler ≡ (λ req. mw req (compose l handler)))
  unfolding compose wrap_all
  compose-append [] r handler mw = (refl, compose-cons mw [] handler)
  compose-append (m ∷ l) r handler mw = (
    compose-cons m (l ++ r) handler
        ∙ ap (λ h. λ req. m req h) (compose-append l r handler mw).0
        ∙ sym (compose-cons m l (compose r handler)),
    compose-cons mw (m ∷ l) handler,
  )
