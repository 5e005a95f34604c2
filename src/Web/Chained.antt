-- ===== src/Web/Chained.antt =====
-- The loop of `Chain` nests the middleware.
use spin_the_wheel.Prelude.{ℕ, zero, suc, ◌≡◌, refl, ap, ◌∙◌, List, [], ◌∷◌, length, get_elem?}
use spin_the_wheel.Web.{Serve, Middleware, wrap, chain_loop, chain}

-- What the comment of `Chain` describes: the first one outermost, and the handler innermost.
abbrev pub nested : Serve → List Middleware → Serve
nested h [] = h
nested h (m ∷ ms) = m (nested h ms)

chain_loop-cons :
    (n : ℕ) (h : Serve) (m : Middleware) (ms : List Middleware)
    → chain_loop h (m ∷ ms) (suc n) ≡ m (chain_loop h ms n)
unfolding chain_loop
chain_loop-cons zero h m ms = refl
chain_loop-cons (suc n) h m ms = chain_loop-cons n (wrap (get_elem? ms n) h) m ms

-- `Chain` runs its middleware in the order of its arguments, the first one outermost, and the handler
-- inside all of them.
pub chain-nested : (ms : List Middleware) (h : Serve) → chain h ms ≡ nested h ms
unfolding chain chain_loop
chain-nested [] h = refl
chain-nested (m ∷ ms) h = chain_loop-cons (length ms) h m ms ∙ ap m (chain-nested ms h)
