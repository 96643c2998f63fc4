-- ===== src/Middleware/Order.antt =====
-- The order of a chain of internal/middleware/chain.go.
use gatex.Prelude.{
  ◌≡◌, refl, sym, ◌∙◌, ap, ℕ, zero, suc, List, [], ◌∷◌, ◌++◌, none, some, length, get_elem?,
}
use gatex.Http.{Handler, Middleware}
use gatex.Middleware.{chain_from, chain}

module _ {W : Type 0} where
  chain_from-cons :
      (m : Middleware W) (ms : List (Middleware W)) (index : ℕ) (next : Handler W)
      → chain_from (m ∷ ms) (suc index) next ≡ m (chain_from ms index next)
  unfolding chain_from
  chain_from-cons m ms zero next = refl
  chain_from-cons m ms (suc index) next =
      chain_from-cons m ms index (elim (get_elem? ms index) [ none ↦ next | some n ↦ n next ])

  chain-cons :
      (m : Middleware W) (ms : List (Middleware W)) (next : Handler W)
      → chain (m ∷ ms) next ≡ m (chain ms next)
  unfolding chain
  chain-cons m ms next = chain_from-cons m ms (length ms) next

  -- The first middleware of a chain is the outermost: it wraps the handler that the rest of the chain
  -- makes. No middleware at all leaves the handler, and two chains in a row are one.
  pub chain_lem :
      (ms ns : List (Middleware W)) (m : Middleware W) (next : Handler W)
      → (chain [] next ≡ next)
        × (chain (m ∷ ms) next ≡ m (chain ms next))
        × (chain (ms ++ ns) next ≡ chain ms (chain ns next))
  unfolding chain chain_from
  chain_lem ms ns m next = (refl, chain-cons m ms next, append ms)
    where
      append : (ls : List (Middleware W)) → chain (ls ++ ns) next ≡ chain ls (chain ns next)
      append [] = refl
      append (l ∷ ls) =
          chain_from-cons l (ls ++ ns) (length (ls ++ ns)) next
          ∙ (ap l (append ls) ∙ sym (chain_from-cons l ls (length ls) (chain ns next)))
