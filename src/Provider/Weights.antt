-- ===== src/Provider/Weights.antt =====
-- SelectWeighted of internal/provider/provider.go: the random choice of a provider by weight.
pub mod Choice
use proxy_mesh.Prelude.{
  ℕ, ◌+◌, ◌-◌, ◌*◌, ◌/◌, ◌^◌, ◌<◌, ◌≤◌, ℤ, pos, negsuc, ◌+ℤ◌, ◌-ℤ◌, ◌<ℤ◌, ltb_ℤ, List, [], ◌∷◌,
  ◌++◌, ◌≡◌, ◌==◌, int_eq, Bool, true, false, ◌&&◌, Result, ok, err, arith, if◌then◌else◌, pos_part,
  wrap64, Option, none, some, All, Bool-cases, inl, inr, refl, ap, subst, sym, ◌∙◌, Result-cases,
  is_empty, ◌⊎◌,
}
use proxy_mesh.Provider.{Definition}
use proxy_mesh.Provider.Random.{
  RandomError, read_failed, max_uint64, crypto_int, crypto_int-even, crypto_int-between,
  crypto_int-fails,
}

pub data SelectError : Type 0 where
  none_enabled selection_failed : SelectError
  random : RandomError → SelectError

module _ {F : Type 0} where
  abbrev pub is_eligible : Definition F → Bool
  is_eligible d = d.enabled && ltb_ℤ (pos 0) d.weight

  -- The first loop: the enabled definitions with a weight, and the sum of their weights, an int64.
  unfoldable pub eligible : List (Definition F) → List (Definition F)
  eligible [] = []
  eligible (d ∷ ds) = let rest = eligible ds in if is_eligible d then d ∷ rest else rest

  unfoldable pub add_weights : ℤ → List (Definition F) → ℤ
  add_weights total [] = total
  add_weights total (d ∷ ds) = add_weights (wrap64 (total +ℤ d.weight)) ds

  -- The second loop.
  unfoldable pub pick : ℤ → List (Definition F) → Option (Definition F)
  pick n [] = none
  pick n (d ∷ ds) =
      let left = n -ℤ d.weight in
      let rest = pick left ds in if ltb_ℤ left (pos 0) then some d else rest

  abbrev pub picked : Option (Definition F) → List ℕ → Result SelectError (Definition F × List ℕ)
  picked none words = err selection_failed
  picked (some d) words = ok (d, words)

  abbrev pub after_draw :
      List (Definition F)
      → Result RandomError (ℤ × List ℕ)
      → Result SelectError (Definition F × List ℕ)
  after_draw ds (err e) = err (random e)
  after_draw ds (ok (n, rest)) = picked (pick n ds) rest

  unfoldable pub select_weighted :
      List (Definition F) → List ℕ → Result SelectError (Definition F × List ℕ)
  unfolding add_weights
  select_weighted ds words =
      let total = add_weights (pos 0) (eligible ds) in
      if total == pos 0
      then err none_enabled
      else after_draw (eligible ds) (crypto_int (pos 0) (total -ℤ pos 1) words)

  -- The sum of the weights, without bounds.
  unfoldable pub sum : List (Definition F) → ℕ
  sum [] = 0
  sum (d ∷ ds) = pos_part d.weight + sum ds
