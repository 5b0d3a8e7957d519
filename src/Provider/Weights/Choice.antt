-- ===== src/Provider/Weights/Choice.antt =====
-- What SelectWeighted of internal/provider/provider.go gives, and for how many random words.
use proxy_mesh.Prelude.{
  ltb, if◌then◌else◌, Bool, ℕ, ◌+◌, ◌-◌, ◌*◌, ◌/◌, ◌^◌, ◌<◌, ◌≤◌, ℤ, pos, negsuc, ◌+ℤ◌, ◌-ℤ◌, ◌<ℤ◌,
  ltb_ℤ, List, [], ◌∷◌, ◌++◌, ◌≡◌, int_eq, true, false, Result, ok, err, arith, pos_part, wrap64,
  some, All, Bool-cases, inl, inr, refl, ap, subst, sym, ◌∙◌, Result-cases, is_empty, ◌⊎◌,
}
use proxy_mesh.Provider.{Definition}
use proxy_mesh.Provider.Random.{
  Drawn, read_failed, max_uint64, crypto_int, crypto_int-even, crypto_int-between, crypto_int-fails,
}
use proxy_mesh.Provider.Weights.{
  none_enabled, selection_failed, SelectError, random, is_eligible, eligible, add_weights, pick,
  after_draw, select_weighted, sum,
}

wrap_sum :
    (acc : ℕ) (w : ℤ)
    → pos 0 <ℤ w
    → acc + pos_part w < 2 ^ 63
    → wrap64 (pos acc +ℤ w) ≡ pos (acc + pos_part w)
unfolding wrap64 ◌+ℤ◌
wrap_sum acc w h k = ground arith

take_off : (n : ℕ) (w : ℤ) → pos 0 <ℤ w → pos (pos_part w + n) -ℤ w ≡ pos n
unfolding ◌-ℤ◌
take_off n w h = ground arith

one_less : (n : ℕ) → pos (n + 1) -ℤ pos 1 ≡ pos n
unfolding ◌-ℤ◌
one_less n = ground arith

left_over :
    (n : ℕ) (w : ℤ)
    → pos 0 <ℤ w
    → ltb_ℤ (pos n -ℤ w) (pos 0) ≡ false
    → (pos n -ℤ w ≡ pos (n - pos_part w)) × (pos_part w ≤ n)
unfolding ◌-ℤ◌
left_over n w h k = ground arith

module _ {F : Type 0} where
  abbrev HasWeight : Definition F → Type 0
  HasWeight d = pos 0 <ℤ d.weight

  eligible-HasWeight : (ds : List (Definition F)) → All HasWeight (eligible ds)
  unfolding eligible
  eligible-HasWeight [] = tt
  eligible-HasWeight (d ∷ ds) = ground (arith, eligible-HasWeight ds)

  add_weights_lem :
      (acc : ℕ) (ds : List (Definition F))
      → All HasWeight ds
      → acc + sum ds < 2 ^ 63
      → add_weights (pos acc) ds ≡ pos (acc + sum ds)
  unfolding add_weights sum wrap64 ◌+ℤ◌
  add_weights_lem acc [] w h = ground arith
  add_weights_lem acc (d ∷ ds) w h =
      rw (wrap_sum acc d.weight w.0 (omega (arith, h)))
        (rw (add_weights_lem (acc + pos_part d.weight) ds w.1 (omega (arith, h))) (ground arith))

  -- After the definitions xs, the next one takes as many numbers as its weight.
  pick_lem :
      (xs : List (Definition F)) (d : Definition F) (ys : List (Definition F)) (j : ℕ)
      → All HasWeight xs
      → pos j <ℤ d.weight
      → pick (pos (sum xs + j)) (xs ++ d ∷ ys) ≡ some d
  unfolding pick sum ◌-ℤ◌
  pick_lem [] d ys j w h = ground arith
  pick_lem (x ∷ xs) d ys j w h =
      let moved : pos (pos_part x.weight + sum xs + j) -ℤ x.weight ≡ pos (sum xs + j) =
        ground (arith, w.0) in
      rw (moved, pick) (ground (arith, pick_lem xs d ys j w.1 h))

  abbrev pub IsMember : Definition F → List (Definition F) → Type 0
  IsMember d [] = ⊥
  IsMember d (x ∷ xs) = (x ≡ d) ⊎ IsMember d xs

  eligible-IsMember :
      (d : Definition F) (ds : List (Definition F))
      → IsMember d (eligible ds)
      → IsMember d ds × (is_eligible d ≡ true)
  unfolding eligible
  eligible-IsMember d [] h = absurd (h)
  eligible-IsMember d (x ∷ xs) h = ground (arith, eligible-IsMember d xs)

  eligible-empty :
      (ds : List (Definition F))
      → is_empty (eligible ds) ≡ true
      → All (λ d. is_eligible d ≡ false) ds
  unfolding eligible
  eligible-empty [] h = tt
  eligible-empty (d ∷ ds) h = ground (arith, eligible-empty ds)

  pick-IsMember :
      (n : ℤ) (d : Definition F) (ds : List (Definition F)) → pick n ds ≡ some d → IsMember d ds
  unfolding pick
  pick-IsMember n d [] h = absurd (cc)
  pick-IsMember n d (x ∷ xs) h = ground (arith, pick-IsMember (n -ℤ x.weight) d xs)

  pick-succeeds :
      (n : ℕ) (ds : List (Definition F))
      → All HasWeight ds
      → n < sum ds
      → (d : Definition F) × (pick (pos n) ds ≡ some d)
  unfolding pick sum
  pick-succeeds n [] w h = absurd (omega (arith, h))
  pick-succeeds n (x ∷ xs) w h = elim (Bool-cases (ltb_ℤ (pos n -ℤ x.weight) (pos 0))) [
    | inl here ↦ (x, rw here refl)
    | inr there ↦
        let (left, le) = left_over n x.weight w.0 there in
        let (d, e) = pick-succeeds (n - pos_part x.weight) xs w.1 (omega (arith, h, le)) in
        (d, rw (there, pick) (rw left e))
  ]

  HasWeight-before : (xs ys : List (Definition F)) → All HasWeight (xs ++ ys) → All HasWeight xs
  HasWeight-before [] ys w = tt
  HasWeight-before (x ∷ xs) ys w = (w.0, HasWeight-before xs ys w.1)

  sum-empty : (ds : List (Definition F)) → is_empty ds ≡ true → sum ds ≡ 0
  unfolding sum
  sum-empty [] h = refl
  sum-empty (d ∷ ds) h = absurd (cc)

  sum-pos : (ds : List (Definition F)) → All HasWeight ds → (is_empty ds ≡ true) ⊎ (0 < sum ds)
  unfolding sum
  sum-pos [] w = inl refl
  sum-pos (d ∷ ds) w = inr (ground (arith, w.0))

  -- An enabled definition with a weight, or the reason why there is none. The choice itself never fails.
  abbrev pub Selected : List (Definition F) → Result SelectError (Definition F × List ℕ) → Type 0
  Selected ds (ok (d, rest)) = IsMember d ds × (is_eligible d ≡ true)
  Selected ds (err none_enabled) = All (λ d. is_eligible d ≡ false) ds
  Selected ds (err selection_failed) = ⊥
  Selected ds (err (random x)) = x ≡ read_failed

  total_lem :
      (ds : List (Definition F))
      → sum (eligible ds) < 2 ^ 63
      → add_weights (pos 0) (eligible ds) ≡ pos (sum (eligible ds))
  total_lem ds h =
      add_weights_lem 0 (eligible ds) (eligible-HasWeight ds) (omega (arith, h))
      ∙ ap pos (omega arith)

  -- What is drawn, in terms of the sum of the weights.
  select_weighted_lem :
      (ds : List (Definition F)) (last : ℕ) (words : List ℕ)
      → sum (eligible ds) ≡ last + 1
      → last + 1 < 2 ^ 63
      → select_weighted ds words ≡ after_draw (eligible ds) (crypto_int (pos 0) (pos last) words)
  unfolding select_weighted
  select_weighted_lem ds last words split h =
      let total : add_weights (pos 0) (eligible ds) ≡ pos (last + 1) =
        total_lem ds (omega (arith, split, h)) ∙ ap pos split in
      rw (total, select_weighted) (rw (one_less last) (ground arith))

  after_draw_if :
      (ds : List (Definition F)) (b : Bool) (x y : Drawn ℤ)
      → after_draw ds (if b then x else y) ≡ (if b then after_draw ds x else after_draw ds y)
  after_draw_if ds true x y = refl
  after_draw_if ds false x y = refl

  sum-append : (xs ys : List (Definition F)) → sum (xs ++ ys) ≡ sum xs + sum ys
  unfolding sum
  sum-append [] ys = omega arith
  sum-append (x ∷ xs) ys = omega (arith, sum-append xs ys)

  after_draw-Selected :
      (ds : List (Definition F)) (last : ℕ) (words : List ℕ)
      → sum (eligible ds) ≡ last + 1
      → last + 1 < 2 ^ 63
      → Selected ds (after_draw (eligible ds) (crypto_int (pos 0) (pos last) words))
  after_draw-Selected ds last words split h =
      elim (Result-cases (crypto_int (pos 0) (pos last) words)) [
        | inr (x, e) ↦ rw e (crypto_int-fails 0 last words x (omega arith) (omega (arith, h)) e)
        | inl ((negsuc n, rest), e) ↦ absurd (
            omega (arith, (crypto_int-between 0 last (negsuc n) words rest (omega (arith, h)) e).0))
        | inl ((pos n, rest), e) ↦
            let inside = (crypto_int-between 0 last (pos n) words rest (omega (arith, h)) e).1 in
            let (d, f) =
              pick-succeeds n (eligible ds) (eligible-HasWeight ds)
                (omega (arith, inside, split)) in
            rw e (rw f (eligible-IsMember d ds (pick-IsMember (pos n) d (eligible ds) f)))
      ]

  -- If the weights of the eligible definitions do not overflow, SelectWeighted gives one of them, unless
  -- there is none or a read of random bytes fails.
  pub select_weighted-Selected :
      (ds : List (Definition F)) (words : List ℕ)
      → sum (eligible ds) < 2 ^ 63
      → Selected ds (select_weighted ds words)
  unfolding select_weighted
  select_weighted-Selected ds words h = elim (sum-pos (eligible ds) (eligible-HasWeight ds)) [
    | inl empty ↦
        rw (total_lem ds h, select_weighted)
          (rw (sum-empty (eligible ds) empty) (eligible-empty ds empty))
    | inr positive ↦
        let last = sum (eligible ds) - 1 in
        let split : sum (eligible ds) ≡ last + 1 = omega (arith, positive) in
        rw (select_weighted_lem ds last words split (omega (arith, h, positive)))
          (after_draw-Selected ds last words split (omega (arith, h, positive)))
  ]

  -- If the sum t of the weights fits in an int64, the random word t * k + n, with n in the part of the range that
  -- belongs to an eligible definition, gives this definition if k is below the quotient of the largest word by t,
  -- and is passed over if it is not. So each definition is given by exactly that quotient of words for each unit
  -- of its weight.
  pub select_weighted-share :
      (ds xs : List (Definition F)) (d : Definition F) (ys : List (Definition F)) (j k : ℕ)
      (words : List ℕ)
      → eligible ds ≡ xs ++ d ∷ ys
      → sum (eligible ds) < 2 ^ 63
      → pos j <ℤ d.weight
      → select_weighted ds ((sum (eligible ds) * k + (sum xs + j)) ∷ words) ≡ (
          if ltb k (max_uint64 / sum (eligible ds))
          then ok (d, words)
          else select_weighted ds words)
  unfolding sum
  select_weighted-share ds xs d ys j k words split h share =
      let last = sum (eligible ds) - 1 in
      let parts = ap sum split ∙ sum-append xs (d ∷ ys) in
      let total : sum (eligible ds) ≡ last + 1 = ground (arith, parts, share) in
      let weighted : All HasWeight xs =
        HasWeight-before xs (d ∷ ys) (subst (All HasWeight) split (eligible-HasWeight ds)) in
      let fits : last + 1 < 2 ^ 63 = omega (arith, h, total) in
      let chosen : after_draw (eligible ds) (ok (pos (sum xs + j), words)) ≡ ok (d, words) =
        rw split (rw (pick_lem xs d ys j weighted share) refl) in
      subst
        (λ t.
          select_weighted ds ((t * k + (sum xs + j)) ∷ words)
          ≡ (if ltb k (max_uint64 / t) then ok (d, words) else select_weighted ds words))
        (sym total)
        (select_weighted_lem ds last (((last + 1) * k + (sum xs + j)) ∷ words) total fits
          ∙ ap (after_draw (eligible ds)) (
              crypto_int-even last k (sum xs + j) words (ground (arith, parts, share))
                (omega (arith, fits)))
          ∙ after_draw_if (eligible ds) (ltb k (max_uint64 / (last + 1))) _ _
          ∙ λ i.
              if ltb k (max_uint64 / (last + 1))
              then chosen i
              else sym (select_weighted_lem ds last words total fits) i)
