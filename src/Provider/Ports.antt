-- ===== src/Provider/Ports.antt =====
-- The port rules of internal/provider/provider.go: validatePortRule and selectPort.
use Prim.Native.Char.{code}
use proxy_mesh.Prelude.{
  ℕ, ℤ, pos, negsuc, ◌≤ℤ◌, ltb_ℤ, leb, nat_eq, String, List, [], ◌∷◌, ◌≡◌, ◌==◌, int_eq, string_eq,
  Bool, true, not, ◌&&◌, ◌||◌, Option, none, some, Result, ok, err, arith, if◌then◌else◌, beq_ℤ_iff,
  is_empty, Option-cases, Result-cases, inl, inr, ◌⊎◌,
}
use proxy_mesh.Prelude.Map.{Map, lookup, AllEntries, AllEntries-lookup}
use proxy_mesh.Provider.{PortRange, PortRule}
use proxy_mesh.Provider.Random.{
  RandomError, read_failed, crypto_int, crypto_int-between, crypto_int-fails,
}

pub data RuleError : Type 0 where
  invalid_default : RuleError
  invalid_port_range : String → RuleError
  missing_rule : RuleError

-- unicode.IsSpace
abbrev is_space : ℕ → Bool
is_space c =
    leb 9 c && leb c 13
    || c == 32
    || c == 133
    || c == 160
    || c == 5760
    || leb 8192 c && leb c 8202
    || c == 8232
    || c == 8233
    || c == 8239
    || c == 8287
    || c == 12288

-- Whether normalizeCountry leaves nothing of the text, which holds if it is all space.
unfoldable pub is_blank : String → Bool
is_blank String.[] = true
is_blank (String.◌∷◌ c s) = is_space (code c) && is_blank s

abbrev is_bad : String → PortRange → Bool
is_bad country r =
    is_blank country || ltb_ℤ r.from (pos 1) || ltb_ℤ (pos 65535) r.to || ltb_ℤ r.to r.from

-- The loop of validatePortRule.
unfoldable pub validate_ranges : Map String PortRange → Result RuleError (Unit {0})
validate_ranges [] = ok tt
validate_ranges ((country, r) ∷ m) =
    let rest = validate_ranges m in
    if is_bad country r then err (invalid_port_range country) else rest

unfoldable pub validate_port_rule : PortRule → Result RuleError (Unit {0})
unfolding validate_ranges
validate_port_rule rule =
    if not (rule.default == pos 0) && (ltb_ℤ rule.default (pos 1) || ltb_ℤ (pos 65535) rule.default)
    then err invalid_default
    else elim (validate_ranges rule.by_country) [
      | err e ↦ err e
      | ok _ ↦ if rule.default == pos 0 && is_empty rule.by_country then err missing_rule else ok tt
    ]

pub data PortError : Type 0 where
  unsupported : PortError
  random : RandomError → PortError

abbrev drawn : Result RandomError (ℤ × List ℕ) → Result PortError (ℤ × List ℕ)
drawn (err x) = err (random x)
drawn (ok n) = ok n

unfoldable pub select_port : PortRule → String → List ℕ → Result PortError (ℤ × List ℕ)
select_port rule country words = elim (lookup country rule.by_country) [
  | none ↦ if rule.default == pos 0 then err unsupported else ok (rule.default, words)
  | some r ↦ drawn (crypto_int r.from r.to words)
]

abbrev pub IsPort : ℤ → Type 0
IsPort p = (pos 1 ≤ℤ p) × (p ≤ℤ pos 65535)

-- The port that the rule gives for the country: one of its range, or the default.
abbrev pub Allows : PortRule → Option PortRange → ℤ → Type 0
Allows rule none p = p ≡ rule.default
Allows rule (some r) p = (r.from ≤ℤ p) × (p ≤ℤ r.to)

abbrev pub Selects : PortRule → String → Result PortError (ℤ × List ℕ) → Type 0
Selects rule country (ok (p, rest)) = IsPort p × Allows rule (lookup country rule.by_country) p
Selects rule country (err unsupported) =
    (lookup country rule.by_country ≡ none) × (rule.default ≡ pos 0)
Selects rule country (err (random x)) = x ≡ read_failed

abbrev IsRange : PortRange → Type 0
IsRange r = (pos 1 ≤ℤ r.from) × (r.to ≤ℤ pos 65535) × (r.from ≤ℤ r.to)

ranges_of_validate :
    (m : Map String PortRange) → validate_ranges m ≡ ok tt → AllEntries (λ country r. IsRange r) m
unfolding validate_ranges
ranges_of_validate [] h = tt
ranges_of_validate ((country, r) ∷ m) h = ground (arith, ranges_of_validate m)

rule_ranges :
    (rule : PortRule)
    → validate_port_rule rule ≡ ok tt
    → AllEntries (λ country r. IsRange r) rule.by_country
unfolding validate_port_rule
rule_ranges rule h = ranges_of_validate rule.by_country (ground arith)

rule_default :
    (rule : PortRule)
    → validate_port_rule rule ≡ ok tt
    → (rule.default ≡ pos 0) ⊎ IsPort rule.default
unfolding validate_port_rule
rule_default rule h = ground (arith, beq_ℤ_iff rule.default (pos 0))

-- The bounds of a validated range are small natural numbers.
between_bounds :
    (from to p : ℤ) (words rest : List ℕ)
    → IsRange (record { from = from; to = to })
    → crypto_int from to words ≡ ok (p, rest)
    → (from ≤ℤ p) × (p ≤ℤ to)
between_bounds (pos a) (pos b) p words rest h f =
    crypto_int-between a b p words rest (omega (arith, h)) f
between_bounds (pos a) (negsuc b) p words rest h f = absurd (omega (arith, h))
between_bounds (negsuc a) to p words rest h f = absurd (omega (arith, h))

between_fails :
    (from to : ℤ) (words : List ℕ) (x : RandomError)
    → IsRange (record { from = from; to = to })
    → crypto_int from to words ≡ err x
    → x ≡ read_failed
between_fails (pos a) (pos b) words x h f =
    crypto_int-fails a b words x (omega (arith, h)) (omega (arith, h)) f
between_fails (pos a) (negsuc b) words x h f = absurd (omega (arith, h))
between_fails (negsuc a) to words x h f = absurd (omega (arith, h))

-- Of a range in order inside the ports, a port of the range is drawn, unless a read of random bytes fails.
drawn-Selects :
    (rule : PortRule) (country : String) (r : PortRange) (words : List ℕ)
    → lookup country rule.by_country ≡ some r
    → IsRange r
    → Selects rule country (drawn (crypto_int r.from r.to words))
drawn-Selects rule country r words e h = elim (Result-cases (crypto_int r.from r.to words)) [
  | inr (x, f) ↦ rw f (between_fails r.from r.to words x h f)
  | inl ((p, rest), f) ↦ rw f (ground (arith, e, h, between_bounds r.from r.to p words rest h f))
]

-- After its rule is validated, the port that is selected for a country is a port of the country's range, or the
-- default port; there is none only if the country has no range and there is no default, or if a read of
-- random bytes fails.
pub select_port-Selects :
    (rule : PortRule) (country : String) (words : List ℕ)
    → validate_port_rule rule ≡ ok tt
    → Selects rule country (select_port rule country words)
unfolding select_port
select_port-Selects rule country words h = elim (Option-cases (lookup country rule.by_country)) [
  | inr (r, e) ↦
      rw (e, select_port)
        (drawn-Selects rule country r words e (
          AllEntries-lookup (λ country r. IsRange r) country r rule.by_country (rule_ranges rule h)
            e))
  | inl e ↦
      rw (e, select_port) (ground (arith, e, beq_ℤ_iff rule.default (pos 0), rule_default rule h))
]
