-- ===== src/Tests/Providers.antt =====
-- The random choices of internal/provider/provider.go at a few words.
use proxy_mesh.Prelude.{
  ℕ, ◌*◌, ◌+◌, ℤ, pos, true, List, [], ◌∷◌, ◌≡◌, refl, ok, arith, string_eq, int_eq, nat_eq,
}
use proxy_mesh.Provider.{Definition, PortRule, ValueRule}
use proxy_mesh.Provider.Weights.{eligible, sum, select_weighted}
use proxy_mesh.Provider.Weights.Choice.{select_weighted-share}

abbrev empty_rule : ValueRule
empty_rule = record { default = ""; with_state = ""; with_city = ""; by_country = [] }

abbrev ports : PortRule
ports = record {
  default = pos 0;
  by_country = ("us", record { from = pos 7000; to = pos 7009 }) ∷ [];
}

abbrev provider : ℤ → Definition ℕ
provider weight = record {
  id = "p";
  enabled = true;
  weight = weight;
  config = record {
    protocol = "socks5";
    host = empty_rule;
    port = ports;
    username = empty_rule;
    password = empty_rule;
    country_aliases = [];
    state_fallback_weights = [];
    state_fallback_by_country = [];
    session = record { type = "uuid"; min = pos 0; max = pos 0; length = pos 0 };
    session_minutes = pos 0;
    route_ttl_minutes = pos 0;
  };
  secrets = [];
}

abbrev providers : List (Definition ℕ)
providers = provider (pos 3) ∷ provider (pos 0) ∷ provider (pos 7) ∷ []

select_weighted-share_example :
    select_weighted providers
      ((sum (eligible providers) * 2 + (sum (provider (pos 3) ∷ []) + 2)) ∷ [])
    ≡ ok (provider (pos 7), [])
unfolding eligible sum
select_weighted-share_example =
    select_weighted-share providers (provider (pos 3) ∷ []) (provider (pos 7)) [] 2 2 [] refl
      (ground arith) (ground arith)
