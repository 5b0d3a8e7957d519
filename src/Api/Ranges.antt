-- ===== src/Api/Ranges.antt =====
-- The range of ports of internal/control/api.go.
use proxy_mesh.Prelude.{ℤ, pos, ◌≤ℤ◌, List, [], ◌∷◌, arith}
use proxy_mesh.Api.{Api, new_api, set_ingress_port_range}

-- The calls of SetIngressPortRange, one after the other.
abbrev pub set_ranges : Api → List (ℤ × ℤ) → Api
set_ranges a [] = a
set_ranges a ((start, end) ∷ ranges) = set_ranges (set_ingress_port_range a start end) ranges

abbrev pub HasRange : Api → Type 0
HasRange a =
    (pos 1024 ≤ℤ a.ingress_port_start)
    × (a.ingress_port_start ≤ℤ a.ingress_port_end)
    × (a.ingress_port_end ≤ℤ pos 65535)

set_ingress_port_range-HasRange :
    (a : Api) (start end : ℤ) → HasRange a → HasRange (set_ingress_port_range a start end)
unfolding set_ingress_port_range
set_ingress_port_range-HasRange a start end h = ground arith

set_ranges_lem : (a : Api) (ranges : List (ℤ × ℤ)) → HasRange a → HasRange (set_ranges a ranges)
set_ranges_lem a [] h = h
set_ranges_lem a ((start, end) ∷ ranges) h =
    set_ranges_lem (set_ingress_port_range a start end) ranges
      (set_ingress_port_range-HasRange a start end h)

-- Whatever ranges NewAPI's range is set to, one after the other, the range that is left has a port, and all
-- its ports are from 1024 to 65535.
pub set_ranges-HasRange : (ranges : List (ℤ × ℤ)) → HasRange (set_ranges new_api ranges)
unfolding new_api
set_ranges-HasRange ranges = set_ranges_lem new_api ranges (ground arith)
