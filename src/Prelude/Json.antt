-- ===== src/Prelude/Json.antt =====
-- encoding/json, for one type.
use mathlib.Core.Path.{◌≡◌}
use mathlib.Core.Option.{Option, some}
use proxy_mesh.Prelude.Bytes.{Bytes}

pub record Json (A : Type 0) : Type 0 where
  pub marshal : A → Option Bytes
  pub unmarshal : Bytes → Option A

-- The value, once marshalled, is unmarshalled again.
pub record Parses {A : Type 0} (j : Json A) (x : A) : Type 0 where
  pub unmarshal-marshal : {bytes : Bytes} → j.marshal x ≡ some bytes → j.unmarshal bytes ≡ some x
