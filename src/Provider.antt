-- ===== src/Provider.antt =====
-- The provider definitions of internal/provider/provider.go. Go's float64 is the parameter `F`.
pub mod Random
pub mod Weights
pub mod Ports
pub mod Templates
pub mod Sessions
pub mod Generate
pub mod Generated
use proxy_mesh.Prelude.{ℤ, String, Bool}
use proxy_mesh.Prelude.Map.{Map}

pub record ValueRule : Type 0 where
  pub default : String
  pub with_state : String
  pub with_city : String
  pub by_country : Map String String

pub record PortRange : Type 0 where
  pub from : ℤ
  pub to : ℤ

pub record PortRule : Type 0 where
  pub default : ℤ
  pub by_country : Map String PortRange

pub record SessionRule : Type 0 where
  pub type : String
  pub min : ℤ
  pub max : ℤ
  pub length : ℤ

pub record Config (F : Type 0) : Type 0 where
  pub protocol : String
  pub host : ValueRule
  pub port : PortRule
  pub username : ValueRule
  pub password : ValueRule
  pub country_aliases : Map String String
  pub state_fallback_weights : Map String F
  pub state_fallback_by_country : Map String (Map String F)
  pub session : SessionRule
  pub session_minutes : ℤ
  pub route_ttl_minutes : ℤ

pub record Definition (F : Type 0) : Type 0 where
  pub id : String
  pub enabled : Bool
  pub weight : ℤ
  pub config : Config F
  pub secrets : Map String String

pub record Request : Type 0 where
  pub country : String
  pub state : String
  pub city : String

pub record Endpoint : Type 0 where
  pub provider_id : String
  pub protocol : String
  pub host : String
  pub port : ℤ
  pub username : String
  pub password : String
  pub country : String
  pub state : String
  pub city : String
  pub session_id : String
