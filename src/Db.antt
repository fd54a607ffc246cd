-- ===== src/Db.antt =====
-- The router's database (compute_space/src/compute_space/db/schema.sql) as a record of tables. A
-- table is the list of its rows, and a row has the columns that the modelled code reads or writes.
use mathlib.Core.Bool.{Bool, true, false}
use aerosol.Prelude.{ℕ, List, Option, Text}

-- apps.status
pub data Status : Type 0 where
  building starting running stopped error removing : Status

unfoldable pub status_beq : Status → Status → Bool
status_beq building building = true
status_beq starting starting = true
status_beq running running = true
status_beq stopped stopped = true
status_beq error error = true
status_beq removing removing = true
status_beq _ _ = false

-- `created_at` is the number of seconds that the column's text spells; both sort alike.
pub record App : Type 0 where
  pub app_id : Text
  pub name : Text
  pub local_port : ℕ
  pub container_id : Option Text
  pub status : Status
  pub error_message : Option Text
  pub public_paths : List Text
  pub manifest_raw : Option Text
  pub created_at : ℕ

-- app_port_mappings
pub record PortRow : Type 0 where
  pub app_id : Text
  pub label : Text
  pub container_port : ℕ
  pub host_port : ℕ

-- domains.cert_status
pub data DomainCertStatus : Type 0 where
  no_cert acquiring active cert_error : DomainCertStatus

-- A row of `domains`, as `DomainRecord` shows it.
pub record DomainRecord : Type 0 where
  pub name : Text
  pub tls : Bool
  pub mdns : Bool
  pub cert_status : DomainCertStatus
  pub error_message : Option Text
  pub is_primary : Bool

-- service_providers_v2
pub record ProviderRow : Type 0 where
  pub service_url : Text
  pub app_id : Text
  pub service_version : Text
  pub endpoint : Text

-- service_defaults
pub record DefaultRow : Type 0 where
  pub service_url : Text
  pub app_id : Text

pub record Db : Type 0 where
  pub apps : List App
  pub app_port_mappings : List PortRow
  pub domains : List DomainRecord
  pub service_providers : List ProviderRow
  pub service_defaults : List DefaultRow
