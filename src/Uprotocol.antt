-- ===== src/Uprotocol.antt =====
-- threadx-app/cross/app/src/uprotocol_v1.rs: the data model of uProtocol.
pub mod Match
pub mod Code
pub mod Formats
pub mod Names
pub mod Transport
pub use Code.*
pub use Formats.*
mod Tests
use Prim.Native.String.{String}
use threadx_rust.Base.{ℕ, Option, List}

pub record Uuid : Type 0 where
  pub msb : ℕ
  pub lsb : ℕ

pub record UUri : Type 0 where
  pub authority_name : String
  pub ue_id : ℕ
  pub ue_version_major : ℕ
  pub resource_id : ℕ

pub record UUriBatch : Type 0 where
  pub uris : List UUri

pub record UAttributes : Type 0 where
  pub id : Option Uuid
  pub message_type : ℕ
  pub source : Option UUri
  pub sink : Option UUri
  pub priority : ℕ
  pub ttl : Option ℕ
  pub permission_level : Option ℕ
  pub commstatus : Option ℕ
  pub reqid : Option Uuid
  pub token : Option String
  pub traceparent : Option String
  pub payload_format : ℕ

pub record UMessage : Type 0 where
  pub attributes : Option UAttributes
  pub payload : Option (List ℕ)

-- `UStatus`, without the details, which are values of another crate.
pub record UStatus : Type 0 where
  pub code : ℕ
  pub message : Option String

-- A file that is attached to a message, its checksum, and a batch of files.
pub record Checksum : Type 0 where
  pub type : ℕ
  pub value : List ℕ

pub record File : Type 0 where
  pub name : String
  pub size : Option ℕ
  pub checksum : Option Checksum

pub record FileBatch : Type 0 where
  pub files : List File
