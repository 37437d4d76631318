-- ===== src/Protocol.antt =====
-- p2p-core/src/protocol.rs: the messages of the control stream. A Uuid is a number, a SHA-256 a list of bytes.
use Prim.Native.String.{String}
use p2pfile_transfer.Common.{ℕ, ◌*◌, Bool, true, List, Option}
use p2pfile_transfer.Common.Int.{ℤ, pos}

abbrev pub Uuid : Type 0
Uuid = ℕ

-- Thirty-two bytes: a checksum or the fingerprint of a certificate.
abbrev pub Digest : Type 0
Digest = List ℕ

abbrev pub protocol_version : ℕ
protocol_version = 3

abbrev pub min_protocol_version : ℕ
min_protocol_version = 3

abbrev pub default_chunk_size : ℕ
default_chunk_size = 1024 * 1024

pub record DiscoveryBeacon : Type 0 where
  pub version : ℕ
  pub device_id : Uuid
  pub device_name : String
  pub port : ℕ
  pub cert_fingerprint : Digest

pub record HelloMessage : Type 0 where
  pub protocol_version : ℕ
  pub min_version : ℕ
  pub device_id : Uuid
  pub cert_fingerprint : Digest

pub record ConfigMessage : Type 0 where
  pub compression_enabled : Bool
  pub compression_level : ℤ
  pub adaptive_compression : Bool
  pub chunk_size : ℕ
  pub bandwidth_limit : ℕ

abbrev pub default_config : ConfigMessage
default_config = record {
  compression_enabled = true;
  compression_level = pos 3;
  adaptive_compression = true;
  chunk_size = default_chunk_size;
  bandwidth_limit = 0;
}

pub record FileMetadata : Type 0 where
  pub path : String
  pub size : ℕ
  pub modified : ℕ
  pub checksum : Digest

pub record ResumePoint : Type 0 where
  pub transfer_id : Uuid
  pub file_index : ℕ
  pub completed_chunks : List ℕ

pub record TransferInfo : Type 0 where
  pub transfer_id : Uuid
  pub items : List FileMetadata
  pub resume_from : Option ResumePoint
  pub completed_files : List ℕ

pub record FileProgress : Type 0 where
  pub file_index : ℕ
  pub total_chunks : ℕ
  pub completed_chunks : List ℕ

pub record ResumeRequest : Type 0 where
  pub transfer_id : Uuid
  pub progress : List FileProgress

pub record CompleteMessage : Type 0 where
  pub transfer_id : Uuid
  pub total_bytes : ℕ
  pub duration_ms : ℕ

pub record FileChecksumMessage : Type 0 where
  pub transfer_id : Uuid
  pub file_index : ℕ
  pub checksum : Digest

pub data ErrorCode : Type 0 where
  protocol_error version_mismatch unsupported_capability : ErrorCode
  file_system_error transfer_cancelled other : ErrorCode

pub record ErrorMessage : Type 0 where
  pub code : ErrorCode
  pub message : String

pub data Message : Type 0 where
  discovery_beacon : DiscoveryBeacon → Message
  hello : HelloMessage → Message
  hello_ack : HelloMessage → Message
  config : ConfigMessage → Message
  config_ack : Message
  transfer_info : TransferInfo → Message
  ready : Message
  resume : ResumeRequest → Message
  pause : Message
  cancel : Message
  complete : CompleteMessage → Message
  file_checksum : FileChecksumMessage → Message
  error : ErrorMessage → Message
  ping : Message
  pong : Message
