-- ===== src/Protocol/Error.antt =====
-- fs-protocol/src/error.rs. The texts of the messages are kept where the source fixes them; the text
-- of a failed protobuf coding is the library's.
use fabric_fs.Prelude.{ℕ, List, String}
use fabric_fs.Prelude.Int.{ℤ}
use fabric_fs.Protocol.Operation.{Operation}

pub data ProtocolError : Type 0 where
  decode encode : String → ProtocolError
  unsupported_version : ℕ → ProtocolError
  unknown_operation : ℕ → ProtocolError
  invalid_errno : ℤ → ProtocolError
  unknown_invalidation_kind : ℕ → ProtocolError
  unknown_file_kind : ℕ → ProtocolError
  unknown_open_kind : ℕ → ProtocolError
  payload_mismatch : Operation → Operation → ProtocolError
  invalid_path : List ℕ → ProtocolError
  invalid_envelope : String → ProtocolError
  invalid_response_state : String → ProtocolError
