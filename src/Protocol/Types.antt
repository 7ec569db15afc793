-- ===== src/Protocol/Types.antt =====
-- server/include/protocol.h: the data of the protocol layer.
use simple_ftp.Base.{ℕ, Bool}
use simple_ftp.CString.{Bytes}

-- `PROTO_MAX_CMD_NAME`
abbrev pub max_cmd_name : ℕ
max_cmd_name = 8

-- `PROTO_MAX_CMD_ARG`
abbrev pub max_cmd_arg : ℕ
max_cmd_arg = 512

-- `PROTO_MAX_RESPONSE_LINE`
abbrev pub max_response_line : ℕ
max_response_line = 1024

-- `proto_command_t`
pub record Command : Type 0 where
  pub command : Bytes
  pub argument : Bytes
  pub has_argument : Bool

-- `proto_transfer_type_t`
pub data TransferType : Type 0 where
  ascii binary ebcdic : TransferType

-- `proto_transfer_mode_t`
pub data TransferMode : Type 0 where
  stream block compressed : TransferMode

-- `proto_data_structure_t`
pub data DataStructure : Type 0 where
  file_structure record_structure page_structure : DataStructure

-- `proto_port_params_t`, and `proto_pasv_params_t`, which has the same fields
pub record PortParams : Type 0 where
  pub h1 : ℕ
  pub h2 : ℕ
  pub h3 : ℕ
  pub h4 : ℕ
  pub p1 : ℕ
  pub p2 : ℕ
