-- ===== src/Protocol/Errno.antt =====
-- fs-protocol/src/errno.rs: error numbers. `Errno` wraps an `i32` that is not negative.
use fabric_fs.Prelude.{ℕ, Bool, ltb, Result, ok, err}
use fabric_fs.Prelude.Int.{ℤ, pos, negsuc}
use fabric_fs.Protocol.Error.{ProtocolError, invalid_errno}

pub record Errno : Type 0 where
  pub raw : ℕ

abbrev pub errno : ℕ → Errno
errno n = record { raw = n }

abbrev pub success : Errno
success = errno 0

abbrev pub io : Errno
io = errno 5

abbrev pub invalid_argument : Errno
invalid_argument = errno 22

abbrev pub message_too_large : Errno
message_too_large = errno 90

abbrev pub not_supported : Errno
not_supported = errno 95

abbrev pub connection_reset : Errno
connection_reset = errno 104

abbrev pub no_buffer_space : Errno
no_buffer_space = errno 105

abbrev pub timed_out : Errno
timed_out = errno 110

abbrev pub stale : Errno
stale = errno 116

unfoldable pub wire_value : Errno → ℤ
wire_value e = pos e.raw

unfoldable pub is_error : Errno → Bool
is_error e = ltb 0 e.raw

unfoldable pub try_from : ℤ → Result ProtocolError Errno
try_from (pos n) = ok (errno n)
try_from (negsuc n) = err (invalid_errno (negsuc n))
