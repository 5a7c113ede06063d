-- ===== src/Protocol.antt =====
-- src/fs_protocol.h: the codes of instructions and replies, and `error_reply`.
use coursework_file_system.Prelude.{ℕ}
use coursework_file_system.Run.{
  ErrorCode, fs_busy_handle, fs_capacity_exceeded, fs_access_denied, fs_name_not_exist,
  fs_name_already_exist, fs_name_too_long, fs_name_invalid,
}

abbrev pub reply_ok : ℕ
reply_ok = 0x20

abbrev pub reply_unknown_error : ℕ
reply_unknown_error = 0x3F

unfoldable pub error_reply : ErrorCode → ℕ
error_reply fs_busy_handle = 0x34
error_reply fs_capacity_exceeded = 0x35
error_reply fs_access_denied = 0x36
error_reply fs_name_not_exist = 0x30
error_reply fs_name_already_exist = 0x31
error_reply fs_name_too_long = 0x32
error_reply fs_name_invalid = 0x33
error_reply _ = reply_unknown_error
