-- ===== src/Protocol.antt =====
-- The constants of src/websocket_master/websocket_handler.h, websocket_request.h and
-- websocket_handler.cpp: states, opcodes and size limits.
use web_socket_demo.Prelude.{ℕ, ◌+◌, ◌*◌}

-- WEBSOCKET_STATUS
pub data Status : Type 0 where
  unconnect handsharked : Status

-- WEBSOCKET_FIN_STATUS
abbrev pub fin_msg_end : ℕ
fin_msg_end = 1

-- WEBSOCKET_OPCODE_TYPE
abbrev pub append_data : ℕ
append_data = 0x0

abbrev pub text_data : ℕ
text_data = 0x1

abbrev pub binary_data : ℕ
binary_data = 0x2

abbrev pub connect_close : ℕ
connect_close = 0x8

abbrev pub ping_pack : ℕ
ping_pack = 0x9

abbrev pub pang_pack : ℕ
pang_pack = 0xa

-- WEBSOCKET_MASK_STATUS
abbrev pub need_not_mask : ℕ
need_not_mask = 0

abbrev pub ws_max_payload_bytes : ℕ
ws_max_payload_bytes = 1024 * 1024

abbrev pub ws_max_handshake_bytes : ℕ
ws_max_handshake_bytes = 64 * 1024

abbrev pub ws_max_read_buffer : ℕ
ws_max_read_buffer = 1024 * 1024 + 16 * 1024

abbrev pub ws_max_write_buffer : ℕ
ws_max_write_buffer = 4 * 1024 * 1024
