-- ===== src/Respond.antt =====
-- src/websocket_master/websocket_respond.{h,cpp}: the frame that the server sends. The object's fields
-- are never written after its construction, so a call is a function of its arguments. `malloc` says
-- whether an allocation of that many bytes succeeds.
pub mod Layout
use web_socket_demo.Prelude.{
  ℕ, ◌+◌, ◌-◌, ◌*◌, ◌%◌, Bool, [], ◌∷◌, ◌++◌, Option, none, some, bit_or, Bytes, u8, u16, u64,
  ◌<<<◌, ◌>>>◌, ltb, leb, if◌then◌else◌, take,
}

-- `hdr`, the length of the header.
abbrev pub header_length : ℕ → ℕ
header_length msg_len = if ltb msg_len 126 then 2 else if leb msg_len 0xffff then 4 else 10

-- `buf[2 + i] = (v >> (56 - i * 8)) & 0xFF`
abbrev pub ext_byte : ℕ → ℕ → ℕ
ext_byte v i = u8 ((v >>> (56 - i * 8)) % 256)

-- The header's bytes; `buf[1]` is `mask << 7` first, and the length is or-ed in.
unfoldable pub header : ℕ → ℕ → ℕ → ℕ → Bytes
header msg_len fin opcode mask =
    let first = u8 (bit_or (fin <<< 7) (opcode % 16)) in
    let flag = u8 (mask <<< 7) in
    if ltb msg_len 126
    then first ∷ u8 (bit_or flag (u8 msg_len)) ∷ []
    else if leb msg_len 0xffff
    then first ∷ u8 (bit_or flag 126) ∷ (u16 msg_len >>> 8) ∷ (u16 msg_len % 256) ∷ []
    else (let v = u64 msg_len in
        first
        ∷ u8 (bit_or flag 127)
        ∷ ext_byte v 0
        ∷ ext_byte v 1
        ∷ ext_byte v 2
        ∷ ext_byte v 3
        ∷ ext_byte v 4
        ∷ ext_byte v 5
        ∷ ext_byte v 6
        ∷ ext_byte v 7
        ∷ [])

-- `none` is the result -1; `some out` is 0 with the buffer `*out`, whose length is `*out_len`.
unfoldable pub pack_data : (ℕ → Bool) → Bytes → ℕ → ℕ → ℕ → ℕ → Option Bytes
pack_data malloc message msg_len fin opcode mask =
    let total = header_length msg_len + msg_len in
    if malloc total then some (header msg_len fin opcode mask ++ take msg_len message) else none
