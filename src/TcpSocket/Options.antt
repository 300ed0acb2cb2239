-- ===== src/TcpSocket/Options.antt =====
-- `SetRecvTimeout`, `Recv`, `Connected`, `SetNonBlock` and `Socket` of src/common/tcpSocket.cpp, as built on Linux.
use web_socket_demo.Prelude.{
  ℕ, ◌+◌, ◌/◌, ◌%◌, Bool, true, false, Option, none, some, Bytes, ◌==◌, if◌then◌else◌, length, take,
  [],
}
use web_socket_demo.Startup.{ℤ, pos, negsuc}
use web_socket_demo.TcpSocket.{TcpSocket}

-- `done` says whether setsockopt succeeds.
abbrev pub set_recv_timeout : Bool → Bool
set_recv_timeout done = done

-- What `recv` answers: the bytes, EAGAIN or EINTR, or another failure.
pub data Received : Type 0 where
  came : Bytes → Received
  again failed : Received

-- The result, and what is in the buffer; no more than `buff_len` bytes come.
unfoldable pub recv : Received → ℕ → ℤ × Bytes
recv (came data') buff_len = (pos (length (take buff_len data')), take buff_len data')
recv again buff_len = (pos 0, [])
recv failed buff_len = (negsuc 0, [])

abbrev pub is_connected : TcpSocket → Bool
is_connected s = s.connected

abbrev pub o_nonblock : ℕ
o_nonblock = 2048

-- `ioctl` and `set` are whether ioctl and the second fcntl succeed, `flags` is what the first one gives.
-- The result, and the flags that F_SETFL is called with.
unfoldable pub set_non_block : Bool → Option ℕ → Bool → Bool × Option ℕ
set_non_block false flags set = (false, none)
set_non_block true none set = (false, none)
set_non_block true (some flags) set =
    if flags / o_nonblock % 2 == 1 then (true, none) else (set, some (flags + o_nonblock))
