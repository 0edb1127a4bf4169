-- ===== src/Frame/MessageType.antt =====
-- The underlying bytes of the enumeration `MessageType` of include/common/common_ws.h, which may hold
-- any other byte too.
use web_socket_cpp.Base.{ℕ}

abbrev pub undefined : ℕ
undefined = 0

abbrev pub text : ℕ
text = 1

abbrev pub binary : ℕ
binary = 2

abbrev pub close : ℕ
close = 8

abbrev pub ping : ℕ
ping = 9

abbrev pub pong : ℕ
pong = 10
