-- ===== src/MonitorAuth/Kind.antt =====
-- `monitor_auth_event_t`: the types of that parser's events.
use protos_tpe.Base.{ℕ}

abbrev pub ulen : ℕ
ulen = 0

abbrev pub uname : ℕ
uname = 1

abbrev pub plen : ℕ
plen = 2

abbrev pub passwd : ℕ
passwd = 3

abbrev pub done : ℕ
done = 4

abbrev pub error : ℕ
error = 5
