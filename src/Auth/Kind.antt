-- ===== src/Auth/Kind.antt =====
-- `auth_event_t`: the types of the authentication parser's events.
use protos_tpe.Base.{ℕ}

abbrev pub ver : ℕ
ver = 0

abbrev pub ulen : ℕ
ulen = 1

abbrev pub uname : ℕ
uname = 2

abbrev pub plen : ℕ
plen = 3

abbrev pub passwd : ℕ
passwd = 4

abbrev pub done : ℕ
done = 5
