-- ===== src/Auth/State.antt =====
-- `auth_state_t`: the states of the authentication parser.
use protos_tpe.Base.{ℕ}

abbrev pub ver : ℕ
ver = 0

abbrev pub ulen : ℕ
ulen = 1

abbrev pub uname : ℕ
uname = 2

abbrev pub plen : ℕ
plen = 3

abbrev pub passwd : ℕ
passwd = 4

abbrev pub fin : ℕ
fin = 5

abbrev pub error : ℕ
error = 6
