-- ===== src/Request/State.antt =====
-- `request_state_t`: the states of the request's parser, and the types of its events.
use protos_tpe.Base.{ℕ}

abbrev pub ver : ℕ
ver = 0

abbrev pub cmd : ℕ
cmd = 1

abbrev pub rsv : ℕ
rsv = 2

abbrev pub atyp : ℕ
atyp = 3

abbrev pub dstaddr_ipv4 : ℕ
dstaddr_ipv4 = 4

abbrev pub dstaddr_ipv6 : ℕ
dstaddr_ipv6 = 5

abbrev pub dstaddr_domainname : ℕ
dstaddr_domainname = 6

abbrev pub dstport : ℕ
dstport = 7

abbrev pub fin : ℕ
fin = 8

abbrev pub error : ℕ
error = 9
