-- ===== src/Hello/State.antt =====
-- `hello_state_t`: the states of the greeting's parser.
use protos_tpe.Base.{ℕ}

abbrev pub ver : ℕ
ver = 0

abbrev pub nmethods : ℕ
nmethods = 1

abbrev pub methods : ℕ
methods = 2

abbrev pub fin : ℕ
fin = 3

abbrev pub error : ℕ
error = 4
