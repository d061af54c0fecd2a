-- ===== src/Hello/Kind.antt =====
-- `hello_event_t`: the types of the greeting's events.
use protos_tpe.Base.{ℕ}

abbrev pub ver : ℕ
ver = 0

abbrev pub nmethods : ℕ
nmethods = 1

abbrev pub method : ℕ
method = 2

abbrev pub done : ℕ
done = 3

abbrev pub unexpected : ℕ
unexpected = 4
