-- ===== src/MonitorReq/Kind.antt =====
-- `monitor_req_event_t`: the types of that parser's events.
use protos_tpe.Base.{ℕ}

abbrev pub type : ℕ
type = 0

abbrev pub argument_length : ℕ
argument_length = 1

abbrev pub argument : ℕ
argument = 2

abbrev pub done : ℕ
done = 3

abbrev pub error : ℕ
error = 4
