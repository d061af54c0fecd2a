-- ===== src/MonitorReq/State.antt =====
-- `monitor_req_state_t`: the states of the parser of a request.
use protos_tpe.Base.{ℕ}

abbrev pub type : ℕ
type = 0

abbrev pub argument_length : ℕ
argument_length = 1

abbrev pub argument : ℕ
argument = 2

abbrev pub done : ℕ
done = 3

abbrev pub error : ℕ
error = 4
