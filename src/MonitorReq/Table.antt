-- ===== src/MonitorReq/Table.antt =====
-- The table of the parser in src/server/monitor/monitor_req.c.
use protos_tpe.Base.{[], ◌∷◌}
use protos_tpe.Parser.{Action, Definition, always}
use protos_tpe.MonitorReq.State
use protos_tpe.MonitorReq.Kind

abbrev pub act_monitor_req_type : Action
act_monitor_req_type ret c = record ret { type = Kind.type; n = 1; payload = c }

abbrev pub act_monitor_req_argument_length : Action
act_monitor_req_argument_length ret c = record ret {
  type = Kind.argument_length;
  n = 1;
  payload = c;
}

abbrev pub act_monitor_req_argument : Action
act_monitor_req_argument ret c = record ret { type = Kind.argument; n = 1; payload = c }

abbrev pub act_monitor_req_done : Action
act_monitor_req_done ret c = record ret { type = Kind.done; n = 0 }

abbrev pub act_monitor_req_error : Action
act_monitor_req_error ret c = record ret { type = Kind.error; n = 0 }

abbrev pub monitor_req_parser_def : Definition
monitor_req_parser_def = record {
  states =
      always State.argument_length act_monitor_req_type
      ∷ always State.argument act_monitor_req_argument_length
      ∷ always State.argument act_monitor_req_argument
      ∷ always State.done act_monitor_req_done
      ∷ always State.error act_monitor_req_error
      ∷ [];
  start_state = State.type;
}
