-- ===== src/MonitorAuth/Table.antt =====
-- The table of the parser in src/server/monitor/monitor_auth.c.
use protos_tpe.Base.{[], ◌∷◌}
use protos_tpe.Parser.{Action, Definition, always}
use protos_tpe.MonitorAuth.State
use protos_tpe.MonitorAuth.Kind

abbrev pub act_monitor_auth_ulen : Action
act_monitor_auth_ulen ret c = record ret { type = Kind.ulen; n = 1; payload = c }

abbrev pub act_monitor_auth_uname : Action
act_monitor_auth_uname ret c = record ret { type = Kind.uname; n = 1; payload = c }

abbrev pub act_monitor_auth_plen : Action
act_monitor_auth_plen ret c = record ret { type = Kind.plen; n = 1; payload = c }

abbrev pub act_monitor_auth_password : Action
act_monitor_auth_password ret c = record ret { type = Kind.passwd; n = 1; payload = c }

abbrev pub act_monitor_auth_done : Action
act_monitor_auth_done ret c = record ret { type = Kind.done; n = 0 }

abbrev pub monitor_auth_parser_def : Definition
monitor_auth_parser_def = record {
  states =
      always State.uname act_monitor_auth_ulen
      ∷ always State.uname act_monitor_auth_uname
      ∷ always State.passwd act_monitor_auth_plen
      ∷ always State.passwd act_monitor_auth_password
      ∷ always State.done act_monitor_auth_done
      ∷ always State.error act_monitor_auth_done
      ∷ [];
  start_state = State.ulen;
}
