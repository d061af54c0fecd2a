-- ===== src/Request/Table.antt =====
-- The table of the request's parser, in src/server/request.c.
use protos_tpe.Base.{ℕ, List, [], ◌∷◌, none}
use protos_tpe.Parser.{Action, Definition, Transition, always, any}
use protos_tpe.Request.State

abbrev pub ipv4 : ℕ
ipv4 = 1

abbrev pub domainname : ℕ
domainname = 3

abbrev pub ipv6 : ℕ
ipv6 = 4

abbrev pub act_ver_req : Action
act_ver_req ret c = record ret { type = State.ver; payload = c; n = 1 }

abbrev pub act_cmd_req : Action
act_cmd_req ret c = record ret { type = State.cmd; payload = c; n = 1 }

abbrev pub act_rsv_req : Action
act_rsv_req ret c = record ret { type = State.rsv; payload = c; n = 1 }

abbrev pub act_atyp_req : Action
act_atyp_req ret c = record ret { type = State.atyp; payload = c; n = 1 }

abbrev pub act_dstaddripv4_req : Action
act_dstaddripv4_req ret c = record ret { type = State.dstaddr_ipv4; payload = c; n = 1 }

abbrev pub act_dstaddripv6_req : Action
act_dstaddripv6_req ret c = record ret { type = State.dstaddr_ipv6; payload = c; n = 1 }

abbrev pub act_dstaddr_domainname_req : Action
act_dstaddr_domainname_req ret c = record ret {
  type = State.dstaddr_domainname;
  payload = c;
  n = 1;
}

abbrev pub act_dstport_req : Action
act_dstport_req ret c = record ret { type = State.dstport; payload = c; n = 1 }

abbrev pub act_fin_req : Action
act_fin_req ret c = record ret { type = State.fin; n = 0 }

abbrev pub act_error_req : Action
act_error_req ret c = record ret { type = State.error; n = 0 }

-- The last row takes an unknown type to the state REQUEST_ATYP_ERROR = 2, of another enumeration.
abbrev pub st_atyp : List Transition
st_atyp =
    record { when = ipv4; dest = State.dstaddr_ipv4; act1 = act_atyp_req; act2 = none }
    ∷ record { when = ipv6; dest = State.dstaddr_ipv6; act1 = act_atyp_req; act2 = none }
    ∷ record {
      when = domainname;
      dest = State.dstaddr_domainname;
      act1 = act_atyp_req;
      act2 = none;
    }
    ∷ record { when = any; dest = 2; act1 = act_error_req; act2 = none }
    ∷ []

abbrev pub request_parser_def : Definition
request_parser_def = record {
  states =
      always State.cmd act_ver_req
      ∷ always State.rsv act_cmd_req
      ∷ always State.atyp act_rsv_req
      ∷ st_atyp
      ∷ always State.dstaddr_ipv4 act_dstaddripv4_req
      ∷ always State.dstaddr_ipv6 act_dstaddripv6_req
      ∷ always State.dstaddr_domainname act_dstaddr_domainname_req
      ∷ always State.dstport act_dstport_req
      ∷ always State.fin act_fin_req
      ∷ always State.error act_error_req
      ∷ [];
  start_state = State.ver;
}
