-- ===== src/Auth/Table.antt =====
-- The table of the authentication parser, in src/server/auth.c.
use protos_tpe.Base.{[], ◌∷◌}
use protos_tpe.Parser.{Action, Definition, always}
use protos_tpe.Auth.State
use protos_tpe.Auth.Kind

abbrev pub act_auth_ver : Action
act_auth_ver ret c = record ret { type = Kind.ver; n = 1; payload = c }

abbrev pub act_auth_ulen : Action
act_auth_ulen ret c = record ret { type = Kind.ulen; n = 1; payload = c }

abbrev pub act_auth_uname : Action
act_auth_uname ret c = record ret { type = Kind.uname; n = 1; payload = c }

abbrev pub act_auth_plen : Action
act_auth_plen ret c = record ret { type = Kind.plen; n = 1; payload = c }

abbrev pub act_auth_passwd : Action
act_auth_passwd ret c = record ret { type = Kind.passwd; n = 1; payload = c }

abbrev pub act_auth_done : Action
act_auth_done ret c = record ret { type = Kind.done; n = 0 }

abbrev pub auth_parser_def : Definition
auth_parser_def = record {
  states =
      always State.ulen act_auth_ver
      ∷ always State.uname act_auth_ulen
      ∷ always State.uname act_auth_uname
      ∷ always State.passwd act_auth_plen
      ∷ always State.passwd act_auth_passwd
      ∷ always State.fin act_auth_done
      ∷ always State.fin act_auth_done
      ∷ [];
  start_state = State.ver;
}
