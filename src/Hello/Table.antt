-- ===== src/Hello/Table.antt =====
-- The table of the greeting's parser, in src/server/hello.c.
use protos_tpe.Base.{[], ◌∷◌}
use protos_tpe.Parser.{Action, Definition, always}
use protos_tpe.Hello.State
use protos_tpe.Hello.Kind

abbrev pub act_ver_hello : Action
act_ver_hello ret c = record ret { type = Kind.ver; n = 1; payload = c }

abbrev pub act_nmethods_hello : Action
act_nmethods_hello ret c = record ret { type = Kind.nmethods; n = 1; payload = c }

abbrev pub act_method_hello : Action
act_method_hello ret c = record ret { type = Kind.method; n = 1; payload = c }

abbrev pub act_done_hello : Action
act_done_hello ret c = record ret { type = Kind.done; n = 0 }

abbrev pub hello_parser_def : Definition
hello_parser_def = record {
  states =
      always State.nmethods act_ver_hello
      ∷ always State.methods act_nmethods_hello
      ∷ always State.methods act_method_hello
      ∷ always State.fin act_done_hello
      ∷ always State.error act_done_hello
      ∷ [];
  start_state = State.ver;
}
