-- ===== src/Tests/Negotiation.antt =====
-- The sub-negotiation of the user 1 with the password 7.
use protos_tpe.Base.{◌≡◌, ◌↔◌, true, false, some, List, [], ◌∷◌, arith}
use protos_tpe.Os.{Os, Errno, Interest, SendReply, took_all, writing, set_interest}
use protos_tpe.States.{ClientState}
use protos_tpe.Users.{User}
use protos_tpe.Auth.{AuthParser, auth_parser_init, auth_write, login_status}
use protos_tpe.Auth.Run.{read_all}
use protos_tpe.Auth.Negotiation.{read_all-negotiation}
use protos_tpe.Auth.Grant.{Known, negotiation-grants}

abbrev one_user : List User
one_user = record { username = 1 ∷ []; password = 7 ∷ []; access_level = 0 } ∷ []

abbrev os : Os
os = record {
  errno = Errno.clear;
  interest = λ fd. some Interest.reading;
  sent = λ fd. [];
  shut = λ fd. false;
  closed = [];
}

read_all-negotiation_example :
    (ap : AuthParser) × (read_all one_user 7
        (auth_parser_init true 0).1
        os
        (1 ∷ 1 ∷ 1 ∷ 2 ∷ 7 ∷ 0 ∷ 5 ∷ [])
      ≡ some (ClientState.auth_write, ap, set_interest os 7 writing, 5 ∷ []))
    × (ap.auth_status ≡ login_status one_user (1 ∷ []) (7 ∷ []))
read_all-negotiation_example =
    read_all-negotiation one_user 7 0 (1 ∷ []) (7 ∷ 0 ∷ []) (5 ∷ []) os (omega arith) (omega arith)
      (omega arith) (omega arith)

negotiation-grants_example :
    (a : AuthParser) × (os' : Os) × (read_all one_user 7
        (auth_parser_init true 0).1
        os
        (1 ∷ 1 ∷ 1 ∷ 1 ∷ 7 ∷ [])
      ≡ some (ClientState.auth_write, a, os', []))
    × (((auth_write 7 a os' (SendReply.took 2)).0 ≡ ClientState.request_read)
        ↔ ((took_all (SendReply.took 2) 2 ≡ true) × Known one_user (1 ∷ []) (7 ∷ [])))
negotiation-grants_example =
    negotiation-grants one_user 7 0 (1 ∷ []) (7 ∷ []) [] os (SendReply.took 2) (omega arith)
      (omega arith) (omega arith) (omega arith)
