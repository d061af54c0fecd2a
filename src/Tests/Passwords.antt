-- ===== src/Tests/Passwords.antt =====
-- User 2 gets the password 9 over the wire.
use protos_tpe.Base.{◌≡◌, refl, false, some, List, [], ◌∷◌, arith, replicate, true}
use protos_tpe.Os.{Os, Errno, Interest, writing, set_interest}
use protos_tpe.Users.{User, users_ok, user_login}
use protos_tpe.Users.Text.{strcmp_eq}
use protos_tpe.Users.Table.{find, IsValid}
use protos_tpe.MonitorAuth.{MonitorState}
use protos_tpe.MonitorReq.{MonitorReqParser, Server, monitor_req_parser_init}
use protos_tpe.MonitorReq.Parsed.{read_all}
use protos_tpe.MonitorClient.{IsTyped, write_monitor_change_pass_request, change_pass-changes}

abbrev known : User
known = record { username = 2 ∷ []; password = 8 ∷ []; access_level = 1 }

abbrev changed : User
changed = record { username = 2 ∷ []; password = 9 ∷ []; access_level = 1 }

abbrev server : Server
server = record {
  users = known ∷ [];
  methods = replicate 255 0;
  stats = record { historic_connections = 0; current_connections = 0; transferred_bytes = 0 };
}

abbrev os : Os
os = record {
  errno = Errno.clear;
  interest = λ fd. some Interest.reading;
  sent = λ fd. [];
  shut = λ fd. false;
  closed = [];
}

users-IsValid : IsValid (known ∷ [])
unfolding find strcmp_eq
users-IsValid = record {
  distinct = (refl, tt);
  bounded = omega arith;
  fit = (refl, refl, omega arith, tt);
}

known_there : find (known ∷ []) (2 ∷ []) ≡ some known
unfolding find strcmp_eq
known_there = refl

changed-IsTyped : IsTyped changed
changed-IsTyped = record {
  name_some = omega arith;
  name_fits = omega arith;
  pass_some = omega arith;
  pass_fits = omega arith;
  name_string = refl;
  pass_string = refl;
}

change_pass-changes_example :
    (mrq' : MonitorReqParser) × (us' : List User) × (read_all 7
        (monitor_req_parser_init true 0).1
        server
        os
        (write_monitor_change_pass_request 64 (some changed))
      ≡ some (
        MonitorState.monitor_req,
        mrq',
        record server { users = us' },
        set_interest os 7 writing,
      ))
    × IsValid us'
    × (user_login us' (2 ∷ []) (9 ∷ []) ≡ (users_ok, some 1))
change_pass-changes_example =
    change_pass-changes 7 0 64 changed known server os users-IsValid known_there changed-IsTyped
      (omega arith)
