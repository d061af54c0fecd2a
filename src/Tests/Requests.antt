-- ===== src/Tests/Requests.antt =====
-- The requests of a monitor: user 2 is deleted, and the statistics are read.
use protos_tpe.Base.{
  ℕ, ◌+◌, ◌*◌, ◌/◌, ◌%◌, ◌<◌, ◌≡◌, ◌≢◌, refl, inr, true, false, some, List, [], ◌∷◌, arith, length,
  drop, if◌then◌else◌, replicate,
}
use protos_tpe.Os.{Os, Errno, Interest, writing, set_interest}
use protos_tpe.Users.{User, user_delete, get_user_index}
use protos_tpe.Users.Text.{strcmp_eq}
use protos_tpe.MonitorAuth.{MonitorState}
use protos_tpe.MonitorReq.{MonitorReqParser, Server, monitor_req_parser_init, handle_request}
use protos_tpe.MonitorReq.Action
use protos_tpe.MonitorReq.Parsed.{Announced, read_all}
use protos_tpe.MonitorReq.Handled.{request-handled, request-refused}
use protos_tpe.MonitorReply.{reply, counters_of, counters_of-reply}

abbrev one : User
one = record { username = 1 ∷ []; password = 7 ∷ []; access_level = 0 }

abbrev two : User
two = record { username = 2 ∷ []; password = 8 ∷ []; access_level = 1 }

abbrev server : Server
server = record {
  users = one ∷ two ∷ [];
  methods = replicate 255 0;
  stats = record { historic_connections = 3; current_connections = 1; transferred_bytes = 70 };
}

abbrev os : Os
os = record {
  errno = Errno.clear;
  interest = λ fd. some Interest.reading;
  sent = λ fd. [];
  shut = λ fd. false;
  closed = [];
}

abbrev name_two : List (List ℕ)
name_two = (2 ∷ []) ∷ []

name_two-Announced : Announced name_two
name_two-Announced = (omega arith, omega arith, tt)

deleted : handle_request server 1 name_two ≡ some (true, record server { users = one ∷ [] })
unfolding handle_request user_delete strcmp_eq get_user_index
deleted = refl

request-handled_example :
    (mrq' : MonitorReqParser) × (read_all 7
        (monitor_req_parser_init true 0).1
        server
        os
        (1 ∷ 1 ∷ 2 ∷ 0 ∷ [])
      ≡ some (
        if true then MonitorState.monitor_req else MonitorState.monitor_error,
        mrq',
        record server { users = one ∷ [] },
        if true then set_interest os 7 writing else os,
      ))
request-handled_example =
    request-handled 7 1 0 name_two server (record server { users = one ∷ [] }) os true (omega arith)
      name_two-Announced (inr refl) deleted

two-ne-one : 2 ≢ Action.change_auth_methods
two-ne-one e = absurd (omega (arith, e))

one-ne-two : ◌≢◌ {A = ℕ} 1 2
one-ne-two e = absurd (omega (arith, e))

request-refused_example :
    (mrq' : MonitorReqParser) × (read_all 7
        (monitor_req_parser_init true 0).1
        server
        os
        (2 ∷ 1 ∷ 2 ∷ 0 ∷ [])
      ≡ some (MonitorState.monitor_error, mrq', server, os))
request-refused_example =
    request-refused 7 2 0 2 name_two server os (omega arith) name_two-Announced two-ne-one refl
      one-ne-two

-- the order of the four bytes of a word turned round
abbrev swap : ℕ → ℕ
swap x = x % 256 * 16777216 + x / 256 % 256 * 65536 + x / 65536 % 256 * 256 + x / 16777216 % 256

swap-bounded : (x : ℕ) → x < 4294967296 → swap x < 4294967296
swap-bounded x h = omega arith

swap-swap : (x : ℕ) → x < 4294967296 → swap (swap x) ≡ x
swap-swap x h = omega arith

abbrev asked : MonitorReqParser
asked = record ((monitor_req_parser_init true 0).1) { type = 3; stats = server.stats }

counters_of-reply_example :
    (length (reply swap asked) ≡ 25)
    × ((counters_of swap (drop 1 (reply swap asked))).historic_connections ≡ 3)
    × ((counters_of swap (drop 1 (reply swap asked))).transferred_bytes ≡ 70)
    × ((counters_of swap (drop 1 (reply swap asked))).current_connections ≡ 1)
counters_of-reply_example =
    counters_of-reply swap swap swap-bounded swap-swap asked refl (omega arith) (omega arith)
      (omega arith)
