-- ===== src/MonitorReq.antt =====
-- src/server/monitor/monitor_req.c and monitor_req_utils.c: a monitor's request, read one byte at a
-- time, and what it asks for. `none` is undefined behaviour: an access outside an array, an
-- argument that is not there, or a NULL parser. The `malloc`s of the arguments are taken to succeed.
pub mod Action
pub mod State
pub mod Kind
pub mod Table
pub mod Steps
pub mod Parsed
pub mod Handled
use protos_tpe.Base.{
  ℕ, zero, suc, ◌+◌, Bool, true, false, not, ◌&&◌, Option, none, some, List, [], ◌∷◌, ◌++◌, ltb,
  ◌==◌, if◌then◌else◌, ◌>>=◌, get_elem?, length, u8,
}
use protos_tpe.Os.{Os, RecvReply, SendReply, is_again, note_recv, noop, writing, set_interest}
use protos_tpe.Parser
use protos_tpe.Parser.{Parser, Event, no_classes}
use protos_tpe.Users
use protos_tpe.Users.{User, Status, user_create, user_delete, user_change_password, valid_user}
use protos_tpe.Users.Text.{c_string}
use protos_tpe.Methods.{AuthStatus, change_auth_methods}
use protos_tpe.Stats
use protos_tpe.Stats.{Stats}
use protos_tpe.MonitorAuth.{MonitorState, MonitorError}
use Action
use State
use Kind
use Table.{monitor_req_parser_def}

-- what a request works on: the tables and the counters of the server
pub record Server : Type 0 where
  pub users : List User
  pub methods : List ℕ
  pub stats : Stats

-- `monitor_req_status_t`
pub data ReqStatus : Type 0 where
  status_ok status_err : ReqStatus

-- `monitor_req_parser_t`. An argument is the list of the bytes read of it, before the NUL that is
-- kept behind them; `arguments_read` is how many there are, and a NULL stands behind them. `error` is
-- the field of `monitor_t`.
pub record MonitorReqParser : Type 0 where
  pub type : ℕ
  pub current_argument_length : ℕ
  pub current_argument_read : ℕ
  pub req_status : ReqStatus
  pub arguments : List (List ℕ)
  pub stats : Stats
  pub p : Option Parser
  pub error : MonitorError

-- `monitor_req_parser_init`: the status is OK where memory was given
unfoldable pub monitor_req_parser_init : Bool → ℕ → Bool × MonitorReqParser
unfolding Parser.init Stats.init
monitor_req_parser_init memory past_end = (
  memory,
  record {
    type = 0;
    current_argument_length = 0;
    current_argument_read = 0;
    req_status = ReqStatus.status_ok;
    arguments = [];
    stats = Stats.init;
    p = Parser.init memory no_classes past_end monitor_req_parser_def;
    error = MonitorError.no_error;
  },
)

abbrev pub max_arguments : List ℕ
max_arguments = 3 ∷ 1 ∷ 2 ∷ 0 ∷ 0 ∷ []

abbrev is_ok : Status → Bool
is_ok Users.users_ok = true
is_ok _ = false

abbrev pub to_status : Bool → ReqStatus
to_status true = ReqStatus.status_ok
to_status false = ReqStatus.status_err

-- `case ADD_USER`: a user is created only where `valid_user` has refused the texts
unfoldable pub add_user : Server → List ℕ → List ℕ → ℕ → Option (Bool × Server)
add_user sv uname passwd level =
    if is_ok (valid_user (some uname) (some passwd)) then some (true, sv) else (do
      r ← user_create sv.users (some uname) (some passwd) level
      some (is_ok r.0, record sv { users = r.1 }))

-- the access level: the first byte of its argument, the NUL where it is empty
abbrev pub level_of : List ℕ → ℕ
level_of [] = 0
level_of (c ∷ cs) = c

-- `handle_request`, on the type and the arguments; the statistics are copied to the parser.
unfoldable pub handle_request : Server → ℕ → List (List ℕ) → Option (Bool × Server)
unfolding add_user
handle_request sv type args =
    if type == Action.add_user
    then (do
      uname ← get_elem? args 0
      passwd ← get_elem? args 1
      level ← get_elem? args 2
      add_user sv (c_string uname) (c_string passwd) (level_of level))
    else if type == Action.remove_user
    then (do
      uname ← get_elem? args 0
      let r = user_delete sv.users (some (c_string uname))
      some (is_ok r.0, record sv { users = r.1 }))
    else if type == Action.change_passwd
    then (do
      uname ← get_elem? args 0
      passwd ← get_elem? args 1
      r ← user_change_password sv.users (some (c_string uname)) (some (c_string passwd))
      some (is_ok r.0, record sv { users = r.1 }))
    else if type == Action.statistics
    then some (true, sv)
    else if type == Action.change_auth_methods
    then (do
      r ← change_auth_methods sv.methods (some args)
      some (
        elim r.0 [ AuthStatus.auth_ok ↦ true | AuthStatus.auth_error ↦ false ],
        record sv { methods = r.1 },
      ))
    else some (false, sv)

abbrev pub Result : Type 0
Result = MonitorState × MonitorReqParser × Server × Os

-- the request is handled, and the monitor waits to write where it went well
unfoldable pub finish : ℕ → MonitorReqParser → Server → Os → Option Result
finish fd mrq sv os = do
  r ← handle_request sv mrq.type mrq.arguments
  let mrq1 : MonitorReqParser = record mrq {
    req_status = to_status r.0;
    stats = if mrq.type == Action.statistics then r.1.stats else mrq.stats;
  }
  some (
      if r.0
      then (MonitorState.monitor_req, mrq1, r.1, set_interest os fd writing)
      else (MonitorState.monitor_error, mrq1, r.1, os))

-- an argument length of 0: the end of the request
unfoldable pub end_of_request : ℕ → MonitorReqParser → Server → Os → Option Result
end_of_request fd mrq sv os =
    if mrq.type == Action.change_auth_methods then finish fd mrq sv os else (do
      expected ← get_elem? max_arguments mrq.type
      if length mrq.arguments == expected
          then finish fd mrq sv os
          else some (MonitorState.monitor_error, mrq, sv, os))

-- `case MONITOR_REQ_EVENT_ARGUMENT_LENGTH`; the array of arguments has 255 entries.
read_argument_length :
    ℕ
    → MonitorReqParser
    → Server
    → Os
    → ℕ
    → Option (Option MonitorState × MonitorReqParser × Server × Os)
unfolding end_of_request
read_argument_length fd mrq sv os c =
    if c == 0
    then (if ltb (length mrq.arguments) 255
        then (do r ← end_of_request fd mrq sv os; some (some r.0, r.1, r.2, r.3))
        else none)
    else if ltb (length mrq.arguments + 1) 255
    then some (
      none,
      record mrq {
        current_argument_length = c;
        current_argument_read = 0;
        arguments = mrq.arguments ++ [] ∷ [];
      },
      sv,
      os,
    )
    else none

-- a byte behind those of the last argument
unfoldable pub push_last : List (List ℕ) → ℕ → Option (List (List ℕ))
push_last [] c = none
push_last (a ∷ []) c = some ((a ++ c ∷ []) ∷ [])
push_last (a ∷ b ∷ as') c = do rest ← push_last (b ∷ as') c; some (a ∷ rest)

-- `case MONITOR_REQ_EVENT_ARGUMENT`
read_argument : MonitorReqParser → ℕ → Option MonitorReqParser
read_argument mrq c = do
  mrq1 ←
      if ltb mrq.current_argument_read mrq.current_argument_length
      then (do
        args ← push_last mrq.arguments c
        some (record mrq {
          arguments = args;
          current_argument_read = u8 (mrq.current_argument_read + 1);
        }))
      else some mrq
  if mrq1.current_argument_read == mrq1.current_argument_length
      then (do
        p ← mrq1.p
        some (record mrq1 { p = some (Parser.set_state p State.argument_length) }))
      else some mrq1

-- the switch on the type of an event: `none` for the state is `break`
on_event :
    ℕ
    → MonitorReqParser
    → Server
    → Os
    → Event
    → Option (Option MonitorState × MonitorReqParser × Server × Os)
unfolding read_argument_length read_argument
on_event fd mrq sv os ev =
    if ev.type == Kind.type
    then some (none, record mrq { type = ev.payload }, sv, os)
    else if ev.type == Kind.argument_length
    then read_argument_length fd mrq sv os ev.payload
    else if ev.type == Kind.argument
    then (do mrq1 ← read_argument mrq ev.payload; some (none, mrq1, sv, os))
    else if ev.type == Kind.done
    then some (some MonitorState.monitor_req, mrq, sv, os)
    else some
        (some MonitorState.monitor_error, record mrq { error = MonitorError.unknown_error }, sv, os)

-- the loop over the events
walk : ℕ → List Event → MonitorReqParser → Server → Os → Option Result
unfolding on_event
walk fd [] mrq sv os = some (MonitorState.monitor_req, mrq, sv, os)
walk fd (ev ∷ evs) mrq sv os =
    let later = λ (mrq' : MonitorReqParser) (sv' : Server) (os' : Os). walk fd evs mrq' sv' os' in
    do
      out ← on_event fd mrq sv os ev
      elim out.0 [ none ↦ later out.1 out.2 out.3 | some s ↦ some (s, out.1, out.2, out.3) ]

-- `monitor_req_read`; the test after a `recv` reads `errno` whether `recv` has set it or not.
unfoldable pub monitor_req_read : ℕ → MonitorReqParser → Server → Os → RecvReply ℕ → Option Result
unfolding walk
monitor_req_read fd mrq sv os (RecvReply.received c) = do
  p ← mrq.p
  p' ← Parser.feed p c
  walk fd (Parser.events p') (record mrq { p = some p' }) sv os
monitor_req_read fd mrq sv os reply =
    let os1 : Os = note_recv os reply in
    some (
      if is_again os1.errno
      then (MonitorState.monitor_req, mrq, sv, os1)
      else (MonitorState.monitor_error, record mrq { error = MonitorError.io_error }, sv, os1))
