-- ===== src/MonitorAuth.antt =====
-- src/server/monitor/monitor_auth.c: a monitor's user and password, read one byte at a time. `none`
-- is undefined behaviour: a write behind the array `uname` or `passwd`, or a NULL parser.
pub mod State
pub mod Kind
pub mod Table
pub mod Run
pub mod Steps
pub mod Fields
pub mod Admission
use protos_tpe.Base.{
  ℕ, zero, suc, ◌+◌, Bool, true, false, Option, none, some, List, [], ◌∷◌, ltb, ◌==◌, if◌then◌else◌,
  ◌>>=◌, replicate, u8,
}
use protos_tpe.Os.{Os, RecvReply, SendReply, is_again, note_recv, note_send}
use protos_tpe.Parser
use protos_tpe.Parser.{Parser, Event, no_classes}
use protos_tpe.Users
use protos_tpe.Users.{User, user_login, admin}
use protos_tpe.Users.Text.{c_string}
use protos_tpe.Field.{put_char}
use State
use Kind
use Table.{monitor_auth_parser_def}

-- `monitor_state_t`
pub data MonitorState : Type 0 where
  monitor_auth monitor_req monitor_done monitor_error : MonitorState

-- `monitor_error_t`, with 0 for no error yet
pub data MonitorError : Type 0 where
  no_error user_not_found invalid_username wrong_password lacks_privilege : MonitorError
  io_error incorrect_arguments req_handler_error unknown_error : MonitorError

-- `monitor_auth_parser_t`
pub record MonitorAuthParser : Type 0 where
  pub ulen : ℕ
  pub plen : ℕ
  pub uname_read : ℕ
  pub passwd_read : ℕ
  pub uname : List ℕ
  pub passwd : List ℕ
  pub p : Option Parser

-- The part of `monitor_t` that the authentication works on; `auth_parser` is a member of a union.
pub record Monitor : Type 0 where
  pub user_access_level : ℕ
  pub error : MonitorError
  pub auth_parser : MonitorAuthParser

-- `monitor_auth_parser_init`: the status is OK where memory was given
unfoldable pub monitor_auth_parser_init : Bool → ℕ → Bool × MonitorAuthParser
unfolding Parser.init
monitor_auth_parser_init memory past_end = (
  memory,
  record {
    ulen = 0;
    plen = 0;
    uname_read = 0;
    passwd_read = 0;
    uname = replicate 256 0;
    passwd = replicate 255 0;
    p = Parser.init memory no_classes past_end monitor_auth_parser_def;
  },
)

-- `monitor_auth_finalize`: a byte tells the access level; the parser is freed.
unfoldable pub monitor_auth_finalize : ℕ → Monitor → Os → SendReply → Os
monitor_auth_finalize fd m os answer =
    note_send os fd ((if m.user_access_level == admin then 0 else 1) ∷ []) answer

-- What the switch does with one event: `none` for the state is `break`.
abbrev Outcome : Type 0
Outcome = Option MonitorState × Monitor × Os

-- a refusal, which one byte tells the monitor
abbrev refuse : ℕ → Monitor → Os → SendReply → MonitorError → MonitorState × Monitor × Os
refuse fd m os answer e =
    (MonitorState.monitor_error, record m { error = e }, note_send os fd (1 ∷ []) answer)

-- the login with a whole name and a whole password; `answer` is the kernel's to the `send`
unfoldable pub login :
    List User → ℕ → Monitor → Os → SendReply → List ℕ → List ℕ → MonitorState × Monitor × Os
login us fd m os answer name pass =
    let r = user_login us name pass in
    let m1 : Monitor = elim r.1 [
      | none ↦ m
      | some level ↦ record m { user_access_level = level }
    ] in
    elim r.0 [
      | Users.users_ok ↦
          if m1.user_access_level == 0
          then (MonitorState.monitor_req, m1, os)
          else refuse fd m1 os answer MonitorError.lacks_privilege
      | Users.user_not_found ↦ refuse fd m1 os answer MonitorError.user_not_found
      | Users.wrong_password ↦ refuse fd m1 os answer MonitorError.wrong_password
      | _ ↦ refuse fd m1 os answer m1.error
    ]

-- `case MONITOR_AUTH_EVENT_UNAME`
read_uname : MonitorAuthParser → Event → Option MonitorAuthParser
read_uname map ev = do
  map1 ←
      if ltb map.uname_read map.ulen
      then (do
        array ← put_char map.uname map.uname_read ev.payload
        some (record map { uname = array; uname_read = u8 (map.uname_read + 1) }))
      else some map
  if map1.uname_read == map1.ulen
      then (do p ← map1.p; some (record map1 { p = some (Parser.set_state p State.plen) }))
      else some map1

-- `case MONITOR_AUTH_EVENT_PASSWD`
read_passwd : List User → ℕ → Monitor → Os → SendReply → Event → Option Outcome
read_passwd us fd m os answer ev = do
  let map = m.auth_parser
  map1 ←
      if ltb map.passwd_read map.plen
      then (do
        array ← put_char map.passwd map.passwd_read ev.payload
        some (record map { passwd = array; passwd_read = u8 (map.passwd_read + 1) }))
      else some map
  let m1 : Monitor = record m { auth_parser = map1 }
  if map1.passwd_read == map1.plen
      then (let r = login us fd m1 os answer (c_string map1.uname) (c_string map1.passwd) in
          some (some r.0, r.1, r.2))
      else some (none, m1, os)

-- the switch on the type of an event
on_event : List User → ℕ → Monitor → Os → SendReply → Event → Option Outcome
unfolding read_uname read_passwd
on_event us fd m os answer ev =
    let map = m.auth_parser in
    if ev.type == Kind.ulen
    then some
        (none, record m { auth_parser = record map { ulen = ev.payload; uname_read = 0 } }, os)
    else if ev.type == Kind.uname
    then (do map1 ← read_uname map ev; some (none, record m { auth_parser = map1 }, os))
    else if ev.type == Kind.plen
    then some
        (none, record m { auth_parser = record map { plen = ev.payload; passwd_read = 0 } }, os)
    else if ev.type == Kind.passwd
    then read_passwd us fd m os answer ev
    else if ev.type == Kind.done
    then some (some MonitorState.monitor_req, m, os)
    else some (some MonitorState.monitor_error, record m { error = MonitorError.unknown_error }, os)

abbrev pub Result : Type 0
Result = MonitorState × Monitor × Os

-- the loop over the events
walk : List User → ℕ → SendReply → List Event → Monitor → Os → Option Result
unfolding on_event
walk us fd answer [] m os = some (MonitorState.monitor_auth, m, os)
walk us fd answer (ev ∷ evs) m os =
    let later = λ (m' : Monitor) (os' : Os). walk us fd answer evs m' os' in
    do
      out ← on_event us fd m os answer ev
      elim out.0 [ none ↦ later out.1 out.2 | some s ↦ some (s, out.1, out.2) ]

-- `n <= 0`: the test reads `errno` whether `recv` has set it or not.
no_byte : Monitor → Os → Result
no_byte m os =
    if is_again os.errno
    then (MonitorState.monitor_auth, m, os)
    else (MonitorState.monitor_error, record m { error = MonitorError.io_error }, os)

-- `monitor_auth_read`; `answer` is the kernel's to a `send` that tells a refusal.
unfoldable pub monitor_auth_read :
    List User → ℕ → SendReply → Monitor → Os → RecvReply ℕ → Option Result
unfolding walk no_byte
monitor_auth_read us fd answer m os (RecvReply.received c) = do
  p ← m.auth_parser.p
  p' ← Parser.feed p c
  walk us fd answer (Parser.events p')
      (record m { auth_parser = record (m.auth_parser) { p = some p' } }) os
monitor_auth_read us fd answer m os reply = some (no_byte m (note_recv os reply))
