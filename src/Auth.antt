-- ===== src/Auth.antt =====
-- src/server/auth.c: the user/password sub-negotiation, read one byte at a time, and its reply.
-- `none` is undefined behaviour: a write behind the array `uname` or `passwd`, or a NULL parser.
pub mod State
pub mod Kind
pub mod Table
pub mod Run
pub mod Steps
pub mod Fields
pub mod Negotiation
pub mod Grant
pub mod Overrun
use protos_tpe.Base.{
  ℕ, ◌+◌, Bool, true, false, not, ◌&&◌, Option, none, some, List, [], ◌∷◌, ltb, ◌==◌, if◌then◌else◌,
  ◌>>=◌, replicate, u8,
}
use protos_tpe.Os.{
  Os, RecvReply, SendReply, is_again, took_all, noop, reading, writing, set_interest, note_recv,
  note_send,
}
use protos_tpe.Parser
use protos_tpe.Parser.{Parser, Event, no_classes}
use protos_tpe.Users
use protos_tpe.Users.{User, user_login}
use protos_tpe.Users.Text.{c_string}
use protos_tpe.Field.{put_char}
use protos_tpe.States.{ClientState}
use State
use Kind
use Table.{auth_parser_def}

-- `auth_parser_t`; `methods_accepted` is never used.
pub record AuthParser : Type 0 where
  pub ver : ℕ
  pub ulen : ℕ
  pub uname : List ℕ
  pub uname_read : ℕ
  pub plen : ℕ
  pub passwd : List ℕ
  pub passwd_read : ℕ
  pub auth_status : ℕ
  pub auth_done : Bool
  pub p : Option Parser

abbrev pub auth_version : ℕ
auth_version = 1

abbrev pub auth_success : ℕ
auth_success = 0

abbrev pub auth_failure : ℕ
auth_failure = 1

-- `auth_parser_init`: the status is OK where memory was given
unfoldable pub auth_parser_init : Bool → ℕ → Bool × AuthParser
unfolding Parser.init
auth_parser_init memory past_end = (
  memory,
  record {
    ver = 0;
    ulen = 0;
    uname = replicate 255 0;
    uname_read = 0;
    plen = 0;
    passwd = replicate 255 0;
    passwd_read = 0;
    auth_status = 0;
    auth_done = false;
    p = Parser.init memory no_classes past_end auth_parser_def;
  },
)

-- What the switch does with one event: `none` for the state is `break`.
abbrev Outcome : Type 0
Outcome = Option ClientState × AuthParser × Os

-- `case AUTH_EVENT_UNAME`
read_uname : AuthParser → Os → Event → Option Outcome
read_uname ap os ev = do
  ap1 ←
      if ltb ap.uname_read ap.ulen
      then (do
        array ← put_char ap.uname ap.uname_read ev.payload
        some (record ap { uname = array; uname_read = u8 (ap.uname_read + 1) }))
      else some ap
  if ap1.uname_read == ap1.ulen
      then (do p ← ap1.p; some (none, record ap1 { p = some (Parser.set_state p State.plen) }, os))
      else some (none, ap1, os)

-- the user is known and the password is the user's
unfoldable pub login_status : List User → List ℕ → List ℕ → ℕ
login_status us name pass = elim (user_login us name pass).0 [
  | Users.users_ok ↦ auth_success
  | _ ↦ auth_failure
]

-- `case AUTH_EVENT_PASSWD`
read_passwd : List User → ℕ → AuthParser → Os → Event → Option Outcome
read_passwd us fd ap os ev = do
  ap1 ←
      if ltb ap.passwd_read ap.plen
      then (do
        array ← put_char ap.passwd ap.passwd_read ev.payload
        some (record ap { passwd = array; passwd_read = u8 (ap.passwd_read + 1) }))
      else some ap
  if ap1.passwd_read == ap1.plen && not ap1.auth_done
      then some (
        some ClientState.auth_write,
        record ap1 {
          auth_status = login_status us (c_string ap1.uname) (c_string ap1.passwd);
          auth_done = true;
        },
        set_interest os fd writing,
      )
      else some (none, ap1, os)

-- the switch on the type of an event
on_event : List User → ℕ → AuthParser → Os → Event → Option Outcome
unfolding read_uname read_passwd
on_event us fd ap os ev =
    if ev.type == Kind.ver
    then some (
      if ev.payload == auth_version then none else some ClientState.error,
      record ap { ver = ev.payload },
      os,
    )
    else if ev.type == Kind.ulen
    then some (none, record ap { ulen = ev.payload; uname_read = 0 }, os)
    else if ev.type == Kind.uname
    then read_uname ap os ev
    else if ev.type == Kind.plen
    then some (none, record ap { plen = ev.payload; passwd_read = 0 }, os)
    else if ev.type == Kind.passwd
    then read_passwd us fd ap os ev
    else some (some ClientState.error, ap, os)

abbrev pub Result : Type 0
Result = ClientState × AuthParser × Os

-- the loop over the events
walk : List User → ℕ → List Event → AuthParser → Os → Option Result
unfolding on_event
walk us fd [] ap os = some (ClientState.auth_read, ap, os)
walk us fd (ev ∷ evs) ap os =
    let later = λ (ap' : AuthParser) (os' : Os). walk us fd evs ap' os' in
    do
      out ← on_event us fd ap os ev
      elim out.0 [ none ↦ later out.1 out.2 | some s ↦ some (s, out.1, out.2) ]

-- `n <= 0`: the test reads `errno` whether `recv` has set it or not.
no_byte : AuthParser → Os → Result
no_byte ap os = (if is_again os.errno then ClientState.auth_read else ClientState.error, ap, os)

unfoldable pub auth_read : List User → ℕ → AuthParser → Os → RecvReply ℕ → Option Result
unfolding walk no_byte
auth_read us fd ap os (RecvReply.received c) = do
  p ← ap.p
  p' ← Parser.feed p c
  walk us fd (Parser.events p') (record ap { p = some p' }) os
auth_read us fd ap os reply = some (no_byte ap (note_recv os reply))

abbrev pub auth_response : AuthParser → List ℕ
auth_response ap = auth_version ∷ ap.auth_status ∷ []

unfoldable pub auth_write : ℕ → AuthParser → Os → SendReply → ClientState × Os
auth_write fd ap os reply =
    let os1 : Os = note_send os fd (auth_response ap) reply in
    if not (took_all reply 2)
    then (ClientState.error, set_interest os1 fd noop)
    else if ap.auth_status == auth_failure
    then (ClientState.error, set_interest os1 fd noop)
    else if ap.auth_status == auth_success
    then (ClientState.request_read, set_interest os1 fd reading)
    else (ClientState.error, os1)
