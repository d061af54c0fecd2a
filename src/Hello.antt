-- ===== src/Hello.antt =====
-- src/server/hello.c: the greeting, read one byte at a time, and the reply to it. A method, an
-- int8_t in the array, is kept as its bit pattern. `none` is an abort or undefined behaviour.
pub mod State
pub mod Kind
pub mod Table
pub mod Select
pub mod Run
pub mod Greeting
use protos_tpe.Base.{
  zero, suc, ℕ, ◌+◌, Bool, true, false, ◌||◌, Option, none, some, List, [], ◌∷◌, ltb, ◌==◌,
  if◌then◌else◌, ◌>>=◌, get_elem?, set, replicate, u8,
}
use protos_tpe.Os.{
  Os, RecvReply, received, closed, SendReply, is_again, Interest, reading, writing, set_interest,
  note_recv, took_all, note_send,
}
use protos_tpe.Parser
use protos_tpe.Parser.{Parser, Event, Action, Transition, Definition, any, no_classes}
use protos_tpe.Methods.{accepted_method, no_auth, no_method_accepted}
use protos_tpe.States.{ClientState}
use State
use Kind
use Table.{hello_parser_def}

-- `hello_parser_t`; `p` is `none` for NULL.
pub record HelloParser : Type 0 where
  pub ver : ℕ
  pub nmethods : ℕ
  pub methods : List ℕ
  pub methods_read : ℕ
  pub method_selected : ℕ
  pub p : Option Parser

abbrev pub protocol_version : ℕ
protocol_version = 5

-- `hello_parser_init`: the status is OK where memory was given
unfoldable pub hello_parser_init : Bool → ℕ → Bool × HelloParser
unfolding Parser.init
hello_parser_init memory past_end = (
  memory,
  record {
    ver = 0;
    nmethods = 0;
    methods = replicate 255 0;
    methods_read = 0;
    method_selected = 0;
    p = Parser.init memory no_classes past_end hello_parser_def;
  },
)

-- the body of the loop that chooses a method
unfoldable pub choose : ℕ → ℕ → ℕ
choose selected m = if selected == no_method_accepted || ltb selected m then m else selected

-- The loop over the methods received; the flag is `found`.
unfoldable pub select_from : List ℕ → List ℕ → ℕ → ℕ → Bool × ℕ → Option (Bool × ℕ)
select_from accepted methods i zero acc = some acc
select_from accepted methods i (suc left) (found, selected) = do
  m ← get_elem? methods i
  ok ← accepted_method accepted m
  select_from accepted methods (i + 1) left
      (if ok then (true, choose selected m) else (found, selected))

unfoldable pub select_method : List ℕ → List ℕ → ℕ → Option ℕ
unfolding select_from choose
select_method accepted methods nmethods = do
  r ← select_from accepted methods 0 nmethods (false, no_method_accepted)
  some (if r.0 then r.1 else no_method_accepted)

-- What the switch of `hello_read` does with one event: `none` for the state is `break`.
abbrev Outcome : Type 0
Outcome = Option ClientState × HelloParser × Os

-- `case HELLO_EVENT_METHOD`
read_method : List ℕ → ℕ → HelloParser → Os → Event → Option Outcome
read_method accepted fd hp os ev = do
  hp1 ←
      if ltb hp.methods_read hp.nmethods
      then (if ltb hp.methods_read 255
          then some (record hp {
            methods = set hp.methods hp.methods_read ev.payload;
            methods_read = u8 (hp.methods_read + 1);
          })
          else none)
      else some hp
  if hp1.methods_read == hp1.nmethods
      then (do
        m ← select_method accepted hp1.methods hp1.nmethods
        p ← hp1.p
        some (
          some ClientState.hello_write,
          record hp1 { method_selected = m; p = some (Parser.reset p) },
          set_interest os fd writing,
        ))
      else some (none, hp1, os)

-- the switch on the type of an event
on_event : List ℕ → ℕ → HelloParser → Os → Event → Option Outcome
unfolding read_method
on_event accepted fd hp os ev =
    if ev.type == Kind.ver
    then some (
      if ev.payload == protocol_version then none else some ClientState.error,
      record hp { ver = ev.payload },
      os,
    )
    else if ev.type == Kind.nmethods
    then (if ev.payload == 0
        then some (some ClientState.error, hp, os)
        else some (none, record hp { nmethods = ev.payload; methods_read = 0 }, os))
    else if ev.type == Kind.method
    then read_method accepted fd hp os ev
    else if ev.type == Kind.done
    then some (none, hp, os)
    else some (some ClientState.error, hp, os)

abbrev pub Result : Type 0
Result = ClientState × HelloParser × Os

-- the loop over the events
walk : List ℕ → ℕ → List Event → HelloParser → Os → Option Result
unfolding on_event
walk accepted fd [] hp os = some (ClientState.hello_read, hp, os)
walk accepted fd (ev ∷ evs) hp os =
    let later = λ (hp' : HelloParser) (os' : Os). walk accepted fd evs hp' os' in
    do
      out ← on_event accepted fd hp os ev
      elim out.0 [ none ↦ later out.1 out.2 | some s ↦ some (s, out.1, out.2) ]

-- `n <= 0`: the test reads `errno` whether `recv` has set it or not.
no_byte : ℕ → HelloParser → Os → Result
no_byte client_fd hp os =
    if is_again os.errno
    then (ClientState.hello_read, hp, os)
    else (ClientState.error, hp, set_interest os client_fd writing)

unfoldable pub hello_read : List ℕ → ℕ → ℕ → HelloParser → Os → RecvReply ℕ → Option Result
unfolding walk no_byte
hello_read accepted fd client_fd hp os (RecvReply.received c) = do
  p ← hp.p
  p' ← Parser.feed p c
  walk accepted fd (Parser.events p') (record hp { p = some p' }) os
hello_read accepted fd client_fd hp os reply = some (no_byte client_fd hp (note_recv os reply))

abbrev pub hello_reply : HelloParser → List ℕ
hello_reply hp = protocol_version ∷ hp.method_selected ∷ []

unfoldable pub hello_write : ℕ → HelloParser → Os → SendReply → ClientState × Os
hello_write fd hp os reply =
    let os1 : Os = note_send os fd (hello_reply hp) reply in
    if took_all reply 2
    then (
      if hp.method_selected == no_auth then ClientState.request_read else ClientState.auth_read,
      set_interest os1 fd reading,
    )
    else (ClientState.error, os1)
