-- ===== src/Request.antt =====
-- src/server/request.c: the request, the lookup of a name, the connection to the destination, and
-- the reply. `none` is undefined behaviour: a write behind the array `addr`, or a NULL parser. What
-- `malloc` and `calloc` are asked for is taken to be given.
pub mod State
pub mod Table
pub mod Name
pub mod Chunks
pub mod Parsed
pub mod Refused
use protos_tpe.Base.{
  ℕ, zero, suc, ◌+◌, ◌*◌, ◌/◌, ◌%◌, Bool, true, false, not, ◌&&◌, ◌||◌, Option, none, some, List,
  [], ◌∷◌, ◌++◌, ltb, ◌==◌, if◌then◌else◌, ◌>>=◌, length, set, take, replicate, u8,
}
use protos_tpe.Os.{
  Os, Errno, RecvReply, SendReply, Interest, noop, reading, writing, is_again, took_all,
  set_interest, note_recv, note_send,
}
use protos_tpe.Parser
use protos_tpe.Parser.{Parser, Event, no_classes}
use protos_tpe.Users.Text.{c_string}
use protos_tpe.States.{ClientState}
use protos_tpe.Client.{
  Client, SockAddr, DnsRequest, Family, inet, inet6, no_parser, request_parser, free_destination,
}
use State
use Table
use Table.{request_parser_def}

-- `request_parser_t`; the socket address that it holds is made where it is used.
pub record RequestParser : Type 0 where
  pub p : Option Parser
  pub atyp : ℕ
  pub cmd : ℕ
  pub addr_len : ℕ
  pub addr_read : ℕ
  pub port_read : ℕ
  pub addr : List ℕ
  pub ipv4 : List ℕ
  pub ipv6 : List ℕ
  pub port : ℕ
  pub reply_status : ℕ

abbrev pub reply_success : ℕ
reply_success = 0

abbrev pub general_failure : ℕ
general_failure = 1

abbrev pub network_unreachable : ℕ
network_unreachable = 3

abbrev pub host_unreachable : ℕ
host_unreachable = 4

abbrev pub cmd_not_supported : ℕ
cmd_not_supported = 7

abbrev pub atyp_not_supported : ℕ
atyp_not_supported = 8

abbrev pub cmd_connect : ℕ
cmd_connect = 1

-- `request_parser_init`: the status is OK where memory was given
unfoldable pub request_parser_init : Bool → ℕ → Bool × RequestParser
unfolding Parser.init
request_parser_init memory past_end = (
  memory,
  record {
    p = Parser.init memory no_classes past_end request_parser_def;
    atyp = 0;
    cmd = 0;
    addr_len = 0;
    addr_read = 0;
    port_read = 0;
    addr = replicate 255 0;
    ipv4 = replicate 4 0;
    ipv6 = replicate 16 0;
    port = 0;
    reply_status = 0;
  },
)

-- what a handler leaves behind
abbrev pub Result : Type 0
Result = ClientState × RequestParser × Client × Os

-- `setup_lookup`; `started` says whether `getaddrinfo_a` has taken the lookup.
unfoldable pub setup_lookup : ℕ → RequestParser → Client → Os → Bool → List ℕ → ℕ → Result
setup_lookup fd rp client os started name port =
    if started
    then (
      ClientState.dns_lookup,
      rp,
      record client { dns_req = some (record { name = name; service = port }) },
      os,
    )
    else (
      ClientState.request_write,
      record rp { reply_status = host_unreachable },
      record client { dns_req = none },
      set_interest os fd writing,
    )

-- one address to connect to, which is no result of a lookup
abbrev pub single : Client → SockAddr → Client
single client a = record client {
  dest_addr = a ∷ [];
  dest_addr_base = a ∷ [];
  dest_addr_from_gai = false;
}

-- the two bytes of `htons(port)`, as they stand in memory
abbrev pub port_bytes : ℕ → List ℕ
port_bytes port = port / 256 ∷ port % 256 ∷ []

-- `handle_request_fin`
unfoldable pub handle_request_fin : ℕ → RequestParser → Client → Os → Bool → Result
unfolding setup_lookup
handle_request_fin fd rp client os started =
    let os1 = set_interest os fd writing in
    if rp.atyp == Table.domainname
    then setup_lookup fd rp client os1 started (c_string rp.addr) rp.port
    else if rp.atyp == Table.ipv4
    then (
      ClientState.dest_connect,
      rp,
      single client (record { family = Family.inet; address = rp.ipv4; port = port_bytes rp.port }),
      os1,
    )
    else if rp.atyp == Table.ipv6
    then (
      ClientState.dest_connect,
      rp,
      single client
          (record { family = Family.inet6; address = rp.ipv6; port = port_bytes rp.port }),
      os1,
    )
    else (ClientState.error, rp, record client { err = 8 }, os1)

-- What the switch does with an event: `none` for the state is `break`.
abbrev Outcome : Type 0
Outcome = Option ClientState × RequestParser × Client × Os

abbrev leave : Result → Outcome
leave (st, rp, client, os) = (some st, rp, client, os)

-- a refusal that REQUEST_WRITE will tell
abbrev pub refuse : ℕ → RequestParser → Client → Os → ℕ → Result
refuse fd rp client os status = (
  ClientState.request_write,
  record rp { reply_status = status },
  client,
  set_interest os fd writing,
)

-- a failure, with an interest in writing
abbrev pub fail : ℕ → RequestParser → Client → Os → ℕ → Result
fail fd rp client os err =
    (ClientState.error, rp, record client { err = err }, set_interest os fd writing)

-- `rp->addr[rp->addr_read++] = c`
unfoldable pub put_addr : RequestParser → ℕ → Option RequestParser
put_addr rp c =
    if ltb rp.addr_read (length rp.addr)
    then some (record rp { addr = set rp.addr rp.addr_read c; addr_read = u8 (rp.addr_read + 1) })
    else none

-- `rp->addr[rp->addr_read] = 0`
unfoldable pub end_addr : RequestParser → Option RequestParser
end_addr rp =
    if ltb rp.addr_read (length rp.addr)
    then some (record rp { addr = set rp.addr rp.addr_read 0 })
    else none

-- `parser_set_state(rp->p, state)`
abbrev goto_state : RequestParser → ℕ → Option RequestParser
goto_state rp s = do p ← rp.p; some (record rp { p = some (Parser.set_state p s) })

read_ipv4 : RequestParser → ℕ → Option RequestParser
read_ipv4 rp c = do
  rp1 ← if ltb rp.addr_read 4 then put_addr rp c else some rp
  if rp1.addr_read == 4
      then (do rp2 ← end_addr (record rp1 { ipv4 = take 4 rp1.addr }); goto_state rp2 State.dstport)
      else some rp1

read_ipv6 : RequestParser → ℕ → Option RequestParser
read_ipv6 rp c = do
  rp1 ← if ltb rp.addr_read 16 then put_addr rp c else some rp
  if rp1.addr_read == 16
      then goto_state (record rp1 { ipv6 = take 16 rp1.addr }) State.dstport
      else some rp1

read_domainname : RequestParser → ℕ → Option RequestParser
read_domainname rp c = if rp.addr_len == 0 then some (record rp { addr_len = c }) else (do
  rp1 ← if ltb rp.addr_read rp.addr_len then put_addr rp c else some rp
  if rp1.addr_len == rp1.addr_read
      then (do rp2 ← end_addr rp1; goto_state rp2 State.dstport)
      else some rp1)

-- the loop over the events of the byte that is fed behind the port
fin_walk : ℕ → RequestParser → Client → Os → Bool → List Event → Outcome
fin_walk fd rp client os started [] = (none, rp, client, os)
fin_walk fd rp client os started (ev ∷ evs) =
    let later = fin_walk fd rp client os started evs in
    if ev.type == State.fin
    then leave (handle_request_fin fd rp client os started)
    else if ev.type == State.error
    then leave (fail fd rp client os 1)
    else later

-- `case REQUEST_STATE_DSTPORT`; in the second byte's `|=` the two have no bit in common.
read_port : ℕ → RequestParser → Client → Os → Bool → ℕ → Option Outcome
unfolding fin_walk
read_port fd rp client os started c =
    if rp.port_read == 0
    then some (none, record rp { port = c * 256; port_read = 1 }, client, os)
    else (do
      rp1 ← goto_state (record rp { port = rp.port + c; port_read = 2 }) State.fin
      p ← rp1.p
      p' ← Parser.feed p 0
      some (fin_walk fd (record rp1 { p = some p' }) client os started (Parser.events p')))

-- the switch on the type of an event
on_event : ℕ → RequestParser → Client → Os → Bool → Event → Option Outcome
unfolding read_ipv4 read_ipv6 read_domainname read_port
on_event fd rp client os started ev =
    let c = ev.payload in
    if ev.type == State.fin
    then some (leave (handle_request_fin fd rp client os started))
    else if ev.type == State.error
    then some (leave (fail fd rp client os 1))
    else if ev.type == State.cmd
    then some (
        let rp1 : RequestParser = record rp { cmd = c } in
        if not (c == cmd_connect)
        then leave (refuse fd rp1 client os cmd_not_supported)
        else (none, rp1, client, os))
    else if ev.type == State.atyp
    then some (
        if not (c == Table.ipv4) && not (c == Table.ipv6) && not (c == Table.domainname)
        then leave (refuse fd rp client os atyp_not_supported)
        else (none, record rp { atyp = c }, client, os))
    else if ev.type == State.dstaddr_ipv4
    then (do rp1 ← read_ipv4 rp c; some (none, rp1, client, os))
    else if ev.type == State.dstaddr_ipv6
    then (do rp1 ← read_ipv6 rp c; some (none, rp1, client, os))
    else if ev.type == State.dstaddr_domainname
    then (do rp1 ← read_domainname rp c; some (none, rp1, client, os))
    else if ev.type == State.dstport
    then read_port fd rp client os started c
    else if ev.type == State.ver
    then some (
        if not (c == 5)
        then leave (refuse fd rp client os general_failure)
        else (none, rp, client, os))
    else if ev.type == State.rsv
    then some (none, rp, client, os)
    else some (some ClientState.error, rp, record client { err = 1 }, set_interest os fd noop)

-- the body of the loop, for one byte: only the first event is looked at
unfoldable pub read_one : ℕ → RequestParser → Client → Os → Bool → ℕ → Option Outcome
unfolding on_event
read_one fd rp client os started c = do
  p ← rp.p
  p' ← Parser.feed p c
  on_event fd (record rp { p = some p' }) client os started p'.e1

-- The loop over the bytes received; the bytes behind the one that leaves it are dropped.
unfoldable pub read_bytes : ℕ → RequestParser → Client → Os → Bool → List ℕ → Option Result
read_bytes fd rp client os started [] = some (ClientState.request_read, rp, client, os)
read_bytes fd rp client os started (c ∷ cs) =
    let later = λ (rp' : RequestParser) (client' : Client) (os' : Os).
      read_bytes fd rp' client' os' started cs in
    do
      out ← read_one fd rp client os started c
      elim out.0 [ none ↦ later out.1 out.2 out.3 | some st ↦ some (st, out.1, out.2, out.3) ]

abbrev try_later : Errno → Bool
try_later Errno.in_progress = true
try_later e = is_again e

-- `request_read`, of up to 1024 bytes
unfoldable pub request_read :
    ℕ → RequestParser → Client → Os → RecvReply (List ℕ) → Bool → Option Result
unfolding read_bytes
request_read fd rp client os (RecvReply.received bs) started = read_bytes fd rp client os started bs
request_read fd rp client os RecvReply.closed started = some (fail fd rp client os 1)
request_read fd rp client os (RecvReply.failed e) started =
    let os1 : Os = record os { errno = e } in
    some
      (if try_later e then (ClientState.request_read, rp, client, os1) else fail fd rp client os1 1)
