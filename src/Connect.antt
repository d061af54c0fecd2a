-- ===== src/Connect.antt =====
-- src/server/request.c: the lookup of a name, the connection to the destination, and the reply. What
-- the kernel and the resolver answer are arguments: the status of a lookup, what a socket's pending
-- error is, and for each address in turn what `socket`, `connect` and the memory for the selector's
-- table give.
pub mod Chosen
pub mod Order
pub mod Reply
pub mod Retry
use protos_tpe.Base.{
  ℕ, ◌+◌, Bool, true, false, not, ◌&&◌, ◌||◌, Option, none, some, List, [], ◌∷◌, ◌++◌, ltb, ◌==◌,
  if◌then◌else◌, length, replicate,
}
use protos_tpe.Os.{
  Os, Errno, SendReply, Interest, noop, reading, writing, took_all, set_interest, note_send, update,
}
use protos_tpe.States.{ClientState}
use protos_tpe.Client.{Client, SockAddr, Family, request_parser, no_parser, free_destination}
use protos_tpe.Request.{
  RequestParser, Result, fail, reply_success, general_failure, network_unreachable,
  host_unreachable,
}

-- What `gai_error` tells of a lookup; `resolved` has the chain of its addresses.
pub data Lookup : Type 0 where
  in_progress : Lookup
  resolved : List SockAddr → Lookup
  eai_noname eai_fail eai_again eai_system eai_other : Lookup

-- the status of a lookup that failed
abbrev pub lookup_status : Lookup → ℕ
lookup_status Lookup.eai_noname = network_unreachable
lookup_status Lookup.eai_fail = network_unreachable
lookup_status Lookup.eai_again = host_unreachable
lookup_status Lookup.eai_system = host_unreachable
lookup_status _ = general_failure

-- a lookup that failed
abbrev lookup_failed : ℕ → RequestParser → Client → Os → Lookup → Result
lookup_failed fd rp client os status =
    fail fd (record rp { reply_status = lookup_status status }) (record client { dns_req = none })
      (set_interest os fd noop) 4

-- `dns_lookup`, behind its test for a request
answered : ℕ → RequestParser → Client → Os → Lookup → Result
answered fd rp client os Lookup.in_progress =
    (ClientState.dns_lookup, rp, client, set_interest os fd writing)
answered fd rp client os (Lookup.resolved addrs) = (
  ClientState.dest_connect,
  rp,
  record client {
    dest_addr = addrs;
    dest_addr_base = addrs;
    dest_addr_from_gai = true;
    dns_req = none;
  },
  set_interest os fd writing,
)
answered fd rp client os status = lookup_failed fd rp client os status

unfoldable pub dns_lookup : ℕ → RequestParser → Client → Os → Lookup → Result
unfolding answered
dns_lookup fd rp client os status = elim client.dns_req [
  | none ↦ fail fd rp client os 4
  | some r ↦ answered fd rp client os status
]

-- A return of `getsockopt` for SO_ERROR: the pending error, `clear` for none, or -1 with `errno`.
pub data SockOpt : Type 0 where
  pending : Errno → SockOpt
  failed : Errno → SockOpt

-- A return of `connect`: 0, or -1 with `errno`.
pub data ConnectReply : Type 0 where
  connected : ConnectReply
  failed : Errno → ConnectReply

-- What the kernel answers for one address: no socket; or a socket, the return of `connect`, and
-- whether there is memory for the selector's table.
pub data Attempt : Type 0 where
  no_socket : Errno → Attempt
  opened : ℕ → ConnectReply → Bool → Attempt

-- `close(fd)`
abbrev pub close : Os → ℕ → Os
close os fd = record os { closed = fd ∷ os.closed }

-- `selector_set_interest` on a descriptor that may be -1
abbrev pub set_interest_of : Os → Option ℕ → Interest → Os
set_interest_of os none i = os
set_interest_of os (some fd) i = set_interest os fd i

-- Whether `selector_register` takes the descriptor: it is below FD_SETSIZE and has no entry, and
-- memory was given where the table had to grow.
abbrev pub registers : Os → ℕ → Bool → Bool
registers os fd memory = elim (os.interest fd) [ none ↦ ltb fd 1024 && memory | some i ↦ false ]

-- its entry, with OP_WRITE
abbrev pub register : Os → ℕ → Os
register os fd = record os { interest = update os.interest fd (some writing) }

-- Whether `status == 0 || errno == EINPROGRESS`.
abbrev pub under_way : ConnectReply → Bool
under_way ConnectReply.connected = true
under_way (ConnectReply.failed Errno.in_progress) = true
under_way (ConnectReply.failed _) = false

abbrev pub note_connect : Os → ConnectReply → Os
note_connect os ConnectReply.connected = record os { errno = Errno.clear }
note_connect os (ConnectReply.failed e) = record os { errno = e }

-- a connection that is made
abbrev pub made : RequestParser → Client → Os → Result
made rp client os = (
  ClientState.request_write,
  record rp { reply_status = reply_success },
  client,
  set_interest_of os client.client_fd writing,
)

-- behind a `connect` to a socket that was registered
abbrev pub settle : RequestParser → Client → Os → ConnectReply → Result
settle rp client os ConnectReply.connected = made rp client os
settle rp client os (ConnectReply.failed e) = (ClientState.dest_connect, rp, client, os)

-- The loop over the addresses; `attempts i` is the kernel's answer for the first one of them.
unfoldable pub connect_each :
    ℕ → RequestParser → Client → Os → (ℕ → Attempt) → ℕ → List SockAddr → Result
connect_each fd rp client os attempts i [] = fail fd rp client os 3
connect_each fd rp client os attempts i (a ∷ addrs) =
    let later =
      λ (client' : Client) (os' : Os). connect_each fd rp client' os' attempts (i + 1) addrs in
    elim (attempts i) [
      | Attempt.no_socket e ↦ later client (record os { errno = e })
      | Attempt.opened s reply memory ↦
          let os1 = note_connect os reply in
          (elim (under_way reply) [
            | true ↦ (elim (registers os1 s memory) [
              | true ↦
                  settle rp (record client { destination_fd = some s; dest_addr = a ∷ addrs })
                    (register os1 s) reply
              | false ↦
                  later (record client { destination_fd = none; dest_addr = a ∷ addrs })
                    (close os1 s)
            ])
            | false ↦ later client (close os1 s)
          ])
    ]

-- the chain behind its first address; a NULL chain stays
abbrev pub next_addr : List SockAddr → List SockAddr
next_addr [] = []
next_addr (a ∷ addrs) = addrs

-- behind a connection that failed
abbrev retry : ℕ → RequestParser → Client → Os → (ℕ → Attempt) → ℕ → Result
retry fd rp client os attempts s =
    connect_each fd rp
      (record client { destination_fd = none; dest_addr = next_addr client.dest_addr }) (close os s)
      attempts 0 (next_addr client.dest_addr)

-- what the pending error of the destination's socket `s` leads to
on_pending : ℕ → RequestParser → Client → Os → (ℕ → Attempt) → ℕ → Errno → Result
on_pending fd rp client os attempts s Errno.clear = made rp client os
on_pending fd rp client os attempts s Errno.in_progress = (ClientState.dest_connect, rp, client, os)
on_pending fd rp client os attempts s Errno.already = (ClientState.dest_connect, rp, client, os)
on_pending fd rp client os attempts s e = retry fd rp client os attempts s

-- `try_connect`
unfoldable pub try_connect : ℕ → RequestParser → Client → Os → SockOpt → (ℕ → Attempt) → Result
unfolding on_pending
try_connect fd rp client os opt attempts = elim client.destination_fd [
  | none ↦ connect_each fd rp client os attempts 0 client.dest_addr
  | some s ↦ (elim opt [
    | SockOpt.failed e ↦
        (ClientState.error, rp, client, set_interest (record os { errno = e }) fd noop)
    | SockOpt.pending e ↦ on_pending fd rp client os attempts s e
  ])
]

-- The address that the reply tells: that of the destination's socket, where there is one and
-- `getsockname` tells it (`some`), and else 0.0.0.0 and the port 0.
abbrev pub bound : Client → Option SockAddr → SockAddr
bound client name =
    let unset : SockAddr = record {
      family = Family.inet;
      address = replicate 4 0;
      port = 0 ∷ 0 ∷ [];
    } in
    elim client.destination_fd [ none ↦ unset | some s ↦ (elim name [ none ↦ unset | some a ↦ a ]) ]

-- the reply, behind its first three bytes
abbrev pub reply_address : SockAddr → List ℕ
reply_address a = elim a.family [
  | Family.inet ↦ 1 ∷ (a.address ++ a.port)
  | Family.inet6 ↦ 4 ∷ (a.address ++ a.port)
  | Family.other_family ↦ []
]

abbrev pub reply : ℕ → SockAddr → List ℕ
reply status a = 5 ∷ status ∷ 0 ∷ reply_address a

-- `send` on the client's descriptor, which may be -1
abbrev pub send_client : Os → Option ℕ → List ℕ → SendReply → Os
send_client os none out r = note_send os 0 [] r
send_client os (some fd) out r = note_send os fd out r

-- `destroy_active_parser`, of a client whose parser is the request's
unfoldable pub destroy_request_parser : RequestParser → Client → RequestParser × Client
destroy_request_parser rp client = (
  (elim client.active_parser [ request_parser ↦ record rp { p = none } | _ ↦ rp ]),
  record client { active_parser = no_parser },
)

-- what follows a reply that was sent, behind the parser's and the addresses' end
next_stage : ℕ → RequestParser → Client → Os → Result
next_stage fd rp client os =
    let done : Result = (
      ClientState.done,
      rp,
      record client { client_closed = true; dest_closed = true },
      set_interest os fd noop,
    ) in
    elim client.destination_fd [
      | none ↦ done
      | some s ↦ if not (rp.reply_status == reply_success) then done else (
        ClientState.forwarding,
        rp,
        client,
        set_interest (set_interest_of os client.client_fd reading) s reading,
      )
    ]

-- behind a reply that was sent
replied : ℕ → RequestParser → Client → Os → Result
unfolding next_stage
replied fd rp client os =
    let parted = destroy_request_parser rp client in
    next_stage fd parted.0 (free_destination parted.1) os

-- the sending of the reply `out`
write_reply : ℕ → RequestParser → Client → Os → List ℕ → SendReply → Result
unfolding replied
write_reply fd rp client os out r =
    let os1 = send_client os client.client_fd out r in
    if took_all r (length out) then replied fd rp client os1 else fail fd rp client os1 1

-- `request_write`; `name` is what `getsockname` tells of the destination's socket.
unfoldable pub request_write :
    ℕ → RequestParser → Client → Os → Option SockAddr → SendReply → Result
unfolding write_reply
request_write fd rp client os name r =
    write_reply fd rp client os (reply rp.reply_status (bound client name)) r
