-- ===== src/Tests/Requested.antt =====
-- Requests of the client 7, and the connections to their destinations.
use protos_tpe.Base.{
  ℕ, zero, suc, ◌+◌, ◌==◌, if◌then◌else◌, ◌≡◌, ◌<◌, inl, refl, true, false, none, some, List, [],
  ◌∷◌, arith, replicate,
}
use protos_tpe.Os.{Os, Errno, Interest, RecvReply, writing, set_interest, update}
use protos_tpe.States.{ClientState}
use protos_tpe.Buffer.{Buffer}
use protos_tpe.Client.{Client, SockAddr, Family, request_parser}
use protos_tpe.Request.{RequestParser, request_read, general_failure, cmd_not_supported}
use protos_tpe.Request.Parsed.{Address, view, fresh, requested, request_read-request}
use protos_tpe.Request.Refused.{request_read-refuses}
use protos_tpe.Request.Chunks.{read_chunks, read_chunks-concat}
use protos_tpe.Connect.{Attempt, ConnectReply, SockOpt, connect_each, try_connect, request_write}
use protos_tpe.Connect.Chosen.{Chosen}
use protos_tpe.Connect.Order.{connect_each-first, connect_each-none, Skipped}
use protos_tpe.Connect.Retry.{try_connect-retry_fails}

abbrev os : Os
os = record {
  errno = Errno.clear;
  interest = λ fd. if fd == 7 then some Interest.reading else none;
  sent = λ fd. [];
  shut = λ fd. false;
  closed = [];
}

abbrev buffer : Buffer
buffer = record { storage = replicate 4 0; limit = 4; read = 0; write = 0 }

abbrev client : Client
client = record {
  client_fd = some 7;
  destination_fd = none;
  active_parser = request_parser;
  client_buffer = buffer;
  destiny_buffer = buffer;
  dest_addr = [];
  dest_addr_base = [];
  dns_req = none;
  err = 0;
  client_closed = false;
  dest_closed = false;
  dest_addr_from_gai = false;
}

request_read-request_example :
    view (
      request_read 7
        (fresh 0)
        client
        os
        (RecvReply.received (5 ∷ 1 ∷ 0 ∷ 3 ∷ 2 ∷ 97 ∷ 98 ∷ 0 ∷ 80 ∷ 9 ∷ []))
        true)
    ≡ some (requested 7 client os true (Address.name (97 ∷ 98 ∷ [])) 80)
request_read-request_example =
    request_read-request 7 0 client os true 0 0 80 (Address.name (97 ∷ 98 ∷ [])) (9 ∷ [])
      (omega arith, omega arith)

request_read-refuses_example :
    let run =
      λ (bs : List ℕ). view (request_read 7 (fresh 0) client os (RecvReply.received bs) true) in
    (run (4 ∷ 1 ∷ [])
      ≡ some (ClientState.request_write, general_failure, client, set_interest os 7 writing))
    × (run (5 ∷ 2 ∷ 1 ∷ [])
        ≡ some (ClientState.request_write, cmd_not_supported, client, set_interest os 7 writing))
    × (run (5 ∷ 1 ∷ 0 ∷ 2 ∷ 1 ∷ [])
        ≡ some (ClientState.error, 0, record client { err = 1 }, set_interest os 7 writing))
request_read-refuses_example =
    request_read-refuses 7 0 client os true 4 2 0 2 (1 ∷ []) (omega arith) (omega arith)
      (omega arith) (omega arith) (omega arith)

read_chunks-concat_example :
    read_chunks 7 true (fresh 0) client os ((5 ∷ 1 ∷ []) ∷ (0 ∷ 1 ∷ 9 ∷ []) ∷ [])
    ≡ request_read 7 (fresh 0) client os (RecvReply.received (5 ∷ 1 ∷ 0 ∷ 1 ∷ 9 ∷ [])) true
read_chunks-concat_example =
    read_chunks-concat 7 true ((5 ∷ 1 ∷ []) ∷ (0 ∷ 1 ∷ 9 ∷ []) ∷ []) (fresh 0) client os

abbrev near : SockAddr
near = record { family = Family.inet; address = 127 ∷ 0 ∷ 0 ∷ 1 ∷ []; port = 0 ∷ 80 ∷ [] }

abbrev far : SockAddr
far = record { family = Family.inet6; address = replicate 16 1; port = 0 ∷ 80 ∷ [] }

-- the first address is refused on the socket 8, the second is under way on the socket 9
abbrev attempts : ℕ → Attempt
attempts i =
    if i == 0
    then Attempt.opened 8 (ConnectReply.failed (Errno.other 111)) true
    else Attempt.opened 9 (ConnectReply.failed Errno.in_progress) true

first_refused : (j : ℕ) → j < 1 → Skipped os (attempts (0 + j))
first_refused zero h = inl refl
first_refused (suc j) h = absurd (omega arith)

connect_each-first_example :
    Chosen
      (fresh 0)
      client
      os
      9
      (near ∷ [])
      (8 ∷ [])
      (ConnectReply.failed Errno.in_progress)
      (connect_each 7 (fresh 0) client os attempts 0 (far ∷ near ∷ []))
connect_each-first_example =
    connect_each-first 7 (fresh 0) attempts (far ∷ []) client os 0 near [] 9
      (ConnectReply.failed Errno.in_progress) true first_refused refl refl refl

abbrev no_sockets : ℕ → Attempt
no_sockets i = Attempt.no_socket (Errno.other 24)

connect_each-none_example :
    let r = connect_each 7 (fresh 0) client os no_sockets 0 (far ∷ near ∷ []) in
    (r.0 ≡ ClientState.error)
    × (r.2.err ≡ 3)
    × (r.2.destination_fd ≡ none)
    × (r.3.closed ≡ [])
    × (r.3.interest ≡ (set_interest os 7 writing).interest)
connect_each-none_example =
    connect_each-none 7 (fresh 0) no_sockets (far ∷ near ∷ []) client os 0 refl (λ j h. omega arith)

abbrev connecting : Client
connecting = record client { destination_fd = some 9; dest_addr = near ∷ far ∷ [] }

abbrev connecting_os : Os
connecting_os = record os { interest = λ fd. some Interest.writing }

abbrev same_number : ℕ → Attempt
same_number i = Attempt.opened 9 ConnectReply.connected true

try_connect-retry_fails_example :
    let r =
      try_connect 9
        (fresh 0)
        connecting
        connecting_os
        (SockOpt.pending (Errno.other 111))
        same_number in
    (r.0 ≡ ClientState.error)
    × (r.2.err ≡ 3)
    × (r.2.destination_fd ≡ none)
    × (r.3.closed ≡ 9 ∷ 9 ∷ [])
    × (r.3.interest 9 ≡ some Interest.writing)
    × (r.3.interest ≡ (set_interest connecting_os 9 writing).interest)
try_connect-retry_fails_example =
    try_connect-retry_fails 9 (fresh 0) connecting connecting_os same_number 9 111 Interest.writing
      refl refl (λ j h. refl)

abbrev served_request : RequestParser
served_request = record {
  p = none;
  atyp = 1;
  cmd = 1;
  addr_len = 0;
  addr_read = 4;
  port_read = 2;
  addr = replicate 255 0;
  ipv4 = replicate 4 0;
  ipv6 = replicate 16 0;
  port = 80;
  reply_status = 0;
}

abbrev replied_out : List ℕ
replied_out = 5 ∷ 0 ∷ 0 ∷ 1 ∷ 127 ∷ 0 ∷ 0 ∷ 1 ∷ 0 ∷ 80 ∷ []

abbrev sent_os : Os
sent_os = record connecting_os { sent = update connecting_os.sent 7 replied_out }
