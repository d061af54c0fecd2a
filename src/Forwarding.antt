-- ===== src/Forwarding.antt =====
-- src/server/forwarding.c: the relay between the client and the destination, once connected.
-- `none` is a failed `assert` of the buffers.
pub mod Conserve
pub mod Send
pub mod Receive
pub mod Schedule
pub mod Ending
pub mod Truncation
use protos_tpe.Base.{
  ℕ, zero, suc, ◌-◌, Bool, true, false, not, ◌&&◌, Option, none, some, List, [], ◌++◌, ◌==◌,
  if◌then◌else◌, ◌>>=◌, length, take, pos,
}
use protos_tpe.Buffer
use protos_tpe.Buffer.{Buffer}
use protos_tpe.Os.{
  Os, Errno, RecvReply, SendReply, is_again, Interest, noop, reading, writing, both, set_interest,
  note_send, update,
}
use protos_tpe.Stats
use protos_tpe.Stats.{Stats}
use protos_tpe.States.{ClientState}

-- The part of `client_t` that the relay works on; `destination_fd` is `none` for -1.
pub record Relay : Type 0 where
  pub client_fd : ℕ
  pub destination_fd : Option ℕ
  pub client_buffer : Buffer
  pub destiny_buffer : Buffer
  pub client_closed : Bool
  pub dest_closed : Bool

-- The connection and what it touches. `inbound` keeps, for each descriptor, the bytes that `recv`
-- has handed over, in order: the code does not hold it, the theorems speak of it.
pub record Session : Type 0 where
  pub relay : Relay
  pub os : Os
  pub stats : Stats
  pub inbound : ℕ → List ℕ

unfoldable pub connection_finished : Relay → Bool
connection_finished r =
    r.client_closed
    && r.dest_closed
    && not (Buffer.can_read r.client_buffer)
    && not (Buffer.can_read r.destiny_buffer)

-- the buffer that `forward_write` empties, and whether the side that fills it is closed
abbrev pub outgoing : Relay → Bool → Buffer
outgoing r to_client = if to_client then r.destiny_buffer else r.client_buffer

abbrev pub source_closed : Relay → Bool → Bool
source_closed r to_client = if to_client then r.dest_closed else r.client_closed

abbrev pub set_outgoing : Relay → Bool → Buffer → Relay
set_outgoing r to_client b =
    if to_client then record r { destiny_buffer = b } else record r { client_buffer = b }

-- `shutdown(fd, SHUT_WR)`
abbrev pub shutdown : Os → ℕ → Os
shutdown os fd = record os { shut = update os.shut fd true }

-- `if (source_closed) shutdown(...)`
abbrev pub shutdown_if : Bool → Os → ℕ → Os
shutdown_if test os fd = if test then shutdown os fd else os

abbrev pub Result : Type 0
Result = Option (ClientState × Session)

-- nothing to send
unfoldable pub write_idle : Bool → ℕ → Session → Result
write_idle to_client fd s =
    if connection_finished s.relay
    then some (ClientState.done, s)
    else some (
      ClientState.forwarding,
      record s {
        os = set_interest (shutdown_if (source_closed s.relay to_client) s.os fd) fd reading;
      },
    )

-- `n <= 0` from `send`
unfoldable pub write_failed : ℕ → Session → Result
write_failed fd s =
    if is_again s.os.errno
    then some (ClientState.forwarding, record s { os = record (s.os) { errno = Errno.clear } })
    else some (ClientState.error, record s { os = set_interest s.os fd noop })

-- `n` bytes are sent and taken from the buffer, which is now `b`
unfoldable pub after_send : Bool → ℕ → Session → ℕ → Buffer → ClientState × Session
after_send to_client fd s n b =
    let r = set_outgoing s.relay to_client b in
    let more = Buffer.can_read b in
    let os1 = if more then s.os else shutdown_if (source_closed r to_client) s.os fd in
    (
      if connection_finished r then ClientState.done else ClientState.forwarding,
      record s {
        relay = r;
        os = set_interest os1 fd (if more then both else reading);
        stats = Stats.add_transferred_bytes s.stats n;
      },
    )

unfoldable pub write_sent : Bool → ℕ → Session → ℕ → Result
write_sent to_client fd s n = do
  b ← Buffer.read_adv (outgoing s.relay to_client) (pos n)
  some (after_send to_client fd s n b)

unfoldable pub write_reply : Bool → ℕ → Session → SendReply → Result
write_reply to_client fd s (SendReply.failed e) = write_failed fd s
write_reply to_client fd s (SendReply.took zero) = write_failed fd s
write_reply to_client fd s (SendReply.took (suc n)) = write_sent to_client fd s (suc n)

unfoldable pub forward_write : ℕ → Session → SendReply → Result
forward_write fd s reply =
    let to_client = fd == s.relay.client_fd in
    let b = outgoing s.relay to_client in
    if not (Buffer.can_read b) then write_idle to_client fd s else (do
      p ← Buffer.read_ptr b
      write_reply to_client fd
          (record s { os = note_send s.os fd (take p.1 (Buffer.readable b)) reply }) reply)

-- the buffer that `forward_read` fills, and the descriptor on the other side
abbrev pub incoming : Relay → Bool → Buffer
incoming r from_client = outgoing r (not from_client)

abbrev pub set_incoming : Relay → Bool → Buffer → Relay
set_incoming r from_client b = set_outgoing r (not from_client) b

abbrev pub other_fd : Relay → Bool → Option ℕ
other_fd r from_client = if from_client then r.destination_fd else some r.client_fd

-- `if (other_fd >= 0) selector_set_interest(...)`
abbrev pub set_other : Os → Option ℕ → Interest → Os
set_other os none i = os
set_other os (some fd) i = set_interest os fd i

abbrev pub mark_closed : Relay → Bool → Relay
mark_closed r from_client =
    if from_client then record r { client_closed = true } else record r { dest_closed = true }

-- `n == 0`: the peer has closed its side
unfoldable pub read_end : Bool → ℕ → Session → Result
read_end from_client fd s =
    let r = mark_closed s.relay from_client in
    if source_closed r from_client
    then some (ClientState.done, record s { relay = r })
    else some (
      ClientState.forwarding,
      record s {
        relay = r;
        os = set_interest (set_other s.os (other_fd r from_client) writing) fd noop;
      },
    )

-- the bytes `bs` are accounted for in the buffer, which is now `b`
unfoldable pub after_recv : Bool → ℕ → Session → List ℕ → Buffer → ClientState × Session
after_recv from_client fd s bs b = (
  ClientState.forwarding,
  record s {
    relay = set_incoming s.relay from_client b;
    os = set_other s.os (other_fd s.relay from_client) both;
    inbound = update s.inbound fd (s.inbound fd ++ bs);
  },
)

-- `n > 0`: `recv` has stored the bytes `bs` behind the write pointer
unfoldable pub read_data : Bool → ℕ → Session → List ℕ → Result
read_data from_client fd s bs = do
  b ← Buffer.write_adv (Buffer.fill (incoming s.relay from_client) bs) (pos (length bs))
  some (after_recv from_client fd s bs b)

unfoldable pub read_reply : Bool → ℕ → Session → RecvReply (List ℕ) → Result
read_reply from_client fd s RecvReply.closed = read_end from_client fd s
read_reply from_client fd s (RecvReply.received bs) = read_data from_client fd s bs
read_reply from_client fd s (RecvReply.failed e) =
    if is_again e
    then some (ClientState.forwarding, record s { os = record (s.os) { errno = Errno.clear } })
    else some
        (ClientState.error, record s { os = set_interest (record (s.os) { errno = e }) fd noop })

unfoldable pub forward_read : ℕ → Session → RecvReply (List ℕ) → Result
forward_read fd s reply =
    let from_client = fd == s.relay.client_fd in
    let b = incoming s.relay from_client in
    if not (Buffer.can_write b)
    then some (ClientState.forwarding, record s { os = set_interest s.os fd both })
    else (do
      _ ← Buffer.write_ptr b
      read_reply from_client fd (record s { os = record (s.os) { errno = Errno.clear } }) reply)

-- `forward_setup`; an interest asked for -1 is refused by the selector.
unfoldable pub forward_setup : Session → Session
forward_setup s = record s {
  os = set_other (set_interest s.os s.relay.client_fd reading) s.relay.destination_fd reading;
}
