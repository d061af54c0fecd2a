-- ===== src/Tests/Relay.antt =====
-- The relay on a small connection: descriptor 7 is the client's, 9 the destination's.
use protos_tpe.Base.{◌≡◌, ◌≢◌, refl, true, false, none, some, [], ◌∷◌, ◌++◌, arith}
use protos_tpe.Buffer
use protos_tpe.Buffer.{Buffer, contents}
use protos_tpe.Os.{Os, Errno, RecvReply, SendReply, Interest}
use protos_tpe.Stats
use protos_tpe.Stats.{Stats}
use protos_tpe.States.{ClientState}
use protos_tpe.Forwarding.{
  Relay, Session, connection_finished, write_idle, write_failed, after_send, write_sent,
  write_reply, forward_write, read_end, after_recv, read_data, read_reply, forward_read,
}
use protos_tpe.Forwarding.Schedule.{
  Event, client_readable, dest_readable, dest_writable, handle, Run, here, next, Started,
  Run-conserves, Run-handles,
}
use protos_tpe.Forwarding.Ending.{is_client_end, is_dest_end, happened, Run-done}
use protos_tpe.Forwarding.Truncation.{Run-truncates}

abbrev empty : Buffer
empty = record { storage = 0 ∷ 0 ∷ 0 ∷ 0 ∷ []; limit = 4; read = 0; write = 0 }

abbrev fresh : Relay
fresh = record {
  client_fd = 7;
  destination_fd = some 9;
  client_buffer = empty;
  destiny_buffer = empty;
  client_closed = false;
  dest_closed = false;
}

abbrev quiet_os : Os
quiet_os = record {
  errno = Errno.clear;
  interest = λ fd. some Interest.reading;
  sent = λ fd. 5 ∷ [];
  shut = λ fd. false;
  closed = [];
}

abbrev no_stats : Stats
no_stats = record { historic_connections = 1; current_connections = 1; transferred_bytes = 0 }

abbrev start : Session
start = record { relay = fresh; os = quiet_os; stats = no_stats; inbound = λ fd. [] }

start-Started : Started 7 9 start
start-Started = record {
  client = refl;
  dest = refl;
  client_valid = omega arith;
  destiny_valid = omega arith;
  client_empty = refl;
  destiny_empty = refl;
  both_open = (refl, refl);
  quiet = λ fd. refl;
}

-- what a run of the relay computes with
relay_runs : Unit {0}
unfolding Buffer.can_read Buffer.can_write Buffer.read_ptr Buffer.write_ptr Buffer.read_adv
    Buffer.write_adv write_idle write_failed after_send write_sent write_reply forward_write
    read_end after_recv read_data read_reply forward_read connection_finished
    Stats.add_transferred_bytes
relay_runs = tt

-- the session after an event that is handled, or `s` itself
abbrev after : Session → Event → Session
unfolding relay_runs
after s e = elim (handle 7 9 s e) [ none ↦ s | some (st, t) ↦ t ]

abbrev three_bytes : Event
three_bytes = client_readable (RecvReply.received (1 ∷ 2 ∷ 3 ∷ []))

abbrev one_sent : Event
one_sent = dest_writable (SendReply.took 1)

abbrev two_sent : Event
two_sent = dest_writable (SendReply.took 2)

abbrev later : Session
later = after (after start three_bytes) two_sent

Run-twice : Run 7 9 start ClientState.forwarding later
unfolding relay_runs
Run-twice = next two_sent (next three_bytes here (omega arith) refl) (omega arith) refl

later-contents :
    (contents later.relay.client_buffer ≡ 3 ∷ [])
    × (later.os.sent 9 ≡ 5 ∷ 1 ∷ 2 ∷ [])
    × (later.os.interest 9 ≡ some Interest.both)
    × (later.stats.transferred_bytes ≡ 2)
unfolding relay_runs
later-contents = (refl, refl, refl, refl)

Run-conserves_example :
    (start.os.sent 9 ++ later.inbound 7 ≡ later.os.sent 9 ++ contents later.relay.client_buffer)
    × (start.os.sent 7 ++ later.inbound 9 ≡ later.os.sent 7 ++ contents later.relay.destiny_buffer)
Run-conserves_example = Run-conserves 7 9 (omega arith) start-Started Run-twice

Run-handles_example :
    (st : ClientState) × (u : Session) × (handle 7 9 later one_sent ≡ some (st, u))
unfolding relay_runs
Run-handles_example = Run-handles 7 9 (omega arith) start-Started Run-twice one_sent (omega arith)

last_byte_sent : handle 7 9 later one_sent ≡ some (ClientState.forwarding, after later one_sent)
unfolding relay_runs
last_byte_sent = refl

-- both peers end, one after the other
abbrev client_ends : Event
client_ends = client_readable RecvReply.closed

abbrev dest_ends : Event
dest_ends = dest_readable RecvReply.closed

abbrev ended : Session
ended = after (after start client_ends) dest_ends

Run-ends : Run 7 9 start ClientState.done ended
unfolding relay_runs
Run-ends = next dest_ends (next client_ends here (omega arith) refl) (omega arith) refl

Run-done_example :
    (ended.relay.client_closed ≡ true)
    × (ended.relay.dest_closed ≡ true)
    × (happened 7 9 is_client_end Run-ends ≡ true)
    × (happened 7 9 is_dest_end Run-ends ≡ true)
Run-done_example = Run-done 7 9 (omega arith) start-Started Run-ends refl

-- an answer of three bytes, which waits when the client has ended
abbrev answer : Event
answer = dest_readable (RecvReply.received (1 ∷ 2 ∷ 3 ∷ []))

abbrev answered : Session
answered = after (after start answer) client_ends

Run-answered : Run 7 9 start ClientState.forwarding answered
unfolding relay_runs
Run-answered = next client_ends (next answer here (omega arith) refl) (omega arith) refl

answered-contents :
    (answered.relay.client_closed ≡ true)
    × (Buffer.can_write answered.relay.destiny_buffer ≡ true)
    × (contents answered.relay.destiny_buffer ≡ 1 ∷ 2 ∷ 3 ∷ [])
unfolding relay_runs
answered-contents = (refl, refl, refl)

Run-truncates_example :
    (u : Session) × (handle 7 9 answered dest_ends ≡ some (ClientState.done, u))
    × (u.os.sent 7 ≢ start.os.sent 7 ++ u.inbound 9)
unfolding relay_runs
Run-truncates_example =
    Run-truncates 7 9 (omega arith) start-Started Run-answered answered-contents.0
      answered-contents.1 (λ e. cc)
