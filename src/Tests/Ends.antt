-- ===== src/Tests/Ends.antt =====
-- The end of a connection between the descriptors 7 and 9.
use protos_tpe.Base.{
  ◌≡◌, ◌||◌, ◌==◌, if◌then◌else◌, refl, true, false, none, some, [], ◌∷◌, arith, replicate,
}
use protos_tpe.Os.{Os, Errno, Interest, SendReply}
use protos_tpe.Buffer.{Buffer}
use protos_tpe.States.{ClientState}
use protos_tpe.Stats.{decrement_current_connections}
use protos_tpe.Client.{request_parser}
use protos_tpe.Closing.{Connection, error_handler}
use protos_tpe.Closing.Frees.{error_handler-frees}

abbrev os : Os
os = record {
  errno = Errno.clear;
  interest = λ fd. some Interest.reading;
  sent = λ fd. [];
  shut = λ fd. false;
  closed = [];
}

-- a byte is left in it
abbrev buffer : Buffer
buffer = record { storage = replicate 4 0; limit = 4; read = 0; write = 1 }

abbrev connection : Connection
connection = record {
  client = record {
    client_fd = some 7;
    destination_fd = some 9;
    active_parser = request_parser;
    client_buffer = buffer;
    destiny_buffer = buffer;
    dest_addr = [];
    dest_addr_base = [];
    dns_req = none;
    err = 4;
    client_closed = false;
    dest_closed = false;
    dest_addr_from_gai = false;
  };
  os = os;
  stats = record { historic_connections = 3; current_connections = 2; transferred_bytes = 0 };
  freed = false;
}

error_handler-frees_example :
    let r = error_handler ClientState.error 7 (SendReply.took 10) connection in
    (r.freed ≡ true)
    × (r.client.client_fd ≡ none)
    × (r.client.destination_fd ≡ none)
    × (r.os.sent ≡ connection.os.sent)
    × (r.os.closed ≡ 9 ∷ 7 ∷ [])
    × (r.os.interest 9 ≡ (if 9 == 9 || 9 == 7 then none else connection.os.interest 9))
    × (r.stats ≡ decrement_current_connections connection.stats)
error_handler-frees_example =
    error_handler-frees 7 7 9 9 (SendReply.took 10) connection Interest.reading Interest.reading
      refl refl (omega arith) refl refl
