-- ===== src/Forwarding/Conserve.antt =====
-- The relay loses, repeats and reorders no byte, in either direction.
use protos_tpe.Base.{ℕ, ◌-◌, ◌≤◌, ◌≡◌, some, List, ◌++◌, length}
use protos_tpe.Buffer.{Buffer, contents}
use protos_tpe.Buffer.Fifo.{IsValid}
use protos_tpe.Os.{RecvReply, SendReply}
use protos_tpe.States.{ClientState}
use protos_tpe.Forwarding.{Session, Result}

-- What `send` promises: no more than it was offered.
abbrev pub SendFits : Buffer → SendReply → Type 0
SendFits b (SendReply.took n) = n ≤ b.write - b.read
SendFits b (SendReply.failed e) = Unit

-- What `recv` promises: no more than the room it was given.
abbrev pub RecvFits : Buffer → RecvReply (List ℕ) → Type 0
RecvFits b (RecvReply.received bs) = length bs ≤ b.limit - b.write
RecvFits b RecvReply.closed = Unit
RecvFits b (RecvReply.failed e) = Unit

-- The descriptors are `c`, the client's, and `d`, the destination's. What each peer has sent, behind
-- what the proxy itself had sent before to the other, is what the other was sent and what waits.
pub record Conserved (c d : ℕ) (pre_c pre_d : List ℕ) (s : Session) : Type 0 where
  pub client : s.relay.client_fd ≡ c
  pub dest : s.relay.destination_fd ≡ some d
  pub client_valid : IsValid s.relay.client_buffer
  pub destiny_valid : IsValid s.relay.destiny_buffer
  pub to_dest : pre_d ++ s.inbound c ≡ s.os.sent d ++ contents s.relay.client_buffer
  pub to_client : pre_c ++ s.inbound d ≡ s.os.sent c ++ contents s.relay.destiny_buffer

module _ (c d : ℕ) (pre_c pre_d : List ℕ) where
  -- A step that ends with the relay's promise kept.
  pub record Kept (r : Result) : Type 0 where
    pub state : ClientState
    pub after : Session
    pub ends : r ≡ some (state, after)
    pub kept : Conserved c d pre_c pre_d after

  pub Kept-intro :
      {r : Result} (p : ClientState × Session) → r ≡ some p → Conserved c d pre_c pre_d p.1 → Kept r
  Kept-intro p e k = record { state = p.0; after = p.1; ends = e; kept = k }

  -- Only what `send` took and what waits in the buffers matters to the promise.
  pub Conserved-same :
      {s : Session} (s' : Session)
      → Conserved c d pre_c pre_d s
      → s'.relay ≡ s.relay
      → s'.os.sent ≡ s.os.sent
      → s'.inbound ≡ s.inbound
      → Conserved c d pre_c pre_d s'
  Conserved-same s' v r o i = record {
    client = rw r v.client;
    dest = rw r v.dest;
    client_valid = rw r v.client_valid;
    destiny_valid = rw r v.destiny_valid;
    to_dest = rw (r, o, i) v.to_dest;
    to_client = rw (r, o, i) v.to_client;
  }
