-- ===== src/Forwarding/Schedule.antt =====
-- Any order of events on the two sockets, as the selector may hand them to the relay.
use protos_tpe.Base.{ℕ, ◌≡◌, ◌≢◌, false, some, List, [], ◌++◌}
use mathlib.Core.Path.{subst}
use protos_tpe.Buffer.{contents}
use protos_tpe.Buffer.Fifo.{IsValid}
use protos_tpe.Os.{RecvReply, SendReply}
use protos_tpe.States.{ClientState}
use protos_tpe.Forwarding.{Session, Result, forward_read, forward_write}
use protos_tpe.Forwarding.Conserve.{SendFits, RecvFits, Conserved, Kept}
use protos_tpe.Forwarding.Send.{forward_write-client, forward_write-dest}
use protos_tpe.Forwarding.Receive.{forward_read-client, forward_read-dest}

-- The sockets of the relay that are ready, with the kernel's answer to the handler's call.
pub data Event : Type 0 where
  client_readable dest_readable : RecvReply (List ℕ) → Event
  client_writable dest_writable : SendReply → Event

abbrev pub handle : ℕ → ℕ → Session → Event → Result
handle c d s (client_readable reply) = forward_read c s reply
handle c d s (dest_readable reply) = forward_read d s reply
handle c d s (client_writable reply) = forward_write c s reply
handle c d s (dest_writable reply) = forward_write d s reply

-- The answer keeps to what `recv` and `send` promise.
abbrev pub Fits : Session → Event → Type 0
Fits s (client_readable reply) = RecvFits s.relay.client_buffer reply
Fits s (dest_readable reply) = RecvFits s.relay.destiny_buffer reply
Fits s (client_writable reply) = SendFits s.relay.destiny_buffer reply
Fits s (dest_writable reply) = SendFits s.relay.client_buffer reply

-- `Run c d s st t`: events take the relay from `s` to `t`, whose state is then `st`; every state
-- before is FORWARDING.
pub data Run (c d : ℕ) (s : Session) : ClientState → Session → Type 0 where
  here : Run c d s ClientState.forwarding s
  next :
      {t u : Session} {st : ClientState} (e : Event)
      → Run c d s ClientState.forwarding t
      → Fits t e
      → handle c d t e ≡ some (st, u)
      → Run c d s st u

-- A connection that enters FORWARDING: both buffers empty, nothing relayed yet.
pub record Started (c d : ℕ) (s : Session) : Type 0 where
  pub client : s.relay.client_fd ≡ c
  pub dest : s.relay.destination_fd ≡ some d
  pub client_valid : IsValid s.relay.client_buffer
  pub destiny_valid : IsValid s.relay.destiny_buffer
  pub client_empty : contents s.relay.client_buffer ≡ []
  pub destiny_empty : contents s.relay.destiny_buffer ≡ []
  pub both_open : (s.relay.client_closed ≡ false) × (s.relay.dest_closed ≡ false)
  pub quiet : (fd : ℕ) → s.inbound fd ≡ []

module _ (c d : ℕ) (apart : c ≢ d) where
  pub Started-Conserved :
      (s : Session) → Started c d s → Conserved c d (s.os.sent c) (s.os.sent d) s
  Started-Conserved s v = record {
    client = v.client;
    dest = v.dest;
    client_valid = v.client_valid;
    destiny_valid = v.destiny_valid;
    to_dest = rw (v.client_empty, v.quiet c);
    to_client = rw (v.destiny_empty, v.quiet d);
  }

  handle-Kept :
      (pre_c pre_d : List ℕ) (s : Session) (e : Event)
      → Conserved c d pre_c pre_d s
      → Fits s e
      → Kept c d pre_c pre_d (handle c d s e)
  handle-Kept pre_c pre_d s (client_readable r) v h =
      forward_read-client c d apart pre_c pre_d s r v h
  handle-Kept pre_c pre_d s (dest_readable r) v h = forward_read-dest c d apart pre_c pre_d s r v h
  handle-Kept pre_c pre_d s (client_writable r) v h =
      forward_write-client c d apart pre_c pre_d s r v h
  handle-Kept pre_c pre_d s (dest_writable r) v h = forward_write-dest c d apart pre_c pre_d s r v h

  some-pair-injective :
      {st st' : ClientState} {s s' : Session} {r : Result}
      → r ≡ some (st, s)
      → r ≡ some (st', s')
      → s ≡ s'
  some-pair-injective p q = cc

  pub Run-Conserved :
      (pre_c pre_d : List ℕ) {s t : Session} {st : ClientState}
      → Conserved c d pre_c pre_d s
      → Run c d s st t
      → Conserved c d pre_c pre_d t
  Run-Conserved pre_c pre_d v here = v
  Run-Conserved pre_c pre_d v (next {t} e r h q) =
      let k = handle-Kept pre_c pre_d t e (Run-Conserved pre_c pre_d v r) h in
      subst (Conserved c d pre_c pre_d) (some-pair-injective k.ends q) k.kept

  -- For two different descriptors and a kernel whose answers keep to what `recv` and `send`
  -- promise, whatever the order of the events, up to and including the one that ends the relay: the
  -- bytes that the destination was sent since the relay started are, in order, those that were
  -- received from the client less those that wait in the client's buffer, and the same holds in the
  -- other direction.
  pub Run-conserves :
      {s t : Session} {st : ClientState}
      → Started c d s
      → Run c d s st t
      → (s.os.sent d ++ t.inbound c ≡ t.os.sent d ++ contents t.relay.client_buffer)
        × (s.os.sent c ++ t.inbound d ≡ t.os.sent c ++ contents t.relay.destiny_buffer)
  Run-conserves {s} v r =
      let k = Run-Conserved (s.os.sent c) (s.os.sent d) (Started-Conserved s v) r in
      (k.to_dest, k.to_client)

  -- The relay never aborts: in FORWARDING every event whose answer keeps to what `recv` and `send`
  -- promise is handled, and no `assert` of the buffers fails.
  pub Run-handles :
      {s t : Session}
      → Started c d s
      → Run c d s ClientState.forwarding t
      → (e : Event) → Fits t e
      → (st : ClientState) × (u : Session) × (handle c d t e ≡ some (st, u))
  Run-handles {s} {t} v r e h =
      let k =
        handle-Kept (s.os.sent c) (s.os.sent d) t e
          (Run-Conserved (s.os.sent c) (s.os.sent d) (Started-Conserved s v) r) h in
      (k.state, k.after, k.ends)
