-- ===== src/Forwarding/Truncation.antt =====
-- What the end of the second stream costs: bytes that wait are not sent.
use protos_tpe.Base.{
  ℕ, ◌≡◌, ◌≢◌, ap, ◌∙◌, refl, true, some, List, [], ◌∷◌, ◌++◌, arith, length, length-append,
}
use protos_tpe.Buffer
use protos_tpe.Buffer.{contents}
use protos_tpe.Os.{RecvReply, Errno}
use protos_tpe.States.{ClientState}
use protos_tpe.Forwarding.{Session, forward_read, read_reply, read_end}
use protos_tpe.Forwarding.Schedule.{
  handle, dest_readable, Run, Started, Started-Conserved, Run-Conserved,
}

empty_tail : (xs ys : List ℕ) → xs ≡ xs ++ ys → ys ≡ []
empty_tail xs [] e = refl
empty_tail xs (y ∷ ys) e = absurd (omega (arith, ap length e, length-append xs (y ∷ ys)))

-- A relay between two descriptors, in which the client's stream has ended before, and the
-- destination's ends now while bytes for the client wait, in a buffer with room for more: it is DONE
-- at once, and what the client was sent is not what was received from the destination, whatever the
-- order of the events so far.
pub Run-truncates :
    (c d : ℕ)
    → c ≢ d
    → {s t : Session} → Started c d s
    → Run c d s ClientState.forwarding t
    → t.relay.client_closed ≡ true
    → Buffer.can_write t.relay.destiny_buffer ≡ true
    → contents t.relay.destiny_buffer ≢ []
    → (u : Session) × (handle c d t (dest_readable RecvReply.closed) ≡ some (ClientState.done, u))
      × (u.os.sent c ≢ s.os.sent c ++ u.inbound d)
unfolding forward_read read_reply read_end Buffer.write_ptr
Run-truncates c d apart {s} {t} v r ended room waits =
    let k =
      Run-Conserved c d apart (s.os.sent c) (s.os.sent d) (Started-Conserved c d apart s v) r in
    let u : Session = record t {
      relay = record (t.relay) { dest_closed = true };
      os = record (t.os) { errno = Errno.clear };
    } in
    (
      u,
      ground (arith, k.client, k.destiny_valid, apart),
      λ all. waits (empty_tail (t.os.sent c) (contents t.relay.destiny_buffer) (all ∙ k.to_client)),
    )
