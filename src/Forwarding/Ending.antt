-- ===== src/Forwarding/Ending.antt =====
-- How a relay ends: what has happened when it is DONE.
use protos_tpe.Base.{
  ℕ, ◌≡◌, ◌≢◌, sym, ◌∙◌, inl, inr, refl, Bool, true, false, not, ◌&&◌, ◌||◌, none, some, List,
  arith, ◌==◌, Bool-cases, Option-cases, take, zero, suc,
}
use mathlib.Core.Bool.{false≢true, true≢false}
use protos_tpe.Buffer
use protos_tpe.Buffer.{Buffer, contents}
use protos_tpe.Os.{note_send, RecvReply, SendReply}
use protos_tpe.States.{ClientState}
use protos_tpe.Forwarding.{
  Session, Result, read_data, after_recv, outgoing, connection_finished, forward_read,
  forward_write, write_idle, write_reply, write_failed, write_sent, after_send, read_reply,
  read_end,
}
use protos_tpe.Forwarding.Schedule.{
  handle, Event, client_writable, dest_writable, client_readable, dest_readable, Run, here, next,
  Started, Started-Conserved, Run-Conserved,
}

-- which sides are closed
abbrev SameSides : Session → Session → Type 0
SameSides s t =
    (t.relay.client_closed ≡ s.relay.client_closed) × (t.relay.dest_closed ≡ s.relay.dest_closed)

abbrev NotBoth : Session → Type 0
NotBoth s = (s.relay.client_closed && s.relay.dest_closed) ≡ false

-- A write that is handled leaves the sides as they are, and says DONE for a finished connection.
abbrev WriteEnds : Session → ClientState → Session → Type 0
WriteEnds s st t = SameSides s t × (st ≡ ClientState.done → connection_finished t.relay ≡ true)

write_idle-ends :
    (b : Bool) (fd : ℕ) (s t : Session) (st : ClientState)
    → write_idle b fd s ≡ some (st, t)
    → WriteEnds s st t
unfolding write_idle
write_idle-ends b fd s t st h = ground arith

write_reply-ends :
    (b : Bool) (fd : ℕ) (s t : Session) (st : ClientState) (reply : SendReply)
    → write_reply b fd s reply ≡ some (st, t)
    → WriteEnds s st t
unfolding write_reply write_failed write_sent after_send
write_reply-ends b fd s t st (SendReply.failed e) h = ground arith
write_reply-ends b fd s t st (SendReply.took zero) h = ground arith
write_reply-ends b fd s t st (SendReply.took (suc n)) h = ground arith

forward_write-ends :
    (fd : ℕ) (s t : Session) (st : ClientState) (reply : SendReply)
    → forward_write fd s reply ≡ some (st, t)
    → WriteEnds s st t
unfolding forward_write
forward_write-ends fd s t st reply h =
    let to_client = fd == s.relay.client_fd in
    let b = outgoing s.relay to_client in
    elim (Bool-cases (Buffer.can_read b)) [
      | inr n ↦ write_idle-ends to_client fd s t st (rw n at h)
      | inl y ↦ elim (Option-cases (Buffer.read_ptr b)) [
        | inl e ↦ absurd (none-ne-some (rw (y, e) at h))
        | inr (p, e) ↦
            write_reply-ends to_client fd
              (record s { os = note_send s.os fd (take p.1 (Buffer.readable b)) reply }) t st reply
              (rw (y, e) at h)
      ]
    ]
  where
    none-ne-some : {r : ClientState × Session} → ◌≡◌ {A = Result} none (some r) → ⊥
    none-ne-some q = cc

forward_read-NotBoth :
    (fd : ℕ) (s t : Session) (reply : RecvReply (List ℕ))
    → NotBoth s
    → forward_read fd s reply ≡ some (ClientState.forwarding, t)
    → NotBoth t
unfolding forward_read read_reply read_end read_data after_recv
forward_read-NotBoth fd s t (RecvReply.received bs) o h = ground arith
forward_read-NotBoth fd s t RecvReply.closed o h = ground arith
forward_read-NotBoth fd s t (RecvReply.failed e) o h = ground arith

abbrev pub is_write : Event → Bool
is_write (client_writable reply) = true
is_write (dest_writable reply) = true
is_write _ = false

module _ (c d : ℕ) where
  handle-NotBoth :
      (s t : Session) (e : Event)
      → NotBoth s
      → handle c d s e ≡ some (ClientState.forwarding, t)
      → NotBoth t
  handle-NotBoth s t (client_readable r) o h = forward_read-NotBoth c s t r o h
  handle-NotBoth s t (dest_readable r) o h = forward_read-NotBoth d s t r o h
  handle-NotBoth s t (client_writable r) o h = ground (arith, forward_write-ends c s t _ r h)
  handle-NotBoth s t (dest_writable r) o h = ground (arith, forward_write-ends d s t _ r h)

  Run-NotBoth :
      {s t : Session} {st : ClientState}
      → NotBoth s
      → Run c d s st t
      → st ≡ ClientState.forwarding
      → NotBoth t
  Run-NotBoth o here q = o
  Run-NotBoth o (next {t} {u} e r h k) q = handle-NotBoth t u e (Run-NotBoth o r refl) (rw q at k)

  write-ne-done :
      (s t : Session) (st : ClientState) (e : Event)
      → NotBoth s
      → is_write e ≡ true
      → handle c d s e ≡ some (st, t)
      → st ≢ ClientState.done
  unfolding connection_finished
  write-ne-done s t st (client_writable r) o w h = ground (arith, forward_write-ends c s t st r h)
  write-ne-done s t st (dest_writable r) o w h = ground (arith, forward_write-ends d s t st r h)
  write-ne-done s t st (client_readable r) o w h = absurd (false≢true w)
  write-ne-done s t st (dest_readable r) o w h = absurd (false≢true w)

  -- A relay that starts with both peers open is never ended with DONE by a write.
  pub Run-write-ne-done :
      {s t u : Session} {st : ClientState} (e : Event)
      → Started c d s
      → Run c d s ClientState.forwarding t
      → is_write e ≡ true
      → handle c d t e ≡ some (st, u)
      → st ≢ ClientState.done
  Run-write-ne-done {s} {t} {u} {st} e v r w h =
      write-ne-done t u st e (Run-NotBoth (ground (arith, v.both_open)) r refl) w h

forward_read-done :
    (fd : ℕ) (s t : Session) (reply : RecvReply (List ℕ))
    → forward_read fd s reply ≡ some (ClientState.done, t)
    → (t.relay.client_closed ≡ true) × (t.relay.dest_closed ≡ true)
unfolding forward_read read_reply read_end read_data after_recv
forward_read-done fd s t (RecvReply.received bs) h = ground arith
forward_read-done fd s t RecvReply.closed h = ground arith
forward_read-done fd s t (RecvReply.failed e) h = ground arith

-- the events that are the end of a peer's stream: `recv` returns 0
abbrev pub is_client_end : Event → Bool
is_client_end (client_readable RecvReply.closed) = true
is_client_end _ = false

abbrev pub is_dest_end : Event → Bool
is_dest_end (dest_readable RecvReply.closed) = true
is_dest_end _ = false

abbrev is_closed : RecvReply (List ℕ) → Bool
is_closed RecvReply.closed = true
is_closed _ = false

-- A read marks the side closed that its descriptor is of, and only at the end of the stream.
abbrev ReadMarks : ℕ → Session → RecvReply (List ℕ) → Session → Type 0
ReadMarks fd s reply t =
    let from_client = fd == s.relay.client_fd in
    (t.relay.client_closed ≡ true
      → (s.relay.client_closed || (from_client && is_closed reply)) ≡ true)
    × (t.relay.dest_closed ≡ true
        → (s.relay.dest_closed || (not from_client && is_closed reply)) ≡ true)

forward_read-marks :
    (fd : ℕ) (s t : Session) (st : ClientState) (reply : RecvReply (List ℕ))
    → forward_read fd s reply ≡ some (st, t)
    → ReadMarks fd s reply t
unfolding forward_read read_reply read_end read_data after_recv
forward_read-marks fd s t st (RecvReply.received bs) h = ground arith
forward_read-marks fd s t st RecvReply.closed h = ground arith
forward_read-marks fd s t st (RecvReply.failed e) h = ground arith

-- A relay that is DONE has both sides marked closed.
done-closed :
    (c d : ℕ) {s t : Session} {st : ClientState}
    → Started c d s
    → Run c d s st t
    → st ≡ ClientState.done
    → (t.relay.client_closed ≡ true) × (t.relay.dest_closed ≡ true)
done-closed c d v here q = absurd (ground (arith, q))
done-closed c d v (next (client_readable r) before h e) q = forward_read-done c _ _ r (rw q at e)
done-closed c d v (next (dest_readable r) before h e) q = forward_read-done d _ _ r (rw q at e)
done-closed c d v (next (client_writable r) before h e) q =
    absurd (Run-write-ne-done c d (client_writable r) v before refl e q)
done-closed c d v (next (dest_writable r) before h e) q =
    absurd (Run-write-ne-done c d (dest_writable r) v before refl e q)

module _ (c d : ℕ) where
  -- whether one of the events of a run passes a test
  abbrev pub happened : (Event → Bool) → {s t : Session} {st : ClientState} → Run c d s st t → Bool
  happened test here = false
  happened test (next e before h k) = test e || happened test before

module _ (c d : ℕ) (apart : c ≢ d) where
  -- An event marks a side closed only if it is the end of that side's stream.
  abbrev Marks : Session → Event → Session → Type 0
  Marks s e t =
      (t.relay.client_closed ≡ true → (is_client_end e || s.relay.client_closed) ≡ true)
      × (t.relay.dest_closed ≡ true → (is_dest_end e || s.relay.dest_closed) ≡ true)

  handle-Marks :
      (s t : Session) (st : ClientState) (e : Event)
      → s.relay.client_fd ≡ c
      → handle c d s e ≡ some (st, t)
      → Marks s e t
  handle-Marks s t st (client_readable (RecvReply.received bs)) f h =
      ground (arith, f, apart, forward_read-marks c s t st (RecvReply.received bs) h)
  handle-Marks s t st (client_readable RecvReply.closed) f h =
      ground (arith, f, apart, forward_read-marks c s t st RecvReply.closed h)
  handle-Marks s t st (client_readable (RecvReply.failed e)) f h =
      ground (arith, f, apart, forward_read-marks c s t st (RecvReply.failed e) h)
  handle-Marks s t st (dest_readable (RecvReply.received bs)) f h =
      ground (arith, f, apart, forward_read-marks d s t st (RecvReply.received bs) h)
  handle-Marks s t st (dest_readable RecvReply.closed) f h =
      ground (arith, f, apart, forward_read-marks d s t st RecvReply.closed h)
  handle-Marks s t st (dest_readable (RecvReply.failed e)) f h =
      ground (arith, f, apart, forward_read-marks d s t st (RecvReply.failed e) h)
  handle-Marks s t st (client_writable r) f h = ground (arith, forward_write-ends c s t st r h)
  handle-Marks s t st (dest_writable r) f h = ground (arith, forward_write-ends d s t st r h)

  Run-Marks :
      {s t : Session} {st : ClientState}
      → Started c d s
      → (r : Run c d s st t)
      → (t.relay.client_closed ≡ true → happened c d is_client_end r ≡ true)
        × (t.relay.dest_closed ≡ true → happened c d is_dest_end r ≡ true)
  Run-Marks v here = (
    λ h. absurd (true≢false (sym h ∙ v.both_open.0)),
    λ h. absurd (true≢false (sym h ∙ v.both_open.1)),
  )
  Run-Marks {s} {t = u} {st} v (next {t} e before h k) =
      let past = Run-Marks v before in
      let kept =
        Run-Conserved c d apart (s.os.sent c) (s.os.sent d) (Started-Conserved c d apart s v)
          before in
      let marks = handle-Marks t u st e kept.client k in
      (λ q. ground (arith, marks.0 q, past.0), λ q. ground (arith, marks.1 q, past.1))

  -- A relay between two descriptors that starts with both peers open is DONE only when both sides are
  -- marked closed, and when `recv` has returned 0 on each of the two on the way.
  pub Run-done :
      {s t : Session} {st : ClientState}
      → Started c d s
      → (r : Run c d s st t) → st ≡ ClientState.done
      → (t.relay.client_closed ≡ true)
        × (t.relay.dest_closed ≡ true)
        × (happened c d is_client_end r ≡ true)
        × (happened c d is_dest_end r ≡ true)
  Run-done v r q =
      let closed = done-closed c d v r q in
      let marks = Run-Marks v r in (closed.0, closed.1, marks.0 closed.0, marks.1 closed.1)
