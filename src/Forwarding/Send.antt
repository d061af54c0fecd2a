-- ===== src/Forwarding/Send.antt =====
-- `forward_write` keeps the relay's promise.
use protos_tpe.Base.{
  ℕ, zero, suc, ◌-◌, ◌≡◌, ◌≢◌, inl, inr, refl, ap, ◌∙◌, Bool, true, false, some, List, ◌++◌,
  append-nil, append_assoc, arith, ◌==◌, Bool-cases, take, drop, take-append-drop,
}
use protos_tpe.Buffer
use protos_tpe.Buffer.{Buffer, contents}
use protos_tpe.Buffer.Fifo.{IsValid, read_adv_lem}
use protos_tpe.Os.{Os, Errno, SendReply, is_again, Interest, note_send, set_interest}
use protos_tpe.States.{ClientState}
use protos_tpe.Forwarding.{
  Session, Result, connection_finished, after_send, source_closed, shutdown_if, write_idle,
  write_failed, write_sent, write_reply, forward_write,
}
use protos_tpe.Forwarding.Conserve.{SendFits, Conserved, Kept, Kept-intro, Conserved-same}

sent-shutdown_if : (b : Bool) (os : Os) (fd : ℕ) → (shutdown_if b os fd).sent ≡ os.sent
sent-shutdown_if true os fd = refl
sent-shutdown_if false os fd = refl

read_ptr-valid : (b : Buffer) → IsValid b → Buffer.read_ptr b ≡ some (b.read, b.write - b.read)
unfolding Buffer.read_ptr
read_ptr-valid b v = ground arith

moved : (sent cs : List ℕ) (n : ℕ) → (sent ++ take n cs) ++ drop n cs ≡ sent ++ cs
moved sent cs n = append_assoc sent (take n cs) (drop n cs) ∙ ap (◌++◌ sent) (take-append-drop n cs)

module _ (c d : ℕ) (apart : c ≢ d) (pre_c pre_d : List ℕ) where
  abbrev Keeps : Result → Type 0
  Keeps = Kept c d pre_c pre_d

  after_send-client :
      (s : Session) (n : ℕ) (b : Buffer) (out : List ℕ)
      → Conserved c d pre_c pre_d s
      → IsValid b
      → contents b ≡ drop n (contents s.relay.destiny_buffer)
      → out ≡ contents s.relay.destiny_buffer
      → Conserved c d pre_c pre_d
          (after_send true c (record s { os = note_send s.os c out (SendReply.took n) }) n b).1
  unfolding after_send
  after_send-client s n b out v bv q o = record {
    client = v.client;
    dest = v.dest;
    client_valid = v.client_valid;
    destiny_valid = bv;
    to_dest = ground (arith, v.to_dest);
    to_client =
        ground (arith, v.to_client, q, o, moved (s.os.sent c) (contents s.relay.destiny_buffer) n);
  }

  after_send-dest :
      (s : Session) (n : ℕ) (b : Buffer) (out : List ℕ)
      → Conserved c d pre_c pre_d s
      → IsValid b
      → contents b ≡ drop n (contents s.relay.client_buffer)
      → out ≡ contents s.relay.client_buffer
      → Conserved c d pre_c pre_d
          (after_send false d (record s { os = note_send s.os d out (SendReply.took n) }) n b).1
  unfolding after_send
  after_send-dest s n b out v bv q o = record {
    client = v.client;
    dest = v.dest;
    client_valid = bv;
    destiny_valid = v.destiny_valid;
    to_dest =
        ground (arith, v.to_dest, q, o, moved (s.os.sent d) (contents s.relay.client_buffer) n);
    to_client = ground (arith, v.to_client);
  }

  write_idle-Kept :
      (to_client : Bool) (fd : ℕ) (s : Session)
      → Conserved c d pre_c pre_d s
      → Keeps (write_idle to_client fd s)
  unfolding write_idle
  write_idle-Kept to_client fd s v = elim (Bool-cases (connection_finished s.relay)) [
    | inl y ↦ record { state = ClientState.done; after = s; ends = rw y; kept = v }
    | inr n ↦ record {
      state = ClientState.forwarding;
      after = record s {
        os =
            set_interest (shutdown_if (source_closed s.relay to_client) s.os fd) fd
              Interest.reading;
      };
      ends = rw n;
      kept =
          Conserved-same c d pre_c pre_d _ v refl
            (sent-shutdown_if (source_closed s.relay to_client) s.os fd) refl;
    }
  ]

  write_failed-Kept :
      (fd : ℕ) (s : Session) → Conserved c d pre_c pre_d s → Keeps (write_failed fd s)
  unfolding write_failed
  write_failed-Kept fd s v = elim (Bool-cases (is_again s.os.errno)) [
    | inl y ↦ record {
      state = ClientState.forwarding;
      after = record s { os = record (s.os) { errno = Errno.clear } };
      ends = rw y;
      kept = Conserved-same c d pre_c pre_d _ v refl refl refl;
    }
    | inr n ↦ record {
      state = ClientState.error;
      after = record s { os = set_interest s.os fd Interest.noop };
      ends = rw n;
      kept = Conserved-same c d pre_c pre_d _ v refl refl refl;
    }
  ]

  -- `send` fails: nothing is sent
  write_reply-failed :
      (to_client : Bool) (fd : ℕ) (s : Session) (out : List ℕ) (e : Errno)
      → Conserved c d pre_c pre_d s
      → Keeps (
          write_reply to_client fd
            (record s { os = note_send s.os fd out (SendReply.failed e) })
            (SendReply.failed e))
  unfolding write_reply
  write_reply-failed to_client fd s out e v =
      write_failed-Kept fd _ (Conserved-same c d pre_c pre_d _ v refl refl refl)

  write_reply-client :
      (s : Session) (reply : SendReply)
      → Conserved c d pre_c pre_d s
      → SendFits s.relay.destiny_buffer reply
      → Keeps (
          write_reply true c
            (record s { os = note_send s.os c (contents s.relay.destiny_buffer) reply })
            reply)
  unfolding write_reply write_sent
  write_reply-client s (SendReply.failed e) v h =
      write_reply-failed true c s (contents s.relay.destiny_buffer) e v
  write_reply-client s (SendReply.took zero) v h = write_failed-Kept c _ (record {
    client = v.client;
    dest = v.dest;
    client_valid = v.client_valid;
    destiny_valid = v.destiny_valid;
    to_dest = ground (arith, v.to_dest);
    to_client = ground (arith, v.to_client, append-nil (s.os.sent c));
  })
  write_reply-client s (SendReply.took (suc n)) v h =
      let (b, e, bv, q, l) = read_adv_lem s.relay.destiny_buffer (suc n) v.destiny_valid h in
      Kept-intro c d pre_c pre_d
        (after_send true c
          (record s {
            os = note_send s.os c (contents s.relay.destiny_buffer) (SendReply.took (suc n));
          })
          (suc n) b)
        (rw e) (after_send-client s (suc n) b _ v bv q refl)

  pub forward_write-client :
      (s : Session) (reply : SendReply)
      → Conserved c d pre_c pre_d s
      → SendFits s.relay.destiny_buffer reply
      → Keeps (forward_write c s reply)
  unfolding forward_write
  forward_write-client s reply v h = elim (Bool-cases (Buffer.can_read s.relay.destiny_buffer)) [
    | inl y ↦
        rw (own, y, read_ptr-valid s.relay.destiny_buffer v.destiny_valid)
          (write_reply-client s reply v h)
    | inr n ↦ rw (own, n) (write_idle-Kept true c s v)
  ]
    where
      own : (c == s.relay.client_fd) ≡ true
      own = ground (arith, v.client)

  write_reply-dest :
      (s : Session) (reply : SendReply)
      → Conserved c d pre_c pre_d s
      → SendFits s.relay.client_buffer reply
      → Keeps (
          write_reply false d
            (record s { os = note_send s.os d (contents s.relay.client_buffer) reply })
            reply)
  unfolding write_reply write_sent
  write_reply-dest s (SendReply.failed e) v h =
      write_reply-failed false d s (contents s.relay.client_buffer) e v
  write_reply-dest s (SendReply.took zero) v h = write_failed-Kept d _ (record {
    client = v.client;
    dest = v.dest;
    client_valid = v.client_valid;
    destiny_valid = v.destiny_valid;
    to_dest = ground (arith, v.to_dest, append-nil (s.os.sent d));
    to_client = ground (arith, v.to_client);
  })
  write_reply-dest s (SendReply.took (suc n)) v h =
      let (b, e, bv, q, l) = read_adv_lem s.relay.client_buffer (suc n) v.client_valid h in
      Kept-intro c d pre_c pre_d
        (after_send false d
          (record s {
            os = note_send s.os d (contents s.relay.client_buffer) (SendReply.took (suc n));
          })
          (suc n) b)
        (rw e) (after_send-dest s (suc n) b _ v bv q refl)

  pub forward_write-dest :
      (s : Session) (reply : SendReply)
      → Conserved c d pre_c pre_d s
      → SendFits s.relay.client_buffer reply
      → Keeps (forward_write d s reply)
  unfolding forward_write
  forward_write-dest s reply v h = elim (Bool-cases (Buffer.can_read s.relay.client_buffer)) [
    | inl y ↦
        rw (own, y, read_ptr-valid s.relay.client_buffer v.client_valid)
          (write_reply-dest s reply v h)
    | inr n ↦ rw (own, n) (write_idle-Kept false d s v)
  ]
    where
      own : (d == s.relay.client_fd) ≡ false
      own = ground (arith, v.client)
