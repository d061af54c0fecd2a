-- ===== src/Forwarding/Receive.antt =====
-- `forward_read` keeps the relay's promise.
use protos_tpe.Base.{
  ℕ, ◌-◌, ◌≡◌, ◌≢◌, inl, inr, refl, sym, ap, ◌∙◌, Bool, true, false, Option, none, some, List, ◌++◌,
  append_assoc, arith, ◌==◌, Bool-cases,
}
use protos_tpe.Buffer
use protos_tpe.Buffer.{Buffer, contents}
use protos_tpe.Buffer.Fifo.{IsValid, write_adv-fill}
use protos_tpe.Os.{Os, Errno, RecvReply, is_again, Interest, set_interest}
use protos_tpe.States.{ClientState}
use protos_tpe.Forwarding.{
  Session, Result, source_closed, other_fd, set_other, mark_closed, after_recv, read_end, read_data,
  read_reply, forward_read,
}
use protos_tpe.Forwarding.Conserve.{RecvFits, Conserved, Kept, Kept-intro, Conserved-same}

write_ptr-valid : (b : Buffer) → IsValid b → Buffer.write_ptr b ≡ some (b.write, b.limit - b.write)
unfolding Buffer.write_ptr
write_ptr-valid b v = ground arith

sent-set_other : (os : Os) (o : Option ℕ) (i : Interest) → (set_other os o i).sent ≡ os.sent
sent-set_other os none i = refl
sent-set_other os (some fd) i = refl

-- New bytes behind both sides of an equation between streams.
behind :
    (pre inbound sent cs bs cs' : List ℕ)
    → pre ++ inbound ≡ sent ++ cs
    → cs' ≡ cs ++ bs
    → pre ++ (inbound ++ bs) ≡ sent ++ cs'
behind pre inbound sent cs bs cs' e q =
    sym (append_assoc pre inbound bs)
    ∙ ap (λ l. l ++ bs) e
    ∙ append_assoc sent cs bs
    ∙ ap (◌++◌ sent) (sym q)

module _ (c d : ℕ) (apart : c ≢ d) (pre_c pre_d : List ℕ) where
  abbrev Keeps : Result → Type 0
  Keeps = Kept c d pre_c pre_d

  after_recv-client :
      (s : Session) (bs : List ℕ) (b : Buffer)
      → Conserved c d pre_c pre_d s
      → IsValid b
      → contents b ≡ contents s.relay.client_buffer ++ bs
      → Conserved c d pre_c pre_d (after_recv true c s bs b).1
  unfolding after_recv
  after_recv-client s bs b v bv q = record {
    client = v.client;
    dest = v.dest;
    client_valid = bv;
    destiny_valid = v.destiny_valid;
    to_dest = ground (
      arith,
      sent-set_other s.os (other_fd s.relay true) Interest.both,
      behind pre_d (s.inbound c) (s.os.sent d) (contents s.relay.client_buffer) bs (contents b)
          v.to_dest q,
    );
    to_client =
        ground (arith, sent-set_other s.os (other_fd s.relay true) Interest.both, v.to_client);
  }

  after_recv-dest :
      (s : Session) (bs : List ℕ) (b : Buffer)
      → Conserved c d pre_c pre_d s
      → IsValid b
      → contents b ≡ contents s.relay.destiny_buffer ++ bs
      → Conserved c d pre_c pre_d (after_recv false d s bs b).1
  unfolding after_recv
  after_recv-dest s bs b v bv q = record {
    client = v.client;
    dest = v.dest;
    client_valid = v.client_valid;
    destiny_valid = bv;
    to_dest = ground (arith, v.to_dest);
    to_client = ground (
      arith,
      behind pre_c (s.inbound d) (s.os.sent c) (contents s.relay.destiny_buffer) bs (contents b)
          v.to_client q,
    );
  }

  Conserved-mark :
      (s s' : Session) (from_client : Bool)
      → Conserved c d pre_c pre_d s
      → s'.relay ≡ mark_closed s.relay from_client
      → s'.os.sent ≡ s.os.sent
      → s'.inbound ≡ s.inbound
      → Conserved c d pre_c pre_d s'
  Conserved-mark s s' from_client v r o i =
      Conserved-same c d pre_c pre_d {s = record s { relay = mark_closed s.relay from_client }} s'
        (marked from_client) r o i
    where
      marked : (b : Bool) → Conserved c d pre_c pre_d (record s { relay = mark_closed s.relay b })
      marked true = record {
        client = v.client;
        dest = v.dest;
        client_valid = v.client_valid;
        destiny_valid = v.destiny_valid;
        to_dest = v.to_dest;
        to_client = v.to_client;
      }
      marked false = record {
        client = v.client;
        dest = v.dest;
        client_valid = v.client_valid;
        destiny_valid = v.destiny_valid;
        to_dest = v.to_dest;
        to_client = v.to_client;
      }

  read_end-Kept :
      (from_client : Bool) (fd : ℕ) (s : Session)
      → Conserved c d pre_c pre_d s
      → Keeps (read_end from_client fd s)
  unfolding read_end
  read_end-Kept from_client fd s v =
      let r = mark_closed s.relay from_client in
      elim (Bool-cases (source_closed r from_client)) [
        | inl y ↦
            Kept-intro c d pre_c pre_d (ClientState.done, record s { relay = r }) (rw y)
              (Conserved-mark s _ from_client v refl refl refl)
        | inr n ↦
            Kept-intro c d pre_c pre_d
              (
                ClientState.forwarding,
                record s {
                  relay = r;
                  os =
                      set_interest (set_other s.os (other_fd r from_client) Interest.writing) fd
                        Interest.noop;
                },
              )
              (rw n)
              (Conserved-mark s _ from_client v refl
                (sent-set_other s.os (other_fd r from_client) Interest.writing) refl)
      ]

  read_reply-failed :
      (from_client : Bool) (fd : ℕ) (s : Session) (e : Errno)
      → Conserved c d pre_c pre_d s
      → Keeps (read_reply from_client fd s (RecvReply.failed e))
  unfolding read_reply
  read_reply-failed from_client fd s e v = elim (Bool-cases (is_again e)) [
    | inl y ↦
        Kept-intro c d pre_c pre_d
          (ClientState.forwarding, record s { os = record (s.os) { errno = Errno.clear } }) (rw y)
          (Conserved-same c d pre_c pre_d _ v refl refl refl)
    | inr n ↦
        Kept-intro c d pre_c pre_d
          (
            ClientState.error,
            record s { os = set_interest (record (s.os) { errno = e }) fd Interest.noop },
          )
          (rw n) (Conserved-same c d pre_c pre_d _ v refl refl refl)
  ]

  read_reply-client :
      (s : Session) (reply : RecvReply (List ℕ))
      → Conserved c d pre_c pre_d s
      → RecvFits s.relay.client_buffer reply
      → Keeps (read_reply true c s reply)
  read_reply-client s (RecvReply.failed e) v h = read_reply-failed true c s e v
  read_reply-client s RecvReply.closed v h = unfold read_reply in read_end-Kept true c s v
  read_reply-client s (RecvReply.received bs) v h =
      let (b, e, bv, q, l) = write_adv-fill s.relay.client_buffer bs v.client_valid h in
      Kept-intro c d pre_c pre_d (after_recv true c s bs b) (unfold read_reply read_data in rw e)
        (after_recv-client s bs b v bv q)

  pub forward_read-client :
      (s : Session) (reply : RecvReply (List ℕ))
      → Conserved c d pre_c pre_d s
      → RecvFits s.relay.client_buffer reply
      → Keeps (forward_read c s reply)
  unfolding forward_read
  forward_read-client s reply v h = elim (Bool-cases (Buffer.can_write s.relay.client_buffer)) [
    | inl y ↦
        rw (own, y, write_ptr-valid s.relay.client_buffer v.client_valid)
          (read_reply-client _ reply (Conserved-same c d pre_c pre_d _ v refl refl refl) h)
    | inr n ↦
        Kept-intro c d pre_c pre_d
          (ClientState.forwarding, record s { os = set_interest s.os c Interest.both })
          (rw (own, n)) (Conserved-same c d pre_c pre_d _ v refl refl refl)
  ]
    where
      own : (c == s.relay.client_fd) ≡ true
      own = ground (arith, v.client)

  read_reply-dest :
      (s : Session) (reply : RecvReply (List ℕ))
      → Conserved c d pre_c pre_d s
      → RecvFits s.relay.destiny_buffer reply
      → Keeps (read_reply false d s reply)
  read_reply-dest s (RecvReply.failed e) v h = read_reply-failed false d s e v
  read_reply-dest s RecvReply.closed v h = unfold read_reply in read_end-Kept false d s v
  read_reply-dest s (RecvReply.received bs) v h =
      let (b, e, bv, q, l) = write_adv-fill s.relay.destiny_buffer bs v.destiny_valid h in
      Kept-intro c d pre_c pre_d (after_recv false d s bs b) (unfold read_reply read_data in rw e)
        (after_recv-dest s bs b v bv q)

  pub forward_read-dest :
      (s : Session) (reply : RecvReply (List ℕ))
      → Conserved c d pre_c pre_d s
      → RecvFits s.relay.destiny_buffer reply
      → Keeps (forward_read d s reply)
  unfolding forward_read
  forward_read-dest s reply v h = elim (Bool-cases (Buffer.can_write s.relay.destiny_buffer)) [
    | inl y ↦
        rw (own, y, write_ptr-valid s.relay.destiny_buffer v.destiny_valid)
          (read_reply-dest _ reply (Conserved-same c d pre_c pre_d _ v refl refl refl) h)
    | inr n ↦
        Kept-intro c d pre_c pre_d
          (ClientState.forwarding, record s { os = set_interest s.os d Interest.both })
          (rw (own, n)) (Conserved-same c d pre_c pre_d _ v refl refl refl)
  ]
    where
      own : (d == s.relay.client_fd) ≡ false
      own = ground (arith, v.client)
