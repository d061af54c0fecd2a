-- ===== src/Closing/Frees.antt =====
-- What the arrival in ERROR leaves.
use protos_tpe.Base.{
  ℕ, ◌≡◌, ◌≢◌, refl, ap, ◌∙◌, Bool, true, false, ◌||◌, Option, none, some, ◌∷◌, ◌==◌, if◌then◌else◌,
  arith, Bool-cases, inl, inr, ltb,
}
use protos_tpe.Os.{SendReply, Interest, update}
use protos_tpe.Buffer
use protos_tpe.Buffer.{Buffer}
use protos_tpe.States.{ClientState}
use protos_tpe.Stats.{decrement_current_connections}
use protos_tpe.Client.{Client, free_destination, free_dns_request}
use protos_tpe.Connect.{close}
use protos_tpe.Closing.{
  Connection, release, emptied, finished, end_fds, end_destination, end_fd, end_connection,
  error_handler, unregister, unregister_at, count_off, handle_close_client, is_fd,
}

release-fds :
    (c : Client)
    → ((release c).client_fd ≡ c.client_fd) × ((release c).destination_fd ≡ c.destination_fd)
unfolding free_destination free_dns_request
release-fds c = ground arith

count_off-os :
    (k : Connection) (fd : ℕ) (b : Bool)
    → ◌≡◌ {A = Connection}
        (let k2 = count_off k b in
          record k2 { os = record k2.os { interest = update k2.os.interest fd none } })
        (count_off (record k { os = record k.os { interest = update k.os.interest fd none } }) b)
unfolding count_off
count_off-os k fd true = refl
count_off-os k fd false = refl

-- a descriptor in use, the client's or not
end_fd-used :
    (k : Connection) (fd : ℕ) (i : Interest) (b : Bool)
    → is_fd k.client.client_fd fd ≡ b
    → k.os.interest fd ≡ some i
    → end_fd k (some fd)
      ≡ count_off
          (record k {
            os = record k.os { closed = fd ∷ k.os.closed; interest = update k.os.interest fd none };
          })
          b
unfolding end_fd unregister unregister_at handle_close_client
end_fd-used k fd i b c e =
    let k1 : Connection = record k { os = close k.os fd } in
    ap (unregister_at k1 fd) e
    ∙ ap
        (λ (b : Bool).
          let k2 = count_off k1 b in
          (record k2 { os = record k2.os { interest = update k2.os.interest fd none } }))
        c
    ∙ count_off-os k1 fd b

abbrev to_end : Connection → Connection
to_end k = record k { client = record k.client { destination_fd = none }; freed = true }

end_fds-both :
    (k : Connection) (a d : ℕ) (i j : Interest)
    → k.client.client_fd ≡ some a
    → k.client.destination_fd ≡ some d
    → (d == a) ≡ false
    → k.os.interest a ≡ some i
    → k.os.interest d ≡ some j
    → end_fds k ≡ record k {
      client = record k.client { client_fd = none; destination_fd = none };
      os = record k.os {
        closed = d ∷ a ∷ k.os.closed;
        interest = update (update k.os.interest a none) d none;
      };
      stats = decrement_current_connections k.stats;
      freed = true;
    }
unfolding end_fds end_destination count_off
end_fds-both k a d i j ca cd off ia id =
    let same : (a == a) ≡ true = ground arith in
    let after_client = λ (k1 : Connection).
      end_destination (record k1 { client = record k1.client { client_fd = none } }) in
    let k2 : Connection = record k {
      client = record k.client { client_fd = none };
      os = record k.os { closed = a ∷ k.os.closed; interest = update k.os.interest a none };
      stats = decrement_current_connections k.stats;
    } in
    ap (λ o. after_client (end_fd k o)) ca
    ∙ ap after_client (end_fd-used k a i true (ap (λ o. is_fd o a) ca ∙ same) ia)
    ∙ ap (λ o. to_end (end_fd k2 o)) cd
    ∙ ap to_end (
        end_fd-used k2 d j false refl
          (ap (λ (b : Bool). if b then none else k.os.interest d) off ∙ id))

emptied-finished : (c : Client) → finished (emptied c) ≡ true
unfolding Buffer.can_read
emptied-finished c =
    let w = c.client_buffer.write in
    let v = c.destiny_buffer.write in
    let a : ltb w w ≡ false = ground arith in
    let b : ltb v v ≡ false = ground arith in rw (a, b) refl

end_connection-finished :
    (k : Connection)
    → finished k.client ≡ true
    → end_connection k ≡ end_fds (record k { client = release k.client })
unfolding end_connection
end_connection-finished k e = rw e refl

gone :
    (f : ℕ → Option Interest) (a d x : ℕ)
    → update (update f a none) d none x ≡ (if x == d || x == a then none else f x)
gone f a d x = elim (Bool-cases (x == d)) [
  | inl y ↦ rw (update, y) refl
  | inr n ↦ rw (update, n) refl
]

-- The arrival in ERROR, with both descriptors open and in use: the client is told nothing, whatever
-- the error's code is; its memory is freed, both descriptors are closed once each, their entries are
-- gone from the selector and all others stay, and the connection is no longer counted. The bytes in
-- the buffers are dropped. `x` is the descriptor that is then looked at.
pub error_handler-frees :
    (fd a d x : ℕ) (sent : SendReply) (k : Connection) (i j : Interest)
    → k.client.client_fd ≡ some a
    → k.client.destination_fd ≡ some d
    → d ≢ a
    → k.os.interest a ≡ some i
    → k.os.interest d ≡ some j
    → let r = error_handler ClientState.error fd sent k in
      (r.freed ≡ true)
      × (r.client.client_fd ≡ none)
      × (r.client.destination_fd ≡ none)
      × (r.os.sent ≡ k.os.sent)
      × (r.os.closed ≡ d ∷ a ∷ k.os.closed)
      × (r.os.interest x ≡ (if x == d || x == a then none else k.os.interest x))
      × (r.stats ≡ decrement_current_connections k.stats)
unfolding error_handler
error_handler-frees fd a d x sent k i j ca cd off ia id =
    let c = emptied (release k.client) in
    let fds = release-fds k.client in
    let fds' = release-fds c in
    let other : (d == a) ≡ false = ground (arith, off) in
    let run =
      end_connection-finished (record k { client = c }) (emptied-finished (release k.client))
      ∙ end_fds-both (record k { client = release c }) a d i j (fds'.0 ∙ fds.0 ∙ ca)
          (fds'.1 ∙ fds.1 ∙ cd) other ia id in
    (
      ap (λ (r : Connection). r.freed) run,
      ap (λ (r : Connection). r.client.client_fd) run,
      ap (λ (r : Connection). r.client.destination_fd) run,
      ap (λ (r : Connection). r.os.sent) run,
      ap (λ (r : Connection). r.os.closed) run,
      ap (λ (r : Connection). r.os.interest x) run ∙ gone k.os.interest a d x,
      ap (λ (r : Connection). r.stats) run,
    )
