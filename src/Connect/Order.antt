-- ===== src/Connect/Order.antt =====
-- The loop over the addresses of a destination: which one is taken, and what becomes of the sockets.
use protos_tpe.Base.{
  ℕ, suc, ◌+◌, ◌<◌, ◌≡◌, ◌⊎◌, inl, inr, refl, sym, ap, ◌∙◌, Bool, true, false, Option, none, some,
  List, [], ◌∷◌, ◌++◌, arith, length, Bool-cases,
}
use mathlib.Core.Path.{subst}
use protos_tpe.Os.{Os, Errno, Interest, writing, set_interest}
use protos_tpe.States.{ClientState}
use protos_tpe.Client.{Client, SockAddr}
use protos_tpe.Request.{RequestParser}
use protos_tpe.Connect.Chosen.{Chosen, settled}
use protos_tpe.Connect.{
  Attempt, ConnectReply, connect_each, under_way, registers, register, note_connect, settle, close,
}

-- An attempt that does not give a connection: no socket, a `connect` that fails at once, or a socket
-- that the selector does not take.
abbrev pub Skipped : Os → Attempt → Type 0
Skipped os (Attempt.no_socket e) = 0 < 1
Skipped os (Attempt.opened s reply memory) =
    (under_way reply ≡ false) ⊎ (registers os s memory ≡ false)

-- the sockets that attempts have opened, the latest first, before those of `acc`
abbrev pub gained : Attempt → List ℕ → List ℕ
gained (Attempt.no_socket e) acc = acc
gained (Attempt.opened s reply memory) acc = s ∷ acc

abbrev pub tried : (ℕ → Attempt) → ℕ → List SockAddr → List ℕ → List ℕ
tried attempts i [] acc = acc
tried attempts i (a ∷ addrs) acc = tried attempts (i + 1) addrs (gained (attempts i) acc)

-- What an attempt that is skipped leaves as it was: all but the destination, `errno` and the sockets
-- that were closed.
record Kept (client client' : Client) (os os' : Os) (cs : List ℕ) : Type 0 where
  same_client :
      (d : Option ℕ) (addrs : List SockAddr)
      → ◌≡◌ {A = Client}
          (record client' { destination_fd = d; dest_addr = addrs })
          (record client { destination_fd = d; dest_addr = addrs })
  no_destination : client.destination_fd ≡ none → client'.destination_fd ≡ none
  same_os :
      (e : Errno) (closed : List ℕ)
      → ◌≡◌ {A = Os}
          (record os' { errno = e; closed = closed })
          (record os { errno = e; closed = closed })
  same_interest : os'.interest ≡ os.interest
  closes : os'.closed ≡ cs

Skipped-same :
    (os os' : Os) (t : Attempt) → os'.interest ≡ os.interest → Skipped os t → Skipped os' t
Skipped-same os os' (Attempt.no_socket e) p w = w
Skipped-same os os' (Attempt.opened s reply memory) p w = elim w [
  | inl u ↦ inl u
  | inr q ↦ inr (rw p q)
]

interest-note_connect :
    (os : Os) (reply : ConnectReply) → (note_connect os reply).interest ≡ os.interest
interest-note_connect os ConnectReply.connected = refl
interest-note_connect os (ConnectReply.failed e) = refl

registers-same :
    (os os' : Os) (s : ℕ) (memory : Bool)
    → os'.interest ≡ os.interest
    → registers os s memory ≡ true
    → registers os' s memory ≡ true
registers-same os os' s memory p r = rw (registers, p) r

module _ (fd : ℕ) (rp : RequestParser) (attempts : ℕ → Attempt) where
  abbrev Skips : Client → Os → ℕ → SockAddr → List SockAddr → Type 0
  Skips client os i a addrs =
      (client' : Client) × (os' : Os) × (connect_each fd rp client os attempts i (a ∷ addrs)
        ≡ connect_each fd rp client' os' attempts (i + 1) addrs)
      × Kept client client' os os' (gained (attempts i) os.closed)

  -- a socket that is closed again
  Kept-closed :
      (client : Client) (os : Os) (s : ℕ) (reply : ConnectReply) (d : Option ℕ)
      (addrs : List SockAddr)
      → ((client.destination_fd ≡ none) → d ≡ none)
      → Kept client
          (record client { destination_fd = d; dest_addr = addrs })
          os
          (close (note_connect os reply) s)
          (s ∷ os.closed)
  Kept-closed client os s ConnectReply.connected d addrs n = record {
    same_client = λ d' l. refl;
    no_destination = n;
    same_os = λ e c. refl;
    same_interest = refl;
    closes = refl;
  }
  Kept-closed client os s (ConnectReply.failed e) d addrs n = record {
    same_client = λ d' l. refl;
    no_destination = n;
    same_os = λ e c. refl;
    same_interest = refl;
    closes = refl;
  }

  skip-opened :
      (client : Client) (os : Os) (i : ℕ) (a : SockAddr) (addrs : List SockAddr) (s : ℕ)
      (reply : ConnectReply) (memory : Bool)
      → attempts i ≡ Attempt.opened s reply memory
      → (under_way reply ≡ false) ⊎ (registers (note_connect os reply) s memory ≡ false)
      → Skips client os i a addrs
  unfolding connect_each
  skip-opened client os i a addrs s reply memory e h = elim (Bool-cases (under_way reply)) [
    | inr n ↦ (
      client,
      close (note_connect os reply) s,
      rw (e, connect_each, n) refl,
      rw e (Kept-closed client os s reply client.destination_fd client.dest_addr (λ q. q)),
    )
    | inl y ↦ (
      record client { destination_fd = none; dest_addr = a ∷ addrs },
      close (note_connect os reply) s,
      (elim h [ inl n ↦ absurd cc | inr q ↦ rw (e, connect_each, y, q) refl ]),
      rw e (Kept-closed client os s reply none (a ∷ addrs) (λ q. refl)),
    )
  ]

  skip :
      (client : Client) (os : Os) (i : ℕ) (a : SockAddr) (addrs : List SockAddr) (t : Attempt)
      → attempts i ≡ t
      → Skipped os t
      → Skips client os i a addrs
  unfolding connect_each
  skip client os i a addrs (Attempt.no_socket e) h w = (
    client,
    record os { errno = e },
    rw (h, connect_each) refl,
    record {
      same_client = λ d l. refl;
      no_destination = λ n. n;
      same_os = λ e' c. refl;
      same_interest = refl;
      closes = rw h refl;
    },
  )
  skip client os i a addrs (Attempt.opened s ConnectReply.connected memory) h w =
      skip-opened client os i a addrs s ConnectReply.connected memory h w
  skip client os i a addrs (Attempt.opened s (ConnectReply.failed e) memory) h w =
      skip-opened client os i a addrs s (ConnectReply.failed e) memory h w

  taken :
      (client : Client) (os : Os) (i : ℕ) (a : SockAddr) (addrs : List SockAddr) (s : ℕ)
      (reply : ConnectReply) (memory : Bool)
      → attempts i ≡ Attempt.opened s reply memory
      → under_way reply ≡ true
      → registers (note_connect os reply) s memory ≡ true
      → connect_each fd rp client os attempts i (a ∷ addrs)
        ≡ settle rp
            (record client { destination_fd = some s; dest_addr = a ∷ addrs })
            (register (note_connect os reply) s)
            reply
  unfolding connect_each
  taken client os i a addrs s reply memory e u r = rw (e, connect_each, u, r) refl

  abbrev pub AllSkipped : Os → ℕ → List SockAddr → Type 0
  AllSkipped os i addrs = (j : ℕ) → j < length addrs → Skipped os (attempts (i + j))

  -- the attempt at the first address, and those at the others
  at_first :
      (os : Os) (i : ℕ) (a : SockAddr) (addrs : List SockAddr)
      → AllSkipped os i (a ∷ addrs)
      → Skipped os (attempts i)
  at_first os i a addrs h =
      subst (λ k. Skipped os (attempts k)) {x = i + 0} (omega arith) (h 0 (omega arith))

  at_others :
      (os os' : Os) (i : ℕ) (a : SockAddr) (addrs : List SockAddr)
      → os'.interest ≡ os.interest
      → AllSkipped os i (a ∷ addrs)
      → AllSkipped os' (i + 1) addrs
  at_others os os' i a addrs p h j lt =
      Skipped-same os os' (attempts (i + 1 + j)) p (
        subst (λ k. Skipped os (attempts k)) {x = i + suc j} (omega arith)
          (h (suc j) (omega arith)))

  settle-same :
      {client client' : Client} {os os' : Os} {cs : List ℕ} (s : ℕ) (reply : ConnectReply)
      (addrs : List SockAddr) (closed : List ℕ)
      → Kept client client' os os' cs
      → settle rp
          (record client' { destination_fd = some s; dest_addr = addrs })
          (register (note_connect (record os' { closed = closed }) reply) s)
          reply
        ≡ settle rp
            (record client { destination_fd = some s; dest_addr = addrs })
            (register (note_connect (record os { closed = closed }) reply) s)
            reply
  settle-same {client} {client'} {os} {os'} s ConnectReply.connected addrs closed k =
      ap
        (λ (c : Client).
          settle rp c (register (record os' { errno = Errno.clear; closed = closed }) s)
            ConnectReply.connected)
        (k.same_client (some s) addrs)
      ∙ ap
          (λ (o : Os).
            settle rp (record client { destination_fd = some s; dest_addr = addrs }) (register o s)
              ConnectReply.connected)
          (k.same_os Errno.clear closed)
  settle-same {client} {client'} {os} {os'} s (ConnectReply.failed e) addrs closed k =
      ap
        (λ (c : Client).
          settle rp c (register (record os' { errno = e; closed = closed }) s)
            (ConnectReply.failed e))
        (k.same_client (some s) addrs)
      ∙ ap
          (λ (o : Os).
            settle rp (record client { destination_fd = some s; dest_addr = addrs }) (register o s)
              (ConnectReply.failed e))
          (k.same_os e closed)

  -- the loop ends at the first address whose attempt is not skipped
  first-settles :
      (before : List SockAddr) (client : Client) (os : Os) (i : ℕ) (a : SockAddr)
      (addrs : List SockAddr) (s : ℕ) (reply : ConnectReply) (memory : Bool)
      → AllSkipped os i before
      → attempts (i + length before) ≡ Attempt.opened s reply memory
      → under_way reply ≡ true
      → registers os s memory ≡ true
      → connect_each fd rp client os attempts i (before ++ a ∷ addrs)
        ≡ settle rp
            (record client { destination_fd = some s; dest_addr = a ∷ addrs })
            (register
              (note_connect (record os { closed = tried attempts i before os.closed }) reply)
              s)
            reply
  first-settles [] client os i a addrs s reply memory h e u r =
      taken client os i a addrs s reply memory (ap attempts {x = i} (omega arith) ∙ e) u
        (registers-same os (note_connect os reply) s memory (interest-note_connect os reply) r)
  first-settles (b ∷ before) client os i a addrs s reply memory h e u r =
      let (client', os', run, k) =
        skip client os i b (before ++ a ∷ addrs) (attempts i) refl (at_first os i b before h) in
      run
      ∙ first-settles before client' os' (i + 1) a addrs s reply memory
          (at_others os os' i b before k.same_interest h)
          (ap attempts {y = i + suc (length before)} (omega arith) ∙ e) u
          (registers-same os os' s memory k.same_interest r)
      ∙ settle-same s reply (a ∷ addrs) (tried attempts (i + 1) before os'.closed) k
      ∙ ap
          (λ c.
            settle rp (record client { destination_fd = some s; dest_addr = a ∷ addrs })
              (register
                (note_connect (record os { closed = tried attempts (i + 1) before c }) reply) s)
              reply)
          k.closes

  -- The first address whose attempt is not skipped is the destination, with what is left of the
  -- addresses. For a connection that is made at once the state is REQUEST_WRITE and the status is
  -- success, and for one under way it is DEST_CONNECT. The socket is registered with OP_WRITE,
  -- the client's descriptor is asked to write where the connection is made, and no other interest
  -- changes; each socket that was opened before is closed, and no other, and nothing is sent.
  pub connect_each-first :
      (before : List SockAddr) (client : Client) (os : Os) (i : ℕ) (a : SockAddr)
      (addrs : List SockAddr) (s : ℕ) (reply : ConnectReply) (memory : Bool)
      → AllSkipped os i before
      → attempts (i + length before) ≡ Attempt.opened s reply memory
      → under_way reply ≡ true
      → registers os s memory ≡ true
      → Chosen rp client os s
          (a ∷ addrs)
          (tried attempts i before os.closed)
          reply
          (connect_each fd rp client os attempts i (before ++ a ∷ addrs))
  connect_each-first before client os i a addrs s reply memory h e u r =
      subst (Chosen rp client os s (a ∷ addrs) (tried attempts i before os.closed) reply)
        (sym (first-settles before client os i a addrs s reply memory h e u r))
        (settled rp client os s reply (a ∷ addrs) (tried attempts i before os.closed))

  -- Where each attempt is skipped the connection ends in ERROR, with the code 3 and an interest in
  -- writing; no destination is left, each socket that was opened is closed, and the table of the
  -- selector has otherwise not changed.
  pub connect_each-none :
      (addrs : List SockAddr) (client : Client) (os : Os) (i : ℕ)
      → client.destination_fd ≡ none
      → AllSkipped os i addrs
      → let r = connect_each fd rp client os attempts i addrs in
        (r.0 ≡ ClientState.error)
        × (r.2.err ≡ 3)
        × (r.2.destination_fd ≡ none)
        × (r.3.closed ≡ tried attempts i addrs os.closed)
        × (r.3.interest ≡ (set_interest os fd writing).interest)
  connect_each-none [] client os i n h = unfold connect_each in (refl, refl, n, refl, refl)
  connect_each-none (a ∷ addrs) client os i n h =
      let (client', os', run, k) =
        skip client os i a addrs (attempts i) refl (at_first os i a addrs h) in
      let ih =
        connect_each-none addrs client' os' (i + 1) (k.no_destination n)
          (at_others os os' i a addrs k.same_interest h) in
      rw run (
        ih.0,
        ih.1,
        ih.2,
        ih.3 ∙ ap (tried attempts (i + 1) addrs) k.closes,
        ih.4
            ∙ ap
                (λ (f : ℕ → Option Interest).
                  (set_interest (record os { interest = f }) fd writing).interest)
                k.same_interest,
      )
