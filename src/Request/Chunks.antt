-- ===== src/Request/Chunks.antt =====
-- A request that arrives in pieces, each handed to `request_read`.
use protos_tpe.Base.{
  ℕ, ◌+◌, ◌≤◌, ◌==◌, Bool-cases, ◌≡◌, ◌≢◌, inl, inr, refl, ◌∙◌, sym, Bool, true, false, Option,
  none, some, List, [], ◌∷◌, ◌++◌, arith, if◌then◌else◌, ◌>>=◌, Option-cases,
}
use protos_tpe.Os.{Os, RecvReply}
use protos_tpe.Parser
use protos_tpe.Parser.{Parser, Event}
use protos_tpe.States.{ClientState}
use protos_tpe.Client.{Client}
use protos_tpe.Request.State
use mathlib.Core.Path.{subst}
use protos_tpe.Request.{
  Outcome, fin_walk, read_port, on_event, read_ipv4, read_ipv6, read_domainname, RequestParser,
  Result, read_one, read_bytes, request_read, handle_request_fin,
}

module _ (fd : ℕ) (started : Bool) where
  -- The pieces arrive while the connection stays in REQUEST_READ.
  unfoldable pub read_chunks : RequestParser → Client → Os → List (List ℕ) → Option Result
  read_chunks rp client os [] = some (ClientState.request_read, rp, client, os)
  read_chunks rp client os (bs ∷ chunks) =
      let later =
        λ (rp' : RequestParser) (client' : Client) (os' : Os). read_chunks rp' client' os' chunks in
      do
        r ← request_read fd rp client os (RecvReply.received bs) started
        elim r.0 [ ClientState.request_read ↦ later r.1 r.2 r.3 | s ↦ some (s, r.1, r.2, r.3) ]

  abbrev pub concat : List (List ℕ) → List ℕ
  concat [] = []
  concat (bs ∷ chunks) = bs ++ concat chunks

  -- what follows a run over some bytes: the next bytes, if it stays
  unfoldable pub continue : Option Result → List ℕ → Option Result
  continue none ys = none
  continue (some (ClientState.request_read, rp, client, os)) ys =
      read_bytes fd rp client os started ys
  continue (some r) ys = some r

  fin-leaves :
      (rp : RequestParser) (client : Client) (os : Os)
      → (handle_request_fin fd rp client os started).0 ≢ ClientState.request_read
  unfolding handle_request_fin
  fin-leaves rp client os = ground arith

  -- An outcome that leaves the loop goes to another state.
  abbrev Leaves : Option Outcome → Type 0
  Leaves none = 1 ≤ 1
  Leaves (some (none, rp, client, os)) = 1 ≤ 1
  Leaves (some (some st, rp, client, os)) = st ≢ ClientState.request_read

  if-Leaves : (b : Bool) (x y : Option Outcome) → Leaves x → Leaves y → Leaves (if b then x else y)
  if-Leaves true x y p q = p
  if-Leaves false x y p q = q

  stay-Leaves :
      (m : Option RequestParser) (client : Client) (os : Os)
      → Leaves (m >>= λ rp. some (none, rp, client, os))
  stay-Leaves none client os = omega arith
  stay-Leaves (some rp) client os = omega arith

  walk-Leaves :
      (rp : RequestParser) (client : Client) (os : Os) (evs : List Event)
      → Leaves (some (fin_walk fd rp client os started evs))
  unfolding fin_walk
  walk-Leaves rp client os [] = omega arith
  walk-Leaves rp client os (ev ∷ evs) = elim (Bool-cases (ev.type == State.fin)) [
    | inl y ↦ rw y (fin-leaves rp client os)
    | inr n ↦ rw n (elim (Bool-cases (ev.type == State.error)) [
      | inl y ↦ rw y (ground arith)
      | inr m ↦ rw m (walk-Leaves rp client os evs)
    ])
  ]

  port-Leaves :
      (rp : RequestParser) (client : Client) (os : Os) (c : ℕ)
      → Leaves (read_port fd rp client os started c)
  unfolding read_port
  port-Leaves rp client os c =
      if-Leaves (rp.port_read == 0) _ _ (omega arith) (elim (Option-cases rp.p) [
        | inl n ↦ rw n (omega arith)
        | inr (p, e) ↦ rw e (elim (Option-cases (Parser.feed (Parser.set_state p State.fin) 0)) [
          | inl n ↦ rw n (omega arith)
          | inr (q, f) ↦ rw f (
              walk-Leaves (record rp { port = rp.port + c; port_read = 2; p = some q }) client os
                (Parser.events q))
        ])
      ])

  event-Leaves :
      (rp : RequestParser) (client : Client) (os : Os) (ev : Event)
      → Leaves (on_event fd rp client os started ev)
  unfolding on_event
  event-Leaves rp client os ev = elim (Bool-cases (ev.type == State.fin)) [
    | inl y ↦ rw y (fin-leaves rp client os)
    | inr n ↦ rw n (elim (Bool-cases (ev.type == State.error)) [
      | inl y ↦ rw y (cc)
      | inr n ↦ rw n (elim (Bool-cases (ev.type == State.cmd)) [
        | inl y ↦ rw y (ground arith)
        | inr n ↦ rw n (elim (Bool-cases (ev.type == State.atyp)) [
          | inl y ↦ rw y (ground arith)
          | inr n ↦ rw n (elim (Bool-cases (ev.type == State.dstaddr_ipv4)) [
            | inl y ↦ rw y (stay-Leaves (read_ipv4 rp ev.payload) client os)
            | inr n ↦ rw n (elim (Bool-cases (ev.type == State.dstaddr_ipv6)) [
              | inl y ↦ rw y (stay-Leaves (read_ipv6 rp ev.payload) client os)
              | inr n ↦ rw n (elim (Bool-cases (ev.type == State.dstaddr_domainname)) [
                | inl y ↦ rw y (stay-Leaves (read_domainname rp ev.payload) client os)
                | inr n ↦ rw n (elim (Bool-cases (ev.type == State.dstport)) [
                  | inl y ↦ rw y (port-Leaves rp client os ev.payload)
                  | inr n ↦ rw n (elim (Bool-cases (ev.type == State.ver)) [
                    | inl y ↦ rw y (ground arith)
                    | inr n ↦ rw n (elim (Bool-cases (ev.type == State.rsv)) [
                      | inl y ↦ rw y (omega arith)
                      | inr n ↦ rw n (cc)
                    ])
                  ])
                ])
              ])
            ])
          ])
        ])
      ])
    ])
  ]

  one-Leaves :
      (rp : RequestParser) (client : Client) (os : Os) (c : ℕ)
      → Leaves (read_one fd rp client os started c)
  unfolding read_one
  one-Leaves rp client os c = elim (Option-cases rp.p) [
    | inl n ↦ rw n (omega arith)
    | inr (p, e) ↦ rw e (elim (Option-cases (Parser.feed p c)) [
      | inl n ↦ rw n (omega arith)
      | inr (q, f) ↦ rw f (event-Leaves (record rp { p = some q }) client os q.e1)
    ])
  ]

  read_one-leaves :
      (rp rp' : RequestParser) (client client' : Client) (os os' : Os) (c : ℕ) (st : ClientState)
      → read_one fd rp client os started c ≡ some (some st, rp', client', os')
      → st ≢ ClientState.request_read
  read_one-leaves rp rp' client client' os os' c st h = subst Leaves h (one-Leaves rp client os c)

  continue-left :
      (st : ClientState) (rp : RequestParser) (client : Client) (os : Os) (ys : List ℕ)
      → st ≢ ClientState.request_read
      → continue (some (st, rp, client, os)) ys ≡ some (st, rp, client, os)
  unfolding continue
  continue-left st rp client os ys n = ground (arith, n)

  read_bytes-append :
      (xs ys : List ℕ) (rp : RequestParser) (client : Client) (os : Os)
      → read_bytes fd rp client os started (xs ++ ys)
        ≡ continue (read_bytes fd rp client os started xs) ys
  unfolding read_bytes
  read_bytes-append [] ys rp client os = unfold continue in refl
  read_bytes-append (c ∷ xs) ys rp client os =
      elim (Option-cases (read_one fd rp client os started c)) [
        | inl n ↦ rw n (unfold continue in refl)
        | inr ((none, rp', client', os'), e) ↦ rw e (read_bytes-append xs ys rp' client' os')
        | inr ((some st, rp', client', os'), e) ↦ rw e (
            sym (
              continue-left st rp' client' os' ys
                (read_one-leaves rp rp' client client' os os' c st e)))
      ]

  continue-chunks :
      (r : Option Result) (chunks : List (List ℕ))
      → ((rp : RequestParser) (client : Client) (os : Os)
          → read_chunks rp client os chunks ≡ read_bytes fd rp client os started (concat chunks))
      → (r >>= λ r'. elim r'.0 [
        | ClientState.request_read ↦ read_chunks r'.1 r'.2 r'.3 chunks
        | s ↦ some (s, r'.1, r'.2, r'.3)
      ])
        ≡ continue r (concat chunks)
  unfolding continue
  continue-chunks none chunks ih = refl
  continue-chunks (some (ClientState.request_read, rp, client, os)) chunks ih = ih rp client os
  continue-chunks (some (ClientState.hello_read, rp, client, os)) chunks ih = refl
  continue-chunks (some (ClientState.hello_write, rp, client, os)) chunks ih = refl
  continue-chunks (some (ClientState.auth_read, rp, client, os)) chunks ih = refl
  continue-chunks (some (ClientState.auth_write, rp, client, os)) chunks ih = refl
  continue-chunks (some (ClientState.dns_lookup, rp, client, os)) chunks ih = refl
  continue-chunks (some (ClientState.dest_connect, rp, client, os)) chunks ih = refl
  continue-chunks (some (ClientState.request_write, rp, client, os)) chunks ih = refl
  continue-chunks (some (ClientState.forwarding, rp, client, os)) chunks ih = refl
  continue-chunks (some (ClientState.done, rp, client, os)) chunks ih = refl
  continue-chunks (some (ClientState.error, rp, client, os)) chunks ih = refl

  -- Where the network splits a request does not matter: the pieces, each handed to `request_read`
  -- while the connection stays in REQUEST_READ, leave behind what all the bytes in one piece do,
  -- from any state of the parser, the client and the selector.
  pub read_chunks-concat :
      (chunks : List (List ℕ)) (rp : RequestParser) (client : Client) (os : Os)
      → read_chunks rp client os chunks
        ≡ request_read fd rp client os (RecvReply.received (concat chunks)) started
  unfolding read_chunks request_read
  read_chunks-concat [] rp client os = unfold read_bytes in refl
  read_chunks-concat (bs ∷ chunks) rp client os =
      continue-chunks (read_bytes fd rp client os started bs) chunks (read_chunks-concat chunks)
      ∙ sym (read_bytes-append bs (concat chunks) rp client os)
