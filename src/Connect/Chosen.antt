-- ===== src/Connect/Chosen.antt =====
-- What the choice of an address leads to: the state, the status of the reply and the interests.
use protos_tpe.Base.{
  ℕ, ◌≡◌, refl, sym, ap, Bool, true, false, Option, none, some, List, inl, inr, arith, ◌==◌,
  if◌then◌else◌, Bool-cases, Option-cases,
}
use protos_tpe.Os.{Os, Interest, writing, set_interest}
use protos_tpe.States.{ClientState}
use protos_tpe.Client.{Client, SockAddr}
use protos_tpe.Request.{RequestParser, Result}
use protos_tpe.Connect.{ConnectReply, register, note_connect, settle}

-- the state that a connection to an address leads to: it is made, or under way
abbrev pub stage : ConnectReply → ClientState
stage ConnectReply.connected = ClientState.request_write
stage (ConnectReply.failed e) = ClientState.dest_connect

-- the status of the reply that follows a connection that is made
abbrev pub status : ConnectReply → ℕ → ℕ
status ConnectReply.connected old = 0
status (ConnectReply.failed e) old = old

abbrev pub is_client : Client → ℕ → Bool
is_client client x = elim client.client_fd [ none ↦ false | some c ↦ x == c ]

-- The interests behind a connection by the socket `s`: its own is OP_WRITE, and so is that of the
-- client's descriptor, if it is registered and the connection is made.
abbrev pub asked : Client → Os → ℕ → ConnectReply → ℕ → Option Interest
asked client os s ConnectReply.connected x =
    if x == s
    then some Interest.writing
    else if is_client client x
    then elim (os.interest x) [ none ↦ none | some w ↦ some Interest.writing ]
    else os.interest x
asked client os s (ConnectReply.failed e) x =
    if x == s then some Interest.writing else os.interest x

-- the result of a choice: the socket `s` to the first of `addrs`, with `closed` closed so far
abbrev pub Chosen :
    RequestParser → Client → Os → ℕ → List SockAddr → List ℕ → ConnectReply → Result → Type 0
Chosen rp client os s addrs closed reply r =
    (r.0 ≡ stage reply)
    × (r.1 ≡ record rp { reply_status = status reply rp.reply_status })
    × (r.2 ≡ record client { destination_fd = some s; dest_addr = addrs })
    × (r.3.closed ≡ closed)
    × (r.3.sent ≡ os.sent)
    × ((x : ℕ) → r.3.interest x ≡ asked client os s reply x)

asked-client :
    (os : Os) (s c x : ℕ)
    → (set_interest (register os s) c writing).interest x ≡ (
        if x == s
        then some Interest.writing
        else if x == c
        then elim (os.interest x) [ none ↦ none | some w ↦ some Interest.writing ]
        else os.interest x)
asked-client os s c x = elim (Bool-cases (x == c)) [
  | inl y ↦
      let at : x ≡ c = ground (arith, y) in
      elim (Bool-cases (x == s)) [
        | inl z ↦ let here : (c == s) ≡ true = ground (arith, z, at) in rw (y, z, here) refl
        | inr z ↦
            let away : (c == s) ≡ false = ground (arith, z, at) in
            rw (y, z, away)
              (ap (λ k. elim (os.interest k) [ none ↦ none | some w ↦ some Interest.writing ])
                (sym at))
      ]
  | inr n ↦ rw n refl
]

pub settled :
    (rp : RequestParser) (client : Client) (os : Os) (s : ℕ) (reply : ConnectReply)
    (addrs : List SockAddr) (closed : List ℕ)
    → Chosen rp client os s addrs closed reply (
        settle rp
          (record client { destination_fd = some s; dest_addr = addrs })
          (register (note_connect (record os { closed = closed }) reply) s)
          reply)
settled rp client os s ConnectReply.connected addrs closed = elim (Option-cases client.client_fd) [
  | inl n ↦ rw n (refl, refl, refl, refl, refl, λ x. refl)
  | inr (c, e) ↦ rw e (refl, refl, refl, refl, refl, λ x. asked-client os s c x)
]
settled rp client os s (ConnectReply.failed e) addrs closed =
    (refl, refl, refl, refl, refl, λ x. refl)
