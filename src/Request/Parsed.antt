-- ===== src/Request/Parsed.antt =====
-- A whole request: the handling of the bytes that a client sends, against the message they encode.
use protos_tpe.Base.{
  ℕ, zero, suc, ◌+◌, ◌*◌, ◌≤◌, ◌<◌, ◌≡◌, refl, ap, ◌∙◌, Bool, true, false, Option, none, some, List,
  [], ◌∷◌, ◌++◌, arith, length, set, take, store, replicate, take-store, length-store,
}
use protos_tpe.Os.{Os, RecvReply, writing, set_interest}
use protos_tpe.Parser
use protos_tpe.Parser.{Parser}
use protos_tpe.Parser.Always.{stepped}
use protos_tpe.Users.Text.{c_string}
use protos_tpe.Field.{c_string-take, get_elem?-set}
use protos_tpe.States.{ClientState}
use protos_tpe.Client.{Client, Family}
use protos_tpe.Request.{
  RequestParser, Result, request_read, request_parser_init, read_one, read_bytes, single,
  port_bytes, handle_request_fin, setup_lookup, put_addr, end_addr, host_unreachable,
}
use protos_tpe.Request.Name.{after_port, read_bytes-name, read_bytes-port}
use protos_tpe.Request.State
use protos_tpe.Request.Table.{
  request_parser_def, act_ver_req, act_cmd_req, act_rsv_req, act_atyp_req,
  act_dstaddr_domainname_req,
}

-- The destination of a request.
pub data Address : Type 0 where
  v4 : (a b c d : ℕ) → Address
  v6 : (a0 a1 a2 a3 a4 a5 a6 a7 a8 a9 b0 b1 b2 b3 b4 b5 : ℕ) → Address
  name : List ℕ → Address

-- Its bytes on the wire, from the address type on.
abbrev pub encode : Address → List ℕ
encode (Address.v4 a b c d) = 1 ∷ a ∷ b ∷ c ∷ d ∷ []
encode (Address.v6 a0 a1 a2 a3 a4 a5 a6 a7 a8 a9 b0 b1 b2 b3 b4 b5) =
    4 ∷ a0 ∷ a1 ∷ a2 ∷ a3 ∷ a4 ∷ a5 ∷ a6 ∷ a7 ∷ a8 ∷ a9 ∷ b0 ∷ b1 ∷ b2 ∷ b3 ∷ b4 ∷ b5 ∷ []
encode (Address.name bs) = 3 ∷ length bs ∷ bs

-- A name has between 1 and 254 bytes; one of 255 bytes is written behind the array.
abbrev pub InRange : Address → Type 0
InRange (Address.name bs) = (1 ≤ length bs) × (length bs < 255)
InRange a = 1 ≤ 1

-- what a run leaves behind: of the request's parser, the status for the reply
abbrev pub View : Type 0
View = ClientState × ℕ × Client × Os

abbrev pub view : Option Result → Option View
view none = none
view (some (st, rp, client, os)) = some (st, rp.reply_status, client, os)

-- The request of port `port` for an address: what the protocol asks to do with it.
unfoldable pub requested : ℕ → Client → Os → Bool → Address → ℕ → View
requested fd client os started (Address.v4 a b c d) port = (
  ClientState.dest_connect,
  0,
  single client
      (record { family = Family.inet; address = a ∷ b ∷ c ∷ d ∷ []; port = port_bytes port }),
  set_interest os fd writing,
)
requested fd client os started (Address.v6 a0 a1 a2 a3 a4 a5 a6 a7 a8 a9 b0 b1 b2 b3 b4 b5) port = (
  ClientState.dest_connect,
  0,
  single client (record {
    family = Family.inet6;
    address = a0 ∷ a1 ∷ a2 ∷ a3 ∷ a4 ∷ a5 ∷ a6 ∷ a7 ∷ a8 ∷ a9 ∷ b0 ∷ b1 ∷ b2 ∷ b3 ∷ b4 ∷ b5 ∷ [];
    port = port_bytes port;
  }),
  set_interest os fd writing,
)
requested fd client os true (Address.name bs) port = (
  ClientState.dns_lookup,
  0,
  record client { dns_req = some (record { name = c_string bs; service = port }) },
  set_interest os fd writing,
)
requested fd client os false (Address.name bs) port = (
  ClientState.request_write,
  host_unreachable,
  record client { dns_req = none },
  set_interest (set_interest os fd writing) fd writing,
)

take-set : (xs : List ℕ) (n v : ℕ) → take n (set xs n v) ≡ take n xs
take-set [] n v = refl
take-set (x ∷ xs) zero v = refl
take-set (x ∷ xs) (suc n) v = ap (◌∷◌ x) (take-set xs n v)

-- The string of an array that a name was stored in, with a NUL behind it.
c_string-stored :
    (bs xs : List ℕ) (n : ℕ)
    → n ≡ length bs
    → n < length xs
    → c_string (set (store xs 0 bs) n 0) ≡ c_string bs
c_string-stored bs xs n e h =
    let room : n < length (store xs 0 bs) = omega (arith, length-store xs 0 bs, h) in
    c_string-take (set (store xs 0 bs) n 0) n (get_elem?-set (store xs 0 bs) n 0 room)
    ∙ ap c_string (take-set (store xs 0 bs) n 0 ∙ take-store xs bs n e (omega arith))

-- What the end of a request for a name does.
fin-name :
    (fd : ℕ) (client : Client) (os : Os) (started : Bool) (rp : RequestParser) (bs : List ℕ)
    (port : ℕ)
    → rp.atyp ≡ 3
    → rp.port ≡ port
    → rp.reply_status ≡ 0
    → c_string rp.addr ≡ c_string bs
    → view (some (handle_request_fin fd rp client os started))
      ≡ some (requested fd client os started (Address.name bs) port)
unfolding handle_request_fin setup_lookup requested
fin-name fd client os true rp bs port t p s e =
    rw (t, p, e)
      (ap
        (λ k. some (
          ClientState.dns_lookup,
          k,
          record client { dns_req = some (record { name = c_string bs; service = port }) },
          set_interest os fd writing,
        ))
        s)
fin-name fd client os false rp bs port t p s e = rw t refl

-- the parser's record of a new request
abbrev pub fresh : ℕ → RequestParser
fresh past_end = (request_parser_init true past_end).1

module _ (fd past_end : ℕ) (client : Client) (os : Os) (started : Bool) where
  -- the parser behind the length of a name, and the record that holds it
  abbrev name_parser : ℕ → ℕ → Parser
  name_parser rsv n =
      let p0 = Parser.start Parser.no_classes past_end request_parser_def in
      let p1 = stepped p0 State.cmd act_ver_req 5 in
      let p2 = stepped p1 State.rsv act_cmd_req 1 in
      let p3 = stepped p2 State.atyp act_rsv_req rsv in
      let p4 = stepped p3 State.dstaddr_domainname act_atyp_req 3 in
      stepped p4 State.dstaddr_domainname act_dstaddr_domainname_req n

  abbrev named : ℕ → ℕ → RequestParser
  named rsv n = record {
    p = some (name_parser rsv n);
    atyp = 3;
    cmd = 1;
    addr_len = n;
    addr_read = 0;
    port_read = 0;
    addr = replicate 255 0;
    ipv4 = replicate 4 0;
    ipv6 = replicate 16 0;
    port = 0;
    reply_status = 0;
  }

  name_head :
      (rsv n : ℕ) (rest : List ℕ)
      → read_bytes fd (fresh past_end) client os started (5 ∷ 1 ∷ rsv ∷ 3 ∷ n ∷ rest)
        ≡ read_bytes fd (named rsv n) client os started rest
  unfolding read_bytes read_one put_addr end_addr Parser.feed Parser.set_state request_parser_init
      Parser.init
  name_head rsv n rest = refl

  v4_run :
      (rsv a b c d hi lo : ℕ) (rest : List ℕ)
      → view (
          read_bytes fd
            (fresh past_end)
            client
            os
            started
            (5 ∷ 1 ∷ rsv ∷ 1 ∷ a ∷ b ∷ c ∷ d ∷ hi ∷ lo ∷ rest))
        ≡ some (requested fd client os started (Address.v4 a b c d) (hi * 256 + lo))
  unfolding read_bytes read_one handle_request_fin put_addr end_addr Parser.feed Parser.set_state
      Parser.events request_parser_init requested
  v4_run rsv a b c d hi lo rest = refl

  v6_run :
      (rsv a0 a1 a2 a3 a4 a5 a6 a7 a8 a9 b0 b1 b2 b3 b4 b5 hi lo : ℕ) (rest : List ℕ)
      → let a = Address.v6 a0 a1 a2 a3 a4 a5 a6 a7 a8 a9 b0 b1 b2 b3 b4 b5 in
        view (
          read_bytes fd
            (fresh past_end)
            client
            os
            started
            (5 ∷ 1 ∷ rsv ∷ (encode a ++ hi ∷ lo ∷ rest)))
        ≡ some (requested fd client os started a (hi * 256 + lo))
  unfolding read_bytes read_one handle_request_fin put_addr end_addr Parser.feed Parser.set_state
      Parser.events request_parser_init requested
  v6_run rsv a0 a1 a2 a3 a4 a5 a6 a7 a8 a9 b0 b1 b2 b3 b4 b5 hi lo rest = refl

  name_run :
      (rsv b hi lo : ℕ) (bs rest : List ℕ)
      → suc (length bs) < 255
      → view (
          read_bytes fd
            (fresh past_end)
            client
            os
            started
            (5 ∷ 1 ∷ rsv ∷ (encode (Address.name (b ∷ bs)) ++ hi ∷ lo ∷ rest)))
        ≡ some (requested fd client os started (Address.name (b ∷ bs)) (hi * 256 + lo))
  name_run rsv b hi lo bs rest h =
      let n = suc (length bs) in
      let p = name_parser rsv n in
      let (rp, run, g) =
        read_bytes-name fd client os started bs (named rsv n) n 0 b p (hi ∷ lo ∷ rest)
          (record { live = refl; at = record { same = refl; state_is = refl } }) refl refl refl
          (omega arith) h in
      ap view (
        name_head rsv n (b ∷ (bs ++ hi ∷ lo ∷ rest))
        ∙ run
        ∙ read_bytes-port fd client os started rp hi lo g.parser rest g.ready g.port_same)
      ∙ fin-name fd client os started (after_port fd client os started rp g.parser hi lo) (b ∷ bs)
          (hi * 256 + lo) g.atyp_same refl g.status_same
          (ap c_string (
              g.stored
              ∙ ap (λ k. set (store (replicate 255 0) 0 (b ∷ bs)) k 0) {y = n} (omega arith))
            ∙ c_string-stored (b ∷ bs) (replicate 255 0) n refl (omega arith))

  -- A whole request, CONNECT to an address of one of the three kinds, that arrives at once: the
  -- address and the port that are then connected to are those of the request, a name goes to the
  -- lookup, and a lookup that cannot start is answered "host unreachable". The reserved byte and the
  -- bytes behind the request do not matter. A name has between 1 and 254 bytes.
  pub request_read-request :
      (rsv hi lo : ℕ) (a : Address) (rest : List ℕ)
      → InRange a
      → view (
          request_read fd
            (fresh past_end)
            client
            os
            (RecvReply.received (5 ∷ 1 ∷ rsv ∷ (encode a ++ hi ∷ lo ∷ rest)))
            started)
        ≡ some (requested fd client os started a (hi * 256 + lo))
  unfolding request_read
  request_read-request rsv hi lo (Address.v4 a b c d) rest w = v4_run rsv a b c d hi lo rest
  request_read-request rsv hi lo (Address.v6 a0 a1 a2 a3 a4 a5 a6 a7 a8 a9 b0 b1 b2 b3 b4 b5) rest
        w =
      v6_run rsv a0 a1 a2 a3 a4 a5 a6 a7 a8 a9 b0 b1 b2 b3 b4 b5 hi lo rest
  request_read-request rsv hi lo (Address.name []) rest w = absurd (omega (arith, w.0))
  request_read-request rsv hi lo (Address.name (b ∷ bs)) rest w = name_run rsv b hi lo bs rest w.1
