-- ===== src/Request/Name.antt =====
-- The bytes of a domain name and of a port, in a request.
use protos_tpe.Base.{
  ℕ, suc, ◌+◌, ◌*◌, ◌<◌, ◌≡◌, refl, ap, ◌∙◌, Bool, true, false, none, some, List, [], ◌∷◌, ◌++◌,
  arith, ◌==◌, if◌then◌else◌, length, set, store, length-set, store-set, set-store,
}
use protos_tpe.Os.{Os}
use protos_tpe.Parser
use protos_tpe.Parser.{Parser}
use protos_tpe.Parser.Always.{At, feed-At, stepped}
use protos_tpe.Client.{Client}
use protos_tpe.Request.{
  RequestParser, Result, read_one, read_bytes, handle_request_fin, put_addr, end_addr,
}
use protos_tpe.Request.State
use protos_tpe.Request.Table.{
  request_parser_def, act_dstaddr_domainname_req, act_dstport_req, act_fin_req,
}

-- the parser is there, and in state `k` of its table
pub record In (k : ℕ) (rp : RequestParser) (p : Parser) : Type 0 where
  pub live : rp.p ≡ some p
  pub at : At request_parser_def k p

-- the parser's record after a byte of a name; the last one ends the name and moves on to the port
abbrev pub after_name : RequestParser → Parser → ℕ → ℕ → Bool → RequestParser
after_name rp p k c last =
    let array = set rp.addr k c in
    let q = stepped p State.dstaddr_domainname act_dstaddr_domainname_req c in
    record rp {
      addr = if last then set array (k + 1) 0 else array;
      addr_read = k + 1;
      p = some (if last then Parser.set_state q State.dstport else q);
    }

module _ (fd : ℕ) (client : Client) (os : Os) (started : Bool) where
  pub read_bytes-next :
      (rp rp' : RequestParser) (c : ℕ) (cs : List ℕ)
      → read_one fd rp client os started c ≡ some (none, rp', client, os)
      → read_bytes fd rp client os started (c ∷ cs) ≡ read_bytes fd rp' client os started cs
  unfolding read_bytes
  read_bytes-next rp rp' c cs e = rw e

  read-name :
      (rp : RequestParser) (n k c : ℕ) (p : Parser)
      → In State.dstaddr_domainname rp p
      → rp.addr_len ≡ n
      → rp.addr_read ≡ k
      → length rp.addr ≡ 255
      → k < n
      → n < 255
      → read_one fd rp client os started c
        ≡ some (none, after_name rp p k c (n == k + 1), client, os)
  unfolding read_one put_addr end_addr
  read-name rp n k c p w total count room lt small =
      rw (w.live, feed-At State.dstaddr_domainname act_dstaddr_domainname_req c w.at refl)
        (ground (arith, length-set rp.addr k c))

  -- What a name leaves behind: a parser that waits for the port, and the name in its array.
  pub record Named (rp : RequestParser) (name : List ℕ) (k : ℕ) (rp' : RequestParser) : Type 0 where
    pub parser : Parser
    pub ready : In State.dstport rp' parser
    pub stored : rp'.addr ≡ set (store rp.addr k name) (k + length name) 0
    pub atyp_same : rp'.atyp ≡ rp.atyp
    pub port_same : rp'.port_read ≡ rp.port_read
    pub status_same : rp'.reply_status ≡ rp.reply_status

  pub read_bytes-name :
      (cs : List ℕ) (rp : RequestParser) (n k c : ℕ) (p : Parser) (rest : List ℕ)
      → In State.dstaddr_domainname rp p
      → rp.addr_len ≡ n
      → rp.addr_read ≡ k
      → length rp.addr ≡ 255
      → k + suc (length cs) ≡ n
      → n < 255
      → (rp' : RequestParser) × (read_bytes fd rp client os started (c ∷ (cs ++ rest))
          ≡ read_bytes fd rp' client os started rest)
        × Named rp (c ∷ cs) k rp'
  read_bytes-name [] rp n k c p rest w total count room h small =
      let rp1 = after_name rp p k c true in
      let q = stepped p State.dstaddr_domainname act_dstaddr_domainname_req c in
      let last : (n == k + 1) ≡ true = ground arith in
      (
        rp1,
        read_bytes-next rp rp1 c rest
            (read-name rp n k c p w total count room (omega arith) small ∙ rw last),
        record {
          parser = Parser.set_state q State.dstport;
          ready = record {
            live = refl;
            at = unfold Parser.set_state in record { same = w.at.same; state_is = refl };
          };
          stored = ap (λ a. set a (k + 1) 0) (set-store rp.addr k c);
          atyp_same = refl;
          port_same = refl;
          status_same = refl;
        },
      )
  read_bytes-name (d ∷ cs) rp n k c p rest w total count room h small =
      let rp1 = after_name rp p k c false in
      let q = stepped p State.dstaddr_domainname act_dstaddr_domainname_req c in
      let more : (n == k + 1) ≡ false = ground arith in
      let (rp', run, g) =
        read_bytes-name cs rp1 n (k + 1) d q rest
          (record { live = refl; at = record { same = w.at.same; state_is = refl } }) total refl
          (length-set rp.addr k c ∙ room) (omega arith) small in
      (
        rp',
        read_bytes-next rp rp1 c (d ∷ (cs ++ rest))
              (read-name rp n k c p w total count room (omega arith) small ∙ rw more)
            ∙ run,
        record {
          parser = g.parser;
          ready = g.ready;
          stored =
              g.stored
              ∙ ap (λ a. set a (k + 1 + length (d ∷ cs)) 0) (store-set rp.addr k c (d ∷ cs))
              ∙ ap (λ m. set (store rp.addr k (c ∷ (d ∷ cs))) m 0) (omega arith);
          atyp_same = g.atyp_same;
          port_same = g.port_same;
          status_same = g.status_same;
        },
      )

  -- the parser's record after the two bytes of a port
  abbrev pub after_port : RequestParser → Parser → ℕ → ℕ → RequestParser
  after_port rp p hi lo =
      let q =
        stepped (stepped p State.dstport act_dstport_req hi) State.dstport act_dstport_req lo in
      record rp {
        port = hi * 256 + lo;
        port_read = 2;
        p = some (stepped (Parser.set_state q State.fin) State.fin act_fin_req 0);
      }

  read-port_first :
      (rp : RequestParser) (hi : ℕ) (p : Parser)
      → In State.dstport rp p
      → rp.port_read ≡ 0
      → read_one fd rp client os started hi
        ≡ some (
          none,
          record rp {
            port = hi * 256;
            port_read = 1;
            p = some (stepped p State.dstport act_dstport_req hi);
          },
          client,
          os,
        )
  unfolding read_one
  read-port_first rp hi p w first =
      rw (w.live, feed-At State.dstport act_dstport_req hi w.at refl) (ground arith)

  read-port_last :
      (rp : RequestParser) (lo : ℕ) (p : Parser)
      → In State.dstport rp p
      → rp.port_read ≡ 1
      → let q = Parser.set_state (stepped p State.dstport act_dstport_req lo) State.fin in
        let rp' : RequestParser = record rp {
          port = rp.port + lo;
          port_read = 2;
          p = some (stepped q State.fin act_fin_req 0);
        } in
        let r = handle_request_fin fd rp' client os started in
        read_one fd rp client os started lo ≡ some (some r.0, r.1, r.2, r.3)
  unfolding read_one Parser.events
  read-port_last rp lo p w one =
      let q = stepped p State.dstport act_dstport_req lo in
      let at : At request_parser_def State.fin (Parser.set_state q State.fin) =
        unfold Parser.set_state in record { same = w.at.same; state_is = refl } in
      rw (
        w.live,
        feed-At State.dstport act_dstport_req lo w.at refl,
        one,
        feed-At State.fin act_fin_req 0 at refl,
      )

  pub read_bytes-leave :
      (rp : RequestParser) (c : ℕ) (cs : List ℕ) (r : Result)
      → read_one fd rp client os started c ≡ some (some r.0, r.1, r.2, r.3)
      → read_bytes fd rp client os started (c ∷ cs) ≡ some r
  unfolding read_bytes
  read_bytes-leave rp c cs r e = rw e

  -- The two bytes of a port end the request; what follows them is not read.
  pub read_bytes-port :
      (rp : RequestParser) (hi lo : ℕ) (p : Parser) (rest : List ℕ)
      → In State.dstport rp p
      → rp.port_read ≡ 0
      → read_bytes fd rp client os started (hi ∷ lo ∷ rest)
        ≡ some (handle_request_fin fd (after_port rp p hi lo) client os started)
  read_bytes-port rp hi lo p rest w first =
      let p1 = stepped p State.dstport act_dstport_req hi in
      let rp1 : RequestParser = record rp { port = hi * 256; port_read = 1; p = some p1 } in
      read_bytes-next rp rp1 hi (lo ∷ rest) (read-port_first rp hi p w first)
      ∙ read_bytes-leave rp1 lo rest
          (handle_request_fin fd (after_port rp p hi lo) client os started)
          (read-port_last rp1 lo p1
            (record { live = refl; at = record { same = w.at.same; state_is = refl } }) refl)
