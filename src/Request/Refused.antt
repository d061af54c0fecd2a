-- ===== src/Request/Refused.antt =====
-- Requests that are refused.
use protos_tpe.Base.{ℕ, ◌≡◌, ◌≢◌, refl, ap, ◌∙◌, Bool, false, some, List, ◌∷◌, arith, ◌==◌}
use protos_tpe.Os.{Os, RecvReply, writing, set_interest}
use protos_tpe.Parser
use protos_tpe.Parser.{Parser}
use protos_tpe.Parser.Always.{stepped}
use protos_tpe.States.{ClientState}
use protos_tpe.Client.{Client}
use protos_tpe.Request.{
  RequestParser, request_read, general_failure, cmd_not_supported, request_parser_init, read_one,
  read_bytes,
}
use protos_tpe.Request.Name.{read_bytes-leave}
use protos_tpe.Request.Parsed.{view, fresh}
use protos_tpe.Request.State
use protos_tpe.Request.Table.{
  request_parser_def, act_ver_req, act_cmd_req, act_rsv_req, act_error_req,
}

module _ (fd past_end : ℕ) (client : Client) (os : Os) (started : Bool) where
  ver_run :
      (v : ℕ) (rest : List ℕ)
      → v ≢ 5
      → view (read_bytes fd (fresh past_end) client os started (v ∷ rest))
        ≡ some (ClientState.request_write, general_failure, client, set_interest os fd writing)
  unfolding read_bytes read_one Parser.feed request_parser_init Parser.init
  ver_run v rest n = ground arith

  cmd_run :
      (c : ℕ) (rest : List ℕ)
      → c ≢ 1
      → view (read_bytes fd (fresh past_end) client os started (5 ∷ c ∷ rest))
        ≡ some (ClientState.request_write, cmd_not_supported, client, set_interest os fd writing)
  unfolding read_bytes read_one Parser.feed request_parser_init Parser.init
  cmd_run c rest n = ground arith

  -- the parser behind the reserved byte, and the record that holds it
  abbrev rsv_parser : ℕ → Parser
  rsv_parser rsv =
      let p0 = Parser.start Parser.no_classes past_end request_parser_def in
      let p1 = stepped p0 State.cmd act_ver_req 5 in
      stepped (stepped p1 State.rsv act_cmd_req 1) State.atyp act_rsv_req rsv

  abbrev commanded : ℕ → RequestParser
  commanded rsv = record (fresh past_end) { p = some (rsv_parser rsv); cmd = 1 }

  atyp_head :
      (rsv : ℕ) (rest : List ℕ)
      → read_bytes fd (fresh past_end) client os started (5 ∷ 1 ∷ rsv ∷ rest)
        ≡ read_bytes fd (commanded rsv) client os started rest
  unfolding read_bytes read_one Parser.feed request_parser_init Parser.init
  atyp_head rsv rest = refl

  feed-unknown :
      (rsv t : ℕ)
      → (t == 1) ≡ false
      → (t == 3) ≡ false
      → (t == 4) ≡ false
      → Parser.feed (rsv_parser rsv) t ≡ some (stepped (rsv_parser rsv) 2 act_error_req t)
  unfolding Parser.feed
  feed-unknown rsv t a b c = rw (a, b, c) refl

  atyp_one :
      (rsv t : ℕ)
      → Parser.feed (rsv_parser rsv) t ≡ some (stepped (rsv_parser rsv) 2 act_error_req t)
      → read_one fd (commanded rsv) client os started t
        ≡ some (
          some ClientState.error,
          record (commanded rsv) { p = some (stepped (rsv_parser rsv) 2 act_error_req t) },
          record client { err = 1 },
          set_interest os fd writing,
        )
  unfolding read_one
  atyp_one rsv t e = rw e refl

  atyp_run :
      (rsv t : ℕ) (rest : List ℕ)
      → t ≢ 1
      → t ≢ 3
      → t ≢ 4
      → view (read_bytes fd (fresh past_end) client os started (5 ∷ 1 ∷ rsv ∷ t ∷ rest))
        ≡ some (ClientState.error, 0, record client { err = 1 }, set_interest os fd writing)
  unfolding request_parser_init
  atyp_run rsv t rest n1 n3 n4 =
      let e = feed-unknown rsv t (ground (arith, n1)) (ground (arith, n3)) (ground (arith, n4)) in
      ap view (
        atyp_head rsv (t ∷ rest)
        ∙ read_bytes-leave fd client os started (commanded rsv) t rest
            (
              ClientState.error,
              record (commanded rsv) { p = some (stepped (rsv_parser rsv) 2 act_error_req t) },
              record client { err = 1 },
              set_interest os fd writing,
            )
            (atyp_one rsv t e))

  -- The requests that are refused, at the byte that shows it: another version is answered with the
  -- status "general failure", another command than CONNECT with "command not supported", and an
  -- address type that is none of 1, 3 and 4 ends in the state ERROR with the code 1. In each case the
  -- interest in the client's descriptor is then to write, and the rest of the bytes is not read.
  pub request_read-refuses :
      (v c rsv t : ℕ) (rest : List ℕ)
      → v ≢ 5
      → c ≢ 1
      → t ≢ 1
      → t ≢ 3
      → t ≢ 4
      → let run = λ (bs : List ℕ).
        view (request_read fd (fresh past_end) client os (RecvReply.received bs) started) in
        (run (v ∷ rest)
          ≡ some (ClientState.request_write, general_failure, client, set_interest os fd writing))
        × (run (5 ∷ c ∷ rest)
            ≡ some
                (ClientState.request_write, cmd_not_supported, client, set_interest os fd writing))
        × (run (5 ∷ 1 ∷ rsv ∷ t ∷ rest)
            ≡ some (ClientState.error, 0, record client { err = 1 }, set_interest os fd writing))
  unfolding request_read
  request_read-refuses v c rsv t rest n5 nc n1 n3 n4 =
      (ver_run v rest n5, cmd_run c rest nc, atyp_run rsv t rest n1 n3 n4)
