-- ===== src/Auth/Negotiation.antt =====
-- A whole sub-negotiation.
use protos_tpe.Base.{
  ℕ, ◌<◌, ◌≡◌, refl, ap, ◌∙◌, true, false, some, List, [], ◌∷◌, ◌++◌, arith, length, get_elem?,
}
use mathlib.Core.Path.{ap₂}
use protos_tpe.Os.{Os, writing, set_interest}
use protos_tpe.Parser
use protos_tpe.Parser.{Parser}
use protos_tpe.Parser.Always.{stepped}
use protos_tpe.Users.{User}
use protos_tpe.Users.Text.{c_string}
use protos_tpe.Field.{put_chars, c_string-put_chars}
use protos_tpe.States.{ClientState}
use protos_tpe.Auth.{AuthParser, auth_parser_init, auth_version, login_status}
use protos_tpe.Auth.State
use protos_tpe.Auth.Table.{auth_parser_def, act_auth_ver, act_auth_ulen, act_auth_plen}
use protos_tpe.Auth.Run.{read_all, read_all-next}
use protos_tpe.Auth.Steps.{In, read-ver, read-ulen, read-plen}
use protos_tpe.Auth.Fields.{read_all-uname, read_all-passwd}

module _ (us : List User) (fd : ℕ) where
  record Fresh (ap0 : AuthParser) : Type 0 where
    parser : Parser
    ready : In State.ver ap0 parser
    uname_room : length ap0.uname ≡ 255
    passwd_room : length ap0.passwd ≡ 255
    uname_zero : get_elem? ap0.uname 0 ≡ some 0
    passwd_zero : get_elem? ap0.passwd 0 ≡ some 0
    not_done : ap0.auth_done ≡ false

  fresh : (past_end : ℕ) → Fresh (auth_parser_init true past_end).1
  unfolding auth_parser_init
  fresh past_end = record {
    parser = Parser.start Parser.no_classes past_end auth_parser_def;
    ready = record { live = refl; at = record { same = refl; state_is = refl } };
    uname_room = refl;
    passwd_room = refl;
    uname_zero = refl;
    passwd_zero = refl;
    not_done = refl;
  }

  -- A sub-negotiation that a new parser is given byte by byte: VER = 1, a name and a password, each
  -- of 1 to 254 bytes behind its length, then anything. `auth_read` leaves AUTH_READ with the last
  -- byte of the password, for AUTH_WRITE; the status is that of a login with what the two texts are
  -- up to their first NUL; it waits to write; no other byte is read.
  pub read_all-negotiation :
      (past_end : ℕ) (name pass rest : List ℕ) (os : Os)
      → 0 < length name
      → length name < 255
      → 0 < length pass
      → length pass < 255
      → (ap : AuthParser) × (read_all us fd
            (auth_parser_init true past_end).1
            os
            (auth_version ∷ length name ∷ (name ++ (length pass ∷ (pass ++ rest))))
          ≡ some (ClientState.auth_write, ap, set_interest os fd writing, rest))
        × (ap.auth_status ≡ login_status us (c_string name) (c_string pass))
  read_all-negotiation past_end [] pass rest os h1 h2 h3 h4 = absurd (omega arith)
  read_all-negotiation past_end (c ∷ cs) [] rest os h1 h2 h3 h4 = absurd (omega arith)
  read_all-negotiation past_end (c ∷ cs) (e ∷ es) rest os h1 h2 h3 h4 =
      let ap0 = (auth_parser_init true past_end).1 in
      let new = fresh past_end in
      let n = length (c ∷ cs) in
      let m = length (e ∷ es) in
      let p0 = new.parser in
      let p1 = stepped p0 State.ulen act_auth_ver auth_version in
      let ap1 : AuthParser = record ap0 { ver = auth_version; p = some p1 } in
      let p2 = stepped p1 State.uname act_auth_ulen n in
      let ap2 : AuthParser = record ap1 { ulen = n; uname_read = 0; p = some p2 } in
      let at1 : In State.ulen ap1 p1 = record {
        live = refl;
        at = record { same = new.ready.at.same; state_is = refl };
      } in
      let at2 : In State.uname ap2 p2 = record {
        live = refl;
        at = record { same = new.ready.at.same; state_is = refl };
      } in
      let after_pass = m ∷ (e ∷ (es ++ rest)) in
      let (ap3, run3, g) =
        read_all-uname us fd cs ap2 os n 0 c p2 after_pass at2 refl refl new.uname_room
          (omega arith) h2 in
      let p4 = stepped g.parser State.passwd act_auth_plen m in
      let ap4 : AuthParser = record ap3 { plen = m; passwd_read = 0; p = some p4 } in
      let at4 : In State.passwd ap4 p4 = record {
        live = refl;
        at = record { same = g.ready.at.same; state_is = refl };
      } in
      let (ap5, run5, status) =
        read_all-passwd us fd es ap4 os m 0 e p4 rest at4 refl refl
          (ap length g.passwd_same ∙ new.passwd_room) (g.not_done ∙ new.not_done) (omega arith)
          h4 in
      (
        ap5,
        read_all-next us fd ap0 ap1 os os auth_version (n ∷ c ∷ (cs ++ after_pass))
              (read-ver us fd ap0 os auth_version p0 new.ready)
            ∙ read_all-next us fd ap1 ap2 os os n (c ∷ (cs ++ after_pass))
                (read-ulen us fd ap1 os n p1 at1)
            ∙ run3
            ∙ read_all-next us fd ap3 ap4 os os m (e ∷ (es ++ rest))
                (read-plen us fd ap3 os m g.parser g.ready)
            ∙ run5,
        status
            ∙ ap₂ (login_status us)
                (ap c_string g.stored
                  ∙ c_string-put_chars (c ∷ cs) ap0.uname (omega (arith, new.uname_room))
                      new.uname_zero)
                (ap (λ a. c_string (put_chars a 0 (e ∷ es))) g.passwd_same
                  ∙ c_string-put_chars (e ∷ es) ap0.passwd (omega (arith, new.passwd_room))
                      new.passwd_zero),
      )
