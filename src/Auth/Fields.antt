-- ===== src/Auth/Fields.antt =====
-- The name and the password of a sub-negotiation, gathered byte by byte.
use protos_tpe.Base.{
  ℕ, suc, ◌+◌, ◌<◌, ◌≡◌, refl, ap, ◌∙◌, true, false, some, List, [], ◌∷◌, ◌++◌, arith, ◌==◌, length,
}
use protos_tpe.Os.{Os, RecvReply, writing, set_interest}
use protos_tpe.Parser
use protos_tpe.Parser.{Parser}
use protos_tpe.Parser.Always.{stepped}
use protos_tpe.Users.{User}
use protos_tpe.Users.Text.{c_string}
use protos_tpe.Field.{put_chars, length-put_chars}
use protos_tpe.States.{ClientState}
use protos_tpe.Auth.{AuthParser, login_status, auth_read}
use protos_tpe.Auth.State
use protos_tpe.Auth.Table.{act_auth_uname, act_auth_passwd}
use protos_tpe.Auth.Run.{read_all, read_all-next, read_all-leave}
use protos_tpe.Auth.Steps.{In, read-uname, read-passwd, after_uname, after_passwd, after_login}

module _ (us : List User) (fd : ℕ) where
  -- What the name leaves behind: a parser that waits for PLEN, and the name in its array.
  pub record Named (ap : AuthParser) (name : List ℕ) (k : ℕ) (ap' : AuthParser) : Type 0 where
    pub parser : Parser
    pub ready : In State.plen ap' parser
    pub stored : ap'.uname ≡ put_chars ap.uname k name
    pub passwd_same : ap'.passwd ≡ ap.passwd
    pub not_done : ap'.auth_done ≡ ap.auth_done

  pub read_all-uname :
      (cs : List ℕ) (ap : AuthParser) (os : Os) (n k c : ℕ) (p : Parser) (rest : List ℕ)
      → In State.uname ap p
      → ap.ulen ≡ n
      → ap.uname_read ≡ k
      → length ap.uname ≡ 255
      → k + suc (length cs) ≡ n
      → n < 255
      → (ap' : AuthParser) × (read_all us fd ap os (c ∷ (cs ++ rest)) ≡ read_all us fd ap' os rest)
        × Named ap (c ∷ cs) k ap'
  unfolding put_chars
  read_all-uname [] ap os n k c p rest w total count room h small =
      let ap1 = after_uname us fd ap p k c true in
      let q = stepped p State.uname act_auth_uname c in
      let last : (k + 1 == n) ≡ true = ground arith in
      let step : auth_read us fd ap os (RecvReply.received c)
          ≡ some (ClientState.auth_read, ap1, os) =
        read-uname us fd ap os n k c p w total count room (omega arith) small ∙ rw last in
      (
        ap1,
        read_all-next us fd ap ap1 os os c rest step,
        record {
          parser = Parser.set_state q State.plen;
          ready = record {
            live = refl;
            at = unfold Parser.set_state in record { same = w.at.same; state_is = refl };
          };
          stored = refl;
          passwd_same = refl;
          not_done = refl;
        },
      )
  read_all-uname (d ∷ cs) ap os n k c p rest w total count room h small =
      let ap1 = after_uname us fd ap p k c false in
      let q = stepped p State.uname act_auth_uname c in
      let more : (k + 1 == n) ≡ false = ground arith in
      let step : auth_read us fd ap os (RecvReply.received c)
          ≡ some (ClientState.auth_read, ap1, os) =
        read-uname us fd ap os n k c p w total count room (omega arith) small ∙ rw more in
      let (ap', run, g) =
        read_all-uname cs ap1 os n (k + 1) d q rest
          (record { live = refl; at = record { same = w.at.same; state_is = refl } }) total refl
          (length-put_chars (c ∷ []) ap.uname k ∙ room) (omega arith) small in
      (
        ap',
        read_all-next us fd ap ap1 os os c (d ∷ (cs ++ rest)) step ∙ run,
        record {
          parser = g.parser;
          ready = g.ready;
          stored = g.stored;
          passwd_same = g.passwd_same;
          not_done = g.not_done;
        },
      )

  pub read_all-passwd :
      (cs : List ℕ) (ap : AuthParser) (os : Os) (n k c : ℕ) (p : Parser) (rest : List ℕ)
      → In State.passwd ap p
      → ap.plen ≡ n
      → ap.passwd_read ≡ k
      → length ap.passwd ≡ 255
      → ap.auth_done ≡ false
      → k + suc (length cs) ≡ n
      → n < 255
      → (ap' : AuthParser) × (read_all us fd ap os (c ∷ (cs ++ rest))
          ≡ some (ClientState.auth_write, ap', set_interest os fd writing, rest))
        × (ap'.auth_status
            ≡ login_status us (c_string ap.uname) (c_string (put_chars ap.passwd k (c ∷ cs))))
  unfolding put_chars
  read_all-passwd [] ap os n k c p rest w total count room fresh h small =
      let last : (k + 1 == n) ≡ true = ground arith in
      (
        after_login us fd ap p k c,
        read_all-leave us fd ap (after_login us fd ap p k c) os (set_interest os fd writing) c rest
            (read-passwd us fd ap os n k c p w total count room fresh (omega arith) small
              ∙ rw last),
        refl,
      )
  read_all-passwd (d ∷ cs) ap os n k c p rest w total count room fresh h small =
      let ap1 = after_passwd us fd ap p k c in
      let more : (k + 1 == n) ≡ false = ground arith in
      let (ap', run, g) =
        read_all-passwd cs ap1 os n (k + 1) d (stepped p State.passwd act_auth_passwd c) rest
          (record { live = refl; at = record { same = w.at.same; state_is = refl } }) total refl
          (length-put_chars (c ∷ []) ap.passwd k ∙ room) fresh (omega arith) small in
      (
        ap',
        read_all-next us fd ap ap1 os os c (d ∷ (cs ++ rest)) (
              read-passwd us fd ap os n k c p w total count room fresh (omega arith) small
              ∙ rw more)
            ∙ run,
        g,
      )
