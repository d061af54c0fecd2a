-- ===== src/MonitorAuth/Fields.antt =====
-- The name and the password of a monitor, gathered byte by byte.
use protos_tpe.Base.{
  ℕ, suc, ◌+◌, ◌<◌, ◌≡◌, refl, ◌∙◌, true, false, some, List, [], ◌∷◌, ◌++◌, arith, ◌==◌, length,
  ◌⊎◌, inl, inr,
}
use protos_tpe.Os.{Os, RecvReply, SendReply}
use protos_tpe.Parser
use protos_tpe.Parser.{Parser}
use protos_tpe.Parser.Always.{stepped}
use protos_tpe.Users.{User}
use protos_tpe.Users.Text.{c_string}
use protos_tpe.Field.{put_chars, length-put_chars}
use protos_tpe.MonitorAuth.{Monitor, MonitorState, Result, login, monitor_auth_read}
use protos_tpe.MonitorAuth.State
use protos_tpe.MonitorAuth.Table.{act_monitor_auth_uname, act_monitor_auth_password}
use protos_tpe.MonitorAuth.Run.{read_all, read_all-next}
use protos_tpe.MonitorAuth.Steps.{
  In, with_parser, read-uname, read-passwd, after_uname, after_passwd,
}

module _ (us : List User) (fd : ℕ) (answer : SendReply) where
  -- What the name leaves behind: a parser that waits for PLEN, and the name in its array.
  pub record Named (m : Monitor) (name : List ℕ) (k : ℕ) (m' : Monitor) : Type 0 where
    pub parser : Parser
    pub ready : In State.plen m'.auth_parser parser
    pub stored : m'.auth_parser.uname ≡ put_chars m.auth_parser.uname k name
    pub passwd_same : m'.auth_parser.passwd ≡ m.auth_parser.passwd

  pub read_all-uname :
      (cs : List ℕ) (m : Monitor) (os : Os) (n k c : ℕ) (p : Parser) (rest : List ℕ)
      → In State.uname m.auth_parser p
      → m.auth_parser.ulen ≡ n
      → m.auth_parser.uname_read ≡ k
      → length m.auth_parser.uname ≡ 256
      → k + suc (length cs) ≡ n
      → n < 256
      → (m' : Monitor) × (read_all us fd answer m os (c ∷ (cs ++ rest))
          ≡ read_all us fd answer m' os rest)
        × Named m (c ∷ cs) k m'
  unfolding put_chars
  read_all-uname [] m os n k c p rest w total count room h small =
      let m1 = with_parser m (after_uname us fd answer m.auth_parser p k c true) in
      let q = stepped p State.uname act_monitor_auth_uname c in
      let last : (k + 1 == n) ≡ true = ground arith in
      let step : monitor_auth_read us fd answer m os (RecvReply.received c)
          ≡ some (MonitorState.monitor_auth, m1, os) =
        read-uname us fd answer m os n k c p w total count room (omega arith) small ∙ rw last in
      (
        m1,
        read_all-next us fd answer m m1 os os c rest step,
        record {
          parser = Parser.set_state q State.plen;
          ready = record {
            live = refl;
            at = unfold Parser.set_state in record { same = w.at.same; state_is = refl };
          };
          stored = refl;
          passwd_same = refl;
        },
      )
  read_all-uname (d ∷ cs) m os n k c p rest w total count room h small =
      let m1 = with_parser m (after_uname us fd answer m.auth_parser p k c false) in
      let q = stepped p State.uname act_monitor_auth_uname c in
      let more : (k + 1 == n) ≡ false = ground arith in
      let step : monitor_auth_read us fd answer m os (RecvReply.received c)
          ≡ some (MonitorState.monitor_auth, m1, os) =
        read-uname us fd answer m os n k c p w total count room (omega arith) small ∙ rw more in
      let (m', run, g) =
        read_all-uname cs m1 os n (k + 1) d q rest
          (record { live = refl; at = record { same = w.at.same; state_is = refl } }) total refl
          (length-put_chars (c ∷ []) m.auth_parser.uname k ∙ room) (omega arith) small in
      (
        m',
        read_all-next us fd answer m m1 os os c (d ∷ (cs ++ rest)) step ∙ run,
        record {
          parser = g.parser;
          ready = g.ready;
          stored = g.stored;
          passwd_same = g.passwd_same;
        },
      )

  login-leaves :
      (m : Monitor) (os : Os) (name pass : List ℕ)
      → let r = login us fd m os answer name pass in
        (r.0 ≡ MonitorState.monitor_req) ⊎ (r.0 ≡ MonitorState.monitor_error)
  unfolding login
  login-leaves m os name pass = ground arith

  read_all-end :
      (m : Monitor) (os : Os) (c : ℕ) (cs : List ℕ) (r : Result)
      → monitor_auth_read us fd answer m os (RecvReply.received c) ≡ some r
      → (r.0 ≡ MonitorState.monitor_req) ⊎ (r.0 ≡ MonitorState.monitor_error)
      → read_all us fd answer m os (c ∷ cs) ≡ some (r.0, r.1, r.2, cs)
  unfolding read_all
  read_all-end m os c cs r e (inl h) = rw (e, h)
  read_all-end m os c cs r e (inr h) = rw (e, h)

  -- A whole password is followed by the login, of a monitor that differs in its parser only.
  pub read_all-passwd :
      (cs : List ℕ) (m : Monitor) (os : Os) (n k c : ℕ) (p : Parser) (rest : List ℕ)
      → In State.passwd m.auth_parser p
      → m.auth_parser.plen ≡ n
      → m.auth_parser.passwd_read ≡ k
      → length m.auth_parser.passwd ≡ 255
      → k + suc (length cs) ≡ n
      → n < 255
      → (m' : Monitor) × let r =
            login us fd m' os answer
              (c_string m.auth_parser.uname)
              (c_string (put_chars m.auth_parser.passwd k (c ∷ cs))) in
          (read_all us fd answer m os (c ∷ (cs ++ rest)) ≡ some (r.0, r.1, r.2, rest))
  unfolding put_chars
  read_all-passwd [] m os n k c p rest w total count room h small =
      let last : (k + 1 == n) ≡ true = ground arith in
      let m1 = with_parser m (after_passwd us fd answer m.auth_parser p k c) in
      let name = c_string m1.auth_parser.uname in
      let pass = c_string m1.auth_parser.passwd in
      (
        m1,
        read_all-end m os c rest (login us fd m1 os answer name pass)
            (read-passwd us fd answer m os n k c p w total count room (omega arith) small ∙ rw last)
            (login-leaves m1 os name pass),
      )
  read_all-passwd (d ∷ cs) m os n k c p rest w total count room h small =
      let m1 = with_parser m (after_passwd us fd answer m.auth_parser p k c) in
      let more : (k + 1 == n) ≡ false = ground arith in
      let (m', run) =
        read_all-passwd cs m1 os n (k + 1) d (stepped p State.passwd act_monitor_auth_password c)
          rest (record { live = refl; at = record { same = w.at.same; state_is = refl } }) total
          refl (length-put_chars (c ∷ []) m.auth_parser.passwd k ∙ room) (omega arith) small in
      (
        m',
        read_all-next us fd answer m m1 os os c (d ∷ (cs ++ rest)) (
              read-passwd us fd answer m os n k c p w total count room (omega arith) small
              ∙ rw more)
            ∙ run,
      )
