-- ===== src/MonitorAuth/Steps.antt =====
-- One byte of a monitor's user and password, in each state of the parser.
use protos_tpe.Base.{
  ℕ, ◌+◌, ◌<◌, ◌≡◌, refl, Bool, some, List, arith, ◌==◌, if◌then◌else◌, length, set,
}
use protos_tpe.Os.{Os, RecvReply, SendReply}
use protos_tpe.Parser
use protos_tpe.Parser.{Parser}
use protos_tpe.Parser.Always.{At, feed-At, stepped}
use protos_tpe.Users.{User}
use protos_tpe.Users.Text.{c_string}
use protos_tpe.Field.{put_char_in}
use protos_tpe.MonitorAuth.{Monitor, MonitorAuthParser, MonitorState, login, monitor_auth_read}
use protos_tpe.MonitorAuth.State
use protos_tpe.MonitorAuth.Table.{
  monitor_auth_parser_def, act_monitor_auth_ulen, act_monitor_auth_uname, act_monitor_auth_plen,
  act_monitor_auth_password,
}

-- the parser is there, and in state `k` of its table
pub record In (k : ℕ) (map : MonitorAuthParser) (p : Parser) : Type 0 where
  pub live : map.p ≡ some p
  pub at : At monitor_auth_parser_def k p

-- the monitor with another parser's record
abbrev pub with_parser : Monitor → MonitorAuthParser → Monitor
with_parser m map = record m { auth_parser = map }

module _ (us : List User) (fd : ℕ) (answer : SendReply) where
  pub read-ulen :
      (m : Monitor) (os : Os) (c : ℕ) (p : Parser)
      → In State.ulen m.auth_parser p
      → monitor_auth_read us fd answer m os (RecvReply.received c)
        ≡ some (
          MonitorState.monitor_auth,
          with_parser m (record (m.auth_parser) {
            ulen = c;
            uname_read = 0;
            p = some (stepped p State.uname act_monitor_auth_ulen c);
          }),
          os,
        )
  unfolding monitor_auth_read Parser.events
  read-ulen m os c p w =
      rw (w.live, feed-At State.uname act_monitor_auth_ulen c w.at refl) (ground arith)

  pub read-plen :
      (m : Monitor) (os : Os) (c : ℕ) (p : Parser)
      → In State.plen m.auth_parser p
      → monitor_auth_read us fd answer m os (RecvReply.received c)
        ≡ some (
          MonitorState.monitor_auth,
          with_parser m (record (m.auth_parser) {
            plen = c;
            passwd_read = 0;
            p = some (stepped p State.passwd act_monitor_auth_plen c);
          }),
          os,
        )
  unfolding monitor_auth_read Parser.events
  read-plen m os c p w =
      rw (w.live, feed-At State.passwd act_monitor_auth_plen c w.at refl) (ground arith)

  -- the parser's record after a byte of the name; the last one moves on to PLEN
  abbrev pub after_uname : MonitorAuthParser → Parser → ℕ → ℕ → Bool → MonitorAuthParser
  after_uname map p k c last = record map {
    uname = set (set map.uname k c) (k + 1) 0;
    uname_read = k + 1;
    p = some (
        let q = stepped p State.uname act_monitor_auth_uname c in
        if last then Parser.set_state q State.plen else q);
  }

  pub read-uname :
      (m : Monitor) (os : Os) (n k c : ℕ) (p : Parser)
      → In State.uname m.auth_parser p
      → m.auth_parser.ulen ≡ n
      → m.auth_parser.uname_read ≡ k
      → length m.auth_parser.uname ≡ 256
      → k < n
      → n < 256
      → monitor_auth_read us fd answer m os (RecvReply.received c)
        ≡ some (
          MonitorState.monitor_auth,
          with_parser m (after_uname m.auth_parser p k c (k + 1 == n)),
          os,
        )
  unfolding monitor_auth_read Parser.events
  read-uname m os n k c p w total count room lt small =
      rw (w.live, feed-At State.uname act_monitor_auth_uname c w.at refl)
        (ground (arith, put_char_in m.auth_parser.uname k c))

  -- the parser's record after a byte of the password
  abbrev pub after_passwd : MonitorAuthParser → Parser → ℕ → ℕ → MonitorAuthParser
  after_passwd map p k c = record map {
    passwd = set (set map.passwd k c) (k + 1) 0;
    passwd_read = k + 1;
    p = some (stepped p State.passwd act_monitor_auth_password c);
  }

  pub read-passwd :
      (m : Monitor) (os : Os) (n k c : ℕ) (p : Parser)
      → In State.passwd m.auth_parser p
      → m.auth_parser.plen ≡ n
      → m.auth_parser.passwd_read ≡ k
      → length m.auth_parser.passwd ≡ 255
      → k < n
      → n < 255
      → let m' = with_parser m (after_passwd m.auth_parser p k c) in
        monitor_auth_read us fd answer m os (RecvReply.received c)
        ≡ some (
            if k + 1 == n
            then login us fd m' os answer
                (c_string m'.auth_parser.uname)
                (c_string m'.auth_parser.passwd)
            else (MonitorState.monitor_auth, m', os))
  unfolding monitor_auth_read Parser.events
  read-passwd m os n k c p w total count room lt small =
      rw (w.live, feed-At State.passwd act_monitor_auth_password c w.at refl)
        (ground (arith, put_char_in m.auth_parser.passwd k c))
