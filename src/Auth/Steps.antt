-- ===== src/Auth/Steps.antt =====
-- One byte of a sub-negotiation, in each state of its parser.
use protos_tpe.Base.{
  ℕ, ◌+◌, ◌<◌, ◌≡◌, refl, ap, Bool, true, false, some, List, arith, ◌==◌, if◌then◌else◌, length,
  set,
}
use protos_tpe.Os.{Os, RecvReply, writing, set_interest}
use protos_tpe.Parser
use protos_tpe.Parser.{Parser}
use protos_tpe.Parser.Always.{At, feed-At, stepped}
use protos_tpe.Users.{User}
use protos_tpe.Users.Text.{c_string}
use protos_tpe.Field.{put_char_in}
use protos_tpe.States.{ClientState}
use protos_tpe.Auth.{AuthParser, auth_version, login_status, auth_read}
use protos_tpe.Auth.State
use protos_tpe.Auth.Table.{
  auth_parser_def, act_auth_ver, act_auth_ulen, act_auth_uname, act_auth_plen, act_auth_passwd,
}

-- the parser is there, and in state `k` of its table
pub record In (k : ℕ) (ap : AuthParser) (p : Parser) : Type 0 where
  pub live : ap.p ≡ some p
  pub at : At auth_parser_def k p

module _ (us : List User) (fd : ℕ) where
  pub read-ver :
      (ap : AuthParser) (os : Os) (c : ℕ) (p : Parser)
      → In State.ver ap p
      → auth_read us fd ap os (RecvReply.received c)
        ≡ some (
          if c == auth_version then ClientState.auth_read else ClientState.error,
          record ap { ver = c; p = some (stepped p State.ulen act_auth_ver c) },
          os,
        )
  unfolding auth_read Parser.events
  read-ver ap os c p w = rw (w.live, feed-At State.ulen act_auth_ver c w.at refl) (ground arith)

  pub read-ulen :
      (ap : AuthParser) (os : Os) (c : ℕ) (p : Parser)
      → In State.ulen ap p
      → auth_read us fd ap os (RecvReply.received c)
        ≡ some (
          ClientState.auth_read,
          record ap { ulen = c; uname_read = 0; p = some (stepped p State.uname act_auth_ulen c) },
          os,
        )
  unfolding auth_read Parser.events
  read-ulen ap os c p w = rw (w.live, feed-At State.uname act_auth_ulen c w.at refl) (ground arith)

  pub read-plen :
      (ap : AuthParser) (os : Os) (c : ℕ) (p : Parser)
      → In State.plen ap p
      → auth_read us fd ap os (RecvReply.received c)
        ≡ some (
          ClientState.auth_read,
          record ap {
            plen = c;
            passwd_read = 0;
            p = some (stepped p State.passwd act_auth_plen c);
          },
          os,
        )
  unfolding auth_read Parser.events
  read-plen ap os c p w = rw (w.live, feed-At State.passwd act_auth_plen c w.at refl) (ground arith)

  -- the parser's record after a byte of the name; the last one moves on to PLEN
  abbrev pub after_uname : AuthParser → Parser → ℕ → ℕ → Bool → AuthParser
  after_uname ap p k c last = record ap {
    uname = set (set ap.uname k c) (k + 1) 0;
    uname_read = k + 1;
    p = some (
        let q = stepped p State.uname act_auth_uname c in
        if last then Parser.set_state q State.plen else q);
  }

  pub read-uname :
      (ap : AuthParser) (os : Os) (n k c : ℕ) (p : Parser)
      → In State.uname ap p
      → ap.ulen ≡ n
      → ap.uname_read ≡ k
      → length ap.uname ≡ 255
      → k < n
      → n < 255
      → auth_read us fd ap os (RecvReply.received c)
        ≡ some (ClientState.auth_read, after_uname ap p k c (k + 1 == n), os)
  unfolding auth_read Parser.events
  read-uname ap os n k c p w total count room lt small =
      rw (w.live, feed-At State.uname act_auth_uname c w.at refl)
        (ground (arith, put_char_in ap.uname k c))

  -- the parser's record after a byte of the password that is not the last
  abbrev pub after_passwd : AuthParser → Parser → ℕ → ℕ → AuthParser
  after_passwd ap p k c = record ap {
    passwd = set (set ap.passwd k c) (k + 1) 0;
    passwd_read = k + 1;
    p = some (stepped p State.passwd act_auth_passwd c);
  }

  -- ... and after the last one
  abbrev pub after_login : AuthParser → Parser → ℕ → ℕ → AuthParser
  after_login ap p k c =
      let array = set (set ap.passwd k c) (k + 1) 0 in
      record (after_passwd ap p k c) {
        auth_status = login_status us (c_string ap.uname) (c_string array);
        auth_done = true;
      }

  pub read-passwd :
      (ap : AuthParser) (os : Os) (n k c : ℕ) (p : Parser)
      → In State.passwd ap p
      → ap.plen ≡ n
      → ap.passwd_read ≡ k
      → length ap.passwd ≡ 255
      → ap.auth_done ≡ false
      → k < n
      → n < 255
      → auth_read us fd ap os (RecvReply.received c)
        ≡ some (
            if k + 1 == n
            then (ClientState.auth_write, after_login ap p k c, set_interest os fd writing)
            else (ClientState.auth_read, after_passwd ap p k c, os))
  unfolding auth_read Parser.events
  read-passwd ap os n k c p w total count room fresh lt small =
      rw (w.live, feed-At State.passwd act_auth_passwd c w.at refl)
        (ground (arith, put_char_in ap.passwd k c))
