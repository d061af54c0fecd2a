-- ===== src/MonitorAuth/Run.antt =====
-- The bytes of a monitor's user and password, each handed to `monitor_auth_read` when it arrives.
use protos_tpe.Base.{ℕ, ◌≡◌, Option, some, List, [], ◌∷◌, ◌>>=◌}
use protos_tpe.Os.{Os, RecvReply, SendReply}
use protos_tpe.Users.{User}
use protos_tpe.MonitorAuth.{Monitor, MonitorState, monitor_auth_read}

module _ (us : List User) (fd : ℕ) (answer : SendReply) where
  -- The bytes arrive while the monitor stays in MONITOR_AUTH; the bytes that are left over when it
  -- leaves that state are the last part of the result.
  unfoldable pub read_all : Monitor → Os → List ℕ → Option (MonitorState × Monitor × Os × List ℕ)
  read_all m os [] = some (MonitorState.monitor_auth, m, os, [])
  read_all m os (c ∷ cs) =
      let later = λ (m' : Monitor) (os' : Os). read_all m' os' cs in
      do
        r ← monitor_auth_read us fd answer m os (RecvReply.received c)
        elim r.0 [ MonitorState.monitor_auth ↦ later r.1 r.2 | s ↦ some (s, r.1, r.2, cs) ]

  pub read_all-next :
      (m m' : Monitor) (os os' : Os) (c : ℕ) (cs : List ℕ)
      → monitor_auth_read us fd answer m os (RecvReply.received c)
        ≡ some (MonitorState.monitor_auth, m', os')
      → read_all m os (c ∷ cs) ≡ read_all m' os' cs
  unfolding read_all
  read_all-next m m' os os' c cs e = rw e
