-- ===== src/Auth/Run.antt =====
-- The bytes of a sub-negotiation, each handed to `auth_read` when it arrives.
use protos_tpe.Base.{ℕ, ◌≡◌, ap, Option, some, List, [], ◌∷◌, ◌>>=◌}
use protos_tpe.Os.{Os, RecvReply}
use protos_tpe.Users.{User}
use protos_tpe.States.{ClientState}
use protos_tpe.Auth.{AuthParser, auth_read}

module _ (us : List User) (fd : ℕ) where
  -- The bytes arrive while the connection stays in AUTH_READ; the bytes that are left over when it
  -- leaves that state are the last part of the result.
  unfoldable pub read_all :
      AuthParser → Os → List ℕ → Option (ClientState × AuthParser × Os × List ℕ)
  read_all ap os [] = some (ClientState.auth_read, ap, os, [])
  read_all ap os (c ∷ cs) =
      let later = λ (ap' : AuthParser) (os' : Os). read_all ap' os' cs in
      do
        r ← auth_read us fd ap os (RecvReply.received c)
        elim r.0 [ ClientState.auth_read ↦ later r.1 r.2 | s ↦ some (s, r.1, r.2, cs) ]

  pub read_all-next :
      (ap ap' : AuthParser) (os os' : Os) (c : ℕ) (cs : List ℕ)
      → auth_read us fd ap os (RecvReply.received c) ≡ some (ClientState.auth_read, ap', os')
      → read_all ap os (c ∷ cs) ≡ read_all ap' os' cs
  unfolding read_all
  read_all-next ap ap' os os' c cs e = rw e

  pub read_all-leave :
      (ap ap' : AuthParser) (os os' : Os) (c : ℕ) (cs : List ℕ)
      → auth_read us fd ap os (RecvReply.received c) ≡ some (ClientState.auth_write, ap', os')
      → read_all ap os (c ∷ cs) ≡ some (ClientState.auth_write, ap', os', cs)
  unfolding read_all
  read_all-leave ap ap' os os' c cs e = rw e
