-- ===== src/Auth/Grant.antt =====
-- Who gets past the sub-negotiation.
use protos_tpe.Base.{
  ℕ, ◌<◌, ◌≡◌, ◌↔◌, refl, ◌∙◌, sym, true, Option, none, some, List, ◌∷◌, ◌++◌, arith, length,
}
use protos_tpe.Os.{Os, SendReply, took_all, writing, set_interest}
use protos_tpe.Users.{User}
use protos_tpe.Users.Text.{strcmp_eq_iff, c_string}
use protos_tpe.Users.Table.{find}
use protos_tpe.Users.Account.{user_login-find}
use protos_tpe.States.{ClientState}
use protos_tpe.Auth.{
  AuthParser, auth_parser_init, auth_version, auth_success, login_status, auth_write,
}
use protos_tpe.Auth.Run.{read_all}
use protos_tpe.Auth.Negotiation.{read_all-negotiation}

-- The name stands for a user, whose password is `pass`.
abbrev pub Known : List User → List ℕ → List ℕ → Type 0
Known us name pass = (u : User) × (find us name ≡ some u) × (u.password ≡ pass)

login_status-Known :
    (us : List User) (name pass : List ℕ)
    → (login_status us name pass ≡ auth_success) ↔ Known us name pass
unfolding login_status
login_status-Known us name pass = (to (find us name) refl, from)
  where
    to :
        (o : Option User)
        → find us name ≡ o
        → login_status us name pass ≡ auth_success
        → Known us name pass
    to none e h = ground (arith, user_login-find us name pass, e)
    to (some u) e h =
        (u, e, ground (arith, user_login-find us name pass, e, strcmp_eq_iff u.password pass))

    from : Known us name pass → login_status us name pass ≡ auth_success
    from (u, e, q) = ground (arith, user_login-find us name pass, e, strcmp_eq_iff u.password pass)

auth_write-granted :
    (fd : ℕ) (a : AuthParser) (os : Os) (reply : SendReply)
    → ((auth_write fd a os reply).0 ≡ ClientState.request_read)
      ↔ ((took_all reply 2 ≡ true) × (a.auth_status ≡ auth_success))
unfolding auth_write
auth_write-granted fd a os reply = (ground arith, ground arith)

module _ (us : List User) (fd : ℕ) where
  -- After a whole sub-negotiation, with a name and a password of 1 to 254 bytes, the connection
  -- gets on to REQUEST_READ exactly if the reply was taken by the socket and the name and the
  -- password that were sent, each up to its first NUL, are those of a user.
  pub negotiation-grants :
      (past_end : ℕ) (name pass rest : List ℕ) (os : Os) (reply : SendReply)
      → 0 < length name
      → length name < 255
      → 0 < length pass
      → length pass < 255
      → (a : AuthParser) × (os' : Os) × (read_all us fd
            (auth_parser_init true past_end).1
            os
            (auth_version ∷ length name ∷ (name ++ (length pass ∷ (pass ++ rest))))
          ≡ some (ClientState.auth_write, a, os', rest))
        × (((auth_write fd a os' reply).0 ≡ ClientState.request_read)
            ↔ ((took_all reply 2 ≡ true) × Known us (c_string name) (c_string pass)))
  negotiation-grants past_end name pass rest os reply h1 h2 h3 h4 =
      let (a, run, status) = read_all-negotiation us fd past_end name pass rest os h1 h2 h3 h4 in
      let os' = set_interest os fd writing in
      let granted = auth_write-granted fd a os' reply in
      let known = login_status-Known us (c_string name) (c_string pass) in
      (
        a,
        os',
        run,
        (
          (λ h. ((granted.0 h).0, known.0 (sym status ∙ (granted.0 h).1))),
          (λ h. granted.1 (h.0, status ∙ known.1 h.1)),
        ),
      )
