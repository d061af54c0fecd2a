-- ===== src/MonitorClient.antt =====
-- src/client/monitor_utils.c: the requests that the monitor client writes. A result is the bytes that
-- are written, [] where the function returns 0; a user is `none` for NULL. A username and a password
-- are at most 255 bytes, so the `(uint8_t)` of a length keeps it.
use protos_tpe.Base.{
  ℕ, ◌+◌, ◌<◌, ◌≤◌, ◌≡◌, inr, refl, Bool, true, ◌||◌, Option, none, some, List, [], ◌∷◌, ◌++◌,
  arith, ltb, ◌==◌, if◌then◌else◌, length, ◌∙◌, ap,
}
use protos_tpe.Os.{Os, writing, set_interest}
use protos_tpe.Users.{User, users_ok, user_login, user_change_password}
use protos_tpe.Users.Text.{c_string}
use protos_tpe.Users.Table.{find, IsValid}
use protos_tpe.Users.Account.{user_change_password-find}
use protos_tpe.MonitorAuth.{MonitorState}
use protos_tpe.MonitorReq.{MonitorReqParser, Server, monitor_req_parser_init, handle_request}
use protos_tpe.MonitorReq.Action
use protos_tpe.MonitorReq.Parsed.{encode, read_all}
use protos_tpe.MonitorReq.Handled.{request-handled}

-- the tests on a length
abbrev no_length : ℕ → Bool
no_length n = n == 0 || ltb 255 n

unfoldable pub write_monitor_auth_request : ℕ → Option User → List ℕ
write_monitor_auth_request buffer_len none = []
write_monitor_auth_request buffer_len (some u) =
    let ulen = length u.username in
    let plen = length u.password in
    if no_length ulen || no_length plen
    then []
    else if ltb buffer_len (2 + ulen + plen)
    then []
    else ulen ∷ (u.username ++ (plen ∷ u.password))

unfoldable pub write_monitor_user_add_request : ℕ → Option User → List ℕ
write_monitor_user_add_request buffer_len none = []
write_monitor_user_add_request buffer_len (some u) =
    let ulen = length u.username in
    let plen = length u.password in
    if no_length ulen || no_length plen
    then []
    else if ltb buffer_len (6 + ulen + plen)
    then []
    else Action.add_user
      ∷ ulen
      ∷ (u.username ++ (plen ∷ (u.password ++ (1 ∷ u.access_level ∷ 0 ∷ []))))

unfoldable pub write_monitor_user_delete_request : ℕ → Option User → List ℕ
write_monitor_user_delete_request buffer_len none = []
write_monitor_user_delete_request buffer_len (some u) =
    let ulen = length u.username in
    if no_length ulen
    then []
    else if ltb buffer_len (3 + ulen)
    then []
    else Action.remove_user ∷ ulen ∷ (u.username ++ (0 ∷ []))

unfoldable pub write_monitor_change_pass_request : ℕ → Option User → List ℕ
write_monitor_change_pass_request buffer_len none = []
write_monitor_change_pass_request buffer_len (some u) =
    let ulen = length u.username in
    let plen = length u.password in
    if no_length ulen || no_length plen
    then []
    else if ltb buffer_len (5 + ulen + plen)
    then []
    else Action.change_passwd ∷ ulen ∷ (u.username ++ (plen ∷ (u.password ++ (0 ∷ []))))

unfoldable pub write_monitor_get_stats_request : ℕ → List ℕ
write_monitor_get_stats_request buffer_len =
    if ltb buffer_len 2 then [] else Action.statistics ∷ 0 ∷ []

-- A user whose texts are C strings of 1 to 255 bytes.
pub record IsTyped (u : User) : Type 0 where
  pub name_some : 0 < length u.username
  pub name_fits : length u.username < 256
  pub pass_some : 0 < length u.password
  pub pass_fits : length u.password < 256
  pub name_string : c_string u.username ≡ u.username
  pub pass_string : c_string u.password ≡ u.password

change_pass-encode :
    (buffer_len : ℕ) (u : User)
    → IsTyped u
    → 5 + length u.username + length u.password ≤ buffer_len
    → write_monitor_change_pass_request buffer_len (some u)
      ≡ Action.change_passwd ∷ encode (u.username ∷ u.password ∷ [])
unfolding write_monitor_change_pass_request
change_pass-encode buffer_len u t room =
    ground (arith, t.name_some, t.name_fits, t.pass_some, t.pass_fits)

handle-change_passwd :
    (sv : Server) (u : User) (us' : List User)
    → IsTyped u
    → user_change_password sv.users (some u.username) (some u.password) ≡ some (users_ok, us')
    → handle_request sv Action.change_passwd (u.username ∷ u.password ∷ [])
      ≡ some (true, record sv { users = us' })
unfolding handle_request
handle-change_passwd sv u us' t e = rw (t.name_string, t.pass_string, e)

-- A password that is changed over the wire: the bytes that the client writes for a user that is
-- there, given to a new request parser of the server, leave a valid table in which the user logs in
-- with the new password and has its level; the server waits to write its reply.
pub change_pass-changes :
    (fd past_end buffer_len : ℕ) (u old : User) (sv : Server) (os : Os)
    → IsValid sv.users
    → find sv.users u.username ≡ some old
    → IsTyped u
    → 5 + length u.username + length u.password ≤ buffer_len
    → (mrq' : MonitorReqParser) × (us' : List User) × (read_all fd
          (monitor_req_parser_init true past_end).1
          sv
          os
          (write_monitor_change_pass_request buffer_len (some u))
        ≡ some
            (MonitorState.monitor_req, mrq', record sv { users = us' }, set_interest os fd writing))
      × IsValid us'
      × (user_login us' u.username u.password ≡ (users_ok, some old.access_level))
change_pass-changes fd past_end buffer_len u old sv os v there t room =
    let (us', e, v', logs_in, others) =
      user_change_password-find sv.users u.username u.password old v there
        (ground (arith, t.pass_fits)) in
    let (mrq', run) =
      request-handled fd Action.change_passwd past_end (u.username ∷ u.password ∷ []) sv
        (record sv { users = us' }) os true (omega arith)
        (t.name_some, t.name_fits, (t.pass_some, t.pass_fits, tt)) (inr refl)
        (handle-change_passwd sv u us' t e) in
    (
      mrq',
      us',
      ap (read_all fd (monitor_req_parser_init true past_end).1 sv os)
            (change_pass-encode buffer_len u t room)
          ∙ run,
      v',
      logs_in,
    )
