-- ===== src/MonitorAuth/Admission.antt =====
-- Who gets past the authentication of the monitor.
use protos_tpe.Base.{
  ℕ, ◌<◌, ◌≡◌, ◌≢◌, ◌↔◌, refl, ap, ◌∙◌, true, Option, none, some, List, [], ◌∷◌, ◌++◌, arith,
  length, get_elem?, Bool-cases, inl, inr, ◌==◌,
}
use mathlib.Core.Path.{ap₂}
use protos_tpe.Os.{Os, SendReply, note_send}
use protos_tpe.Parser
use protos_tpe.Parser.{Parser}
use protos_tpe.Parser.Always.{stepped}
use protos_tpe.Users.{User, Status, admin, user_login, users_ok, user_not_found, wrong_password}
use protos_tpe.Users.Text.{c_string, strcmp_eq, strcmp_eq_iff}
use protos_tpe.Users.Table.{find}
use protos_tpe.Users.Account.{user_login-find}
use protos_tpe.Field.{put_chars, c_string-put_chars}
use protos_tpe.MonitorAuth.{Monitor, MonitorState, MonitorError, monitor_auth_parser_init, login}
use protos_tpe.MonitorAuth.State
use protos_tpe.MonitorAuth.Table.{
  monitor_auth_parser_def, act_monitor_auth_ulen, act_monitor_auth_plen,
}
use protos_tpe.MonitorAuth.Run.{read_all, read_all-next}
use protos_tpe.MonitorAuth.Steps.{In, with_parser, read-ulen, read-plen}
use protos_tpe.MonitorAuth.Fields.{read_all-uname, read_all-passwd}

-- The name stands for an administrator, whose password is `pass`.
abbrev pub KnownAdmin : List User → List ℕ → List ℕ → Type 0
KnownAdmin us name pass =
    (u : User) × (find us name ≡ some u) × (u.password ≡ pass) × (u.access_level ≡ admin)

-- The monitor when MONITOR_AUTH is entered.
abbrev pub entered : ℕ → Monitor
entered past_end = record {
  user_access_level = 0;
  error = MonitorError.no_error;
  auth_parser = (monitor_auth_parser_init true past_end).1;
}

module _ (us : List User) (fd : ℕ) (answer : SendReply) where
  -- What a login does: it gets on to MONITOR_REQ, or it tells the monitor with one byte that it is
  -- refused.
  abbrev pub Told : Os → MonitorState → Os → Type 0
  Told os st os' =
      (st ≢ MonitorState.monitor_req)
      → (st ≡ MonitorState.monitor_error) × (os' ≡ note_send os fd (1 ∷ []) answer)

  login-KnownAdmin :
      (m : Monitor) (os : Os) (name pass : List ℕ)
      → let r = login us fd m os answer name pass in
        ((r.0 ≡ MonitorState.monitor_req) ↔ KnownAdmin us name pass) × Told os r.0 r.2
  unfolding login
  login-KnownAdmin m os name pass = by_entry (find us name) refl
    where
      by_entry :
          (o : Option User)
          → find us name ≡ o
          → let r = login us fd m os answer name pass in
            ((r.0 ≡ MonitorState.monitor_req) ↔ KnownAdmin us name pass) × Told os r.0 r.2
      by_entry none e =
          let l : user_login us name pass ≡ (user_not_found, none) =
            ground (arith, user_login-find us name pass, e) in
          rw (login, l) ((ground arith, (λ k. ground (arith, k.1, e))), ground arith)
      by_entry (some u) e = elim (Bool-cases (strcmp_eq u.password pass)) [
        | inr n ↦
            let l : user_login us name pass ≡ (wrong_password, none) =
              ground (arith, user_login-find us name pass, e, n) in
            rw (login, l)
              (
                (
                  ground arith,
                  (λ k. ground (arith, k.1, k.2, e, n, strcmp_eq_iff u.password pass)),
                ),
                ground arith,
              )
        | inl y ↦
            let l : user_login us name pass ≡ (users_ok, some u.access_level) =
              ground (arith, user_login-find us name pass, e, y) in
            let l0 = ap (λ (r : Status × Option ℕ). r.0) l in
            let l1 = ap (λ (r : Status × Option ℕ). r.1) l in
            elim (Bool-cases (u.access_level == 0)) [
              | inl z ↦
                  rw (login, l0, l1, z)
                    (
                      (
                        (λ _. (u, e, (strcmp_eq_iff u.password pass).0 y, ground arith)),
                        (λ _. refl),
                      ),
                      ground arith,
                    )
              | inr z ↦
                  rw (login, l0, l1, z)
                    ((ground arith, (λ k. ground (arith, k.1, k.3, e, z))), ground arith)
            ]
      ]

  record Fresh (m : Monitor) : Type 0 where
    parser : Parser
    ready : In State.ulen m.auth_parser parser
    uname_room : length m.auth_parser.uname ≡ 256
    passwd_room : length m.auth_parser.passwd ≡ 255
    uname_zero : get_elem? m.auth_parser.uname 0 ≡ some 0
    passwd_zero : get_elem? m.auth_parser.passwd 0 ≡ some 0

  fresh : (past_end : ℕ) → Fresh (entered past_end)
  unfolding monitor_auth_parser_init
  fresh past_end = record {
    parser = Parser.start Parser.no_classes past_end monitor_auth_parser_def;
    ready = record { live = refl; at = record { same = refl; state_is = refl } };
    uname_room = refl;
    passwd_room = refl;
    uname_zero = refl;
    passwd_zero = refl;
  }

  -- A name of 1 to 255 bytes and a password of 1 to 254, each behind its length, given byte by byte
  -- to a monitor that has just entered MONITOR_AUTH, then anything: with the last byte of the
  -- password the monitor gets on to MONITOR_REQ exactly if the two texts, up to their first NUL, are
  -- those of an administrator; else it goes to MONITOR_ERROR, and a byte 1 is sent.
  pub read_all-admits :
      (past_end : ℕ) (name pass rest : List ℕ) (os : Os)
      → 0 < length name
      → length name < 256
      → 0 < length pass
      → length pass < 255
      → (st : MonitorState) × (m : Monitor) × (os' : Os) × (read_all us fd answer
            (entered past_end)
            os
            (length name ∷ (name ++ (length pass ∷ (pass ++ rest))))
          ≡ some (st, m, os', rest))
        × ((st ≡ MonitorState.monitor_req) ↔ KnownAdmin us (c_string name) (c_string pass))
        × Told os st os'
  read_all-admits past_end [] pass rest os h1 h2 h3 h4 = absurd (omega arith)
  read_all-admits past_end (c ∷ cs) [] rest os h1 h2 h3 h4 = absurd (omega arith)
  read_all-admits past_end (c ∷ cs) (e ∷ es) rest os h1 h2 h3 h4 =
      let m0 = entered past_end in
      let new = fresh past_end in
      let n = length (c ∷ cs) in
      let k = length (e ∷ es) in
      let p1 = stepped new.parser State.uname act_monitor_auth_ulen n in
      let m1 : Monitor =
        with_parser m0 (record (m0.auth_parser) { ulen = n; uname_read = 0; p = some p1 }) in
      let at1 : In State.uname m1.auth_parser p1 = record {
        live = refl;
        at = record { same = new.ready.at.same; state_is = refl };
      } in
      let after_name = k ∷ (e ∷ (es ++ rest)) in
      let (m2, run2, g) =
        read_all-uname us fd answer cs m1 os n 0 c p1 after_name at1 refl refl new.uname_room
          (omega arith) h2 in
      let p3 = stepped g.parser State.passwd act_monitor_auth_plen k in
      let m3 : Monitor =
        with_parser m2 (record (m2.auth_parser) { plen = k; passwd_read = 0; p = some p3 }) in
      let at3 : In State.passwd m3.auth_parser p3 = record {
        live = refl;
        at = record { same = g.ready.at.same; state_is = refl };
      } in
      let (m4, run4) =
        read_all-passwd us fd answer es m3 os k 0 e p3 rest at3 refl refl
          (ap length g.passwd_same ∙ new.passwd_room) (omega arith) h4 in
      let name_read : c_string m3.auth_parser.uname ≡ c_string (c ∷ cs) =
        ap c_string g.stored
        ∙ c_string-put_chars (c ∷ cs) m0.auth_parser.uname (omega (arith, new.uname_room))
            new.uname_zero in
      let pass_read : c_string (put_chars m3.auth_parser.passwd 0 (e ∷ es)) ≡ c_string (e ∷ es) =
        ap (λ a. c_string (put_chars a 0 (e ∷ es))) g.passwd_same
        ∙ c_string-put_chars (e ∷ es) m0.auth_parser.passwd (omega (arith, new.passwd_room))
            new.passwd_zero in
      let r = login us fd m4 os answer (c_string (c ∷ cs)) (c_string (e ∷ es)) in
      let (admits, told) = login-KnownAdmin m4 os (c_string (c ∷ cs)) (c_string (e ∷ es)) in
      (
        r.0,
        r.1,
        r.2,
        read_all-next us fd answer m0 m1 os os n (c ∷ (cs ++ after_name))
              (read-ulen us fd answer m0 os n new.parser new.ready)
            ∙ run2
            ∙ read_all-next us fd answer m2 m3 os os k (e ∷ (es ++ rest))
                (read-plen us fd answer m2 os k g.parser g.ready)
            ∙ run4
            ∙ ap₂ (λ a b. let q = login us fd m4 os answer a b in some (q.0, q.1, q.2, rest))
                name_read pass_read,
        admits,
        told,
      )
