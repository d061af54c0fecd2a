-- ===== src/MonitorReq/Handled.antt =====
-- What a whole request does.
use protos_tpe.Base.{
  ℕ, ◌+◌, ◌<◌, ◌≡◌, ◌≢◌, ◌⊎◌, refl, ap, ◌∙◌, sym, Bool, true, false, some, List, [], ◌∷◌, ◌++◌,
  arith, ◌==◌, if◌then◌else◌, length, get_elem?, append_assoc, append-nil, length-append,
}
use protos_tpe.Os.{Os, writing, set_interest}
use protos_tpe.Parser
use protos_tpe.Parser.{Parser}
use protos_tpe.Parser.Always.{stepped}
use protos_tpe.MonitorAuth.{MonitorState}
use protos_tpe.MonitorReq.{
  MonitorReqParser, ReqStatus, Server, monitor_req_parser_init, end_of_request, finish,
  handle_request, max_arguments,
}
use protos_tpe.MonitorReq.Action
use protos_tpe.MonitorReq.State
use protos_tpe.MonitorReq.Table.{
  monitor_req_parser_def, act_monitor_req_type, act_monitor_req_argument_length,
}
use protos_tpe.MonitorReq.Steps.{In, read-type, read-argument_length, read-end, after_length}
use protos_tpe.MonitorReq.Parsed.{
  encode, Announced, read_all, read_all-next, read_all-last, read_all-argument,
}

-- The end of a request of this type with these arguments leads to the state `st`, the tables `sv'`
-- and `os'`.
abbrev EndsIn : ℕ → ℕ → List (List ℕ) → Server → Os → MonitorState → Server → Os → Type 0
EndsIn fd type args sv os st sv' os' =
    (mrq : MonitorReqParser)
    → mrq.type ≡ type
    → mrq.arguments ≡ args
    → (mrq' : MonitorReqParser) × (end_of_request fd mrq sv os ≡ some (st, mrq', sv', os'))

module _ (fd type : ℕ) (args : List (List ℕ)) (sv sv' : Server) (os os' : Os) (st : MonitorState)
    (ends : EndsIn fd type args sv os st sv' os') where
  read_all-arguments :
      (todo before : List (List ℕ)) (mrq : MonitorReqParser) (p : Parser)
      → In State.argument_length mrq p
      → mrq.type ≡ type
      → mrq.arguments ≡ before
      → before ++ todo ≡ args
      → length before + length todo < 255
      → Announced todo
      → (mrq' : MonitorReqParser) × (read_all fd mrq sv os (encode todo)
          ≡ some (st, mrq', sv', os'))
  read_all-arguments [] before mrq p w t b e l a =
      let mrq1 : MonitorReqParser = record mrq {
        p = some (stepped p State.argument act_monitor_req_argument_length 0);
      } in
      let (mrq', q) = ends mrq1 t (b ∙ sym (append-nil before) ∙ e) in
      (
        mrq',
        read_all-last fd mrq sv os 0 (st, mrq', sv', os')
            (read-end fd mrq sv os p (st, mrq', sv', os') w (omega (arith, ap length b)) q),
      )
  read_all-arguments ([] ∷ todo) before mrq p w t b e l a = absurd (omega (arith, a.0))
  read_all-arguments ((c ∷ cs) ∷ todo) before mrq p w t b e l a =
      let n = length (c ∷ cs) in
      let mrq1 = after_length fd mrq p n in
      let (mrq2, run, g) =
        read_all-argument fd cs mrq1 sv os before [] n 0 c
          (stepped p State.argument act_monitor_req_argument_length n) (encode todo)
          (record { live = refl; at = record { same = w.at.same; state_is = refl } }) refl refl
          (ap (λ l. l ++ [] ∷ []) b) (omega arith) a.1 in
      let (mrq', run') =
        read_all-arguments todo (before ++ (c ∷ cs) ∷ []) mrq2 g.parser g.ready (g.type_same ∙ t)
          g.stored (append_assoc before ((c ∷ cs) ∷ []) todo ∙ e)
          (omega (arith, length-append before ((c ∷ cs) ∷ []))) a.2 in
      (
        mrq',
        read_all-next fd mrq mrq1 sv sv os os n (c ∷ (cs ++ encode todo))
              (read-argument_length fd mrq sv os n p w (omega arith) (omega (arith, ap length b)))
            ∙ run
            ∙ run',
      )

  read_all-ends :
      (past_end : ℕ)
      → length args < 255
      → Announced args
      → (mrq' : MonitorReqParser) × (read_all fd
            (monitor_req_parser_init true past_end).1
            sv
            os
            (type ∷ encode args)
          ≡ some (st, mrq', sv', os'))
  unfolding monitor_req_parser_init
  read_all-ends past_end l a =
      let mrq0 = (monitor_req_parser_init true past_end).1 in
      let p0 = Parser.start Parser.no_classes past_end monitor_req_parser_def in
      let p1 = stepped p0 State.argument_length act_monitor_req_type type in
      let mrq1 : MonitorReqParser = record mrq0 { type = type; p = some p1 } in
      let (mrq', run) =
        read_all-arguments args [] mrq1 p1
          (record { live = refl; at = record { same = refl; state_is = refl } }) refl refl refl
          (omega arith) a in
      (
        mrq',
        read_all-next fd mrq0 mrq1 sv sv os os type (encode args) (
              read-type fd mrq0 sv os type p0
                (record { live = refl; at = record { same = refl; state_is = refl } }))
            ∙ run,
      )

-- the parser's record after the request is handled
abbrev handled : MonitorReqParser → Server → ReqStatus → MonitorReqParser
handled mrq sv status = record mrq {
  req_status = status;
  stats = if mrq.type == Action.statistics then sv.stats else mrq.stats;
}

finish_lem :
    (fd : ℕ) (mrq : MonitorReqParser) (sv sv' : Server) (os : Os) (ok : Bool)
    → handle_request sv mrq.type mrq.arguments ≡ some (ok, sv')
    → (mrq' : MonitorReqParser) × (finish fd mrq sv os
        ≡ some (
          if ok then MonitorState.monitor_req else MonitorState.monitor_error,
          mrq',
          sv',
          if ok then set_interest os fd writing else os,
        ))
unfolding finish
finish_lem fd mrq sv sv' os true h = (handled mrq sv' ReqStatus.status_ok, rw h)
finish_lem fd mrq sv sv' os false h = (handled mrq sv' ReqStatus.status_err, rw h)

handled-EndsIn :
    (fd type : ℕ) (args : List (List ℕ)) (sv sv' : Server) (os : Os) (ok : Bool)
    → (type ≡ Action.change_auth_methods) ⊎ (get_elem? max_arguments type ≡ some (length args))
    → handle_request sv type args ≡ some (ok, sv')
    → EndsIn fd type args sv os
        (if ok then MonitorState.monitor_req else MonitorState.monitor_error)
        sv'
        (if ok then set_interest os fd writing else os)
unfolding end_of_request
handled-EndsIn fd type args sv sv' os ok count h mrq t b =
    let (mrq', e) = finish_lem fd mrq sv sv' os ok (rw (t, b) h) in
    (mrq', ground (arith, t, b, count) ∙ e)

refused-EndsIn :
    (fd type n : ℕ) (args : List (List ℕ)) (sv : Server) (os : Os)
    → type ≢ Action.change_auth_methods
    → get_elem? max_arguments type ≡ some n
    → length args ≢ n
    → EndsIn fd type args sv os MonitorState.monitor_error sv os
unfolding end_of_request
refused-EndsIn fd type n args sv os other e wrong mrq t b = (mrq, ground (arith, t, b, e))

-- The bytes of a request that a new parser is given: its type, at most 254 arguments of 1 to 255
-- bytes, each behind its length, and a 0. Where there are as many as the type takes, the request is
-- handled with exactly these: it leaves the server as `handle_request` does, waits to write if that
-- went well, and goes to MONITOR_ERROR if not.
pub request-handled :
    (fd type past_end : ℕ) (args : List (List ℕ)) (sv sv' : Server) (os : Os) (ok : Bool)
    → length args < 255
    → Announced args
    → (type ≡ Action.change_auth_methods) ⊎ (get_elem? max_arguments type ≡ some (length args))
    → handle_request sv type args ≡ some (ok, sv')
    → (mrq' : MonitorReqParser) × (read_all fd
          (monitor_req_parser_init true past_end).1
          sv
          os
          (type ∷ encode args)
        ≡ some (
          if ok then MonitorState.monitor_req else MonitorState.monitor_error,
          mrq',
          sv',
          if ok then set_interest os fd writing else os,
        ))
request-handled fd type past_end args sv sv' os ok l a count h =
    read_all-ends fd type args sv sv' os (if ok then set_interest os fd writing else os)
      (if ok then MonitorState.monitor_req else MonitorState.monitor_error)
      (handled-EndsIn fd type args sv sv' os ok count h) past_end l a

-- A request of a known type with another number of arguments changes nothing, and goes to
-- MONITOR_ERROR.
pub request-refused :
    (fd type past_end n : ℕ) (args : List (List ℕ)) (sv : Server) (os : Os)
    → length args < 255
    → Announced args
    → type ≢ Action.change_auth_methods
    → get_elem? max_arguments type ≡ some n
    → length args ≢ n
    → (mrq' : MonitorReqParser) × (read_all fd
          (monitor_req_parser_init true past_end).1
          sv
          os
          (type ∷ encode args)
        ≡ some (MonitorState.monitor_error, mrq', sv, os))
request-refused fd type past_end n args sv os l a other e wrong =
    read_all-ends fd type args sv sv os os MonitorState.monitor_error
      (refused-EndsIn fd type n args sv os other e wrong) past_end l a
