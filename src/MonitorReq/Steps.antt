-- ===== src/MonitorReq/Steps.antt =====
-- One byte of a request, in each state of its parser.
use protos_tpe.Base.{
  ℕ, ◌+◌, ◌<◌, ◌≡◌, refl, Bool, some, List, [], ◌∷◌, ◌++◌, arith, ◌==◌, if◌then◌else◌, length,
  lt→ltb,
}
use protos_tpe.Os.{Os, RecvReply}
use protos_tpe.Parser
use protos_tpe.Parser.{Parser}
use protos_tpe.Parser.Always.{At, feed-At, stepped}
use protos_tpe.MonitorAuth.{MonitorState}
use protos_tpe.MonitorReq.{
  MonitorReqParser, Server, Result, end_of_request, push_last, monitor_req_read,
}
use protos_tpe.MonitorReq.State
use protos_tpe.MonitorReq.Table.{
  monitor_req_parser_def, act_monitor_req_type, act_monitor_req_argument_length,
  act_monitor_req_argument,
}

-- the parser is there, and in state `k` of its table
pub record In (k : ℕ) (mrq : MonitorReqParser) (p : Parser) : Type 0 where
  pub live : mrq.p ≡ some p
  pub at : At monitor_req_parser_def k p

push_last-append :
    (as' : List (List ℕ)) (a : List ℕ) (c : ℕ)
    → push_last (as' ++ a ∷ []) c ≡ some (as' ++ (a ++ c ∷ []) ∷ [])
unfolding push_last
push_last-append [] a c = refl
push_last-append (x ∷ []) a c = refl
push_last-append (x ∷ y ∷ as') a c = rw (push_last-append (y ∷ as') a c)

module _ (fd : ℕ) where
  pub read-type :
      (mrq : MonitorReqParser) (sv : Server) (os : Os) (c : ℕ) (p : Parser)
      → In State.type mrq p
      → monitor_req_read fd mrq sv os (RecvReply.received c)
        ≡ some (
          MonitorState.monitor_req,
          record mrq {
            type = c;
            p = some (stepped p State.argument_length act_monitor_req_type c);
          },
          sv,
          os,
        )
  unfolding monitor_req_read Parser.events
  read-type mrq sv os c p w =
      rw (w.live, feed-At State.argument_length act_monitor_req_type c w.at refl) (ground arith)

  -- the parser's record after the length of one more argument
  abbrev pub after_length : MonitorReqParser → Parser → ℕ → MonitorReqParser
  after_length mrq p c = record mrq {
    current_argument_length = c;
    current_argument_read = 0;
    arguments = mrq.arguments ++ [] ∷ [];
    p = some (stepped p State.argument act_monitor_req_argument_length c);
  }

  pub read-argument_length :
      (mrq : MonitorReqParser) (sv : Server) (os : Os) (c : ℕ) (p : Parser)
      → In State.argument_length mrq p
      → 0 < c
      → length mrq.arguments < 254
      → monitor_req_read fd mrq sv os (RecvReply.received c)
        ≡ some (MonitorState.monitor_req, after_length mrq p c, sv, os)
  unfolding monitor_req_read Parser.events
  read-argument_length mrq sv os c p w pos_c room =
      rw (w.live, feed-At State.argument act_monitor_req_argument_length c w.at refl) (ground arith)

  pub read-end :
      (mrq : MonitorReqParser) (sv : Server) (os : Os) (p : Parser) (r : Result)
      → In State.argument_length mrq p
      → length mrq.arguments < 255
      → end_of_request fd
          (record mrq { p = some (stepped p State.argument act_monitor_req_argument_length 0) })
          sv
          os
        ≡ some r
      → monitor_req_read fd mrq sv os (RecvReply.received 0) ≡ some r
  unfolding monitor_req_read Parser.events
  read-end mrq sv os p r w room e = rw (
    w.live,
    feed-At State.argument act_monitor_req_argument_length 0 w.at refl,
    lt→ltb (length mrq.arguments) 255 room,
    e,
  )

  -- the parser's record after a byte of an argument; the last one moves on to ARGUMENT_LENGTH
  abbrev pub after_argument :
      MonitorReqParser → Parser → List (List ℕ) → ℕ → ℕ → Bool → MonitorReqParser
  after_argument mrq p args k c last = record mrq {
    arguments = args;
    current_argument_read = k + 1;
    p = some (
        let q = stepped p State.argument act_monitor_req_argument c in
        if last then Parser.set_state q State.argument_length else q);
  }

  pub read-argument :
      (mrq : MonitorReqParser) (sv : Server) (os : Os) (as' : List (List ℕ)) (a : List ℕ)
      (n k c : ℕ) (p : Parser)
      → In State.argument mrq p
      → mrq.current_argument_length ≡ n
      → mrq.current_argument_read ≡ k
      → mrq.arguments ≡ as' ++ a ∷ []
      → k < n
      → n < 256
      → monitor_req_read fd mrq sv os (RecvReply.received c)
        ≡ some (
          MonitorState.monitor_req,
          after_argument mrq p (as' ++ (a ++ c ∷ []) ∷ []) k c (k + 1 == n),
          sv,
          os,
        )
  unfolding monitor_req_read Parser.events
  read-argument mrq sv os as' a n k c p w total count args lt small =
      rw
        (
          w.live,
          feed-At State.argument act_monitor_req_argument c w.at refl,
          args,
          push_last-append as' a c,
        )
        (ground arith)
