-- ===== src/MonitorReply.antt =====
-- The reply to a monitor's request, in src/server/monitor/monitor_req_utils.c and monitor_req.c, and
-- the counters that src/client/monitor_utils.c takes out of it. `htonl` and `ntohl` are parameters;
-- a word is stored in memory with its least byte first, on both hosts.
use protos_tpe.Base.{
  ℕ, zero, suc, ◌+◌, ◌*◌, ◌/◌, ◌%◌, ◌^◌, ◌<◌, ◌≡◌, refl, ap, ◌∙◌, List, [], ◌∷◌, ◌++◌, arith, ◌==◌,
  if◌then◌else◌, length, take, drop, u64,
}
use protos_tpe.Os.{Os, SendReply, took_all, note_send, noop, set_interest}
use protos_tpe.Stats.{Stats}
use protos_tpe.MonitorAuth.{MonitorState, MonitorError}
use protos_tpe.MonitorReq.{MonitorReqParser, ReqStatus}
use protos_tpe.MonitorReq.Action

-- the bytes of a word of `k` bytes, and the word of some bytes
unfoldable pub to_bytes : ℕ → ℕ → List ℕ
to_bytes zero n = []
to_bytes (suc k) n = n % 256 ∷ to_bytes k (n / 256)

unfoldable pub of_bytes : List ℕ → ℕ
of_bytes [] = 0
of_bytes (b ∷ bs) = b + 256 * of_bytes bs

abbrev pub status_byte : ReqStatus → ℕ
status_byte ReqStatus.status_ok = 0
status_byte ReqStatus.status_err = 1

module _ (htonl : ℕ → ℕ) where
  -- `htonll`; the two halves have no bit in common, so their `|` is their sum.
  unfoldable pub htonll : ℕ → ℕ
  htonll x = u64 (htonl (x / 4294967296) * 4294967296 + htonl (x % 4294967296))

  unfoldable pub write_u64 : ℕ → List ℕ
  unfolding htonll
  write_u64 value = to_bytes 8 (htonll value)

  -- the bytes that `send_response` sends
  unfoldable pub reply : MonitorReqParser → List ℕ
  unfolding write_u64
  reply mrq =
      let counters =
        write_u64 mrq.stats.historic_connections
        ++ write_u64 mrq.stats.transferred_bytes
        ++ write_u64 mrq.stats.current_connections in
      status_byte mrq.req_status ∷ (if mrq.type == Action.statistics then counters else [])

  unfoldable pub send_response : ℕ → MonitorReqParser → Os → SendReply → ReqStatus × Os
  unfolding reply
  send_response fd mrq os answer =
      let os1 : Os = note_send os fd (reply mrq) answer in
      if took_all answer (length (reply mrq))
      then (ReqStatus.status_ok, set_interest os1 fd noop)
      else (ReqStatus.status_err, os1)

  unfoldable pub monitor_req_write :
      ℕ → MonitorReqParser → Os → SendReply → MonitorState × MonitorReqParser × Os
  unfolding send_response
  monitor_req_write fd mrq os answer =
      let r = send_response fd mrq os answer in
      elim r.0 [
        | ReqStatus.status_ok ↦ (MonitorState.monitor_done, mrq, r.1)
        | ReqStatus.status_err ↦
            (MonitorState.monitor_error, record mrq { error = MonitorError.io_error }, r.1)
      ]

module _ (ntohl : ℕ → ℕ) where
  -- `ntohll_u64` of the client
  unfoldable pub ntohll_u64 : ℕ → ℕ
  ntohll_u64 x = u64 (ntohl (x / 4294967296) * 4294967296 + ntohl (x % 4294967296))

  -- the end of `read_monitor_stats_reply`: the counters in the 24 bytes that are read
  unfoldable pub counters_of : List ℕ → Stats
  unfolding ntohll_u64
  counters_of bytes = record {
    historic_connections = ntohll_u64 (of_bytes (take 8 bytes));
    transferred_bytes = ntohll_u64 (of_bytes (take 8 (drop 8 bytes)));
    current_connections = ntohll_u64 (of_bytes (take 8 (drop 16 bytes)));
  }

of_bytes-to_bytes : (k n : ℕ) → n < 256 ^ k → of_bytes (to_bytes k n) ≡ n
unfolding of_bytes to_bytes
of_bytes-to_bytes zero n h = omega arith
of_bytes-to_bytes (suc k) n h = omega (arith, of_bytes-to_bytes k (n / 256) (omega (arith, h)))

length-to_bytes : (k n : ℕ) → length (to_bytes k n) ≡ k
unfolding to_bytes
length-to_bytes zero n = refl
length-to_bytes (suc k) n = ap suc (length-to_bytes k (n / 256))

module _ (htonl ntohl : ℕ → ℕ) (htonl-bounded : (x : ℕ) → x < 4294967296 → htonl x < 4294967296)
    (ntohl-htonl : (x : ℕ) → x < 4294967296 → ntohl (htonl x) ≡ x) where
  ntohll_u64-htonll : (x : ℕ) → x < 18446744073709551616 → ntohll_u64 ntohl (htonll htonl x) ≡ x
  unfolding ntohll_u64 htonll
  ntohll_u64-htonll x h =
      let hi = x / 4294967296 in
      let lo = x % 4294967296 in
      let hi_small : hi < 4294967296 = omega arith in
      let lo_small : lo < 4294967296 = omega arith in
      let a = htonl-bounded hi hi_small in
      let b = htonl-bounded lo lo_small in
      let high : (htonl hi * 4294967296 + htonl lo) % 18446744073709551616 / 4294967296 ≡ htonl hi =
        omega arith in
      let low : (htonl hi * 4294967296 + htonl lo) % 18446744073709551616 % 4294967296 ≡ htonl lo =
        omega arith in
      rw (high, low, ntohl-htonl hi hi_small, ntohl-htonl lo lo_small) (omega arith)

  word : (x : ℕ) → x < 18446744073709551616 → ntohll_u64 ntohl (of_bytes (write_u64 htonl x)) ≡ x
  unfolding write_u64
  word x h =
      ap (ntohll_u64 ntohl) (of_bytes-to_bytes 8 (htonll htonl x) (unfold htonll in omega arith))
      ∙ ntohll_u64-htonll x h

  -- The statistics over the wire: the reply to a STATISTICS request is one byte of status and 24 of
  -- counters, in which the client finds the server's three counters, each in its field. `ntohl`
  -- undoes `htonl`.
  pub counters_of-reply :
      (mrq : MonitorReqParser)
      → mrq.type ≡ Action.statistics
      → mrq.stats.historic_connections < 18446744073709551616
      → mrq.stats.transferred_bytes < 18446744073709551616
      → mrq.stats.current_connections < 18446744073709551616
      → let got = counters_of ntohl (drop 1 (reply htonl mrq)) in
        (length (reply htonl mrq) ≡ 25)
        × (got.historic_connections ≡ mrq.stats.historic_connections)
        × (got.transferred_bytes ≡ mrq.stats.transferred_bytes)
        × (got.current_connections ≡ mrq.stats.current_connections)
  unfolding counters_of reply to_bytes
  counters_of-reply mrq t h b c = rw t (
    refl,
    word mrq.stats.historic_connections h,
    word mrq.stats.transferred_bytes b,
    word mrq.stats.current_connections c,
  )
