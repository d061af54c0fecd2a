-- ===== src/Connect/Reply.antt =====
-- The reply to a request, and the state behind it.
use protos_tpe.Base.{
  ℕ, ◌+◌, ◌≤◌, ◌≡◌, true, Option, none, some, List, ◌∷◌, length, take, drop, ◌==◌, if◌then◌else◌,
}
use protos_tpe.Os.{Os, noop, reading, set_interest}
use protos_tpe.States.{ClientState}
use protos_tpe.Client.{Client, SockAddr, Family, no_parser, free_destination}
use protos_tpe.Request.{RequestParser, Result, reply_success}
use protos_tpe.Connect.{destroy_request_parser}

-- An address of one of the two families that a reply can tell.
abbrev pub WfAddr : SockAddr → Type 0
WfAddr a = (length a.port ≡ 2) × (elim a.family [
  | Family.inet ↦ length a.address ≡ 4
  | Family.inet6 ↦ length a.address ≡ 16
  | Family.other_family ↦ 1 ≤ 0
])

-- A reader of replies, as RFC 1928 lays them out: the status and the bound address. It takes a reply
-- of the one length that its address type has.
abbrev sized : Family → ℕ → ℕ → List ℕ → Option (ℕ × SockAddr)
sized family status n bs =
    if length bs == n + 2
    then some (status, record { family = family; address = take n bs; port = drop n bs })
    else none

abbrev pub parse_reply : List ℕ → Option (ℕ × SockAddr)
parse_reply (ver ∷ status ∷ rsv ∷ atyp ∷ bs) =
    if ver == 5
    then (if atyp == 1
        then sized Family.inet status 4 bs
        else if atyp == 4
        then sized Family.inet6 status 16 bs
        else none)
    else none
parse_reply _ = none

module _ (fd : ℕ) (rp : RequestParser) (client : Client) where
  -- the parser's record and the client behind a reply that was sent
  abbrev pub parted : RequestParser
  parted = (destroy_request_parser rp client).0

  abbrev pub cleared : Client
  cleared = free_destination (record client { active_parser = no_parser })

  -- the destination that a request of status success is served by
  abbrev pub served : Option ℕ
  served = if rp.reply_status == reply_success then client.destination_fd else none

  -- the two ends of a reply: the relay to a destination, and the end of the connection
  abbrev pub after_reply : Option ℕ → ℕ → Os → Result
  after_reply (some d) k os =
      (ClientState.forwarding, parted, cleared, set_interest (set_interest os k reading) d reading)
  after_reply none k os = (
    ClientState.done,
    parted,
    record cleared { client_closed = true; dest_closed = true },
    set_interest os fd noop,
  )
