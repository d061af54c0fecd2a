-- ===== src/Client.antt =====
-- `client_t` of src/server/include/client_utils.h, without its parsers and its state machine, and
-- what src/server/client_utils.c frees of it. A list of addresses is the chain of `addrinfo` from a
-- pointer on, [] for NULL; a descriptor is `none` for -1.
use protos_tpe.Base.{ℕ, Bool, false, Option, none, some, List, [], ◌∷◌}
use protos_tpe.Buffer.{Buffer}

-- `parser_state_t`
pub data ParserState : Type 0 where
  no_parser hello_parser auth_parser request_parser : ParserState

pub data Family : Type 0 where
  inet inet6 other_family : Family

-- A socket address: its family, the bytes of the address, and the bytes of the port, in the order in
-- which they stand in memory and in a reply.
pub record SockAddr : Type 0 where
  pub family : Family
  pub address : List ℕ
  pub port : List ℕ

-- The name and the port of a lookup that `getaddrinfo_a` works on.
pub record DnsRequest : Type 0 where
  pub name : List ℕ
  pub service : ℕ

pub record Client : Type 0 where
  pub client_fd : Option ℕ
  pub destination_fd : Option ℕ
  pub active_parser : ParserState
  pub client_buffer : Buffer
  pub destiny_buffer : Buffer
  pub dest_addr : List SockAddr
  pub dest_addr_base : List SockAddr
  pub dns_req : Option DnsRequest
  pub err : ℕ
  pub client_closed : Bool
  pub dest_closed : Bool
  pub dest_addr_from_gai : Bool

-- `free_destination`
unfoldable pub free_destination : Client → Client
free_destination c = elim c.dest_addr_base [
  | [] ↦ c
  | a ∷ as' ↦ record c { dest_addr = []; dest_addr_base = []; dest_addr_from_gai = false }
]

-- `free_dns_request`
unfoldable pub free_dns_request : Client → Client
free_dns_request c = elim c.dns_req [ none ↦ c | some r ↦ record c { dns_req = none } ]
