-- ===== src/Closing.antt =====
-- src/server/closing.c, the callback for a descriptor that is unregistered in
-- src/server/client_utils.c, and the arrivals in the states that have a parser. The memory of the
-- client is a flag; that of its parsers is not followed.
pub mod Frees
use protos_tpe.Base.{
  ℕ, Bool, true, false, not, ◌&&◌, ◌||◌, Option, none, some, List, [], ◌∷◌, ◌==◌, if◌then◌else◌,
  ◌++◌, take,
}
use protos_tpe.Os.{Os, Errno, SendReply, Interest, note_send, update}
use protos_tpe.Buffer
use protos_tpe.Buffer.{Buffer}
use protos_tpe.States.{ClientState}
use protos_tpe.Stats.{Stats, decrement_current_connections}
use protos_tpe.Client.{
  Client, no_parser, hello_parser, auth_parser, request_parser, free_destination, free_dns_request,
}
use protos_tpe.Connect.{close}
use protos_tpe.Hello.{HelloParser, hello_parser_init}
use protos_tpe.Auth.{AuthParser, auth_parser_init}
use protos_tpe.Request.{RequestParser, request_parser_init}

-- a connection, with what its end changes; `freed` says whether `free(key->data)` was called
pub record Connection : Type 0 where
  pub client : Client
  pub os : Os
  pub stats : Stats
  pub freed : Bool

-- `destroy_active_parser`
abbrev pub destroy_active_parser : Client → Client
destroy_active_parser c = record c { active_parser = no_parser }

-- whether a descriptor that may be -1 is `fd`
abbrev pub is_fd : Option ℕ → ℕ → Bool
is_fd none fd = false
is_fd (some k) fd = fd == k

-- the connection is no longer counted, if it is the client's descriptor
count_off : Connection → Bool → Connection
count_off k true = record k { stats = decrement_current_connections k.stats }
count_off k false = k

-- `handle_close_client`; no state has an `on_departure`.
unfoldable pub handle_close_client : Connection → ℕ → Connection
unfolding count_off
handle_close_client k fd = count_off k (is_fd k.client.client_fd fd)

-- the entry of a descriptor, which is `none` where it is not in use, and its end
unregister_at : Connection → ℕ → Option Interest → Connection
unfolding handle_close_client
unregister_at k fd none = k
unregister_at k fd (some i) =
    let k1 = handle_close_client k fd in
    record k1 { os = record k1.os { interest = update k1.os.interest fd none } }

-- `selector_unregister_fd`: the callback is called for an entry in use, which then goes
unfoldable pub unregister : Connection → ℕ → Connection
unfolding unregister_at
unregister k fd = unregister_at k fd (k.os.interest fd)

-- `close`, and `selector_unregister_fd`, of one of the two descriptors
unfoldable pub end_fd : Connection → Option ℕ → Connection
unfolding unregister
end_fd k none = k
end_fd k (some fd) = unregister (record k { os = close k.os fd }) fd

-- the end of the destination's descriptor, and of the client's memory
end_destination : Connection → Connection
unfolding end_fd
end_destination k =
    let k1 = end_fd k k.client.destination_fd in
    record k1 { client = record k1.client { destination_fd = none }; freed = true }

-- the end of both descriptors
end_fds : Connection → Connection
unfolding end_destination
end_fds k =
    let k1 = end_fd k k.client.client_fd in
    end_destination (record k1 { client = record k1.client { client_fd = none } })

-- what a client holds besides, given up
abbrev release : Client → Client
release c = free_destination (free_dns_request (destroy_active_parser c))

-- the test of `end_connection`
abbrev pub finished : Client → Bool
finished c =
    c.client_closed
    && c.dest_closed
    && not (Buffer.can_read c.client_buffer)
    && not (Buffer.can_read c.destiny_buffer)

-- `end_connection`
unfoldable pub end_connection : Connection → Connection
unfolding end_fds
end_connection k = if finished k.client then end_fds (record k { client = release k.client }) else k

-- whether `error_handler` answers the client, for the state it is given
abbrev pub answers : ClientState → Bool
answers ClientState.request_read = true
answers ClientState.request_write = true
answers ClientState.dns_lookup = true
answers ClientState.dest_connect = true
answers _ = false

abbrev pub error_reply : ℕ → List ℕ
error_reply err = 5 ∷ err ∷ 0 ∷ 1 ∷ 0 ∷ 0 ∷ 0 ∷ 0 ∷ 0 ∷ 0 ∷ []

-- both sides marked as closed, and the bytes of both buffers dropped
abbrev pub emptied : Client → Client
emptied c = record c {
  client_closed = true;
  dest_closed = true;
  client_buffer = record c.client_buffer { read = c.client_buffer.write };
  destiny_buffer = record c.destiny_buffer { read = c.destiny_buffer.write };
}

-- `error_handler`, from a callback for `fd`; `sent` is the return of its `send`.
unfoldable pub error_handler : ClientState → ℕ → SendReply → Connection → Connection
unfolding end_connection
error_handler state fd sent k =
    let os1 =
      if answers state && not (k.client.err == 0)
      then note_send k.os fd (error_reply k.client.err) sent
      else k.os in
    end_connection (record k { client = emptied (release k.client); os = os1 })

-- `hello_read_init`
unfoldable pub hello_read_init :
    Bool → ℕ → ClientState → ℕ → SendReply → Connection → HelloParser × Connection
unfolding error_handler
hello_read_init memory past_end state fd sent k =
    let (ok, hp) = hello_parser_init memory past_end in
    let k1 : Connection = record k { client = record k.client { active_parser = hello_parser } } in
    (hp, (if ok then k1 else error_handler state fd sent k1))

-- `auth_read_init`
unfoldable pub auth_read_init :
    Bool → ℕ → ClientState → ℕ → SendReply → Connection → AuthParser × Connection
unfolding error_handler
auth_read_init memory past_end state fd sent k =
    let (ok, ap) = auth_parser_init memory past_end in
    let k1 : Connection = record k { client = record k.client { active_parser = auth_parser } } in
    (ap, (if ok then k1 else error_handler state fd sent k1))

-- `request_read_init`; `none` is a write to the client's memory that was freed.
unfoldable pub request_read_init :
    Bool → ℕ → ClientState → ℕ → SendReply → Connection → Option (RequestParser × Connection)
unfolding error_handler
request_read_init memory past_end state fd sent k =
    let (ok, rp) = request_parser_init memory past_end in
    let k1 : Connection = record k {
      client = record k.client { active_parser = request_parser };
    } in
    let k2 = if ok then k1 else error_handler state fd sent k1 in
    if k2.freed then none else some (record rp { addr_read = 0; port_read = 0 }, k2)
