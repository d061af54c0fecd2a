-- ===== src/Lib.antt =====
-- A model of ProtosTPE, a SOCKS5 proxy in C, and what holds of it.
--
-- The server runs one state machine for each connection (src/lib/stm) over an event loop
-- (src/lib/selector). The handlers of its states read the greeting (src/server/hello.c), the
-- user and password (src/server/auth.c) and the request (src/server/request.c) through a table-driven
-- parser (src/lib/parser), and relay bytes (src/server/forwarding.c) through two buffers
-- (src/lib/buffer). A monitor protocol changes the users (src/server/users.c) and the accepted
-- methods (src/server/auth_utils.c), and reads the counters (src/server/monitor/stats.c). Paths
-- are from the repository's root.
--
-- Files, and the code that each is about:
--   Base, Base/*: names, Boolean tests, lists and fixed-width integers that the others share
--   Buffer: src/lib/buffer/buffer.c: pointers are offsets, `none` is a failed assert
--   Buffer/Fifo: the buffer as a queue of bytes
--   Parser: src/lib/parser/parser.c: parser_init, parser_reset, parser_set_state, parser_feed
--   Parser/Always: a byte in a state whose one transition takes any byte
--   Stm: src/lib/stm/stm.c: stm_init, handle_first, jump, the four handlers, stm_state
--   Stm/Jump: the state after a handler
--   Os: what a handler asks of the kernel and of the selector: the answers of recv and send are
--     arguments, the bytes that send has taken and the interests are state
--   Parser/Compare, Parser/Compared: src/lib/parser/parser_utils.c: parser_utils_strcmpi
--   States: the states of a connection, in src/server/include/client_utils.h
--   Methods: src/server/auth_utils.c: change_auth_methods, accepted_method
--   Methods/Accepted: the accepted methods after a change
--   Hello, Hello/*: src/server/hello.c: hello_parser_init, hello_read, hello_write, the parser's
--     table; Hello/Select is about the choice of a method, Hello/Greeting about all bytes of a
--     greeting
--   Users: src/server/users.c: user_create, user_login, valid_user, user_change_password,
--     user_delete, on the list of the users that are there
--   Users/Text: strcmp and C strings
--   Users/Table: the table as a map from names, and its invariant
--   Users/Account, Users/Creation: the operations against that map
--   Users/File: the users file: parse_user, load_users, save_users; Users/File/Saved is about a file
--     that is saved and loaded, Users/File/Rounds about the end of the loop
--   Field: the texts of announced length that the parsers gather
--   Auth, Auth/*: src/server/auth.c: auth_parser_init, auth_read, auth_write, the parser's table;
--     Auth/Negotiation is about all bytes of a sub-negotiation, Auth/Grant about who gets past it,
--     Auth/Overrun about a name of 255 bytes
--   MonitorAuth, MonitorAuth/*: src/server/monitor/monitor_auth.c: monitor_auth_read and
--     monitor_auth_finalize; MonitorAuth/Admission is about who gets past it
--   MonitorReq, MonitorReq/*: src/server/monitor/monitor_req.c and monitor_req_utils.c:
--     monitor_req_read and handle_request; MonitorReq/Handled is about all bytes of a request
--   MonitorReply: send_response and monitor_req_write there, and the counters that
--     src/client/monitor_utils.c takes out of a reply
--   MonitorClient: src/client/monitor_utils.c: the writers of requests
--   Stats: src/server/monitor/stats.c
--   Forwarding: src/server/forwarding.c: forward_read, forward_write, forward_setup
--   Forwarding/*: what each handler keeps, any order of events, how a relay ends, and what
--     is lost then
--   Client: client_t, in src/server/include/client_utils.h, and what src/server/client_utils.c frees
--   Request, Request/*: src/server/request.c: request_parser_init, request_read, handle_request_fin,
--     setup_lookup, the parser's table; Request/Parsed and Request/Refused are about all bytes of a
--     request, Request/Chunks about its arrival in pieces
--   Connect: src/server/request.c: dns_lookup, try_connect, request_write; Connect/Chosen,
--     Connect/Order and Connect/Retry are about the choice of an address, Connect/Reply about the reply
--   Closing: src/server/closing.c: end_connection, error_handler, and the arrivals hello_read_init,
--     auth_read_init and request_read_init; Closing/Frees is about what ERROR leaves
--   Selector: src/lib/selector/selector.c: the table of descriptors and its operations
--   Selector/Keeps, Ops, Fresh, Run: the table's invariant, over any sequence of operations
--   Selector/Iteration, Selector/Served: handle_iteration, with any handlers;
--     Selector/Serving is about handlers that change the interest of their descriptor
--   Selector/Refines: the table against the view of it that Os has
--   Tests, Tests/*: small runs, and the theorems at concrete inputs
--
-- A handler is a function from its state and the kernel's answer to the next state of the
-- connection and the new state; `none` stands for an abort or for undefined behaviour. A uint8_t
-- is a number below 256 and a size_t one below 2 ^ 64, with their wrap-around written out; an
-- int8_t is kept as its bit pattern. `htonl` and `ntohl` are parameters. All loops are
-- recursions on a list or on the number of rounds left, but for the one that counts the bits of a
-- size_t, of which there are 64, and the one over the users file, which is given more rounds than the
-- file has bytes, and needs no more since each round but the last reads one.
--
-- Not modelled: logging, sockets and process start, the command line, the rest of the monitor
-- client and the printing of addresses, which are input and output; the allocations of the monitor,
-- the table of the states over the engine, and the selector's waiting and blocking jobs.
pub mod Base
pub mod Buffer
pub mod Os
pub mod Parser
pub mod Methods
pub mod States
pub mod Hello
pub mod Stats
pub mod Forwarding
pub mod Users
pub mod Field
pub mod Auth
pub mod Stm
pub mod Client
pub mod Request
pub mod Connect
pub mod Closing
pub mod Selector
pub mod MonitorAuth
pub mod MonitorReq
pub mod MonitorReply
pub mod MonitorClient
mod Tests
