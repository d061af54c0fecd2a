-- ===== src/States.antt =====
-- src/server/include/client_utils.h: the states of a client's connection.
pub data ClientState : Type 0 where
  hello_read hello_write auth_read auth_write request_read dns_lookup : ClientState
  dest_connect request_write forwarding done error : ClientState
