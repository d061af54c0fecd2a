-- ===== src/Auth/Overrun.antt =====
-- A name of 255 bytes, which its length byte can announce.
use protos_tpe.Os.{Os}
use protos_tpe.Parser
use protos_tpe.Parser.{Parser}
use protos_tpe.Auth.State
