-- ===== src/Stats.antt =====
-- src/server/monitor/stats.c: the counters of the server, each a size_t.
use protos_tpe.Base.{ℕ, ◌+◌, ◌-◌, ◌^◌, u64}

-- `stats_t`
pub record Stats : Type 0 where
  pub historic_connections : ℕ
  pub current_connections : ℕ
  pub transferred_bytes : ℕ

-- `stats_init`
unfoldable pub init : Stats
init = record { historic_connections = 0; current_connections = 0; transferred_bytes = 0 }

unfoldable pub increment_current_connections : Stats → Stats
increment_current_connections s = record s {
  historic_connections = u64 (s.historic_connections + 1);
  current_connections = u64 (s.current_connections + 1);
}

unfoldable pub decrement_current_connections : Stats → Stats
decrement_current_connections s = record s {
  current_connections = u64 (s.current_connections + 2 ^ 64 - 1);
}

unfoldable pub add_transferred_bytes : Stats → ℕ → Stats
add_transferred_bytes s n = record s { transferred_bytes = u64 (s.transferred_bytes + n) }
