-- ===== src/MonitorReq/Action.antt =====
-- `monitor_request_t`: the types of the requests.
use protos_tpe.Base.{ℕ}

abbrev pub add_user : ℕ
add_user = 0

abbrev pub remove_user : ℕ
remove_user = 1

abbrev pub change_passwd : ℕ
change_passwd = 2

abbrev pub statistics : ℕ
statistics = 3

abbrev pub change_auth_methods : ℕ
change_auth_methods = 4
