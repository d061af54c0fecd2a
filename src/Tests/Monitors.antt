-- ===== src/Tests/Monitors.antt =====
-- The monitor: an administrator of the name 1 with the password 7.
use protos_tpe.Base.{◌≡◌, ◌↔◌, some, List, [], ◌∷◌, arith, false}
use protos_tpe.Os.{Os, Errno, Interest, SendReply}
use protos_tpe.Users.{User}
use protos_tpe.MonitorAuth.{Monitor, MonitorState}
use protos_tpe.MonitorAuth.Run.{read_all}
use protos_tpe.MonitorAuth.Admission.{KnownAdmin, Told, entered, read_all-admits}

abbrev one_admin : List User
one_admin = record { username = 1 ∷ []; password = 7 ∷ []; access_level = 0 } ∷ []

abbrev os : Os
os = record {
  errno = Errno.clear;
  interest = λ fd. some Interest.reading;
  sent = λ fd. [];
  shut = λ fd. false;
  closed = [];
}

read_all-admits_example :
    (st : MonitorState) × (m : Monitor) × (os' : Os) × (read_all one_admin 7
        (SendReply.took 1)
        (entered 0)
        os
        (1 ∷ 1 ∷ 1 ∷ 7 ∷ 3 ∷ [])
      ≡ some (st, m, os', 3 ∷ []))
    × ((st ≡ MonitorState.monitor_req) ↔ KnownAdmin one_admin (1 ∷ []) (7 ∷ []))
    × Told one_admin 7 (SendReply.took 1) os st os'
read_all-admits_example =
    read_all-admits one_admin 7 (SendReply.took 1) 0 (1 ∷ []) (7 ∷ []) (3 ∷ []) os (omega arith)
      (omega arith) (omega arith) (omega arith)
