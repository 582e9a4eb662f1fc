-- ===== src/Examples/Devices.antt =====
-- The theorems on the opening of a tuner, at a driver of the legacy interface and a program that is
-- built for the extended one, on the addresses of a server, and on the creation of a session.
use satip_client.Base.{
  ℕ, ◌≡◌, refl, true, false, leb, if◌then◌else◌, Option, none, some, List, [], ◌∷◌, ◌++◌, arith,
}
use satip_client.Config.State.{sat}
use satip_client.Session.Creation.{Resources, create_session}
use satip_client.Rtsp.Connect.{
  Address, in_progress, failed_connect, connect_to_server, IsConnection,
  connect_to_server-IsConnection,
}
use satip_client.Vtuner.Opening.{
  returned, einval, other_error, Driver, Build, plus_offset, get_message, set_response,
  allocate_vtuner, open_new,
}
use satip_client.Vtuner.Opening.Outcome.{FirstOpens, IsOpened, open_new-IsOpened}
use satip_client.Vtuner.Opening.Interface.{Speaks, announced, probed, in_interface, open_new-Speaks}

abbrev legacy : Driver
legacy calls call = if leb call.number 7 then returned 0 else einval

legacy-Speaks : Speaks legacy false
legacy-Speaks = record { accepts = λ n h calls p. ground (arith, h); unknown = λ calls p. refl }

abbrev newer : Build
newer = record { high_numbers = true; has_delsys = true }

-- The first device is taken by another program.
abbrev nodes : List (Option ℕ)
nodes = none ∷ some 5 ∷ some 6 ∷ []

open_new-Speaks_example :
    let (o, ok) = open_new legacy newer nodes (some sat) in
    (ok ≡ true)
    × (o.calls ≡ announced false true sat ++ probed false true sat)
    × (plus_offset (get_message newer) o.offset ≡ in_interface false 1)
    × (plus_offset (set_response newer) o.offset ≡ in_interface false 2)
open_new-Speaks_example =
    open_new-Speaks legacy false newer nodes 5 sat legacy-Speaks (unfold allocate_vtuner in refl)

-- A driver that refuses the front end.
abbrev refusing : Driver
refusing calls call = if leb call.number 14 then returned 0 else other_error

open_new-IsOpened_example :
    FirstOpens nodes (allocate_vtuner nodes)
    × IsOpened (allocate_vtuner nodes) (open_new refusing newer nodes (some sat))
open_new-IsOpened_example = open_new-IsOpened refusing newer nodes (some sat)

-- An address of a family without sockets, one that refuses, and one that takes the connection.
abbrev addresses : List Address
addresses =
    record { socket = none; non_blocking = true; attempted = failed_connect }
    ∷ record { socket = some 7; non_blocking = true; attempted = failed_connect }
    ∷ record { socket = some 8; non_blocking = true; attempted = in_progress }
    ∷ []

connect_to_server-IsConnection_example : IsConnection addresses (connect_to_server (some addresses))
connect_to_server-IsConnection_example = connect_to_server-IsConnection addresses

third_address : connect_to_server (some addresses) ≡ record { fd = some 8; closed_fds = 7 ∷ [] }
unfolding connect_to_server
third_address = refl

-- The driver refuses the front end, and the sockets are made.
abbrev refused : Resources
refused = record {
  pipe = some (3, 4);
  driver = refusing;
  build = newer;
  nodes = nodes;
  attempts = λ round. record { random = round; rtp_bound = true; rtcp_bound = true };
  sockets = (6, 7);
}

all_closed_again : create_session false (some sat) refused ≡ (false, 5 ∷ 7 ∷ 6 ∷ 3 ∷ 4 ∷ [])
unfolding create_session
all_closed_again = refl
