-- ===== src/Examples/Sessions.antt =====
-- The theorems on the session, at a fresh one.
use satip_client.Base.{◌++◌, ◌∷◌, ◌≡◌, refl, true, some, arith}
use satip_client.Base.Text.{codes}
use satip_client.Config.PidList.{empty_slots}
use satip_client.Config.State.{update_pid_list, set_channel_changed, init_config}
use satip_client.Rtsp.State.{Rtsp, server_connecting, rtsp_error}
use satip_client.Rtsp.Parse.{CLibrary}
use satip_client.Rtsp.Receive.{passes}
use satip_client.Rtsp.Passes.{passes_fuel}
use satip_client.Rtsp.Machine.{new_rtsp, init_rtsp, handle_rtsp_status}
use satip_client.Examples.{linux_dvb}
use satip_client.Examples.Requests.{tuned}

abbrev fresh : Rtsp
fresh = init_rtsp (codes "192.168.0.2") (codes "554") 46000 tuned

connects : (handle_rtsp_status linux_dvb true true fresh).status ≡ server_connecting
unfolding handle_rtsp_status init_rtsp new_rtsp update_pid_list set_channel_changed init_config
    empty_slots
connects = refl

-- A C library whose conversions see an answer of 200 and the number 60.
abbrev pub small_libc : CLibrary
small_libc = record { strtol = λ text. 60; response_code = λ text. some 200 }

-- Two answers, the second one without its end.
abbrev received : Rtsp
received = record fresh { rx = codes "RTSP/1.0 200 OK" ++ 13 ∷ 10 ∷ 13 ∷ 10 ∷ codes "RTSP/1.0" }

passes_fuel_example :
    passes small_libc 40 (record { first = 0; now = 0 }) rtsp_error 0 received
    ≡ passes small_libc 50 (record { first = 0; now = 0 }) rtsp_error 0 received
passes_fuel_example =
    passes_fuel small_libc 40 50 (record { first = 0; now = 0 }) rtsp_error 0 received (omega arith)
      (omega arith)
