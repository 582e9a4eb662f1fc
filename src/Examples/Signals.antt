-- ===== src/Examples/Signals.antt =====
-- The theorems on the signal, the ports and the writing, at concrete packets and outcomes.
use satip_client.Base.{◌≡◌, ◌↔◌, refl, true, false, some, [], ◌∷◌, ◌++◌}
use satip_client.Base.Text.{codes}
use satip_client.Base.Search.{c_string, starts_with, find_text}
use satip_client.Base.Int.{pos}
use satip_client.Rtp.{
  Rtp, Scan, unset, scaled, is_locked, set_signal, parse_rtcp_app_payload, app_packet, rtcp_packet,
  rtcp_loop, rtcp_data,
}
use satip_client.Rtp.Packets.{Packet, encode_packets}
use satip_client.Rtp.Writing.{interrupted, accepted, write_complete, write, write-spells}

abbrev no_signal : Rtp
no_signal = record { has_lock = false; signal_strength = 0; signal_quality = 0 }

-- An application defined packet with the report of a locked tuner.
abbrev report : Packet
report = record {
  first = 0x80;
  kind = 204;
  words = 8;
  body =
      0
      ∷ 0
      ∷ 0
      ∷ 0
      ∷ 83
      ∷ 69
      ∷ 83
      ∷ 49
      ∷ 0
      ∷ 0
      ∷ 0
      ∷ 18
      ∷ (codes ";tuner=1,255,1,15," ++ 0 ∷ 0 ∷ []);
}

abbrev sender_report : Packet
sender_report = record { first = 0x80; kind = 200; words = 1; body = 0 ∷ 0 ∷ 0 ∷ 7 ∷ [] }

-- A reader that sees the highest values.
abbrev pub best_scan : Scan
best_scan text = some (pos 255, pos 1, pos 15)

abbrev best_signal : Rtp
best_signal = record { has_lock = true; signal_strength = 65535; signal_quality = 65535 }

report_heard : rtcp_data best_scan (encode_packets (report ∷ [])) no_signal ≡ some best_signal
unfolding rtcp_data rtcp_loop rtcp_packet app_packet parse_rtcp_app_payload c_string find_text
    starts_with unset set_signal scaled is_locked
report_heard = refl

write-spells_example :
    let w = write (accepted 2 ∷ interrupted ∷ accepted 1 ∷ []) (71 ∷ 1 ∷ 2 ∷ []) in
    (w.written ++ w.left ≡ 71 ∷ 1 ∷ 2 ∷ []) × ((w.result ≡ write_complete) ↔ (w.left ≡ []))
write-spells_example = write-spells (accepted 2 ∷ interrupted ∷ accepted 1 ∷ []) (71 ∷ 1 ∷ 2 ∷ [])
