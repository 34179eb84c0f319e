-- ===== src/Transport/Udp/Tests.antt =====
-- transport/udp.go: a server that reads from one peer before its write flow is made, and from two after that.
use rtq_go_endpoint.Common.{◌≡◌, refl, Bool, true, some, List, [], ◌∷◌, ◌++◌}
use rtq_go_endpoint.Transport.Udp.{
  Datagram, Udp, new_udp_server, same_addr, send, write_rtcp, read, set_addr, Event, makes_writer,
  reads, step, run,
}
use rtq_go_endpoint.Transport.Udp.Peers.{last_read, AllFresh, feedback_to_last_peer}

abbrev all : Datagram → Bool
all d = true

abbrev before : List (Event all)
before = reads (some 1) ∷ []

abbrev after : List (Event all)
after = reads (some 2) ∷ makes_writer ∷ reads (some 3) ∷ []

abbrev served : Udp
served = run all (before ++ (makes_writer ∷ after)) new_udp_server

feedback_to_last_peer_example :
    write_rtcp all 0 (some (143 ∷ 205 ∷ [])) served
    ≡ send all (record { to = some (some 3); bytes = 143 ∷ 205 ∷ [] }) served
unfolding run step read set_addr same_addr last_read AllFresh
feedback_to_last_peer_example =
    feedback_to_last_peer all before after (143 ∷ 205 ∷ []) (refl, (refl, tt))
