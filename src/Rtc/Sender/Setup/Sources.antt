-- ===== src/Rtc/Sender/Setup/Sources.antt =====
-- rtc/sender.go with rtc/receiver.go and main.go: where the feedback for SCReAM comes from.
use rtq_go_endpoint.Common.{ℕ, ◌+◌, ◌≡◌, refl, Bool, true, false, if◌then◌else◌}
use rtq_go_endpoint.Scream.Ntp.{stream_support_scream}
use rtq_go_endpoint.Session.{
  Controller, nocc, scream, scream_infer, naive_adaption, other_controller,
}
use rtq_go_endpoint.Rtc.Receiver.{
  Receiver, new_receiver, configure_scream_interceptor as receiver_scream,
  configure_rtp_log_interceptor as receiver_log,
}
use rtq_go_endpoint.Rtc.Sender.Setup.{
  Sender, configure_infering_scream_interceptor, configure_naive_bitrate_adaption,
  configure_scream_interceptor, start_accepting, configure_rtp_log_interceptor, configure_sender,
}

-- main.go, `receive`: the receiver for a controller.
unfoldable pub configure_receiver : Controller → Receiver
configure_receiver scream = receiver_scream (receiver_log new_receiver)
configure_receiver nocc = receiver_log new_receiver
configure_receiver scream_infer = receiver_log new_receiver
configure_receiver naive_adaption = receiver_log new_receiver
configure_receiver other_controller = receiver_log new_receiver

abbrev one_if : Bool → ℕ
one_if b = if b then 1 else 0

-- The ways on which feedback reaches the sender's interceptors: from the receiver, which makes it if its stream
-- supports SCReAM, by the goroutine that accepts it, and from the goroutine that infers it.
abbrev pub sources : Sender → Receiver → ℕ
sources s r =
    one_if (if s.is_accepting then stream_support_scream r.rtcp_feedback else false)
    + one_if s.is_inferring

-- Whether the controller is SCReAM.
unfoldable pub is_scream : Controller → Bool
is_scream scream = true
is_scream scream_infer = true
is_scream nocc = false
is_scream naive_adaption = false
is_scream other_controller = false

abbrev OneSource : Controller → Sender → Type 0
OneSource rtcc s =
    (stream_support_scream s.rtcp_feedback ≡ is_scream rtcc)
    × (sources s (configure_receiver rtcc) ≡ one_if (is_scream rtcc))

abbrev IfDone : Controller → Bool × Sender → Type 0
IfDone rtcc (false, s) = Unit
IfDone rtcc (true, s) = OneSource rtcc s

configured :
    (rtcc : Controller) (fails is_nil : Bool) → IfDone rtcc (configure_sender rtcc fails is_nil)
unfolding configure_sender configure_receiver is_scream configure_scream_interceptor
    configure_infering_scream_interceptor configure_naive_bitrate_adaption start_accepting
    configure_rtp_log_interceptor receiver_scream receiver_log stream_support_scream
configured scream true is_nil = tt
configured scream false true = tt
configured scream false false = (refl, refl)
configured scream_infer true is_nil = tt
configured scream_infer false is_nil = (refl, refl)
configured naive_adaption true is_nil = tt
configured naive_adaption false is_nil = (refl, refl)
configured nocc fails is_nil = (refl, refl)
configured other_controller fails is_nil = (refl, refl)
