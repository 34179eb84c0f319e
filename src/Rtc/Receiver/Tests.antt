-- ===== src/Rtc/Receiver/Tests.antt =====
-- rtc/receiver.go: a receiver with both interceptors that gets two packets, one buffer that is no packet,
-- and one packet more.
use rtq_go_endpoint.Common.{ℕ, ◌≡◌, refl, sym, Option, none, some, none-some, List, [], ◌∷◌}
use rtq_go_endpoint.Scream.Ntp.{stream_support_scream}
use rtq_go_endpoint.Rtc.Receiver.{
  rtp_log, scream, Receiver, new_receiver, configure_scream_interceptor,
  configure_rtp_log_interceptor, is_eos, reader_failed, rtp_reader, read_loop,
}
use rtq_go_endpoint.Rtc.Receiver.Order.{reason, stray, deliveries, receive_in_order}

abbrev first_byte : List ℕ → Option ℕ
first_byte [] = none
first_byte (b ∷ bs) = some b

abbrev receiver : Receiver
receiver = configure_scream_interceptor (configure_rtp_log_interceptor new_receiver)

receive_in_order_example :
    read_loop first_byte
      (rtp_reader first_byte receiver)
      (some (128 ∷ 1 ∷ []) ∷ some (129 ∷ []) ∷ some [] ∷ some (130 ∷ []) ∷ [])
      (record { pushed = []; handed = [] })
    ≡ (
      some reader_failed,
      record {
        pushed = (128 ∷ 1 ∷ []) ∷ (129 ∷ []) ∷ [] ∷ [];
        handed = (rtp_log, 128) ∷ (scream, 128) ∷ (rtp_log, 129) ∷ (scream, 129) ∷ [];
      },
    )
unfolding is_eos configure_scream_interceptor configure_rtp_log_interceptor reason stray deliveries
    stream_support_scream
receive_in_order_example =
    receive_in_order first_byte receiver (scream ∷ []) ((128 ∷ 1 ∷ [], 128) ∷ (129 ∷ [], 129) ∷ [])
      (some []) (some (130 ∷ []) ∷ []) refl
      (record { packet = refl; no_eos = refl }, (record { packet = refl; no_eos = refl }, tt))
      (λ e. none-some (sym e))
