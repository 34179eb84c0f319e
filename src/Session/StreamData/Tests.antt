-- ===== src/Session/StreamData/Tests.antt =====
-- main.go: the log of two rounds on a stream.
use rtq_go_endpoint.Common.{ℕ, ◌≡◌, true, false, none, some, List, [], ◌∷◌, map}
use rtq_go_endpoint.Session.StreamData.{
  receive_stream_data, send_stream_data, has_read, has_written, not_read, not_written,
  send_cancelled,
}
use rtq_go_endpoint.Session.StreamData.Logged.{read_data_log, data_logs_read, failed}

-- 1200 bytes after 5 ms, 7 bytes after 12 ms
abbrev readings : List (ℕ × ℕ)
readings = (5, 1200) ∷ (12, 7) ∷ []

abbrev three : ℕ
three = 3

-- the error is 3
data_logs_read_example :
    let r = receive_stream_data {E = ℕ} none (has_read 5 1200 ∷ has_read 12 7 ∷ not_read 3 ∷ []) in
    let t =
      send_stream_data {E = ℕ} none
        (has_written 5 1200 ∷ has_written 12 7 ∷ not_written 3 ∷ send_cancelled ∷ []) in
    (read_data_log r.log ≡ map some readings)
    × (r.result ≡ some (some 3))
    × (read_data_log t.log ≡ map some readings)
    × (t.result ≡ some (some 3))
    × (t.is_closed ≡ true)
data_logs_read_example = data_logs_read readings (failed three) false [] (send_cancelled ∷ [])
