-- ===== src/Session/StreamData/Logged.antt =====
-- main.go: the log of `receiveStreamData` and of `sendStreamData` is read back.
use rtq_go_endpoint.Common.{
  ℕ, ◌≤◌, ◌==◌, Bool, true, false, Option, none, some, List, [], ◌∷◌, ◌++◌, map, append-nil,
  append_assoc, ◌≡◌, refl, All-mono, All-append, arith,
}
use rtq_go_endpoint.RtpLog.Text.{Bytes, decimal, joined}
use rtq_go_endpoint.RtpLog.Text.Numbers.{read_number, read_number-decimal, decimal_printable}
use rtq_go_endpoint.RtpLog.Text.Split.{split, Lacks, split-joined, ended, ended-split}
use rtq_go_endpoint.Session.StreamData.{
  Received, receive_cancelled, not_read, has_read, Sent, send_cancelled, no_random, not_written,
  has_written, data_line, receive_loop, receive_stream_data, send_loop, send_stream_data,
}

-- A line, without its end, read back: the time and the number of bytes.
of_parts : List Bytes → Option (ℕ × ℕ)
of_parts (millis ∷ ((space ∷ n) ∷ [])) = some (read_number 10 millis, read_number 10 n)
of_parts _ = none

pub read_data_line : Bytes → Option (ℕ × ℕ)
read_data_line text = of_parts (split 44 text)

-- The lines of a log that are ended.
pub read_data_log : Bytes → List (Option (ℕ × ℕ))
read_data_log log = map read_data_line (ended (split 10 log))

number-Lacks : (sep : ℕ) → sep ≤ 47 → (n : ℕ) → Lacks sep (decimal n)
number-Lacks sep low n =
    All-mono _ _ (λ c printable. ground arith) (decimal n) (decimal_printable n)

spaced-Lacks : (sep n : ℕ) → sep ≤ 47 → (32 == sep) ≡ false → Lacks sep (32 ∷ decimal n)
spaced-Lacks sep n low apart = (apart, number-Lacks sep low n)

-- The line without its end.
abbrev data_text : ℕ → ℕ → Bytes
data_text millis n = decimal millis ++ (44 ∷ (32 ∷ decimal n))

data_text-Lacks : (millis n : ℕ) → Lacks 10 (data_text millis n)
data_text-Lacks millis n =
    All-append _ (decimal millis) _ (number-Lacks 10 (omega arith) millis)
      (refl, spaced-Lacks 10 n (omega arith) refl)

read_data_line-data_text : (millis n : ℕ) → read_data_line (data_text millis n) ≡ some (millis, n)
unfolding read_data_line of_parts joined
read_data_line-data_text millis n =
    let cut : split 44 (data_text millis n) ≡ decimal millis ∷ ((32 ∷ decimal n) ∷ []) =
      split-joined 44 (decimal millis) ((32 ∷ decimal n) ∷ [])
        (number-Lacks 44 (omega arith) millis) (spaced-Lacks 44 n (omega arith) refl, tt) in
    rw (cut, read_number-decimal millis, read_number-decimal n) refl

data_line-text :
    (millis n : ℕ) (rest : Bytes) → data_line millis n ++ rest ≡ data_text millis n ++ (10 ∷ rest)
unfolding data_line
data_line-text millis n rest =
    rw
      (
        append_assoc (decimal millis) (44 ∷ (32 ∷ (decimal n ++ (10 ∷ [])))) rest,
        append_assoc (decimal n) (10 ∷ []) rest,
        append_assoc (decimal millis) (44 ∷ (32 ∷ decimal n)) (10 ∷ rest),
      )
      refl

-- The readings that a loop logs before it ends, as their lines.
unfoldable pub data_lines : List (ℕ × ℕ) → Bytes
data_lines [] = []
data_lines ((millis, n) ∷ rs) = data_line millis n ++ data_lines rs

read_data_log-data_lines : (rs : List (ℕ × ℕ)) → read_data_log (data_lines rs) ≡ map some rs
unfolding read_data_log data_lines split ended
read_data_log-data_lines [] = refl
read_data_log-data_lines ((millis, n) ∷ rs) =
    rw
      (
        data_line-text millis n (data_lines rs),
        ended-split 10 (data_text millis n) (data_lines rs) (data_text-Lacks millis n),
        read_data_line-data_text millis n,
        read_data_log-data_lines rs,
      )
      refl

-- How the rounds end: they go on, the context is done, or a call fails.
pub data End (E : Type 0) : Type 0 where
  still : End E
  cancelled : End E
  failed : E → End E

module _ {E : Type 0} where
  abbrev pub end_result : End E → Option (Option E)
  end_result still = none
  end_result cancelled = some none
  end_result (failed e) = some (some e)

  abbrev pub has_ended : End E → Bool
  has_ended still = false
  has_ended cancelled = true
  has_ended (failed e) = true

  -- Rounds that read, or write, these numbers of bytes at these times.
  abbrev pub reading : ℕ × ℕ → Received E
  reading (millis, n) = has_read millis n

  abbrev pub writing : ℕ × ℕ → Sent E
  writing (millis, n) = has_written millis n

  abbrev pub reading_ends : End E → List (Received E) → List (Received E)
  reading_ends still later = []
  reading_ends cancelled later = receive_cancelled ∷ later
  reading_ends (failed e) later = not_read e ∷ later

  -- The random generator fails, or the write.
  abbrev pub writing_fails : Bool → E → Sent E
  writing_fails true e = no_random e
  writing_fails false e = not_written e

  abbrev pub writing_ends : Bool → End E → List (Sent E) → List (Sent E)
  writing_ends random still later = []
  writing_ends random cancelled later = send_cancelled ∷ later
  writing_ends random (failed e) later = writing_fails random e ∷ later

  receive_loop-reading :
      (rs : List (ℕ × ℕ)) (rounds : List (Received E)) (log : Bytes)
      → receive_loop (map reading rs ++ rounds) log ≡ receive_loop rounds (log ++ data_lines rs)
  unfolding receive_loop data_lines
  receive_loop-reading [] rounds log = rw (append-nil log) refl
  receive_loop-reading ((millis, n) ∷ rs) rounds log =
      rw
        (
          receive_loop-reading rs rounds (log ++ data_line millis n),
          append_assoc log (data_line millis n) (data_lines rs),
        )
        refl

  send_loop-writing :
      (rs : List (ℕ × ℕ)) (rounds : List (Sent E)) (log : Bytes)
      → send_loop (map writing rs ++ rounds) log ≡ send_loop rounds (log ++ data_lines rs)
  unfolding send_loop data_lines
  send_loop-writing [] rounds log = rw (append-nil log) refl
  send_loop-writing ((millis, n) ∷ rs) rounds log =
      rw
        (
          send_loop-writing rs rounds (log ++ data_line millis n),
          append_assoc log (data_line millis n) (data_lines rs),
        )
        refl

  receive_ends :
      (end : End E) (later : List (Received E)) (log : Bytes)
      → receive_loop (reading_ends end later) log
        ≡ record { log = log; result = end_result end; is_closed = false }
  unfolding receive_loop
  receive_ends still later log = refl
  receive_ends cancelled later log = refl
  receive_ends (failed e) later log = refl

  send_ends :
      (random : Bool) (end : End E) (later : List (Sent E)) (log : Bytes)
      → send_loop (writing_ends random end later) log
        ≡ record { log = log; result = end_result end; is_closed = has_ended end }
  unfolding send_loop
  send_ends random still later log = refl
  send_ends random cancelled later log = refl
  send_ends true (failed e) later log = refl
  send_ends false (failed e) later log = refl

  -- Where the stream could be had, and its reads or writes gave the numbers of bytes `rs` before the context was done or a
  -- call failed, if one did: the log of `receiveStreamData` and that of `sendStreamData` are read back as `rs`, a
  -- time and a number of bytes for each; the function returns nil for the context, and the error of the call; whatever
  -- came later has no effect; and the sender has closed its stream exactly if it has returned.
  pub data_logs_read :
      (rs : List (ℕ × ℕ)) (end : End E) (random : Bool) (reads : List (Received E))
      (writes : List (Sent E))
      → let r = receive_stream_data none (map reading rs ++ reading_ends end reads) in
        let t = send_stream_data none (map writing rs ++ writing_ends random end writes) in
        (read_data_log r.log ≡ map some rs)
        × (r.result ≡ end_result end)
        × (read_data_log t.log ≡ map some rs)
        × (t.result ≡ end_result end)
        × (t.is_closed ≡ has_ended end)
  unfolding receive_stream_data send_stream_data
  data_logs_read rs end random reads writes =
      rw
        (
          receive_loop-reading rs (reading_ends end reads) [],
          receive_ends end reads (data_lines rs),
          send_loop-writing rs (writing_ends random end writes) [],
          send_ends random end writes (data_lines rs),
          read_data_log-data_lines rs,
        )
        (refl, refl, refl, refl, refl)
