-- ===== src/Session/StreamData.antt =====
-- main.go: `receiveStreamData` and `sendStreamData`, which log what they read from or write to a QUIC
-- stream. What the stream, the context and the random generator give in each round is an input. A time
-- is in milliseconds since the start.
pub mod Logged
mod Tests
use rtq_go_endpoint.Common.{ℕ, Bool, true, false, Option, none, some, List, [], ◌∷◌, ◌++◌}
use rtq_go_endpoint.RtpLog.Text.{Bytes, decimal}

-- How a round goes on `receiveStreamData`: the context is done, or `Read` fails, or gives `n` bytes.
pub data Received (E : Type 0) : Type 0 where
  receive_cancelled : Received E
  not_read : E → Received E
  has_read : (millis n : ℕ) → Received E

pub data Sent (E : Type 0) : Type 0 where
  send_cancelled : Sent E
  no_random : E → Sent E
  not_written : E → Sent E
  has_written : (millis n : ℕ) → Sent E

-- What was logged, what the function returned, `none` while it waits for the next round, and whether the
-- stream was closed.
pub record Progress (E : Type 0) : Type 0 where
  pub log : Bytes
  pub result : Option (Option E)
  pub is_closed : Bool

-- `"%v, %v\n"`
unfoldable pub data_line : ℕ → ℕ → Bytes
data_line millis n = decimal millis ++ (44 ∷ (32 ∷ (decimal n ++ (10 ∷ []))))

module _ {E : Type 0} where
  unfoldable pub receive_loop : List (Received E) → Bytes → Progress E
  receive_loop [] log = record { log = log; result = none; is_closed = false }
  receive_loop (receive_cancelled ∷ rounds) log = record {
    log = log;
    result = some none;
    is_closed = false;
  }
  receive_loop (not_read e ∷ rounds) log = record {
    log = log;
    result = some (some e);
    is_closed = false;
  }
  receive_loop (has_read millis n ∷ rounds) log = receive_loop rounds (log ++ data_line millis n)

  -- The error of `AcceptUniStream`, if there is one, and the rounds.
  unfoldable pub receive_stream_data : Option E → List (Received E) → Progress E
  unfolding receive_loop
  receive_stream_data (some e) rounds = record {
    log = [];
    result = some (some e);
    is_closed = false;
  }
  receive_stream_data none rounds = receive_loop rounds []

  -- `defer stream.Close()`
  unfoldable pub send_loop : List (Sent E) → Bytes → Progress E
  send_loop [] log = record { log = log; result = none; is_closed = false }
  send_loop (send_cancelled ∷ rounds) log = record {
    log = log;
    result = some none;
    is_closed = true;
  }
  send_loop (no_random e ∷ rounds) log = record {
    log = log;
    result = some (some e);
    is_closed = true;
  }
  send_loop (not_written e ∷ rounds) log = record {
    log = log;
    result = some (some e);
    is_closed = true;
  }
  send_loop (has_written millis n ∷ rounds) log = send_loop rounds (log ++ data_line millis n)

  unfoldable pub send_stream_data : Option E → List (Sent E) → Progress E
  unfolding send_loop
  send_stream_data (some e) rounds = record { log = []; result = some (some e); is_closed = false }
  send_stream_data none rounds = send_loop rounds []
