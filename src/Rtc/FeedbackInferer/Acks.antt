-- ===== src/Rtc/FeedbackInferer/Acks.antt =====
-- rtc/feedback_inferer.go, `rtpWriterFunc`: how a packet comes from the writer to `buffer`. The transport
-- is told to call back when it knows whether the packet arrived; each callback starts a goroutine,
-- which sends on the channel `acked`. `sending` holds these goroutines, in any order, `acked` what
-- the channel holds. Nothing reads `arrived`: it notes the packets reported as arrived.
pub mod Conserved
mod Tests
use rtq_go_endpoint.Common.{
  ℕ, zero, suc, ◌+◌, Bool, true, false, Option, none, some, List, [], ◌∷◌, ◌++◌, length, get_elem?,
  ltb, if◌then◌else◌,
}
use rtq_go_endpoint.External.{Float64, ScreamRx}
use rtq_go_endpoint.Tracer.{RttStats}
use rtq_go_endpoint.Rtc.Writers.{Error, Written, inferring_answer}
use rtq_go_endpoint.Rtc.FeedbackInferer.{
  AckedPkt, SortSlice, Inferer, new_inferer, on_acked, on_tick,
}

-- What the code reads of an `rtp.Header`.
pub record Header : Type 0 where
  pub marshal_size : ℕ
  pub ssrc : ℕ
  pub sequence_number : ℕ

-- `make(chan ackedPkt, 1000)`
abbrev pub acked_capacity : ℕ
acked_capacity = 1000

-- Takes the element at a place out of a list.
unfoldable pub take_out : {A : Type 0} → ℕ → List A → Option (A × List A)
take_out k [] = none
take_out zero (x ∷ xs) = some (x, xs)
take_out (suc k) (x ∷ xs) = elim (take_out k xs) [ none ↦ none | some (y, ys) ↦ some (y, x ∷ ys) ]

module _ (fl : Float64) (sx : ScreamRx) (slice : SortSlice) where
  pub record Passage : Type 0 where
    pub written : List AckedPkt
    pub sending : List AckedPkt
    pub acked : List AckedPkt
    pub inferer : Inferer fl sx slice
    pub arrived : List AckedPkt

  abbrev pub new_passage : Inferer fl sx slice → Passage
  new_passage f = record { written = []; sending = []; acked = []; inferer = f; arrived = [] }

  -- `rtpWriterFunc` at the time `t`; the transport answers `answer`.
  unfoldable pub rtp_writer_func : ℕ → Header → List ℕ → Written → Passage → Written × Passage
  rtp_writer_func t header payload answer s =
      let size = header.marshal_size + length payload in
      (
        inferring_answer answer,
        record s {
          written =
              s.written
              ++ (record {
                sent_ts = t;
                ssrc = header.ssrc;
                size = size;
                seq_nr = header.sequence_number;
              }
                  ∷ []);
        },
      )

  -- The callback of the packet: lost packets are ignored.
  on_notify : Bool → AckedPkt → Passage → Passage
  on_notify false p s = s
  on_notify true p s = record s { sending = s.sending ++ (p ∷ []); arrived = s.arrived ++ (p ∷ []) }

  -- The transport calls the callback that was given with the packet number `k`.
  unfoldable pub notify : ℕ → Bool → Passage → Passage
  unfolding on_notify
  notify k r s = elim (get_elem? s.written k) [ none ↦ s | some p ↦ on_notify r p s ]

  sent : Passage → Option (AckedPkt × List AckedPkt) → Option Passage
  sent s none = none
  sent s (some (p, rest)) =
      if ltb (length s.acked) acked_capacity
      then some (record s { sending = rest; acked = s.acked ++ (p ∷ []) })
      else none

  -- The send of one of the goroutines, if the channel has room.
  unfoldable pub send : ℕ → Passage → Option Passage
  unfolding sent
  send k s = sent s (take_out k s.sending)

  received : Passage → List AckedPkt → Option Passage
  received s [] = none
  received s (p ∷ rest) =
      some (record s { acked = rest; inferer = on_acked fl sx slice p s.inferer })

  -- `case pkt := <-f.acked`
  unfoldable pub receive_acked : Passage → Option Passage
  unfolding received
  receive_acked s = received s s.acked

  pub data Step : Type 0 where
    write : (t : ℕ) → Header → (payload : List ℕ) → Written → Step
    notified : ℕ → Bool → Step
    sends : ℕ → Step
    receives : Step
    ticks : RttStats → Step

  -- `none` is a step that cannot be taken yet.
  unfoldable pub step : Step → Passage → Option Passage
  step (write t header payload answer) s = some (rtp_writer_func t header payload answer s).1
  step (notified k r) s = some (notify k r s)
  step (sends k) s = send k s
  step receives s = receive_acked s
  step (ticks m) s = some (record s { inferer = on_tick fl sx slice m s.inferer })

  unfoldable pub run : List Step → Passage → Option Passage
  run [] s = some s
  run (e ∷ es) s = elim (step e s) [ none ↦ none | some s' ↦ run es s' ]
