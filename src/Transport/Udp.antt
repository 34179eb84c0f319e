-- ===== src/Transport/Udp.antt =====
-- transport/udp.go: `UDP` with its write flows and one read flow, which tells the writers whom to answer. An
-- address is the pointer that `ReadFrom` gave, or nil; the code compares pointers. The marshalling of
-- pion/rtp and pion/rtcp is a parameter, and so is which datagrams the connection takes while it is open. `sent` is
-- what it was given: `Write` names no address, `WriteTo` names one, which may be nil.
pub mod Peers
mod Tests
use rtq_go_endpoint.Common.{
  ℕ, Bool, true, false, ◌&&◌, Option, none, some, List, [], ◌∷◌, ◌++◌, map, get_elem?, ◌==◌,
  if◌then◌else◌,
}

abbrev pub Bytes : Type 0
Bytes = List ℕ

abbrev pub Addr : Type 0
Addr = Option ℕ

pub record Datagram : Type 0 where
  pub to : Option Addr
  pub bytes : Bytes

pub record Udp : Type 0 where
  pub addr : Addr
  pub writers : List Addr
  pub reader_addr : Addr
  pub is_open : Bool
  pub sent : List Datagram

abbrev pub new_udp_server : Udp
new_udp_server = record { addr = none; writers = []; reader_addr = none; is_open = true; sent = [] }

abbrev pub new_udp_client : ℕ → Udp
new_udp_client a = record {
  addr = some a;
  writers = [];
  reader_addr = none;
  is_open = true;
  sent = [];
}

-- `Writer`: the new flow has no address.
unfoldable pub writer : Udp → Udp
writer u = record u { writers = u.writers ++ (none ∷ []) }

unfoldable pub set_addr : Addr → Udp → Udp
set_addr a u = record u { addr = a; writers = map (λ _. a) u.writers }

unfoldable pub same_addr : Addr → Addr → Bool
same_addr none none = true
same_addr (some a) (some b) = a == b
same_addr none (some b) = false
same_addr (some a) none = false

-- `Read` of the read flow, where `ReadFrom` gave the address `a`; bytes and error are only passed on.
unfoldable pub read : Addr → Udp → Udp
read a u = if same_addr a u.reader_addr then u else set_addr a (record u { reader_addr = a })

module _ (takes : Datagram → Bool) where
  -- A `Write` or `WriteTo` of the connection: whether it returned without an error.
  unfoldable pub send : Datagram → Udp → Bool × Udp
  send d u =
      let ok = u.is_open && takes d in
      (ok, if ok then record u { sent = u.sent ++ (d ∷ []) } else u)

  -- `WriteRTP`: the header's bytes, or its error, and the payload.
  unfoldable pub write_rtp : Option Bytes → Bytes → Udp → Bool × Udp
  write_rtp none payload u = (false, u)
  write_rtp (some header) payload u = send (record { to = none; bytes = header ++ payload }) u

  unfoldable pub write_to : Addr → Option Bytes → Udp → Bool × Udp
  write_to a none u = (false, u)
  write_to a (some buf) u = send (record { to = some a; bytes = buf }) u

  -- `WriteRTCP` of the flow at a place; without such a flow there is no call.
  unfoldable pub write_rtcp : ℕ → Option Bytes → Udp → Bool × Udp
  write_rtcp place buf u = elim (get_elem? u.writers place) [
    | none ↦ (false, u)
    | some a ↦ write_to a buf u
  ]

  abbrev eos : Bytes
  eos = 101 ∷ 111 ∷ 115 ∷ []

  shut : Bool × Udp → Bool × Udp
  shut (true, u) = (true, record u { is_open = false })
  shut (false, u) = (false, u)

  -- The connection is closed only if the message could be sent.
  unfoldable pub close_writer : Udp → Bool × Udp
  unfolding shut
  close_writer u = shut (send (record { to = none; bytes = eos }) u)

  unfoldable pub close_reader : Udp → Bool × Udp
  unfolding shut
  close_reader u = shut (send (record { to = some u.reader_addr; bytes = eos }) u)

  pub data Event : Type 0 where
    makes_writer : Event
    reads : Addr → Event
    writes_rtp : Option Bytes → Bytes → Event
    writes_rtcp : ℕ → Option Bytes → Event
    closes_writer : Event
    closes_reader : Event

  unfoldable pub step : Event → Udp → Udp
  step makes_writer u = writer u
  step (reads a) u = read a u
  step (writes_rtp header payload) u = (write_rtp header payload u).1
  step (writes_rtcp place buf) u = (write_rtcp place buf u).1
  step closes_writer u = (close_writer u).1
  step closes_reader u = (close_reader u).1

  unfoldable pub run : List Event → Udp → Udp
  run [] u = u
  run (e ∷ es) u = run es (step e u)
