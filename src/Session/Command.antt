-- ===== src/Session/Command.antt =====
-- main.go: `main`. The flags are parsed by Go's package flag, which is a parameter, as are the answers that `send`
-- and `receive` get, which may depend on their arguments, and what happens in the other goroutines while they run.
-- `log.Fatal`, `os.Exit`, the `exit(1)` of the pipelines' C code and a panic of another goroutine end the process
-- without the deferred calls of main, so that the log is closed and "END MAIN" is written only where main
-- returns or itself panics.
pub mod Finishes
mod Tests
use Prim.Native.String.{String, ◌++◌ as ◌<>◌}
use text.Mathlib.Text.{◌==◌ as str_eq}
use rtq_go_endpoint.Common.{
  ℕ, Bool, true, false, Option, none, some, List, [], ◌∷◌, Run, returns, panics, out_of_fuel, Panic,
  if◌then◌else◌,
}
use rtq_go_endpoint.Logging.{System, Writer, get_main_log_writer}
use rtq_go_endpoint.Session.{
  Transport, quic, udp, other_transport, Controller, nocc, scream, scream_infer, naive_adaption,
  other_controller, Failure, World, Outcome,
}
use rtq_go_endpoint.Session.Send.{SendArguments, send}
use rtq_go_endpoint.Session.Receive.{receive}

pub record Flags : Type 0 where
  pub addr : String
  pub codec : String
  pub proto : String
  pub rtcc : String
  pub stream : Bool
  pub infer_from_smoothed_rtt : Bool

abbrev pub default_flags : Flags
default_flags = record {
  addr = ":4242";
  codec = "h264";
  proto = "quic";
  rtcc = "nocc";
  stream = false;
  infer_from_smoothed_rtt = false;
}

-- The switches on the two flags, which compare with the constants.
unfoldable pub transport_of : String → Transport
transport_of proto =
    if str_eq proto "quic" then quic else if str_eq proto "udp" then udp else other_transport

unfoldable pub controller_of : String → Controller
controller_of rtcc =
    if str_eq rtcc "nocc"
    then nocc
    else if str_eq rtcc "scream"
    then scream
    else if str_eq rtcc "scream-infer"
    then scream_infer
    else if str_eq rtcc "naive"
    then naive_adaption
    else other_controller

unfoldable pub arguments : Flags → SendArguments
unfolding transport_of controller_of
arguments f = record {
  proto = transport_of f.proto;
  rtcc = controller_of f.rtcc;
  stream = f.stream;
}

pub data Subcommand : Type 0 where
  sending receiving : Subcommand

unfoldable pub subcommand : String → Option Subcommand
subcommand name =
    if str_eq name "send"
    then some sending
    else if str_eq name "receive"
    then some receiving
    else none

-- What `Parse` of a flag set does: it ends the process, gives an error, or sets the flags and leaves the rest.
pub data Parsed : Type 0 where
  exits : ℕ → Parsed
  rejected : Parsed
  parsed : Flags → List String → Parsed

-- What may end the process from outside of `send` and `receive`: the goroutine of the QUIC stream returned from
-- `sendStreamData` or `receiveStreamData`; the bus of a GStreamer pipeline had a GST_MESSAGE_ERROR
-- (gstreamer-src/gst.c and gstreamer-sink/gst.c); any other goroutine panicked.
pub data Happening (E : Type 0) : Type 0 where
  stream_returned : Option E → Happening E
  pipeline_failed : Happening E
  goroutine_panicked : Panic → Happening E

pub record Environment (E : Type 0) : Type 0 where
  pub system : System
  pub parse : Subcommand → Flags → List String → Parsed
  -- the answers that `send` or `receive` gets, by its pipeline's source or destination and the flags
  pub world : Subcommand → String → Flags → World E
  -- what happens besides until the process ends, or would return from `send` or `receive`, in its order
  pub meanwhile : Subcommand → String → Flags → List (Happening E)
  -- `err.Error()`
  pub error_text : E → String

-- main returns, `log.Fatal` is called, or `os.Exit` or `exit`, or a goroutine other than that of main panics.
pub data Ending : Type 0 where
  finished : Ending
  fatal : Ending
  exited : ℕ → Ending
  crashed : Panic → Ending

pub record Process (E : Type 0) : Type 0 where
  pub printed : List String
  pub ran : Option (Outcome E)
  pub ending : Run Ending

abbrev ends : {E : Type 0} → List String → Ending → Process E
ends lines e = record { printed = lines; ran = none; ending = returns e }

unfoldable pub source : List String → String
source [] = "videotestsrc ! video/x-raw,format=I420"
source (file ∷ files) = "filesrc location=" <> (file <> " ! queue ! decodebin ! videoconvert ")

unfoldable pub destination : List String → String
destination [] = "autovideosink"
destination (file ∷ files) = "matroskamux ! filesink location=" <> file

-- `if err := …; err != nil { log.Fatal(err) }`
unfoldable pub ending_of : {E : Type 0} → Run (Option (Failure E)) → Run Ending
ending_of (returns none) = returns finished
ending_of (returns (some e)) = returns fatal
ending_of (panics p) = panics p
ending_of out_of_fuel = out_of_fuel

-- The run of `send` or `receive`, and what cut it short, if something did.
unfoldable pub ended : {E : Type 0} → Outcome E → Option Ending → Process E
ended o none = record { printed = []; ran = some o; ending = ending_of o.result }
ended o (some e) = record { printed = []; ran = none; ending = returns e }

unfoldable pub or_else : {A : Type 0} → Option A → Option A → Option A
or_else (some a) o = some a
or_else none o = o

abbrev pub eos : String
eos = "Application error 0x0: eos"

module _ {E : Type 0} (env : Environment E) where
  -- The goroutines of the stream, of which that of `send` lets the error pass that the end of the stream gives, the
  -- handlers of the buses, and the runtime of Go.
  unfoldable pub ends_by : Happening E → Subcommand → Option Ending
  ends_by (stream_returned none) c = none
  ends_by (stream_returned (some e)) sending =
      if str_eq (env.error_text e) eos then none else some fatal
  ends_by (stream_returned (some e)) receiving = some fatal
  ends_by pipeline_failed c = some (exited 1)
  ends_by (goroutine_panicked p) c = some (crashed p)

  -- The first that ends the process.
  unfoldable pub cut_short : Subcommand → List (Happening E) → Option Ending
  unfolding ends_by or_else
  cut_short c [] = none
  cut_short c (h ∷ hs) = or_else (ends_by h c) (cut_short c hs)

  unfoldable pub on_parsed : Subcommand → Parsed → Process E
  unfolding ended cut_short
  on_parsed c (exits status) = ends [] (exited status)
  on_parsed c rejected = ends [] fatal
  on_parsed sending (parsed f files) =
      ended (send (env.world sending (source files) f) (arguments f))
        (cut_short sending (env.meanwhile sending (source files) f))
  on_parsed receiving (parsed f files) =
      ended (receive (env.world receiving (destination files) f) (arguments f))
        (cut_short receiving (env.meanwhile receiving (destination files) f))

  usage : String
  usage = "expected 'send' or 'receive' subcommands\n"

  -- The switch on the name of the subcommand.
  unfoldable pub run : String → List String → Option Subcommand → Process E
  unfolding on_parsed usage
  run name rest none = ends (("unknown command: " <> (name <> "\n")) ∷ (usage ∷ [])) (exited 1)
  run name rest (some c) = on_parsed c (env.parse c default_flags rest)

  -- `os.Args`, of which the first is the program
  unfoldable pub dispatch : List String → Process E
  unfolding run usage
  dispatch [] = ends (usage ∷ []) (exited 1)
  dispatch (program ∷ []) = ends (usage ∷ []) (exited 1)
  dispatch (program ∷ (name ∷ rest)) = run name rest (subcommand name)

  unfoldable pub logged : List String → Option Writer → Process E
  logged args none = ends [] fatal
  logged args (some writer) = dispatch args

  unfoldable pub main : List String → Process E
  unfolding logged
  main args = logged args (get_main_log_writer env.system)

-- Whether the deferred calls of main run.
unfoldable pub closes_log : Run Ending → Bool
closes_log (returns finished) = true
closes_log (returns fatal) = false
closes_log (returns (exited n)) = false
closes_log (returns (crashed p)) = false
closes_log (panics p) = true
closes_log out_of_fuel = false
