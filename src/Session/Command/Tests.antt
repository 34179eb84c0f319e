-- ===== src/Session/Command/Tests.antt =====
-- main.go: runs of the command.
use Prim.Native.String.{String}
use rtq_go_endpoint.Common.{
  Panic, panics, ◌⊎◌, ℕ, ◌≡◌, ◌↔◌, refl, true, none, some, List, [], ◌∷◌, returns,
}
use rtq_go_endpoint.Logging.{there, get_main_log_writer}
use rtq_go_endpoint.Session.{interrupted}
use rtq_go_endpoint.Session.Smooth.{smooth}
use rtq_go_endpoint.Session.Command.{
  closes_log, stream_returned, eos, Flags, Subcommand, Parsed, exits, parsed, Environment, finished,
  main, dispatch, subcommand, source,
}
use rtq_go_endpoint.Session.Command.Finishes.{Finishes, main-Finishes_iff}

-- No flags are understood: anything that follows is a file, and two of them end the process.
abbrev plain_parse : Subcommand → Flags → List String → Parsed
plain_parse c f [] = parsed f []
plain_parse c f (file ∷ []) = parsed f (file ∷ [])
plain_parse c f (a ∷ (b ∷ rest)) = exits 2

abbrev environment : Environment ℕ
environment = record {
  system = record {
    main_log_file = [];
    cc_log_file = [];
    stream_log_file = [];
    qlog_dir = [];
    rtp_log_dir = [];
    stat = λ dir. there;
    mkdir_all = λ dir mode. true;
    create = λ path. true;
  };
  parse = plain_parse;
  world = λ c text f. smooth true interrupted;
  meanwhile = λ c text f. stream_returned (some 7) ∷ stream_returned none ∷ [];
  error_text = λ e. eos;
}

abbrev sends_a_file : List String
sends_a_file = "rtq" ∷ "send" ∷ "a.mkv" ∷ []

misspelt :
    (main environment ("rtq" ∷ "sned" ∷ [])).printed
    ≡ "unknown command: sned\n" ∷ "expected 'send' or 'receive' subcommands\n" ∷ []
unfolding main subcommand get_main_log_writer dispatch
misspelt = refl

file_source : source ("a.mkv" ∷ []) ≡ "filesrc location=a.mkv ! queue ! decodebin ! videoconvert "
unfolding source
file_source = refl

main-Finishes_iff_example :
    ((main environment sends_a_file).ending ≡ returns finished ↔ Finishes environment sends_a_file)
    × (closes_log (main environment sends_a_file).ending ≡ true ↔ (
        Finishes environment sends_a_file
        ⊎ ((p : Panic) × ((main environment sends_a_file).ending ≡ panics p))))
main-Finishes_iff_example = main-Finishes_iff environment sends_a_file
