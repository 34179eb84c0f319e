-- ===== src/Session/Command/Finishes.antt =====
-- main.go: when the process ends with exit status 0 by returning from `main`.
use Prim.Native.String.{String}
use text.Mathlib.TextEquality.{eq_iff}
use rtq_go_endpoint.Common.{
  inl, inr, true, Panic, ◌⊎◌, Option, none, some, List, [], ◌∷◌, Run, returns, panics, out_of_fuel,
  ◌≡◌, ◌↔◌, refl, ap, subst, sym, arith, All,
}
use rtq_go_endpoint.Logging.{get_main_log_writer, Writer}
use rtq_go_endpoint.Session.{Failure, Outcome, finishing}
use rtq_go_endpoint.Session.Send.{send}
use rtq_go_endpoint.Session.Receive.{receive}
use rtq_go_endpoint.Session.Success.Sending.{Ready, send-succeeds_iff}
use rtq_go_endpoint.Session.Success.Receiving.{receive-succeeds_iff}
use rtq_go_endpoint.Session.Success.Receiving
use rtq_go_endpoint.Session.Command.{
  closes_log, Ending, exited, fatal, crashed, Happening, stream_returned, pipeline_failed,
  goroutine_panicked, ended, or_else, eos, ends_by, cut_short, Flags, default_flags, arguments,
  Subcommand, sending, receiving, subcommand, Parsed, exits, rejected, parsed, Environment,
  finished, source, destination, ending_of, on_parsed, run, dispatch, logged, main,
}

abbrev pub name_of : Subcommand → String
name_of sending = "send"
name_of receiving = "receive"

subcommand-name_of : (c : Subcommand) → subcommand (name_of c) ≡ some c
unfolding subcommand
subcommand-name_of sending = refl
subcommand-name_of receiving = refl

subcommand-some : (name : String) (c : Subcommand) → subcommand name ≡ some c → name ≡ name_of c
unfolding subcommand
subcommand-some name sending h = ground (arith, eq_iff name "send", eq_iff name "receive", h)
subcommand-some name receiving h = ground (arith, eq_iff name "send", eq_iff name "receive", h)

ending_of_iff :
    {E : Type 0} (r : Run (Option (Failure E)))
    → ending_of r ≡ returns finished ↔ (r ≡ returns none)
unfolding ending_of
ending_of_iff (returns none) = ((λ h. refl), (λ h. refl))
ending_of_iff (returns (some e)) = ((λ h. cc h), (λ h. cc h))
ending_of_iff (panics p) = ((λ h. cc h), (λ h. cc h))
ending_of_iff out_of_fuel = ((λ h. cc h), (λ h. cc h))

-- The function returned no error and nothing cut it short.
ended_iff :
    {E : Type 0} (o : Outcome E) (cut : Option Ending)
    → ¬ (cut ≡ some finished)
    → (ended o cut).ending ≡ returns finished ↔ ((o.result ≡ returns none) × (cut ≡ none))
unfolding ended
ended_iff o none ne =
    let (to, from) = ending_of_iff o.result in ((λ h. (to h, refl)), (λ h. from h.0))
ended_iff o (some e) ne = (
  (λ h. absurd (ne (let same : returns e ≡ returns finished = h in cc same))),
  (λ h. absurd (let never : some e ≡ none = h.1 in cc never)),
)

or_else_iff : {A : Type 0} (o o' : Option A) → or_else o o' ≡ none ↔ ((o ≡ none) × (o' ≡ none))
unfolding or_else
or_else_iff (some a) o' =
    ((λ h. absurd cc), (λ h. absurd (let never : some a ≡ none = h.0 in cc never)))
or_else_iff none o' = ((λ h. (refl, h)), (λ h. h.1))

or_else_cases :
    {A : Type 0} (o o' : Option A) (a : A) → or_else o o' ≡ some a → (o ≡ some a) ⊎ (o' ≡ some a)
unfolding or_else
or_else_cases (some b) o' a h = inl h
or_else_cases none o' a h = inr h

on_left : {A B C : Type 0} → (A → B) → A ⊎ C → B ⊎ C
on_left f (inl a) = inl (f a)
on_left f (inr c) = inr c

module _ {E : Type 0} (env : Environment E) where
  -- What may happen besides: the stream's goroutine returns without an error, or that of `send` with the error
  -- of the end of the stream.
  abbrev pub Harmless : Subcommand → Happening E → Type 0
  Harmless c (stream_returned none) = Unit
  Harmless sending (stream_returned (some e)) = env.error_text e ≡ eos
  Harmless receiving (stream_returned (some e)) = ⊥
  Harmless c pipeline_failed = ⊥
  Harmless c (goroutine_panicked p) = ⊥

  ends_by_iff : (c : Subcommand) (h : Happening E) → ends_by env h c ≡ none ↔ Harmless c h
  unfolding ends_by
  ends_by_iff sending (stream_returned none) = ((λ e. tt), (λ e. refl))
  ends_by_iff receiving (stream_returned none) = ((λ e. tt), (λ e. refl))
  ends_by_iff sending (stream_returned (some e)) = (
    (λ h. ground (arith, eq_iff (env.error_text e) eos, h)),
    (λ h. ground (arith, eq_iff (env.error_text e) eos, h)),
  )
  ends_by_iff receiving (stream_returned (some e)) = ((λ h. absurd cc), (λ h. absurd h))
  ends_by_iff sending pipeline_failed = ((λ h. absurd cc), (λ h. absurd h))
  ends_by_iff receiving pipeline_failed = ((λ h. absurd cc), (λ h. absurd h))
  ends_by_iff sending (goroutine_panicked p) = ((λ h. absurd cc), (λ h. absurd h))
  ends_by_iff receiving (goroutine_panicked p) = ((λ h. absurd cc), (λ h. absurd h))

  cut_short_iff :
      (c : Subcommand) (hs : List (Happening E)) → cut_short env c hs ≡ none ↔ All (Harmless c) hs
  unfolding cut_short
  cut_short_iff c [] = ((λ e. tt), (λ e. refl))
  cut_short_iff c (h ∷ hs) =
      let (to, from) = or_else_iff (ends_by env h c) (cut_short env c hs) in
      let (first, first') = ends_by_iff c h in
      let (rest, rest') = cut_short_iff c hs in
      ((λ e. (first (to e).0, rest (to e).1)), (λ a. from (first' a.0, rest' a.1)))

  ends_by-finished : (c : Subcommand) (h : Happening E) → ¬ (ends_by env h c ≡ some finished)
  unfolding ends_by
  ends_by-finished sending (stream_returned none) e = absurd cc
  ends_by-finished receiving (stream_returned none) e = absurd cc
  ends_by-finished sending (stream_returned (some x)) e =
      ground (arith, (let never : ¬ (fatal ≡ finished) = λ h. cc h in never), e)
  ends_by-finished receiving (stream_returned (some x)) e = absurd cc
  ends_by-finished sending pipeline_failed e = absurd cc
  ends_by-finished receiving pipeline_failed e = absurd cc
  ends_by-finished sending (goroutine_panicked p) e = absurd cc
  ends_by-finished receiving (goroutine_panicked p) e = absurd cc

  -- What cuts `main` short is no return from it.
  cut_short-finished :
      (c : Subcommand) (hs : List (Happening E)) → ¬ (cut_short env c hs ≡ some finished)
  unfolding cut_short
  cut_short-finished c [] e = absurd cc
  cut_short-finished c (h ∷ hs) e =
      elim (or_else_cases (ends_by env h c) (cut_short env c hs) finished e) [
        | inl first ↦ ends_by-finished c h first
        | inr rest ↦ cut_short-finished c hs rest
      ]

  -- What the subcommand needs of the calls that it makes, and of what happens besides.
  abbrev pub GoesWell : Subcommand → Flags → List String → Type 0
  GoesWell sending f files =
      let w = env.world sending (source files) f in
      (Ready w (arguments f) × (finishing w.finish ≡ none))
      × All (Harmless sending) (env.meanwhile sending (source files) f)
  GoesWell receiving f files =
      let w = env.world receiving (destination files) f in
      (Receiving.Ready w (arguments f) × (finishing w.finish ≡ none))
      × All (Harmless receiving) (env.meanwhile receiving (destination files) f)

  pub record Finishes (args : List String) : Type 0 where
    pub log_writer : Writer
    pub has_log : get_main_log_writer env.system ≡ some log_writer
    pub program : String
    pub command : Subcommand
    pub rest : List String
    pub has_command : args ≡ program ∷ (name_of command ∷ rest)
    pub flags : Flags
    pub files : List String
    pub parses : env.parse command default_flags rest ≡ parsed flags files
    pub goes_well : GoesWell command flags files

  on_parsed_iff :
      (c : Subcommand) (f : Flags) (files : List String)
      → (on_parsed env c (parsed f files)).ending ≡ returns finished ↔ GoesWell c f files
  unfolding on_parsed
  on_parsed_iff sending f files =
      let w = env.world sending (source files) f in
      let hs = env.meanwhile sending (source files) f in
      let (to, from) =
        ended_iff (send w (arguments f)) (cut_short env sending hs)
          (cut_short-finished sending hs) in
      let (to', from') = send-succeeds_iff w (arguments f) in
      let (to_all, from_all) = cut_short_iff sending hs in
      ((λ h. (to' (to h).0, to_all (to h).1)), (λ h. from (from' h.0, from_all h.1)))
  on_parsed_iff receiving f files =
      let w = env.world receiving (destination files) f in
      let hs = env.meanwhile receiving (destination files) f in
      let (to, from) =
        ended_iff (receive w (arguments f)) (cut_short env receiving hs)
          (cut_short-finished receiving hs) in
      let (to', from') = receive-succeeds_iff w (arguments f) in
      let (to_all, from_all) = cut_short_iff receiving hs in
      ((λ h. (to' (to h).0, to_all (to h).1)), (λ h. from (from' h.0, from_all h.1)))

  parsed-Finishes :
      (p : Parsed) (w : Writer) (program : String) (c : Subcommand) (rest args : List String)
      → get_main_log_writer env.system ≡ some w
      → args ≡ program ∷ (name_of c ∷ rest)
      → env.parse c default_flags rest ≡ p
      → (on_parsed env c p).ending ≡ returns finished
      → Finishes args
  unfolding on_parsed
  parsed-Finishes (exits n) w program c rest args log e e' h = absurd cc
  parsed-Finishes rejected w program c rest args log e e' h = absurd cc
  parsed-Finishes (parsed f files) w program c rest args log e e' h =
      let (to, from) = on_parsed_iff c f files in
      record {
        log_writer = w;
        has_log = log;
        program = program;
        command = c;
        rest = rest;
        has_command = e;
        flags = f;
        files = files;
        parses = e';
        goes_well = to h;
      }

  run-Finishes :
      (r : Option Subcommand) (program name : String) (rest : List String) (w : Writer)
      → get_main_log_writer env.system ≡ some w
      → subcommand name ≡ r
      → (run env name rest r).ending ≡ returns finished
      → Finishes (program ∷ (name ∷ rest))
  unfolding run
  run-Finishes none program name rest w log e h = absurd cc
  run-Finishes (some c) program name rest w log e h =
      parsed-Finishes (env.parse c default_flags rest) w program c rest (program ∷ (name ∷ rest))
        log (ap (λ n. program ∷ (n ∷ rest)) (subcommand-some name c e)) refl h

  logged-Finishes :
      (r : Option Writer) (args : List String)
      → get_main_log_writer env.system ≡ r
      → (logged env args r).ending ≡ returns finished
      → Finishes args
  unfolding logged dispatch
  logged-Finishes none args log h = absurd cc
  logged-Finishes (some w) [] log h = absurd cc
  logged-Finishes (some w) (program ∷ []) log h = absurd cc
  logged-Finishes (some w) (program ∷ (name ∷ rest)) log h =
      run-Finishes (subcommand name) program name rest w log refl h

  main-Finishes : (args : List String) → (main env args).ending ≡ returns finished → Finishes args
  unfolding main
  main-Finishes args h = logged-Finishes (get_main_log_writer env.system) args refl h

  Finishes-main : (args : List String) → Finishes args → (main env args).ending ≡ returns finished
  unfolding main logged dispatch run
  Finishes-main args f =
      let (to, from) = on_parsed_iff f.command f.flags f.files in
      let ran : (on_parsed env f.command (env.parse f.command default_flags f.rest)).ending
          ≡ returns finished =
        subst (λ p. (on_parsed env f.command p).ending ≡ returns finished) (sym f.parses)
          (from f.goes_well) in
      let named : (run env (name_of f.command) f.rest (subcommand (name_of f.command))).ending
          ≡ returns finished =
        subst (λ c. (run env (name_of f.command) f.rest c).ending ≡ returns finished)
          (sym (subcommand-name_of f.command)) ran in
      let of_args : (dispatch env args).ending ≡ returns finished =
        subst (λ as_. (dispatch env as_).ending ≡ returns finished) (sym f.has_command) named in
      subst (λ r. (logged env args r).ending ≡ returns finished) (sym f.has_log) of_args

  neither :
      {r : Run Ending}
      → ¬ (r ≡ returns finished)
      → ((p : Panic) → ¬ (r ≡ panics p))
      → ¬ ((r ≡ returns finished) ⊎ ((p : Panic) × (r ≡ panics p)))
  neither f g (inl h) = f h
  neither f g (inr (p, h)) = g p h

  closes_log_iff :
      (r : Run Ending)
      → closes_log r ≡ true ↔ ((r ≡ returns finished) ⊎ ((p : Panic) × (r ≡ panics p)))
  unfolding closes_log
  closes_log_iff (returns finished) = ((λ h. inl refl), (λ h. refl))
  closes_log_iff (returns fatal) =
      ((λ h. absurd cc), (λ h. absurd (neither (λ e. cc) (λ p e. cc) h)))
  closes_log_iff (returns (exited n)) =
      ((λ h. absurd cc), (λ h. absurd (neither (λ e. cc) (λ p e. cc) h)))
  closes_log_iff (returns (crashed p)) =
      ((λ h. absurd cc), (λ h. absurd (neither (λ e. cc) (λ q e. cc) h)))
  closes_log_iff (panics p) = ((λ h. inr (p, refl)), (λ h. refl))
  closes_log_iff out_of_fuel = ((λ h. absurd cc), (λ h. absurd (neither (λ e. cc) (λ p e. cc) h)))

  -- Where the calls that are made return, the process returns from `main`, so that its exit status is 0, if and only
  -- if: the log could be opened, the second argument is `send` or `receive`, its flags are parsed, everything goes
  -- well that `send` or `receive` needs to return no error, and until then no pipeline had an error on its bus,
  -- no other goroutine panicked, and that of the QUIC stream, if it returned, gave no error, or in `send` the one
  -- whose text is that of the end of the stream. The log is closed if and only if this is so or the
  -- goroutine of `main` panics.
  pub main-Finishes_iff :
      (args : List String)
      → ((main env args).ending ≡ returns finished ↔ Finishes args)
        × (closes_log (main env args).ending ≡ true
            ↔ (Finishes args ⊎ ((p : Panic) × ((main env args).ending ≡ panics p))))
  main-Finishes_iff args =
      let to : (main env args).ending ≡ returns finished → Finishes args = main-Finishes args in
      let from : Finishes args → (main env args).ending ≡ returns finished = Finishes-main args in
      let (open_to, open_from) = closes_log_iff (main env args).ending in
      let closed : closes_log (main env args).ending ≡ true
          ↔ (Finishes args ⊎ ((p : Panic) × ((main env args).ending ≡ panics p))) =
        ((λ h. on_left to (open_to h)), (λ h. open_from (on_left from h))) in
      let finishes : (main env args).ending ≡ returns finished ↔ Finishes args = (to, from) in
      (finishes, closed)
