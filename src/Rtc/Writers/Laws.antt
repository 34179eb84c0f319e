-- ===== src/Rtc/Writers/Laws.antt =====
-- rtc/sender.go and rtc/feedback_inferer.go: the two writers compared.
use Prim.Native.String.{String}
use text.Mathlib.TextEquality.{eq_iff}
use rtq_go_endpoint.Common.{
  ℕ, ◌≡◌, ◌↔◌, ◌⊎◌, inl, inr, refl, ap, none-some, Bool, true, false, Option, none, some,
  Bool-cases, arith,
}
use rtq_go_endpoint.Rtc.Writers.{
  Error, lasting, eos_text, is_fatal, Written, default_answer, inferring_answer,
}

-- A connection error that is not said to be temporary, or the end of the stream.
abbrev pub IsFatal : Error → Type 0
IsFatal err = (err.net_error ≡ some false) ⊎ (err.text ≡ eos_text)

abbrev pub OnlyFatal : Option Error → Type 0
OnlyFatal none = Unit
OnlyFatal (some err) = IsFatal err

is_fatal_iff :
    (net_error : Option Bool) (text : String)
    → (is_fatal (record { net_error = net_error; text = text }) ≡ true)
      ↔ IsFatal (record { net_error = net_error; text = text })
unfolding is_fatal lasting
is_fatal_iff none text = ground (arith, eq_iff text eos_text)
is_fatal_iff (some true) text = ground (arith, eq_iff text eos_text)
is_fatal_iff (some false) text = ground (arith, eq_iff text eos_text)

-- The writer without inference hands on what the transport answered: its test changes nothing. The
-- inferring one agrees with it exactly where there is no error or a fatal one, that of a connection
-- which is not said to be temporary or the end of the stream.
pub default-inferring_iff :
    (n : ℕ) (o : Option Error)
    → (default_answer (n, o) ≡ (n, o))
      × ((inferring_answer (n, o) ≡ default_answer (n, o)) ↔ OnlyFatal o)
unfolding default_answer inferring_answer
default-inferring_iff n none = (refl, ((λ _. tt), (λ _. refl)))
default-inferring_iff n (some err) = elim (Bool-cases (is_fatal err)) [
  | inl yes_fatal ↦ (
    rw yes_fatal,
    ((λ _. (is_fatal_iff err.net_error err.text).0 yes_fatal), (λ _. rw yes_fatal)),
  )
  | inr not_fatal ↦ (
    rw not_fatal,
    (
      (λ same. absurd (none-some (ap (λ (w : Written). w.1) (rw not_fatal at same)))),
      (λ h. rw ((is_fatal_iff err.net_error err.text).1 h)),
    ),
  )
]
