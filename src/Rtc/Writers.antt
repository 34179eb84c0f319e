-- ===== src/Rtc/Writers.antt =====
-- rtc/sender.go, `defaultRTPWriterFunc`, and rtc/feedback_inferer.go, the end of `rtpWriterFunc`: what
-- the two writers answer after the transport has answered. Of an `error` the code reads whether it is
-- a `net.Error`, what that says of `Temporary()`, and its text.
pub mod Laws
mod Tests
use text.Mathlib.Text.{◌==◌ as str_eq}
use Prim.Native.String.{String}
use rtq_go_endpoint.Common.{
  ℕ, Bool, true, false, ◌&&◌, ◌||◌, not, Option, none, some, if◌then◌else◌,
}

pub record Error : Type 0 where
  -- `Temporary()`, if the error is a `net.Error`
  pub net_error : Option Bool
  pub text : String

-- `netErr, ok := err.(net.Error); ok && !netErr.Temporary()`
pub lasting : Option Bool → Bool
lasting none = false
lasting (some temporary) = not temporary

abbrev pub eos_text : String
eos_text = "Application error 0x0: eos"

unfoldable pub is_fatal : Error → Bool
unfolding lasting
is_fatal err = lasting err.net_error || str_eq err.text eos_text

-- The number of bytes and the error that a writer returns.
abbrev pub Written : Type 0
Written = ℕ × Option Error

-- An error that is not fatal is logged, and returned all the same.
unfoldable pub default_answer : Written → Written
default_answer (n, none) = (n, none)
default_answer (n, some err) = if is_fatal err then (n, some err) else (n, some err)

-- Here it is only logged.
unfoldable pub inferring_answer : Written → Written
inferring_answer (n, none) = (n, none)
inferring_answer (n, some err) = if is_fatal err then (n, some err) else (n, none)
