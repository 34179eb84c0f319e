-- ===== src/Common/Outcome.antt =====
-- The outcome of Go code that may panic, or whose loop is cut off by fuel.
use mathlib.Core.Path.{◌≡◌}

pub data Panic : Type 0 where
  out_of_range : Panic  -- index or slice bounds out of range
  nil_dereference : Panic  -- a field of a nil pointer
  close_of_nil : Panic  -- close(ch) with a nil channel
  close_of_closed : Panic  -- close(ch) with a closed channel
  send_on_closed : Panic  -- ch <- v on a closed channel
  failed_assertion : Panic  -- v.(T) where v does not implement T

pub data Run {ℓ} (A : Type ℓ) : Type ℓ where
  returns : A → Run A
  panics : Panic → Run A
  out_of_fuel : Run A

infixl 5 ◌>>=◌ ◌>>◌
abbrev pub ◌>>=◌ {ℓ κ} : {A : Type ℓ} {B : Type κ} → Run A → (A → Run B) → Run B
returns a >>= f = f a
panics p >>= f = panics p
out_of_fuel >>= f = out_of_fuel

abbrev pub ◌>>◌ {ℓ} : {B : Type ℓ} → Run (Unit {0}) → Run B → Run B
m >> k = m >>= λ _. k

-- A panic in a part of a chain is a panic of the chain, however the rest goes on.
pub >>=-panics {ℓ κ λ'} :
    {A : Type ℓ} {B : Type κ} {C : Type λ'} (m : Run A) (f : A → Run B) (g : B → Run C) {p : Panic}
    → (m >>= f) ≡ panics p
    → (m >>= λ a. f a >>= g) ≡ panics p
>>=-panics (returns a) f g h = rw h
>>=-panics (panics q) f g h = cc
>>=-panics out_of_fuel f g h = cc
