-- ===== src/Session/Closing.antt =====
-- main.go: what `send` and `receive` close on every way out.
use rtq_go_endpoint.Common.{◌≡◌, if◌then◌else◌}
use rtq_go_endpoint.Session.{
  Step, goes, stops, panicking, Frame, Task, and_then, ◌>>=◌, ◌>>◌, owned,
}

-- The deferred closings are those of what was opened and is owned, in the same order.
abbrev Even : Frame → Type 0
Even f = f.deferred ≡ owned f.opened

record Keeps {E A : Type 0} (t : Task E A) : Type 0 where
  even : (f : Frame) → Even f → Even (t f).1

and_then-Even :
    {E A B : Type 0} (r : Step E A × Frame) (k : A → Task E B)
    → Even r.1
    → ((a : A) → Keeps (k a))
    → Even (and_then k r).1
and_then-Even (goes a, f) k h keep = (keep a).even f h
and_then-Even (stops e, f) k h keep = h
and_then-Even (panicking p, f) k h keep = h

>>=-Keeps :
    {E A B : Type 0} {m : Task E A} {k : A → Task E B}
    → Keeps m
    → ((a : A) → Keeps (k a))
    → Keeps (m >>= k)
>>=-Keeps {m = m} {k} hm hk = record { even = λ f h. and_then-Even (m f) k (hm.even f h) hk }

infixr 5 ◌then◌
◌then◌ : {E B : Type 0} {m : Task E (Unit {0})} {k : Task E B} → Keeps m → Keeps k → Keeps (m >> k)
hm then hk = >>=-Keeps hm (λ _. hk)
