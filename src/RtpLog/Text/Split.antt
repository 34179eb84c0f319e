-- ===== src/RtpLog/Text/Split.antt =====
-- internal/utils/rtp_log_interceptor.go: the parts of a line, and of a log, between its separators.
use rtq_go_endpoint.Common.{
  ℕ, ◌≤◌, ◌≡◌, ◌∙◌, refl, ap, false, List, [], ◌∷◌, true, ◌++◌, All, All-mono, All-append, ◌==◌,
  ==_refl, if◌then◌else◌, arith,
}
use rtq_go_endpoint.RtpLog.Text.{Bytes, joined}
use rtq_go_endpoint.RtpLog.Text.Numbers.{IsField}

unfoldable pub prepend : ℕ → List Bytes → List Bytes
prepend b [] = (b ∷ []) ∷ []
prepend b (part ∷ parts) = (b ∷ part) ∷ parts

-- The parts between the separators.
unfoldable pub split : ℕ → Bytes → List Bytes
split sep [] = [] ∷ []
split sep (b ∷ bs) = if b == sep then [] ∷ split sep bs else prepend b (split sep bs)

abbrev pub Lacks : ℕ → Bytes → Type 0
Lacks sep text = All (λ c. (c == sep) ≡ false) text

pub Field-Lacks : (sep : ℕ) → sep ≤ 10 → (text : Bytes) → IsField text → Lacks sep text
Field-Lacks sep low = All-mono _ _ (λ c printable. ground arith)

pub split-part :
    (sep : ℕ) (part rest : Bytes)
    → Lacks sep part
    → split sep (part ++ (sep ∷ rest)) ≡ part ∷ split sep rest
unfolding split prepend
split-part sep [] rest _ = rw (==_refl sep) refl
split-part sep (b ∷ bs) rest (apart, others) = rw (apart, split-part sep bs rest others) refl

split-last : (sep : ℕ) (part : Bytes) → Lacks sep part → split sep part ≡ part ∷ []
unfolding split prepend
split-last sep [] _ = refl
split-last sep (b ∷ bs) (apart, others) = rw (apart, split-last sep bs others) refl

pub split-joined :
    (sep : ℕ) (first : Bytes) (parts : List Bytes)
    → Lacks sep first
    → All (Lacks sep) parts
    → split sep (joined sep first parts) ≡ first ∷ parts
unfolding joined
split-joined sep first [] f _ = split-last sep first f
split-joined sep first (part ∷ parts) f (g, gs) =
    split-part sep first (joined sep part parts) f
    ∙ ap (λ ps. first ∷ ps) (split-joined sep part parts g gs)

pub joined-Lacks :
    (first : Bytes) (parts : List Bytes)
    → IsField first
    → All IsField parts
    → Lacks 10 (joined 9 first parts)
unfolding joined
joined-Lacks first [] f _ = Field-Lacks 10 (omega arith) first f
joined-Lacks first (part ∷ parts) f (g, gs) =
    All-append _ first _ (Field-Lacks 10 (omega arith) first f) (refl, joined-Lacks part parts g gs)

-- The parts that a separator ends.
unfoldable pub ended : List Bytes → List Bytes
ended [] = []
ended (unfinished ∷ []) = []
ended (part ∷ (next ∷ parts)) = part ∷ ended (next ∷ parts)

ended-cons :
    (sep : ℕ) (part rest : Bytes) → ended (part ∷ split sep rest) ≡ part ∷ ended (split sep rest)
unfolding split ended prepend
ended-cons sep part [] = refl
ended-cons sep part (b ∷ bs) =
    elim (b == sep)
      as (λ e.
        ended (part ∷ (if e then [] ∷ split sep bs else prepend b (split sep bs)))
        ≡ part ∷ ended (if e then [] ∷ split sep bs else prepend b (split sep bs))) [
          | true ↦ refl
          | false ↦
              elim (split sep bs)
                as (λ ls. ended (part ∷ prepend b ls) ≡ part ∷ ended (prepend b ls)) [
                  | [] ↦ refl
                  | next ∷ parts ↦ refl
                ]
        ]

-- A line that is ended is read first, whatever follows.
pub ended-split :
    (sep : ℕ) (part rest : Bytes)
    → Lacks sep part
    → ended (split sep (part ++ (sep ∷ rest))) ≡ part ∷ ended (split sep rest)
ended-split sep part rest h = rw (split-part sep part rest h) (ended-cons sep part rest)
