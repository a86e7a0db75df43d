-- ===== src/Adapter/Message.antt =====
-- internal/adapter/classify.go: how much of a failure message is kept.
use dispatcher.Prelude.{
  ℕ, ◌≤◌, ◌≢◌, List, [], ◌∷◌, ◌++◌, arith, leb, leb→le, ◌==◌, if◌then◌else◌, length, take, All,
  All-append, All-take, length-append, length-take_le, trim_space, trim_space-All, Bool-cases, inl,
  inr,
}

-- Bytes of a message.
abbrev pub Bytes : Type 0
Bytes = List ℕ

abbrev pub max_failure_message_len : ℕ
max_failure_message_len = 160

-- "…" in UTF-8.
abbrev ellipsis : Bytes
ellipsis = 0xe2 ∷ 0x80 ∷ 0xa6 ∷ []

-- s[:strings.IndexByte(s, '\n')], or all of s.
first_line : Bytes → Bytes
first_line [] = []
first_line (c ∷ cs) = let rest = first_line cs in if c == 10 then [] else c ∷ rest

unfoldable pub truncate_failure_message : Bytes → Bytes
unfolding first_line
truncate_failure_message s =
    let line = trim_space (first_line s) in
    if leb (length line) max_failure_message_len
    then line
    else take max_failure_message_len line ++ ellipsis

abbrev pub IsOneLine : Bytes → Type 0
IsOneLine = All (λ c. c ≢ 10)

first_line-IsOneLine : (s : Bytes) → IsOneLine (first_line s)
unfolding first_line
first_line-IsOneLine [] = tt
first_line-IsOneLine (c ∷ cs) = ground (arith, first_line-IsOneLine cs)

-- What is kept of a message is one line of at most 163 bytes: 160 and the mark of a cut.
pub truncate_failure_message_bounds :
    (s : Bytes)
    → IsOneLine (truncate_failure_message s) × (length (truncate_failure_message s) ≤ 163)
unfolding truncate_failure_message
truncate_failure_message_bounds s =
    let line = trim_space (first_line s) in
    let one = trim_space-All (λ c. c ≢ 10) (first_line s) (first_line-IsOneLine s) in
    elim (Bool-cases (leb (length line) max_failure_message_len)) [
      | inl short ↦ rw short (one, omega (arith, leb→le _ _ short))
      | inr long ↦ rw long (
        All-append (λ c. c ≢ 10) (take 160 line) ellipsis (All-take (λ c. c ≢ 10) 160 line one)
            (omega arith),
        rw (length-append (take 160 line) ellipsis) (omega (arith, length-take_le 160 line)),
      )
    ]
