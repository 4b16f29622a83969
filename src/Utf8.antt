-- ===== src/Utf8.antt =====
-- `String::from_utf8`: whether bytes are well-formed UTF-8, as a machine that goes over them once.
use cere_db.Base.{ℕ, Bool, [], ◌∷◌, leb, ◌&&◌, if◌then◌else◌}
use cere_db.Bytes.{Bytes}

-- What the machine waits for: a first byte, up to three continuation bytes, or the second byte of a
-- sequence whose first byte narrows its range.
pub data Utf8State : Type 0 where
  start one two three after_e0 after_ed after_f0 after_f4 refused : Utf8State

within : ℕ → ℕ → ℕ → Bool
within low high b = leb low b && leb b high

-- The state after a first byte.
first : ℕ → Utf8State
unfolding within
first b =
    if leb b 127
    then start
    else if within 194 223 b
    then one
    else if within 224 224 b
    then after_e0
    else if within 237 237 b
    then after_ed
    else if within 225 239 b
    then two
    else if within 240 240 b
    then after_f0
    else if within 241 243 b
    then three
    else if within 244 244 b
    then after_f4
    else refused

-- `next` if the byte is in the range.
expect : ℕ → ℕ → Utf8State → ℕ → Utf8State
unfolding within
expect low high next b = if within low high b then next else refused

advance : Utf8State → ℕ → Utf8State
unfolding first expect
advance start b = first b
advance one b = expect 128 191 start b
advance two b = expect 128 191 one b
advance three b = expect 128 191 two b
advance after_e0 b = expect 160 191 one b
advance after_ed b = expect 128 159 one b
advance after_f0 b = expect 144 191 two b
advance after_f4 b = expect 128 143 two b
advance refused b = refused

run : Utf8State → Bytes → Utf8State
unfolding advance
run s [] = s
run s (b ∷ bs) = run (advance s b) bs

ends : Utf8State → Bool
ends start = Bool.true
ends _ = Bool.false

unfoldable pub is_utf8 : Bytes → Bool
unfolding run ends
is_utf8 bs = ends (run start bs)
