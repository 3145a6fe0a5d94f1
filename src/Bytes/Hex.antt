-- ===== src/Bytes/Hex.antt =====
-- `bytes.hex`, `bytes.fromhex` and `str.strip`. Text is its list of code points.
use sara_pro.Prelude.{
  ℕ, ◌+◌, ◌-◌, ◌*◌, ◌/◌, ◌%◌, ◌<◌, ◌≡◌, refl, List, [], ◌∷◌, reverse, Option, none, some, Bool,
  true, false, ◌&&◌, ◌||◌, arith, ltb, leb, ◌==◌, if◌then◌else◌,
}
use sara_pro.Bytes.Little.{Bytes, IsBytes}

abbrev pub Text : Type 0
Text = List ℕ

unfoldable pub hex_char : ℕ → ℕ
hex_char d = if ltb d 10 then 48 + d else 87 + d

-- `bs.hex()`: lower case
unfoldable pub to_hex : Bytes → Text
to_hex [] = []
to_hex (b ∷ bs) = hex_char (b / 16) ∷ hex_char (b % 16) ∷ to_hex bs

unfoldable pub hex_digit : ℕ → Option ℕ
hex_digit c =
    if leb 48 c && leb c 57
    then some (c - 48)
    else if leb 97 c && leb c 102
    then some (c - 87)
    else if leb 65 c && leb c 70
    then some (c - 55)
    else none

-- what `fromhex` skips between two bytes
unfoldable pub is_ascii_space : ℕ → Bool
is_ascii_space c = (leb 9 c && leb c 13) || c == 32

abbrev pub push_pair : Option ℕ → Option ℕ → Option Bytes → Option Bytes
push_pair (some h) (some l) (some bs) = some ((16 * h + l) ∷ bs)
push_pair (some h) (some l) none = none
push_pair (some h) none r = none
push_pair none l r = none

-- `bytes.fromhex(text)`; `none` is a ValueError
unfoldable pub from_hex : Text → Option Bytes
from_hex [] = some []
from_hex (c ∷ []) = if is_ascii_space c then some [] else none
from_hex (c ∷ d ∷ cs) = elim (is_ascii_space c) [
  | true ↦ from_hex (d ∷ cs)
  | false ↦ push_pair (hex_digit c) (hex_digit d) (from_hex cs)
]

-- the characters that `str.strip()` removes
unfoldable pub is_space : ℕ → Bool
is_space c =
    (leb 9 c && leb c 13)
    || (leb 28 c && leb c 32)
    || c == 133
    || c == 160
    || c == 5760
    || (leb 8192 c && leb c 8202)
    || c == 8232
    || c == 8233
    || c == 8239
    || c == 8287
    || c == 12288

unfoldable pub strip_left : Text → Text
unfolding is_space
strip_left [] = []
strip_left (c ∷ cs) = if is_space c then strip_left cs else c ∷ cs

unfoldable pub strip : Text → Text
unfolding strip_left
strip t = reverse (strip_left (reverse (strip_left t)))

hex_pair :
    (h : ℕ) → h < 16 → (is_ascii_space (hex_char h) ≡ false) × (hex_digit (hex_char h) ≡ some h)
unfolding hex_char hex_digit is_ascii_space
hex_pair h lt = ground arith

-- Reading back the hex text of some bytes gives those bytes.
pub from_hex-to_hex : (bs : Bytes) → IsBytes bs → from_hex (to_hex bs) ≡ some bs
unfolding from_hex to_hex
from_hex-to_hex [] h = refl
from_hex-to_hex (b ∷ bs) (hb, h) =
    let high = hex_pair (b / 16) (omega arith) in
    let low = hex_pair (b % 16) (omega arith) in
    let whole : 16 * (b / 16) + b % 16 ≡ b = omega arith in
    rw (high.0, from_hex, high.1, low.1, from_hex-to_hex bs h, whole)
