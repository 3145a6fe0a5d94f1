-- ===== src/BitcoinTx/CompactSize.antt =====
-- `read_compact_size`, `encode_compact_size` and `_read_slice`. The pair (data, offset) of the source
-- is the list of the bytes that are not read yet, so "offset + n > len(data)" is "fewer than n left".
pub mod Laws
use sara_pro.Prelude.{
  ℕ, [], ◌∷◌, Bool, ◌&&◌, ◌||◌, length, take, drop, ltb, leb, ◌==◌, if◌then◌else◌, Result, ok, err,
  ◌>>=◌, ◌>>◌, raise_if, or_raise,
}
use sara_pro.Bytes.{Bytes, le_value, to_bytes}
use sara_pro.BitcoinTx.Types.{
  TxError, truncated_compact_size, truncated_payload, non_minimal_compact_size,
  compact_size_too_large, truncated_slice, integer_overflow,
}

-- The bytes behind a first byte of 253, 254 or 255.
abbrev pub compact_width : ℕ → ℕ
compact_width first = if first == 253 then 2 else if first == 254 then 4 else 8

abbrev pub is_non_minimal : ℕ → ℕ → Bool
is_non_minimal first value =
    (first == 253 && ltb value 253)
    || (first == 254 && leb value 0xFFFF)
    || (first == 255 && leb value 0xFFFFFFFF)

-- The branch for a first byte that announces `width` more bytes.
unfoldable pub read_payload : ℕ → ℕ → Bytes → Result TxError (ℕ × Bytes)
read_payload width first xs = do
  raise_if (ltb (length xs) width) truncated_payload
  raise_if (is_non_minimal first (le_value (take width xs))) non_minimal_compact_size
  ok (le_value (take width xs), drop width xs)

unfoldable pub read_compact_size : Bytes → Result TxError (ℕ × Bytes)
read_compact_size [] = err truncated_compact_size
read_compact_size (first ∷ xs) =
    if ltb first 253 then ok (first, xs) else read_payload (compact_width first) first xs

-- `bytes([first]) + value.to_bytes(width, "little")`
abbrev pub prefixed : ℕ → ℕ → ℕ → Result TxError Bytes
prefixed first width value = do ok (first ∷ (← or_raise (to_bytes width value) integer_overflow))

unfoldable pub encode_compact_size : ℕ → Result TxError Bytes
encode_compact_size value =
    if ltb value 253
    then ok (value ∷ [])
    else if leb value 0xFFFF
    then prefixed 0xfd 2 value
    else if leb value 0xFFFFFFFF
    then prefixed 0xfe 4 value
    else if leb value 0xFFFFFFFFFFFFFFFF
    then prefixed 0xff 8 value
    else err compact_size_too_large

unfoldable pub read_slice : Bytes → ℕ → Result TxError (Bytes × Bytes)
read_slice xs n = do raise_if (ltb (length xs) n) truncated_slice; ok (take n xs, drop n xs)
