-- ===== src/Bytes/Split.antt =====
-- `str.startswith`, `str.split(sep, n)`, `str.encode("utf-8")` and `int.to_bytes(2, "big")`.
use sara_pro.Prelude.{
  ℕ, zero, suc, ◌+◌, ◌/◌, ◌%◌, List, [], ◌∷◌, ◌++◌, Option, none, some, Bool, length, take, ltb,
  ◌==◌, if◌then◌else◌,
}
use sara_pro.Bytes.Hex.{Text}
use sara_pro.Bytes.Little.{Bytes}
use sara_pro.Bytes.Strings.{text_eq}

-- `s.startswith(prefix)`
unfoldable pub starts_with : Text → Text → Bool
starts_with prefix s = text_eq (take (length prefix) s) prefix

-- What stands before and behind the first `sep`.
unfoldable pub cut_at : ℕ → Text → Option (Text × Text)
cut_at sep [] = none
cut_at sep (c ∷ s) =
    let rest = elim (cut_at sep s) as (λ _. Option (Text × Text)) [
      | none ↦ none
      | some t ↦ some (c ∷ t.0, t.1)
    ] in
    if c == sep then some ([], s) else rest

-- `s.split(sep, n)`
unfoldable pub split : ℕ → ℕ → Text → List Text
split sep zero s = s ∷ []
split sep (suc n) s = elim (cut_at sep s) [ none ↦ s ∷ [] | some t ↦ t.0 ∷ split sep n t.1 ]

-- The bytes of a code point that is no surrogate.
unfoldable pub utf8_char : ℕ → Bytes
utf8_char c =
    if ltb c 128
    then c ∷ []
    else if ltb c 2048
    then (192 + c / 64) ∷ (128 + c % 64) ∷ []
    else if ltb c 65536
    then (224 + c / 4096) ∷ (128 + c / 64 % 64) ∷ (128 + c % 64) ∷ []
    else (240 + c / 262144) ∷ (128 + c / 4096 % 64) ∷ (128 + c / 64 % 64) ∷ (128 + c % 64) ∷ []

unfoldable pub utf8 : Text → Bytes
utf8 [] = []
utf8 (c ∷ s) = utf8_char c ++ utf8 s

unfoldable pub big_pair : ℕ → Bytes
big_pair n = (n / 256) ∷ (n % 256) ∷ []
