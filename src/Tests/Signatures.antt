-- ===== src/Tests/Signatures.antt =====
-- A strict DER signature with R = S = 1.
use sara_pro.Prelude.{◌≡◌, refl, [], ◌∷◌, true, ok}
use sara_pro.Bytes.{Bytes}
use sara_pro.SignaturePolicy.{
  is_member, big_onto, byte_at, ParsedEcdsaSignature, check_integer, check_scalars, parse_der,
  parse_strict_der_ecdsa_signature,
}
use sara_pro.SignaturePolicy.Bounds.{EcdsaInRange, Spelled, parse_strict_der_ecdsa_signature-range}

abbrev signature : Bytes
signature = 48 ∷ 6 ∷ 2 ∷ 1 ∷ 5 ∷ 2 ∷ 1 ∷ 1 ∷ 1 ∷ []

abbrev parsed : ParsedEcdsaSignature
parsed = record { r = 5; s = 1; sighash_type = 1; low_s = true }

accepted : parse_strict_der_ecdsa_signature signature true ≡ ok parsed
unfolding parse_strict_der_ecdsa_signature parse_der check_integer check_scalars byte_at big_onto
    is_member
accepted = refl

parse_strict_der_ecdsa_signature-range_example : EcdsaInRange parsed true × Spelled signature parsed
parse_strict_der_ecdsa_signature-range_example =
    parse_strict_der_ecdsa_signature-range signature true accepted
