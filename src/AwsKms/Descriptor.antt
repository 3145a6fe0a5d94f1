-- ===== src/AwsKms/Descriptor.antt =====
-- The key that a provider is bound to: what DescribeKey and GetPublicKey must say of it.
use sara_pro.Prelude.{
  ℕ, ◌+◌, ◌≡◌, List, [], ◌∷◌, ◌++◌, Option, none, some, Bool, true, false, ◌&&◌, ◌||◌, not, length,
  leb, ◌==◌, if◌then◌else◌, Result, ok, err, ◌>>=◌, ◌>>◌, raise_if, or_raise,
}
use sara_pro.Bytes.{
  Bytes, Text, text, text_eq, is_empty, to_hex, starts_with, split, base64url, get_item,
}
use sara_pro.Ledger.{Json, str, other, Object, is_str}
use sara_pro.OperationJournal.{Field, dict, str_of}
use sara_pro.AwsKms.{
  AwsError, arn_invalid, arn_fields_invalid, client_raised, metadata_omitted, wrong_key_spec,
  wrong_key_usage, not_enabled, arn_not_text, wrong_region, wrong_account, no_public_key,
  not_advertised, arn_changed, public_key_changed, signing_algorithm,
}

-- What get_public_key returns, as far as it is of the types that the code asks for.
pub record PublicAnswer : Type 0 where
  pub public_key : Option Bytes
  pub algorithms : Option (List Json)

-- What sign returns: "ResponseMetadata" is there for its text "RequestId".
pub record SignResponse : Type 0 where
  pub key_id : Option Json
  pub algorithm : Option Json
  pub signature : Option Bytes
  pub request_id : Option Text

-- The client during one call, by the key that it is asked about; `none` is an exception.
pub record KmsClient : Type 0 where
  pub describe_key : Text → Option (Option Field)
  pub get_public_key : Text → Option PublicAnswer
  pub sign : Text → Bytes → Option SignResponse

pub record KeyArn : Type 0 where
  pub region : Text
  pub account : Text

unfoldable pub all_digits : Text → Bool
all_digits [] = true
all_digits (c ∷ s) = leb 48 c && leb c 57 && all_digits s

-- `^[0-9]{12}$`, whose `$` also stands before a last newline
unfoldable pub is_account : Text → Bool
is_account s =
    (length s == 12 && all_digits s)
    || (length s == 13
        && text_eq (sara_pro.Prelude.drop 12 s) (10 ∷ [])
        && all_digits (sara_pro.Prelude.take 12 s))

-- `_parse_kms_key_arn`, as far as its result is used
unfoldable pub arn_fields : List Text → Result AwsError KeyArn
arn_fields (a ∷ partition ∷ service ∷ region ∷ account ∷ resource ∷ []) = do
  raise_if (not (text_eq a (text "arn")) || not (text_eq service (text "kms"))) arn_invalid
  raise_if
      (not (text_eq partition (text "aws"))
        || is_empty region
        || not (is_account account)
        || not (starts_with (text "key/") resource))
      arn_fields_invalid
  ok (record { region = region; account = account })
arn_fields _ = err arn_invalid

unfoldable pub parse_kms_key_arn : Text → Result AwsError KeyArn
parse_kms_key_arn arn = arn_fields (split 58 5 arn)

abbrev pub as_object : Option Field → Result AwsError Object
as_object (some (dict o)) = ok o
as_object _ = err metadata_omitted

abbrev pub as_text : Option Json → Result AwsError Text
as_text (some (str s)) = ok s
as_text _ = err arn_not_text

-- `v is True`
abbrev pub is_true : Option Json → Bool
is_true (some (other s)) = text_eq s (text "True")
is_true _ = false

-- `str(o.get(k, default))`
unfoldable pub str_or : Text → Option Json → Text
str_or default none = default
str_or default (some v) = str_of v

unfoldable pub advertises : List Json → Bool
advertises [] = false
advertises (v ∷ l) = is_str (some v) signing_algorithm || advertises l

-- `not isinstance(public_key, (bytes, bytearray)) or not public_key`
unfoldable pub usable_bytes : Option Bytes → AwsError → Result AwsError Bytes
usable_bytes none e = err e
usable_bytes (some b) e = do raise_if (is_empty b) e; ok b

-- `not isinstance(algorithms, list) or SIGNING_ALGORITHM not in algorithms`
abbrev pub lacks_algorithm : Option (List Json) → Bool
lacks_algorithm none = true
lacks_algorithm (some l) = not (advertises l)

-- `_descriptor_components`
unfoldable pub descriptor_components :
    KmsClient → Text → Text → Result AwsError (Object × Text × Bytes)
descriptor_components client region key = do
  described ← or_raise (client.describe_key key) client_raised
  metadata ← as_object described
  raise_if (not (is_str (get_item (text "KeySpec") metadata) (text "ML_DSA_65"))) wrong_key_spec
  raise_if (not (is_str (get_item (text "KeyUsage") metadata) (text "SIGN_VERIFY"))) wrong_key_usage
  raise_if
      (not (is_true (get_item (text "Enabled") metadata))
        || not (is_str (get_item (text "KeyState") metadata) (text "Enabled")))
      not_enabled
  arn ← as_text (get_item (text "Arn") metadata)
  fields ← parse_kms_key_arn arn
  raise_if (not (text_eq fields.region region)) wrong_region
  raise_if (not (text_eq (str_or [] (get_item (text "AWSAccountId") metadata)) fields.account))
      wrong_account
  public ← or_raise (client.get_public_key arn) client_raised
  key_bytes ← usable_bytes public.public_key no_public_key
  raise_if (lacks_algorithm public.algorithms) not_advertised
  ok (metadata, arn, key_bytes)

pub record AwsKmsDescriptor : Type 0 where
  pub key_id : Text
  pub key_arn : Text
  pub aws_account_id : Text
  pub region : Text
  pub public_key_der_sha256 : Text
  pub public_key_der_b64url : Text

module _ (sha256 : Bytes → Bytes) where
  -- `_load_descriptor`; the fields that are constants or the caller's are left out.
  unfoldable pub load_descriptor : KmsClient → Text → Text → Result AwsError AwsKmsDescriptor
  load_descriptor client region key_id = do
    (metadata, arn, public_key) ← descriptor_components client region key_id
    ok (record {
      key_id = str_or key_id (get_item (text "KeyId") metadata);
      key_arn = arn;
      aws_account_id = str_or [] (get_item (text "AWSAccountId") metadata);
      region = region;
      public_key_der_sha256 = to_hex (sha256 public_key);
      public_key_der_b64url = base64url public_key;
    })

  -- `_assert_descriptor_unchanged`
  unfoldable pub assert_descriptor_unchanged :
      KmsClient → AwsKmsDescriptor → Result AwsError (Unit {0})
  assert_descriptor_unchanged client d = do
    (metadata, arn, public_key) ← descriptor_components client d.region d.key_arn
    raise_if (not (text_eq arn d.key_arn)) arn_changed
    raise_if (not (text_eq (to_hex (sha256 public_key)) d.public_key_der_sha256)) public_key_changed
