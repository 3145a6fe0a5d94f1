-- ===== src/Tests/Keys.antt =====
-- A registry of one deprecated and one active generation. A time is the number of its first character.
use sara_pro.Prelude.{fold_result, List, ◌≡◌, refl, [], ◌∷◌, none, some, false, ok}
use sara_pro.Bytes.{Text, text_in, text, text_eq, lower, strip, strip_left, is_space, upper}
use sara_pro.CryptoAgility.Registry.{
  find_alias, find_upper, known_id, underscores_to_dashes, normalize_algorithm_id,
}
use sara_pro.EmergencyState.{all_lower_hex}
use sara_pro.KeyLifecycle.{
  register, add_to_group, check_groups, repeats_generation, has_generation, check_rotation,
  sort_generations, insert_generation, post_init, active, deprecated, KeyRecord, Clock,
  check_predecessor, canonical_key, matches, lookup, is_unexpired, is_live, is_successor, is_newer,
  any_newer, KeyRequest, authorize_key,
}
use sara_pro.KeyLifecycle.Authorize.{Authorized, authorize_key-Authorized}
use sara_pro.ApprovalQuorum.Quorum.{Fresh}
use sara_pro.KeyLifecycle.Distinct.{FingerprintsOf, post_init-Fresh}
use sara_pro.Tests.{ascii, repeat}

abbrev clock : Clock
clock = record {
  tables = ascii;
  parse_time = λ t. some (elim t [ [] ↦ 0 | c ∷ _ ↦ c ]);
  iso = λ n. n ∷ [];
}

abbrev key_one : KeyRecord
key_one = record {
  provider_id = text "hsm";
  key_fingerprint_sha256 = repeat 64 97;
  algorithm_id = text "ml-dsa-65";
  generation = 1;
  state = deprecated;
  not_before = 3 ∷ [];
  not_after = none;
  predecessor_fingerprint_sha256 = none;
}

abbrev key_two : KeyRecord
key_two = record {
  provider_id = text "hsm";
  key_fingerprint_sha256 = repeat 64 98;
  algorithm_id = text "ML_DSA_65";
  generation = 2;
  state = active;
  not_before = 5 ∷ [];
  not_after = some (9 ∷ []);
  predecessor_fingerprint_sha256 = some (repeat 64 97);
}

abbrev request : KeyRequest clock
request = record {
  provider_id = text "hsm";
  fingerprint_sha256 = repeat 64 66;
  algorithm_id = text "ML-DSA-65";
  now = 6;
  allow_deprecated = false;
  minimum_generation = some 2;
}

authorized : authorize_key clock request (key_one ∷ key_two ∷ []) ≡ ok key_two
unfolding authorize_key lookup matches canonical_key check_predecessor all_lower_hex lower text_eq
    is_unexpired any_newer is_newer is_successor is_live normalize_algorithm_id find_alias known_id
    find_upper underscores_to_dashes strip strip_left is_space upper
authorized = refl

authorize_key-Authorized_example : Authorized clock request (key_one ∷ key_two ∷ []) key_two
authorize_key-Authorized_example =
    authorize_key-Authorized clock request (key_one ∷ key_two ∷ []) authorized

accepted : post_init clock (key_one ∷ key_two ∷ []) ≡ ok tt
unfolding post_init fold_result register add_to_group check_groups repeats_generation has_generation
    check_rotation sort_generations insert_generation canonical_key check_predecessor all_lower_hex
    lower text_eq text_in normalize_algorithm_id find_alias known_id find_upper
    underscores_to_dashes strip strip_left is_space upper
accepted = refl

post_init-Fresh_example :
    (fps : List Text) × FingerprintsOf clock (key_one ∷ key_two ∷ []) fps × Fresh [] fps
post_init-Fresh_example = post_init-Fresh clock (key_one ∷ key_two ∷ []) accepted
