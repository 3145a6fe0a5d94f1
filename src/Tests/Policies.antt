-- ===== src/Tests/Policies.antt =====
-- The quantum policy on one output, one UTXO and a manifest of two.
use sara_pro.Prelude.{ℕ, ◌≡◌, ◌≤◌, ◌↔◌, refl, List, [], ◌∷◌, length, true, false, ok, arith}
use sara_pro.Prelude.Int.{pos}
use sara_pro.Bytes.{
  Text, text, strip, strip_left, is_space, upper, lower, remove_char, text_eq, text_in, from_keys,
}
use sara_pro.QuantumPolicy.Types.{
  ecdsa_allowed, hybrid_required, UtxoRecord, UtxoAssessment, ProposedOutput, normalized_network,
  normalized_script_type, is_always_exposed, is_hash_hidden, is_p2mr,
}
use sara_pro.QuantumPolicy.Assess.{
  is_exposed, all_hex, is_not_hex32, exposure_of, actions_of, priority_of, assess_utxo, assess_all,
  sort_by_key, manifest_of, MigrationManifest, build_migration_manifest,
}
use sara_pro.QuantumPolicy.Outputs.{
  is_mainnet, is_test_network, evaluate_new_output, decide_output, output_allowed, state_allows,
  is_unknown_script,
}
use sara_pro.QuantumPolicy.Decision.{Releasable, evaluate_new_output_iff, evaluate_new_output_mono}
use sara_pro.QuantumPolicy.Priority.{Ranked, should_be_exposed, assess_utxo_ranks}
use sara_pro.QuantumPolicy.Manifest.{Reports, build_migration_manifest-Reports}
use sara_pro.PolicyEpoch.Order.{order}
use sara_pro.Tests.{repeat, ascii}

abbrev output : ProposedOutput
output = record {
  network = text "signet";
  script_type = text "p2-wpkh";
  address_reused = false;
  has_pq_recovery_path = true;
}

evaluate_new_output_iff_example :
    ((evaluate_new_output ascii output hybrid_required).allowed ≡ true)
    ↔ Releasable ascii output hybrid_required
evaluate_new_output_iff_example = evaluate_new_output_iff ascii output hybrid_required

weaker : order ecdsa_allowed ≤ order hybrid_required
unfolding order
weaker = omega arith

allowed : (evaluate_new_output ascii output hybrid_required).allowed ≡ true
unfolding evaluate_new_output is_mainnet is_test_network decide_output output_allowed state_allows
    is_unknown_script is_always_exposed is_hash_hidden is_p2mr normalized_network
    normalized_script_type remove_char text_eq text_in strip strip_left is_space upper
allowed = refl

evaluate_new_output_mono_example : (evaluate_new_output ascii output ecdsa_allowed).allowed ≡ true
evaluate_new_output_mono_example =
    evaluate_new_output_mono ascii output ecdsa_allowed hybrid_required weaker allowed

abbrev coin : Text → ℕ → UtxoRecord
coin script amount = record {
  txid = repeat 64 65;
  vout = pos 1;
  amount_sat = pos amount;
  script_type = script;
  address_reused = false;
  public_key_known_exposed = false;
  wallet_label = text "cold";
  timelocked = true;
}

abbrev assessed : UtxoAssessment
assessed = record {
  txid = repeat 64 97;
  vout = 1;
  amount_sat = 100000000;
  script_type = text "P2TR";
  exposure = (exposure_of (text "P2TR") false false).0;
  priority = priority_of (exposure_of (text "P2TR") false false).0 true 100000000;
  reasons = (exposure_of (text "P2TR") false false).1 ∷ [];
  actions = from_keys text_eq (actions_of (exposure_of (text "P2TR") false false).0 false true);
  consensus_feature_required = false;
}

found : assess_utxo ascii (coin (text "p2tr") 100000000) ≡ ok assessed
unfolding assess_utxo is_not_hex32 all_hex normalized_script_type remove_char strip strip_left
    is_space upper lower exposure_of is_always_exposed is_hash_hidden text_in text_eq
found = refl

assess_utxo_ranks_example :
    (is_exposed assessed.exposure ≡ should_be_exposed ascii (coin (text "p2tr") 100000000))
    × Ranked assessed.exposure assessed.priority
assess_utxo_ranks_example = assess_utxo_ranks ascii (coin (text "p2tr") 100000000) assessed found

abbrev coins : List UtxoRecord
coins = coin (text "p2tr") 100000000 ∷ coin (text "p2tr") 100000000 ∷ []

abbrev manifest : MigrationManifest
manifest = manifest_of (sort_by_key (assessed ∷ assessed ∷ []))

built : build_migration_manifest ascii coins ≡ ok manifest
unfolding build_migration_manifest assess_all
built = rw found

build_migration_manifest-Reports_example :
    (manifest.utxo_count ≡ length coins)
    × ((l : List UtxoAssessment) × (assess_all ascii coins ≡ ok l) × Reports l manifest)
build_migration_manifest-Reports_example =
    build_migration_manifest-Reports ascii coins manifest built
