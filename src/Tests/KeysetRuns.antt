-- ===== src/Tests/KeysetRuns.antt =====
-- The hybrid entry points with one key set.
use genesis_operator.Prelude.{
  false, ◌==◌, if◌then◌else◌, none, some, [], ◌∷◌, Bytes, arith, List, replicate, ◌≡◌, refl,
}
use genesis_operator.KeyMaterial.{new}
use genesis_operator.Crypto.Hybrid.{combine_shared_secrets}
use genesis_operator.Envelope.Wire.{to_bytes}
use genesis_operator.Envelope.Hybrid.{seal, seal_keys, seal_secret, seal_signature}
use genesis_operator.State.{StateTag}
use genesis_operator.Ffi.{GenesisResult}
use genesis_operator.Ffi.Keyset.{GenesisKeySet, KeyRuntime, generate_keys, handle_at, success_at}
use genesis_operator.Ffi.Keyset.Calls.{borrow, genesis_seal_hybrid, genesis_open_hybrid}
use genesis_operator.Ffi.Keyset.RoundTrip.{
  Paired, generate_keys-Paired, genesis_open_hybrid-genesis_seal_hybrid,
}
use genesis_operator.Outcome.{good, bad}
use genesis_operator.Ffi.Keyset.Session.{KeyCall, KeyHost, key_session}
use genesis_operator.Ffi.Keyset.Ownership.{Empty}
use genesis_operator.Ffi.Keyset.NoLeaks.{key_session-Empty}
use genesis_operator.Tests.CodePoints.{code_points}
use genesis_operator.Tests.Worlds.{
  one_file, small_crypto, small-AgeContract, small-PqContract, small-SymLaws, small-FillLaw,
  small-AgePair, small-KemPair,
}
use genesis_operator.Tests.EnvelopeRuns.{sealed, sealed-Fits}

abbrev keyset : GenesisKeySet
keyset = record {
  age_identity = new (1 ∷ 2 ∷ []);
  age_recipient = "age1";
  mlkem_private_key = new (4 ∷ []);
  mlkem_public_key = 2 ∷ [];
  signing_key = new (5 ∷ []);
  signing_public_key = 3 ∷ [];
}

generate_keys-Paired_example : Paired {E = Bytes} small_crypto keyset
unfolding generate_keys
generate_keys-Paired_example =
    generate_keys-Paired small_crypto small-AgeContract small-PqContract keyset [] [] refl

abbrev runtime : KeyRuntime Bytes
runtime = record {
  env = [];
  keysets = λ p. if p == 1 then some keyset else none;
  locals = λ p. none;
  fresh = 2;
}

abbrev plaintext : Bytes
plaintext = replicate 32 65

abbrev succeeded : GenesisResult
succeeded = success_at (handle_at 1 StateTag.initialized) none

genesis_open_hybrid-genesis_seal_hybrid_example :
    genesis_open_hybrid small_crypto 1 (some (to_bytes (sealed plaintext))) false runtime
    ≡ some ((succeeded, some plaintext), runtime)
unfolding genesis_seal_hybrid borrow seal seal_keys seal_secret seal_signature
    combine_shared_secrets
genesis_open_hybrid-genesis_seal_hybrid_example =
    genesis_open_hybrid-genesis_seal_hybrid small_crypto small-PqContract small-SymLaws
      small-FillLaw keyset 1 plaintext (to_bytes (sealed plaintext)) succeeded runtime runtime refl
      refl
      (record { age = small-AgePair (1 ∷ 2 ∷ []); kem = small-KemPair (2 ∷ []) (new (4 ∷ [])) })
      (λ e env2 h. sealed-Fits plaintext e [] env2 refl h) refl

abbrev key_host : KeyHost Bytes
key_host = record {
  crypto = small_crypto;
  fs = one_file;
  b64 = record { encode = λ bytes. "b64"; decode = λ text. bad "symbol" };
  print_json = λ value. good "{}";
  utf8 = code_points;
}

abbrev a_session : List KeyCall
a_session =
    KeyCall.generate_local (some (good "/keys")) none
    ∷ KeyCall.seal_hybrid (some plaintext) false
    ∷ KeyCall.export_age_identity
    ∷ KeyCall.init_local none
    ∷ []

abbrev nothing_yet : KeyRuntime Bytes
nothing_yet = record { env = []; keysets = λ p. none; locals = λ p. none; fresh = 1 }

key_session-Empty_example :
    (rt' : KeyRuntime Bytes) × (key_session key_host a_session nothing_yet ≡ some rt') × Empty rt'
key_session-Empty_example =
    key_session-Empty key_host a_session nothing_yet (omega arith) ((λ q. refl), (λ q. refl))
