-- ===== src/Ffi/Keyset/RoundTrip.antt =====
-- Sealing and opening through the C ABI with one key set.
use genesis_operator.Prelude.{
  subst, ◌==◌, false, Option, none, some, [], Bytes, ◌≡◌, refl, ap, append-nil,
}
use genesis_operator.KeyMaterial.{KeyMaterial, as_bytes}
use genesis_operator.Outcome.{Res, ok, err, panicked}
use genesis_operator.Outcome.Steps.{bind_elim}
use genesis_operator.Crypto.Interface.{AgePair, AgeContract, KemPair, PqContract}
use genesis_operator.Crypto.Hybrid.{SymLaws}
use genesis_operator.Envelope.Wire.{HybridEnvelope, v2_hybrid, to_bytes}
use genesis_operator.Envelope.Wire.RoundTrip.{Fits, from_bytes-to_bytes}
use genesis_operator.Envelope.Hybrid.{Crypto, FillLaw, seal}
use genesis_operator.Envelope.Hybrid.Open.{open_envelope}
use genesis_operator.Envelope.Hybrid.SealOpen.{open_envelope-seal}
use genesis_operator.State.{StateTag}
use genesis_operator.Ffi.{Ptr, GenesisResult}
use genesis_operator.Ffi.Keyset.{GenesisKeySet, KeyRuntime, generate_keys, handle_at, success_at}
use genesis_operator.Ffi.Keyset.Calls.{
  bytes_result, sealing, opening, borrow, genesis_seal_hybrid, genesis_open_hybrid,
}

module _ {E : Type 0} (c : Crypto E) where
  -- The private keys of a key set belong to its public keys
  pub record Paired (keyset : GenesisKeySet) : Type 0 where
    pub age : AgePair c.age keyset.age_recipient (as_bytes keyset.age_identity)
    pub kem : KemPair c.pq keyset.mlkem_public_key keyset.mlkem_private_key

  module _ (age_laws : AgeContract c.age) (pq_laws : PqContract c.pq) where
    -- Every key set that `GenesisKeySet::generate` returns has private keys that belong to its
    -- public keys. The age and the post-quantum operations keep their contracts.
    pub generate_keys-Paired :
        (keyset : GenesisKeySet) (env env' : E)
        → generate_keys c env ≡ (ok keyset, env')
        → Paired keyset
    unfolding generate_keys
    generate_keys-Paired keyset env env' h =
        bind_elim c.age.generate_keypair _ env h λ age env1 made_age h1.
          bind_elim c.pq.mlkem_generate_keypair _ env1 h1 λ kem env2 made_kem h2.
            bind_elim c.pq.mldsa_generate_keypair _ env2 h2 λ dsa env3 made_dsa h3.
              let same = keyset_inj (ap (λ p. p.0) h3) in
              subst Paired same (record {
                age = age_laws.generates age.0 age.1 env env1 made_age;
                kem = pq_laws.generates kem.0 kem.1 env1 env2 made_kem;
              })
      where
        keyset_inj : {a b : GenesisKeySet} → ◌≡◌ {A = Res GenesisKeySet} (ok a) (ok b) → a ≡ b
        keyset_inj e = cc e

  version_ignored :
      (e : HybridEnvelope) (age_identity mlkem_private_key : KeyMaterial)
      → open_envelope c (record e { version = v2_hybrid }) age_identity mlkem_private_key
        ≡ open_envelope c e age_identity mlkem_private_key
  unfolding open_envelope
  version_ignored e age_identity mlkem_private_key = refl

  module _ (pq_laws : PqContract c.pq) (sym_laws : SymLaws c.sym) (sized : FillLaw c) where
    opening-sealing :
        (keyset : GenesisKeySet) (plaintext bytes : Bytes) (env env1 later : E)
        → Paired keyset
        → ((e : HybridEnvelope) (env2 : E)
            → seal c plaintext keyset.age_recipient keyset.mlkem_public_key keyset.signing_key env
              ≡ (ok e, env2)
            → Fits e)
        → sealing c plaintext keyset env ≡ (ok bytes, env1)
        → opening c bytes keyset later ≡ (ok plaintext, later)
    opening-sealing keyset plaintext bytes env env1 later pair fits h =
        bind_elim (seal c plaintext keyset.age_recipient keyset.mlkem_public_key keyset.signing_key)
          _ env h
          λ e env2 sealed h2.
            let opened =
              open_envelope-seal c pq_laws sym_laws sized plaintext keyset.age_recipient
                keyset.mlkem_public_key keyset.signing_key keyset.age_identity
                keyset.mlkem_private_key e env env2 pair.age pair.kem sealed in
            let parsed = rw append-nil at (from_bytes-to_bytes e [] (fits e env2 sealed)) in
            let whole : opening c (to_bytes e) keyset later ≡ (ok plaintext, later) =
              rw (parsed, version_ignored e keyset.age_identity keyset.mlkem_private_key, opened) in
            rw (bytes_inj (ap (λ p. p.0) h2)) at whole
      where
        bytes_inj : {a b : Bytes} → ◌≡◌ {A = Res Bytes} (ok a) (ok b) → a ≡ b
        bytes_inj e = cc e

    -- What `genesis_seal_hybrid` wrote to its out-pointer, `genesis_open_hybrid` on the same key
    -- set turns back into the plaintext, with success and with the runtime as it was. The private
    -- keys of the key set belong to its public keys, the parts of the envelope fit their lengths,
    -- and the crates keep their contracts.
    pub genesis_open_hybrid-genesis_seal_hybrid :
        (keyset : GenesisKeySet) (p : Ptr) (plaintext bytes : Bytes) (result : GenesisResult)
        (rt rt1 : KeyRuntime E)
        → (p == 0) ≡ false
        → rt.keysets p ≡ some keyset
        → Paired keyset
        → ((e : HybridEnvelope) (env2 : E)
            → seal c plaintext keyset.age_recipient keyset.mlkem_public_key keyset.signing_key
                rt.env
              ≡ (ok e, env2)
            → Fits e)
        → genesis_seal_hybrid c p (some plaintext) false rt ≡ some ((result, some bytes), rt1)
        → genesis_open_hybrid c p (some bytes) false rt1
          ≡ some ((success_at (handle_at p StateTag.initialized) none, some plaintext), rt1)
    unfolding genesis_seal_hybrid genesis_open_hybrid borrow
    genesis_open_hybrid-genesis_seal_hybrid keyset p plaintext bytes result rt rt1 not_null held
          pair fits h =
        by_result (sealing c plaintext keyset rt.env).0 refl (rw (not_null, held) at h)
      where
        bytes_some : {a b : Bytes} → ◌≡◌ {A = Option Bytes} (some a) (some b) → a ≡ b
        bytes_some e = cc e

        same_runtime :
            {a b : KeyRuntime E} {x y : GenesisResult × Option Bytes}
            → ◌≡◌ {A = Option ((GenesisResult × Option Bytes) × KeyRuntime E)}
                (some (x, a))
                (some (y, b))
            → a ≡ b
        same_runtime e = cc e

        pair_inj :
            {a b : KeyRuntime E} {x y : GenesisResult × Option Bytes}
            → ◌≡◌ {A = Option ((GenesisResult × Option Bytes) × KeyRuntime E)}
                (some (x, a))
                (some (y, b))
            → x ≡ y
        pair_inj e = cc e

        same_out :
            {a b : KeyRuntime E} {x y : GenesisResult × Option Bytes}
            → ◌≡◌ {A = Option ((GenesisResult × Option Bytes) × KeyRuntime E)}
                (some (x, a))
                (some (y, b))
            → x.1 ≡ y.1
        same_out e = ap (λ z. z.1) (pair_inj e)

        by_result :
            (r : Res Bytes)
            → (sealing c plaintext keyset rt.env).0 ≡ r
            → ◌≡◌ {A = Option ((GenesisResult × Option Bytes) × KeyRuntime E)}
                (some (
                  bytes_result c p "genesis_seal_hybrid" r,
                  record rt { env = (sealing c plaintext keyset rt.env).1 },
                ))
                (some ((result, some bytes), rt1))
            → genesis_open_hybrid c p (some bytes) false rt1
              ≡ some ((success_at (handle_at p StateTag.initialized) none, some plaintext), rt1)
        by_result (ok made) e h' =
            let sealed : sealing c plaintext keyset rt.env
                ≡ (ok made, (sealing c plaintext keyset rt.env).1) =
              λ i. (e i, (sealing c plaintext keyset rt.env).1) in
            let opened =
              opening-sealing keyset plaintext made rt.env (sealing c plaintext keyset rt.env).1
                (sealing c plaintext keyset rt.env).1 pair fits sealed in
            let whole : genesis_open_hybrid c p (some made) false
                  (record rt { env = (sealing c plaintext keyset rt.env).1 })
                ≡ some (
                  (success_at (handle_at p StateTag.initialized) none, some plaintext),
                  record rt { env = (sealing c plaintext keyset rt.env).1 },
                ) =
              rw (not_null, held, opened) in
            let success = success_at (handle_at p StateTag.initialized) none in
            subst
              (λ z.
                genesis_open_hybrid c p (some bytes) false z ≡ some ((success, some plaintext), z))
              (same_runtime h')
              (subst
                (λ z.
                  genesis_open_hybrid c p (some z) false
                    (record rt { env = (sealing c plaintext keyset rt.env).1 })
                  ≡ some (
                    (success, some plaintext),
                    record rt { env = (sealing c plaintext keyset rt.env).1 },
                  ))
                (bytes_some (same_out h')) whole)
        by_result (err x) e h' = cc (same_out h')
        by_result (panicked x) e h' = cc (same_out h')
