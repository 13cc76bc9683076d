-- ===== src/Ffi/Keyset/NoLeaks.antt =====
-- Whole sessions with one key set.
use genesis_operator.Prelude.{
  ℕ, suc, ◌≢◌, if◌then◌else◌, ◌==◌, ◌≤◌, true, false, some, List, [], ◌≡◌, refl, String, arith,
}
use genesis_operator.Outcome.{Res, ok, err, panicked}
use genesis_operator.Ffi.Keyset.{
  GenesisKeySet, KeyRuntime, genesis_generate_keyset, with_json, store_keyset,
}
use genesis_operator.Ffi.Keyset.Session.{KeyCall, KeyHost, after_generate, key_session}
use genesis_operator.Ffi.Keyset.Ownership.{
  Holds, Ready, Empty, run_borrowing-Ready, free_locals-Ready, free_keyset-Empty,
}

module _ {E : Type 0} (host : KeyHost E) where
  open host use {crypto, b64, print_json}

  -- after a key set was made
  after_generate-Empty :
      (calls : List KeyCall) (rt : KeyRuntime E) (made : Res (GenesisKeySet × String) × E)
      → 1 ≤ rt.fresh
      → Empty rt
      → (rt' : KeyRuntime E) × (after_generate host calls
            (store_keyset crypto b64 print_json "genesis_generate_keyset" made rt)
          ≡ some rt')
        × Empty rt'
  unfolding after_generate Holds
  after_generate-Empty calls rt (ok (keyset, text), env) fresh empty =
      let made : KeyRuntime E = record rt {
        env = env;
        keysets = λ q. if q == rt.fresh then some keyset else rt.keysets q;
        fresh = suc rt.fresh;
      } in
      let ready : Ready rt.fresh [] made = (
        (λ e. positive rt.fresh fresh e),
        (keyset, let e : (rt.fresh == rt.fresh) ≡ true = ground arith in rw e),
        (λ q differ. let e : (q == rt.fresh) ≡ false = ground arith in rw (e, empty.0 q)),
        empty.1,
        omega arith,
        λ q h. empty.1 q,
      ) in
      let (after, ran, ready') = run_borrowing-Ready host calls rt.fresh [] made ready in
      let (rt', freed, ready'') = free_locals-Ready after.0 rt.fresh after.1 ready' in
      let (last, gone, none_left) = free_keyset-Empty rt.fresh rt' ready'' in
      (last, rw (ran, freed, gone), none_left)
    where
      positive : (n : ℕ) → 1 ≤ n → n ≢ 0
      positive n h e = omega arith
  after_generate-Empty calls rt (err e, env) fresh empty = (record rt { env = env }, refl, empty)
  after_generate-Empty calls rt (panicked m, env) fresh empty =
      (record rt { env = env }, refl, empty)

  -- A session that starts without a key set or a local provider: genesis_generate_keyset, any list
  -- of calls that borrow its key set, genesis_free_local_kms for each local provider that they
  -- made, and genesis_free_keyset. It meets no undefined behaviour and leaves neither a key set nor
  -- a provider, whatever the arguments, the crates and the files do.
  pub key_session-Empty :
      (calls : List KeyCall) (rt : KeyRuntime E)
      → 1 ≤ rt.fresh
      → Empty rt
      → (rt' : KeyRuntime E) × (key_session host calls rt ≡ some rt') × Empty rt'
  unfolding key_session genesis_generate_keyset
  key_session-Empty calls rt fresh empty =
      after_generate-Empty calls rt (with_json crypto b64 print_json rt.env) fresh empty
