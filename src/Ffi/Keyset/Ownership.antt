-- ===== src/Ffi/Keyset/Ownership.antt =====
-- Who owns the key set and the local providers of a session: a call that borrows the key set leaves
-- it in place, and makes at most one local provider, at a new address.
use genesis_operator.Prelude.{
  ℕ, suc, ◌==◌, ◌≤◌, if◌then◌else◌, Bool, Bool-cases, true, false, Option, none, some, List, [],
  ◌∷◌, ◌≡◌, ◌≢◌, refl, sym, ap, subst, inl, inr, ◌⊎◌, String, arith,
}
use genesis_operator.Errors.{kms_call_failed}
use genesis_operator.Outcome.{Res, ok, err, panicked, Eff}
use genesis_operator.Kms.Local.{LocalKmsProvider}
use genesis_operator.Ffi.{Ptr, GenesisResult}
use genesis_operator.Ffi.Keyset.{GenesisKeySet, KeyRuntime}
use genesis_operator.Ffi.Keyset.Calls.{
  borrow, finish, bytes_result, text_result, store_local, stored, genesis_seal_hybrid,
  genesis_open_hybrid, genesis_get_public_keys, genesis_export_age_identity, genesis_init_local,
  genesis_generate_local, genesis_free_local_kms, genesis_free_keyset,
}
use genesis_operator.Ffi.Keyset.Session.{
  KeyCall, seal_hybrid, open_hybrid, get_public_keys, export_age_identity, init_local,
  generate_local, KeyHost, forget, new_local, borrowing, run_borrowing, free_locals,
}

abbrev pub without : {A : Type 0} → Ptr → (Ptr → Option A) → Ptr → Option A
without p cells q = if q == p then none else cells q

-- freeing these addresses, one after the other, meets a provider at each and leaves none
unfoldable pub Holds : List Ptr → (Ptr → Option LocalKmsProvider) → Type 0
Holds [] locals = (q : Ptr) → locals q ≡ none
Holds (p ∷ ps) locals =
    (p ≢ 0) × ((local : LocalKmsProvider) × (locals p ≡ some local)) × Holds ps (without p locals)

module _ {E : Type 0} where
  -- one key set, at p, and the local providers of the list
  abbrev pub Ready : Ptr → List Ptr → KeyRuntime E → Type 0
  Ready p ps rt =
      (p ≢ 0)
      × ((keyset : GenesisKeySet) × (rt.keysets p ≡ some keyset))
      × ((q : Ptr) → q ≢ p → rt.keysets q ≡ none)
      × Holds ps rt.locals
      × (1 ≤ rt.fresh)
      × ((q : Ptr) → rt.fresh ≤ q → rt.locals q ≡ none)

  abbrev At : KeyRuntime E → E → KeyRuntime E
  At rt env = record rt { env = env }

  borrow_ends :
      {A : Type 0} (null : Bool) (p : Ptr) (body : GenesisKeySet → Eff E A) (ps : List Ptr)
      (rt : KeyRuntime E)
      → Ready p ps rt
      → (r : Res A) × (env : E) × (borrow null p body rt ≡ some (r, At rt env))
  unfolding borrow
  borrow_ends null p body ps rt (not_null, (keyset, here), _, _, _, _) = by_null null (ground arith)
    where
      by_null :
          (b : Bool)
          → (p == 0) ≡ false
          → (r : Res _) × (env : E) × (borrow b p body rt ≡ some (r, At rt env))
      by_null true h = (err (kms_call_failed "null pointer"), rt.env, rw h)
      by_null false h = ((body keyset rt.env).0, (body keyset rt.env).1, rw (h, here))

  -- a new local provider
  without-added :
      (rt : KeyRuntime E) (local : LocalKmsProvider)
      → ((q : Ptr) → rt.fresh ≤ q → rt.locals q ≡ none)
      → without rt.fresh (λ q. if q == rt.fresh then some local else rt.locals q) ≡ rt.locals
  without-added rt local above i q = same q (Bool-cases (q == rt.fresh)) i
    where
      same :
          (q : Ptr)
          → ((q == rt.fresh) ≡ true) ⊎ ((q == rt.fresh) ≡ false)
          → without rt.fresh (λ q. if q == rt.fresh then some local else rt.locals q) q
            ≡ rt.locals q
      same q (inl h) = rw (h, above q (ground arith))
      same q (inr h) = rw h

  added_Ready :
      (p : Ptr) (ps : List Ptr) (rt : KeyRuntime E) (local : LocalKmsProvider)
      → Ready p ps rt
      → Ready p (rt.fresh ∷ ps) (record rt {
        locals = λ q. if q == rt.fresh then some local else rt.locals q;
        fresh = suc rt.fresh;
      })
  unfolding Holds
  added_Ready p ps rt local (not_null, keyset, others, holds, fresh, above) = (
    not_null,
    keyset,
    others,
    (
      positive rt.fresh fresh,
      (local, (let e : (rt.fresh == rt.fresh) ≡ true = ground arith in rw e)),
      subst (Holds ps) (sym (without-added rt local above)) holds,
    ),
    omega arith,
    λ q h. let e : (q == rt.fresh) ≡ false = ground arith in rw (e, above q (omega arith)),
  )
    where
      positive : (n : ℕ) → 1 ≤ n → n ≢ 0
      positive n h e = omega arith

module _ {E : Type 0} (host : KeyHost E) where
  open host use {crypto, fs, b64, print_json, utf8}

  store_local-Ready :
      (name : String) (p : Ptr) (ps : List Ptr) (rt : KeyRuntime E) (r : Res LocalKmsProvider)
      → Ready p ps rt
      → Ready p
          (if (store_local crypto fs name r rt).0.success
            then (store_local crypto fs name r rt).0.handle.ptr ∷ ps
            else ps)
          (store_local crypto fs name r rt).1
  store_local-Ready name p ps rt (ok local) ready = added_Ready p ps rt local ready
  store_local-Ready name p ps rt (err e) ready = ready
  store_local-Ready name p ps rt (panicked m) ready = ready

  -- the call ends, and leaves the key set and the providers in place
  abbrev Keeps : KeyCall → Ptr → List Ptr → KeyRuntime E → Type 0
  Keeps call p ps rt =
      (after : GenesisResult × KeyRuntime E) × (borrowing host call p rt ≡ some after)
      × Ready p (new_local call after.0 ps) after.1

  borrowing-Keeps :
      (call : KeyCall) (p : Ptr) (ps : List Ptr) (rt : KeyRuntime E)
      → Ready p ps rt
      → Keeps call p ps rt
  unfolding borrowing genesis_seal_hybrid genesis_open_hybrid genesis_get_public_keys
      genesis_export_age_identity genesis_init_local genesis_generate_local
  borrowing-Keeps (seal_hybrid plaintext null_out) p ps rt ready =
      let (r, env, ran) = borrow_ends _ p _ ps rt ready in
      (_, ap (λ z. forget (finish (bytes_result crypto p "genesis_seal_hybrid") z)) ran, ready)
  borrowing-Keeps (open_hybrid envelope null_out) p ps rt ready =
      let (r, env, ran) = borrow_ends _ p _ ps rt ready in
      (_, ap (λ z. forget (finish (bytes_result crypto p "genesis_open_hybrid") z)) ran, ready)
  borrowing-Keeps get_public_keys p ps rt ready =
      let (r, env, ran) = borrow_ends _ p _ ps rt ready in
      (_, ap (finish (text_result p "genesis_get_public_keys")) ran, ready)
  borrowing-Keeps export_age_identity p ps rt ready =
      let (r, env, ran) = borrow_ends _ p _ ps rt ready in
      (_, ap (finish (text_result p "genesis_export_age_identity")) ran, ready)
  borrowing-Keeps (init_local path) p ps rt ready =
      let (r, env, ran) = borrow_ends _ p _ ps rt ready in
      (
        _,
        ap (stored crypto fs "genesis_init_local") ran,
        store_local-Ready "genesis_init_local" p ps (At rt env) r ready,
      )
  borrowing-Keeps (generate_local path config) p ps rt ready =
      let (r, env, ran) = borrow_ends _ p _ ps rt ready in
      (
        _,
        ap (stored crypto fs "genesis_generate_local") ran,
        store_local-Ready "genesis_generate_local" p ps (At rt env) r ready,
      )

  pub run_borrowing-Ready :
      (calls : List KeyCall) (p : Ptr) (ps : List Ptr) (rt : KeyRuntime E)
      → Ready p ps rt
      → (after : List Ptr × KeyRuntime E) × (run_borrowing host calls p (ps, rt) ≡ some after)
        × Ready p after.0 after.1
  unfolding run_borrowing
  run_borrowing-Ready [] p ps rt ready = ((ps, rt), refl, ready)
  run_borrowing-Ready (call ∷ rest) p ps rt ready =
      let (after, ran, ready') = borrowing-Keeps call p ps rt ready in
      let (last, ran', ready'') =
        run_borrowing-Ready rest p (new_local call after.0 ps) after.1 ready' in
      (last, rw (ran, ran'), ready'')

module _ {E : Type 0} where
  -- each provider is freed, and the key set stays
  pub free_locals-Ready :
      (ps : List Ptr) (p : Ptr) (rt : KeyRuntime E)
      → Ready p ps rt
      → (rt' : KeyRuntime E) × (free_locals ps rt ≡ some rt') × Ready p [] rt'
  unfolding free_locals Holds genesis_free_local_kms
  free_locals-Ready [] p rt ready = (rt, refl, ready)
  free_locals-Ready (one ∷ rest) p rt
        (not_null, keyset, others, (one_not_null, (local, here), holds), fresh, above) =
      let nonzero : (one == 0) ≡ false = ground arith in
      let freed = record rt { locals = without one rt.locals } in
      let (rt', ran, ready) =
        free_locals-Ready rest p freed
          (not_null, keyset, others, holds, fresh, λ q h. still_none q (above q h)) in
      (rt', rw (nonzero, here, ran), ready)
    where
      still_none : (q : Ptr) → rt.locals q ≡ none → without one rt.locals q ≡ none
      still_none q h = elim (Bool-cases (q == one)) [
        | inl same ↦ rw same
        | inr other ↦ rw (other, h)
      ]

  -- no key set and no provider
  abbrev pub Empty : KeyRuntime E → Type 0
  Empty rt = ((q : Ptr) → rt.keysets q ≡ none) × ((q : Ptr) → rt.locals q ≡ none)

  pub free_keyset-Empty :
      (p : Ptr) (rt : KeyRuntime E)
      → Ready p [] rt
      → (rt' : KeyRuntime E) × (genesis_free_keyset p rt ≡ some rt') × Empty rt'
  unfolding genesis_free_keyset Holds
  free_keyset-Empty p rt (not_null, (keyset, here), others, holds, fresh, above) =
      let nonzero : (p == 0) ≡ false = ground arith in
      (
        record rt { keysets = without p rt.keysets },
        rw (nonzero, here),
        ((λ q. gone q (Bool-cases (q == p))), holds),
      )
    where
      gone : (q : Ptr) → ((q == p) ≡ true) ⊎ ((q == p) ≡ false) → without p rt.keysets q ≡ none
      gone q (inl same) = rw same
      gone q (inr other) = rw other (others q (λ e. ground arith))
