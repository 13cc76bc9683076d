-- ===== src/Ffi/Sole.antt =====
-- Calls that each use the handle of the result before: at every moment there is at most one box,
-- that of the last handle. `genesis_free`.
use genesis_operator.Prelude.{
  ◌==◌, true, false, Option, none, some, List, [], ◌∷◌, ◌≡◌, ◌≢◌, refl, sym, ◌∙◌, ◌⊎◌, inl, inr,
  arith, subst, Bool-cases,
}
use genesis_operator.State.{StateTag}
use genesis_operator.Ffi.{and_so, null_handle, Ptr, GenesisHandle, GenesisInner, state_tag}
use genesis_operator.Ffi.Runtime.{Runtime, Ended, done, undefined, enter}
use genesis_operator.Ffi.Calls.{Host}
use genesis_operator.Ffi.Sound.{
  Leads, stays, initializes, begins_bootstrap, injects, begins_rotation, ends_rotation,
}
use genesis_operator.Ffi.Lifecycle.{Call, perform}
use genesis_operator.Ffi.Boxes.{WellFormed, Owns}
use genesis_operator.Ffi.Ownership.{enter-KeepsBoxes}

-- `none` is undefined behaviour.
abbrev pub handle_of : {E : Type 0} → Ended × Runtime E → Option (GenesisHandle × Runtime E)
handle_of (done result, rt) = some (result.handle, rt)
handle_of (undefined, rt) = none

Leads-not_degraded : {s t : StateTag} → Leads s t → s ≢ StateTag.degraded → t ≢ StateTag.degraded
Leads-not_degraded stays h = h
Leads-not_degraded initializes h = λ e. cc e
Leads-not_degraded begins_bootstrap h = λ e. cc e
Leads-not_degraded injects h = λ e. cc e
Leads-not_degraded begins_rotation h = λ e. cc e
Leads-not_degraded ends_rotation h = λ e. cc e

module _ {E : Type 0} where
  -- at most one box, that of the handle, with a machine that is not degraded
  abbrev pub Sole : GenesisHandle × Runtime E → Type 0
  Sole (handle, rt) =
      WellFormed rt
      × ((handle.ptr ≡ 0)
          ⊎ ((inner : GenesisInner E) × Owns rt handle inner
              × (state_tag inner ≢ StateTag.degraded)))
      × ((q : Ptr) → q ≢ handle.ptr → rt.heap q ≡ none)

module _ {E : Type 0} (host : Host E) where
  unfoldable pub run_calls :
      List (Call E) → GenesisHandle × Runtime E → Option (GenesisHandle × Runtime E)
  run_calls [] start = some start
  run_calls (call ∷ rest) start =
      and_so (handle_of (enter (perform host call) start.0 start.1)) (run_calls rest)

  -- one call
  enter-Sole :
      (call : Call E) (handle : GenesisHandle) (rt : Runtime E)
      → Sole (handle, rt)
      → (after : GenesisHandle × Runtime E) × (handle_of (enter (perform host call) handle rt)
          ≡ some after)
        × Sole after
  unfolding enter
  enter-Sole call handle rt (well, inl null, others) =
      let is_null : (handle.ptr == 0) ≡ true = ground arith in
      (
        (null_handle, rt),
        rw is_null,
        (well, inl refl, λ q differ. others q (subst (λ z. q ≢ z) (sym null) differ)),
      )
  enter-Sole call handle rt (well, inr (inner, owns, live), others) =
      let (result, rt', ran, (returned, freed, untouched, well'), _) =
        enter-KeepsBoxes host call handle inner rt well owns in
      (
        (result.handle, rt'),
        rw ran,
        (
          well',
          still _ rt' returned,
          λ q differ.
              elsewhere result.handle rt' freed untouched q differ (Bool-cases (q == handle.ptr)),
        ),
      )
    where
      still :
          (h : GenesisHandle) (r : Runtime E)
          → (h.ptr ≡ 0)
            ⊎ ((i : GenesisInner E) × Owns r h i × Leads (state_tag inner) (state_tag i))
          → (h.ptr ≡ 0) ⊎ ((i : GenesisInner E) × Owns r h i × (state_tag i ≢ StateTag.degraded))
      still h r (inl null) = inl null
      still h r (inr (i, own, leads)) = inr (i, own, Leads-not_degraded leads live)

      elsewhere :
          (h : GenesisHandle) (r : Runtime E)
          → r.heap handle.ptr ≡ none
          → ((q : Ptr) → q ≢ handle.ptr → q ≢ h.ptr → r.heap q ≡ rt.heap q)
          → (q : Ptr) → q ≢ h.ptr
          → ((q == handle.ptr) ≡ true) ⊎ ((q == handle.ptr) ≡ false)
          → r.heap q ≡ none
      elsewhere h r freed untouched q differ (inl same) =
          let e : handle.ptr ≡ q = ground arith in subst (λ z. r.heap z ≡ none) e freed
      elsewhere h r freed untouched q differ (inr other) =
          let e : q ≢ handle.ptr = λ x. ground arith in untouched q e differ ∙ others q e

  pub run_calls-Sole :
      (calls : List (Call E)) (handle : GenesisHandle) (rt : Runtime E)
      → Sole (handle, rt)
      → (after : GenesisHandle × Runtime E) × (run_calls calls (handle, rt) ≡ some after)
        × Sole after
  unfolding run_calls
  run_calls-Sole [] handle rt sole = ((handle, rt), refl, sole)
  run_calls-Sole (call ∷ rest) handle rt sole =
      let (next, ran, sole') = enter-Sole call handle rt sole in
      let (last, ran', sole'') = run_calls-Sole rest next.0 next.1 sole' in
      (last, rw (ran, ran'), sole'')
