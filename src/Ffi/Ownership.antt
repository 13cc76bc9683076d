-- ===== src/Ffi/Ownership.antt =====
-- Who owns the boxes behind the handles: each call of the C ABI frees the box of its handle, makes
-- at most one new one, and touches no other, so a host that uses each handle once meets no
-- undefined behaviour.
use genesis_operator.Prelude.{◌==◌, true, false, ◌≡◌, subst, sym, ap, ◌∙◌, arith}
use genesis_operator.Ffi.{GenesisHandle, GenesisResult, GenesisInner, state_tag}
use genesis_operator.Ffi.Runtime.{Runtime, done, Ended, after_body, enter}
use genesis_operator.Ffi.Calls.{Host}
use genesis_operator.Ffi.Sound.{Consistent}
use genesis_operator.Ffi.Lifecycle.{Call, move_of, perform, perform_sound}
use genesis_operator.Ffi.Boxes.{WellFormed, Owns, KeepsBoxes, Reached, settled}

module _ {E : Type 0} (host : Host E) where
  -- what a call on a handle that owns a box with this machine ends with
  abbrev Entered :
      Call E → GenesisHandle → GenesisInner E → Runtime E → GenesisResult → Runtime E → Type 0
  Entered call handle inner rt result rt' =
      (enter (perform host call) handle rt ≡ (done result, rt'))
      × KeepsBoxes (state_tag inner) handle.ptr rt result.handle rt'
      × Consistent result
      × (result.success ≡ true → Reached (move_of call) (state_tag inner) rt' result.handle)

  enter-Entered :
      (call : Call E) (handle : GenesisHandle) (inner : GenesisInner E) (rt : Runtime E)
      → WellFormed rt
      → Owns rt handle inner
      → (result : GenesisResult) × (rt' : Runtime E) × Entered call handle inner rt result rt'
  unfolding enter
  enter-Entered call handle inner rt well owns =
      let not_null : (handle.ptr == 0) ≡ false = ground (arith, well, owns) in
      let run = perform host call inner rt.env in
      let fact =
        settled (state_tag inner) (move_of call) rt handle.ptr inner run.0 run.1 well owns.0
          (perform_sound host call inner rt.env) in
      (
        (after_body rt handle.ptr run).0,
        (after_body rt handle.ptr run).1,
        (rw (not_null, owns.0), fact.0, fact.1, fact.2),
      )

  -- A call on a handle that owns a box, with any arguments and any answers of the outside: it ends
  -- with a result, also where the code inside panics; the box of the handle is freed; the handle in
  -- the result is null or owns a box with a machine whose state the old one leads to in the
  -- lifecycle; no other box is touched; the error code is 0 exactly where the result says success.
  pub enter-KeepsBoxes :
      (call : Call E) (handle : GenesisHandle) (inner : GenesisInner E) (rt : Runtime E)
      → WellFormed rt
      → Owns rt handle inner
      → (result : GenesisResult) × (rt' : Runtime E) × (enter (perform host call) handle rt
          ≡ (done result, rt'))
        × KeepsBoxes (state_tag inner) handle.ptr rt result.handle rt'
        × Consistent result
  enter-KeepsBoxes call handle inner rt well owns =
      let (result, rt', (ran, keeps, consistent, reached)) =
        enter-Entered call handle inner rt well owns in
      (result, rt', ran, keeps, consistent)

  -- A call on a handle that owns a box, where it ends with a result that says success: the machine
  -- was in the state that the entry point asks for, and the handle of the result owns a box with a
  -- machine in the state that the entry point leads to.
  pub enter-Reached :
      (call : Call E) (handle : GenesisHandle) (inner : GenesisInner E) (rt rt' : Runtime E)
      (result : GenesisResult)
      → WellFormed rt
      → Owns rt handle inner
      → enter (perform host call) handle rt ≡ (done result, rt')
      → result.success ≡ true
      → Reached (move_of call) (state_tag inner) rt' result.handle
  enter-Reached call handle inner rt rt' result well owns ran success =
      let (result2, rt2, (ran2, keeps, consistent, reached)) =
        enter-Entered call handle inner rt well owns in
      same_end result2 rt2 (sym ran2 ∙ ran) reached
    where
      same_end :
          (result2 : GenesisResult) (rt2 : Runtime E)
          → ◌≡◌ {A = Ended × Runtime E} (done result2, rt2) (done result, rt')
          → (result2.success ≡ true → Reached (move_of call) (state_tag inner) rt2 result2.handle)
          → Reached (move_of call) (state_tag inner) rt' result.handle
      same_end result2 rt2 same reached =
          let e : result2 ≡ result = cc same in
          let e' : rt2 ≡ rt' = cc same in
          subst (λ z. Reached (move_of call) (state_tag inner) z result.handle) e'
            (subst (λ z. Reached (move_of call) (state_tag inner) rt2 z.handle) e
              (reached (ap (λ z. z.success) e ∙ success)))
