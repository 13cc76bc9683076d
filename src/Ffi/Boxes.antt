-- ===== src/Ffi/Boxes.antt =====
-- The boxes behind the handles, and what the end of a body does to them: it frees the box of its
-- handle and makes at most one new one.
use genesis_operator.Prelude.{
  ℕ, suc, ◌≤◌, ◌<◌, ◌==◌, true, false, Option, none, some, ◌≡◌, ◌≢◌, subst, Bool-cases, refl, sym,
  ◌∙◌, ◌⊎◌, inl, inr, arith,
}
use genesis_operator.State.{StateTag}
use genesis_operator.Ffi.{Ptr, GenesisHandle, GenesisResult, GenesisInner, state_tag}
use genesis_operator.Ffi.Flow.{Exit, with_handle, without_handle, Flow, next, return, unwinds}
use genesis_operator.Ffi.Runtime.{Runtime, put, inner_to_handle, settle, after_body}
use genesis_operator.Ffi.Moves.{Move, Moved}
use genesis_operator.Ffi.Sound.{Leads, Consistent, SoundExit, SoundEnd}

module _ {E : Type 0} where
  -- a runtime whose boxes are all below the next address, and none at the null address
  abbrev pub WellFormed : Runtime E → Type 0
  WellFormed rt =
      (1 ≤ rt.fresh) × ((p : Ptr) → rt.fresh ≤ p → rt.heap p ≡ none) × (rt.heap 0 ≡ none)

  -- the handle stands for a box, in whose state it is
  abbrev pub Owns : Runtime E → GenesisHandle → GenesisInner E → Type 0
  Owns rt handle inner = (rt.heap handle.ptr ≡ some inner) × (handle.state ≡ state_tag inner)

  -- What a call leaves of the handle that its result carries: it is null, or stands for a box with
  -- a machine in a state that the lifecycle allows.
  abbrev pub Returned : StateTag → Runtime E → GenesisHandle → Type 0
  Returned s rt handle =
      (handle.ptr ≡ 0)
      ⊎ ((inner : GenesisInner E) × Owns rt handle inner × Leads s (state_tag inner))

  -- what success says of the handle: it stands for a box with a machine in the state of the move
  abbrev pub Reached : Move → StateTag → Runtime E → GenesisHandle → Type 0
  Reached move s rt handle =
      (inner : GenesisInner E) × Owns rt handle inner × Moved move s (state_tag inner)

  -- the boxes of the others
  abbrev pub Untouched : Runtime E → Runtime E → Ptr → Ptr → Type 0
  Untouched rt rt' p p' = (q : Ptr) → q ≢ p → q ≢ p' → rt'.heap q ≡ rt.heap q

  -- what a call keeps to, for the handle that its result carries
  abbrev pub KeepsBoxes : StateTag → Ptr → Runtime E → GenesisHandle → Runtime E → Type 0
  KeepsBoxes s p rt handle rt' =
      Returned s rt' handle × (rt'.heap p ≡ none) × Untouched rt rt' p handle.ptr × WellFormed rt'

  pub put-same :
      (heap : Ptr → Option (GenesisInner E)) (p : Ptr) (cell : Option (GenesisInner E))
      → put heap p cell p ≡ cell
  put-same heap p cell = let same : (p == p) ≡ true = ground arith in rw same

  pub put-other :
      (heap : Ptr → Option (GenesisInner E)) (p q : Ptr) (cell : Option (GenesisInner E))
      → q ≢ p
      → put heap p cell q ≡ heap q
  put-other heap p q cell differ = let other : (q == p) ≡ false = ground arith in rw other

  below_fresh :
      (rt : Runtime E) (p : Ptr) (inner : GenesisInner E)
      → WellFormed rt
      → rt.heap p ≡ some inner
      → p < rt.fresh
  below_fresh rt p inner well owned = ground (arith, well.1 p)

  put-none :
      (heap : Ptr → Option (GenesisInner E)) (p q : Ptr) → heap q ≡ none → put heap p none q ≡ none
  put-none heap p q h = elim (Bool-cases (q == p)) [
    | inl same ↦ rw same
    | inr other ↦ rw (other, h)
  ]

  -- the box is freed, and no other is made
  freed_box :
      (s : StateTag) (rt : Runtime E) (p : Ptr) (env : E) (handle : GenesisHandle)
      → WellFormed rt
      → handle.ptr ≡ 0
      → KeepsBoxes s p rt handle (record rt { env = env; heap = put rt.heap p none })
  freed_box s rt p env handle well null = (
    inl null,
    put-same rt.heap p none,
    λ q differ _. put-other rt.heap p q none differ,
    (well.0, λ q above. put-none rt.heap p q (well.1 q above), put-none rt.heap p 0 well.2),
  )

  -- and one is made
  new_box :
      (s : StateTag) (rt : Runtime E) (p : Ptr) (inner old : GenesisInner E) (env : E)
      → WellFormed rt
      → rt.heap p ≡ some old
      → Leads s (state_tag inner)
      → KeepsBoxes s p rt
          (record { ptr = rt.fresh; state = state_tag inner })
          (record rt {
            env = env;
            heap = put (put rt.heap p none) rt.fresh (some inner);
            fresh = suc rt.fresh;
          })
  new_box s rt p inner old env well owned leads =
      let below = below_fresh rt p old well owned in
      let heap1 = put rt.heap p none in
      (
        inr (inner, (put-same heap1 rt.fresh (some inner), refl), leads),
        put-other heap1 rt.fresh p (some inner) (ground arith) ∙ put-same rt.heap p none,
        λ q differ differ'.
            put-other heap1 rt.fresh q (some inner) differ' ∙ put-other rt.heap p q none differ,
        (
          omega arith,
          λ q above.
              put-other heap1 rt.fresh q (some inner) (ground arith)
              ∙ put-none rt.heap p q (well.1 q (omega arith)),
          put-other heap1 rt.fresh 0 (some inner) (zero_differs rt.fresh well.0)
              ∙ put-none rt.heap p 0 well.2,
        ),
      )
    where
      zero_differs : (n : ℕ) → 1 ≤ n → 0 ≢ n
      zero_differs n h e = omega arith

  boxed :
      (s : StateTag) (move : Move) (rt : Runtime E) (p : Ptr) (inner old : GenesisInner E)
      (f : GenesisHandle → GenesisResult) (env : E)
      → WellFormed rt
      → rt.heap p ≡ some old
      → SoundExit s move (with_handle inner f)
      → KeepsBoxes s p rt
          (f (record { ptr = rt.fresh; state = state_tag inner })).handle
          (record rt {
            env = env;
            heap = put (put rt.heap p none) rt.fresh (some inner);
            fresh = suc rt.fresh;
          })
        × Consistent (f (record { ptr = rt.fresh; state = state_tag inner }))
        × ((f (record { ptr = rt.fresh; state = state_tag inner })).success ≡ true
            → Reached move s
                (record rt {
                  env = env;
                  heap = put (put rt.heap p none) rt.fresh (some inner);
                  fresh = suc rt.fresh;
                })
                (f (record { ptr = rt.fresh; state = state_tag inner })).handle)
  boxed s move rt p inner old f env well owned h =
      let handle : GenesisHandle = record { ptr = rt.fresh; state = state_tag inner } in
      let rt' : Runtime E = record rt {
        env = env;
        heap = put (put rt.heap p none) rt.fresh (some inner);
        fresh = suc rt.fresh;
      } in
      (
        subst (λ z. KeepsBoxes s p rt z rt') (sym (h.1 handle).0)
            (new_box s rt p inner old env well owned h.0),
        (h.1 handle).1,
        λ success.
            subst (λ z. Reached move s rt' z) (sym (h.1 handle).0)
              (
                inner,
                (put-same (put rt.heap p none) rt.fresh (some inner), refl),
                (h.1 handle).2 success,
              ),
      )

  pub settled :
      (s : StateTag) (move : Move) (rt : Runtime E) (p : Ptr) (inner : GenesisInner E)
      (flow : Flow E (Exit E)) (env : E)
      → WellFormed rt
      → rt.heap p ≡ some inner
      → SoundEnd s move flow
      → KeepsBoxes s p rt (after_body rt p (flow, env)).0.handle (after_body rt p (flow, env)).1
        × Consistent (after_body rt p (flow, env)).0
        × ((after_body rt p (flow, env)).0.success ≡ true
            → Reached move s (after_body rt p (flow, env)).1 (after_body rt p (flow, env)).0.handle)
  unfolding settle inner_to_handle
  settled s move rt p old (next (with_handle inner f)) env well owned h =
      boxed s move rt p inner old f env well owned h
  settled s move rt p old (next (without_handle result)) env well owned h =
      (freed_box s rt p env result.handle well h.0, h.1, λ e. cc (e, h.2))
  settled s move rt p old (return (with_handle inner f)) env well owned h =
      boxed s move rt p inner old f env well owned h
  settled s move rt p old (return (without_handle result)) env well owned h =
      (freed_box s rt p env result.handle well h.0, h.1, λ e. cc (e, h.2))
  settled s move rt p old (unwinds message) env well owned h =
      (freed_box s rt p env _ well refl, refl, λ e. cc e)
