-- ===== src/Ffi/Secrecy/Runs.antt =====
-- Runtimes (ffi.rs) that differ at most in the bytes of the keys that their machines hold.
use genesis_operator.Prelude.{
  suc, ◌==◌, Bool, true, false, Option, none, some, ◌≡◌, refl, ap, ◌∙◌, subst, if◌then◌else◌,
}
use genesis_operator.Ffi.{Ptr, GenesisHandle, GenesisInner, state_tag, error_result}
use genesis_operator.Ffi.Flow.{Exit, with_handle, without_handle, Flow, next, return, unwinds, Body}
use genesis_operator.Ffi.Runtime.{Runtime, Ended, done, put, inner_to_handle, settle, on_box, enter}
use genesis_operator.Ffi.Calls.{Host}
use genesis_operator.Ffi.Secrecy.{Alike, same, hidden, AlikeExit, AlikeEnd, AlikeBody}

module _ {E : Type 0} (host : Host E) where
  abbrev pub AlikeCell : Option (GenesisInner E) → Option (GenesisInner E) → Type 0
  AlikeCell none none = Unit {0}
  AlikeCell (some i) (some j) = Alike host i j
  AlikeCell _ _ = ⊥

  unfoldable pub AlikeHeap :
      (Ptr → Option (GenesisInner E)) → (Ptr → Option (GenesisInner E)) → Type 0
  AlikeHeap heap heap' = (p : Ptr) → AlikeCell (heap p) (heap' p)

  pub record AlikeRuntime (rt rt' : Runtime E) : Type 0 where
    pub env : rt.env ≡ rt'.env
    pub fresh : rt.fresh ≡ rt'.fresh
    pub heap : AlikeHeap rt.heap rt'.heap

  -- the same result, and runtimes that differ at most in the keys
  abbrev pub Matching : {A : Type 0} → A × Runtime E → A × Runtime E → Type 0
  Matching a b = (a.0 ≡ b.0) × AlikeRuntime a.1 b.1

  pub put-Alike :
      (heap heap' : Ptr → Option (GenesisInner E)) (p : Ptr) (cell cell' : Option (GenesisInner E))
      → AlikeHeap heap heap'
      → AlikeCell cell cell'
      → AlikeHeap (put heap p cell) (put heap' p cell')
  unfolding AlikeHeap
  put-Alike heap heap' p cell cell' heaps cells q = by_test (q == p)
    where
      by_test : (b : Bool) → AlikeCell (if b then cell else heap q) (if b then cell' else heap' q)
      by_test true = cells
      by_test false = heaps q

  state_tag-Alike : (i j : GenesisInner E) → Alike host i j → state_tag i ≡ state_tag j
  state_tag-Alike i j same = refl
  state_tag-Alike i j (hidden inner key1 key2 opaque) = refl

  inner_to_handle-Alike :
      (i j : GenesisInner E) (rt rt' : Runtime E)
      → Alike host i j
      → AlikeRuntime rt rt'
      → ((inner_to_handle i rt).0 ≡ (inner_to_handle j rt').0)
        × AlikeRuntime (inner_to_handle i rt).1 (inner_to_handle j rt').1
  unfolding inner_to_handle
  inner_to_handle-Alike i j rt rt' inners alike = (
    λ k. record { ptr = alike.fresh k; state = state_tag-Alike i j inners k },
    record {
      env = alike.env;
      fresh = ap suc alike.fresh;
      heap =
          subst (λ p. AlikeHeap (put rt.heap rt.fresh (some i)) (put rt'.heap p (some j)))
            alike.fresh (put-Alike rt.heap rt'.heap rt.fresh (some i) (some j) alike.heap inners);
    },
  )

  exit_settled :
      (exit exit' : Exit E) (rt rt' : Runtime E)
      → AlikeExit host exit exit'
      → AlikeRuntime rt rt'
      → ((settle (next exit) rt).0 ≡ (settle (next exit') rt').0)
        × AlikeRuntime (settle (next exit) rt).1 (settle (next exit') rt').1
  unfolding settle
  exit_settled (with_handle i f) (with_handle j g) rt rt' (inners, e) alike =
      let made = inner_to_handle-Alike i j rt rt' inners alike in ((λ k. e k (made.0 k)), made.1)
  exit_settled (without_handle r) (without_handle s) rt rt' e alike = (e, alike)
  exit_settled (with_handle i f) (without_handle s) rt rt' exits alike = absurd exits
  exit_settled (without_handle r) (with_handle j g) rt rt' exits alike = absurd exits

  pub settle-Alike :
      (flow flow' : Flow E (Exit E)) (rt rt' : Runtime E)
      → AlikeEnd host flow flow'
      → AlikeRuntime rt rt'
      → ((settle flow rt).0 ≡ (settle flow' rt').0)
        × AlikeRuntime (settle flow rt).1 (settle flow' rt').1
  unfolding settle
  settle-Alike (next e) (next e') rt rt' ends alike = exit_settled e e' rt rt' ends alike
  settle-Alike (return (with_handle i f)) (return (with_handle j g)) rt rt' ends alike =
      exit_settled (with_handle i f) (with_handle j g) rt rt' ends alike
  settle-Alike (return (without_handle r)) (return (without_handle s)) rt rt' ends alike =
      (ends, alike)
  settle-Alike (return (with_handle i f)) (return (without_handle s)) rt rt' ends alike =
      absurd ends
  settle-Alike (return (without_handle r)) (return (with_handle j g)) rt rt' ends alike =
      absurd ends
  settle-Alike (unwinds m) (unwinds m') rt rt' ends alike = (refl, alike)
  settle-Alike (next e) (return e') rt rt' ends alike = absurd ends
  settle-Alike (next e) (unwinds m) rt rt' ends alike = absurd ends
  settle-Alike (return e) (next e') rt rt' ends alike = absurd ends
  settle-Alike (return e) (unwinds m) rt rt' ends alike = absurd ends
  settle-Alike (unwinds m) (next e) rt rt' ends alike = absurd ends
  settle-Alike (unwinds m) (return e) rt rt' ends alike = absurd ends

  pub enter-Alike :
      (body : GenesisInner E → Body E (Exit E)) (handle : GenesisHandle) (rt rt' : Runtime E)
      → ((i j : GenesisInner E) → Alike host i j → AlikeBody host (body i) (body j))
      → AlikeRuntime rt rt'
      → ((enter body handle rt).0 ≡ (enter body handle rt').0)
        × AlikeRuntime (enter body handle rt).1 (enter body handle rt').1
  unfolding enter AlikeHeap
  enter-Alike body handle rt rt' bodies alike = by_null (handle.ptr == 0)
    where
      by_cells :
          (cell cell' : Option (GenesisInner E))
          → AlikeCell cell cell'
          → Matching (on_box body handle.ptr rt cell) (on_box body handle.ptr rt' cell')
      by_cells none none cells = (refl, alike)
      by_cells (some i) (some j) cells =
          let ends = bodies i j cells rt.env in
          let envs = ends.1 ∙ ap (λ e. (body j e).1) alike.env in
          let taken = put-Alike rt.heap rt'.heap handle.ptr none none alike.heap tt in
          let ended = subst (λ e. AlikeEnd host (body i rt.env).0 (body j e).0) alike.env ends.0 in
          let settled =
            settle-Alike (body i rt.env).0 (body j rt'.env).0 _ _ ended
              (record { env = envs; fresh = alike.fresh; heap = taken }) in
          (ap done settled.0, settled.1)
      by_cells none (some j) cells = absurd cells
      by_cells (some i) none cells = absurd cells

      opened : Bool → Runtime E → Ended × Runtime E
      opened null run =
          if null
          then (done (error_result 1 "null handle pointer"), run)
          else on_box body handle.ptr run (run.heap handle.ptr)

      by_null : (null : Bool) → Matching (opened null rt) (opened null rt')
      by_null true = (refl, alike)
      by_null false = by_cells (rt.heap handle.ptr) (rt'.heap handle.ptr) (alike.heap handle.ptr)
