-- ===== src/Ffi/Protocol.antt =====
-- The protocol of the C ABI as an abstract automaton, and the sessions in which each call succeeds.
use genesis_operator.Prelude.{
  Bool, true, false, Option, none, some, List, [], ◌∷◌, map, ◌≡◌, refl, sym, ◌∙◌, ap, subst,
}
use mathlib.Core.List.{Memᴰ}
use mathlib.Core.List.Memᴰ.{head, tail}
use genesis_operator.State.{StateTag}
use genesis_operator.Ffi.{and_so, GenesisHandle, GenesisResult, GenesisInner, state_tag}
use genesis_operator.Ffi.Runtime.{Runtime, Ended, done, undefined, enter}
use genesis_operator.Ffi.Calls.{Host}
use genesis_operator.Ffi.Moves.{Move, inject_move}
use genesis_operator.Ffi.Lifecycle.{Call, move_of, perform}
use genesis_operator.Ffi.Boxes.{WellFormed, Owns}
use genesis_operator.Ffi.Ownership.{enter-KeepsBoxes, enter-Reached}

-- the moves lead from the one state to the other, each from where the one before it ended
pub data Route : StateTag → List Move → StateTag → Type 0 where
  ended : {s : StateTag} → Route s [] s
  moves :
      {t : StateTag} (move : Move) {rest : List Move}
      → Route move.to rest t
      → Route move.from (move ∷ rest) t

module _ {E : Type 0} where
  abbrev pub answered : Bool → GenesisHandle × Runtime E → Option (GenesisHandle × Runtime E)
  answered true after = some after
  answered false after = none

  -- `none` is a call that does not report success
  abbrev pub success_of : Ended × Runtime E → Option (GenesisHandle × Runtime E)
  success_of (done result, rt) = answered result.success (result.handle, rt)
  success_of (undefined, rt) = none

module _ {E : Type 0} (host : Host E) where
  -- the calls, each on the handle of the result before, up to the first that fails
  unfoldable pub run_successes :
      List (Call E) → GenesisHandle × Runtime E → Option (GenesisHandle × Runtime E)
  run_successes [] start = some start
  run_successes (call ∷ rest) start =
      and_so (success_of (enter (perform host call) start.0 start.1)) (run_successes rest)

  -- the last handle owns a box, to whose machine the moves of the calls lead
  abbrev pub Arrives : StateTag → List (Call E) → GenesisHandle × Runtime E → Type 0
  Arrives s calls after =
      (last : GenesisInner E) × Owns after.1 after.0 last
      × Route s (map move_of calls) (state_tag last)

  first_succeeds :
      (calls : List (Call E)) (result : GenesisResult) (rt : Runtime E)
      (after : GenesisHandle × Runtime E)
      → and_so (success_of (done result, rt)) (run_successes calls) ≡ some after
      → (result.success ≡ true) × (run_successes calls (result.handle, rt) ≡ some after)
  first_succeeds calls result rt after h = by_success result.success refl
    where
      by_success :
          (b : Bool)
          → result.success ≡ b
          → (result.success ≡ true) × (run_successes calls (result.handle, rt) ≡ some after)
      by_success true e = (
        e,
        subst (λ b. and_so (answered b (result.handle, rt)) (run_successes calls) ≡ some after) e h,
      )
      by_success false e = absurd (
          cc (
            subst (λ b. and_so (answered b (result.handle, rt)) (run_successes calls) ≡ some after)
              e h))

  -- A session of calls that all report success, begun with a handle that owns a box: the moves of
  -- the calls form a path of the automaton from the state of the first machine to that of the
  -- machine which the last handle owns.
  pub run_successes-Arrives :
      (calls : List (Call E)) (handle : GenesisHandle) (inner : GenesisInner E) (rt : Runtime E)
      (after : GenesisHandle × Runtime E)
      → WellFormed rt
      → Owns rt handle inner
      → run_successes calls (handle, rt) ≡ some after
      → Arrives (state_tag inner) calls after
  unfolding run_successes
  run_successes-Arrives [] handle inner rt after well owns h =
      let e : ◌≡◌ {A = GenesisHandle × Runtime E} (handle, rt) after = cc h in
      (inner, subst (λ z. Owns z.1 z.0 inner) e owns, ended)
  run_successes-Arrives (call ∷ rest) handle inner rt after well owns h =
      let (result, rt', ran, (_, _, _, well'), _) =
        enter-KeepsBoxes host call handle inner rt well owns in
      let (success, later) =
        first_succeeds rest result rt' after
          (subst (λ z. and_so (success_of z) (run_successes rest) ≡ some after) ran h) in
      let (inner', owns', (was, is)) =
        enter-Reached host call handle inner rt rt' result well owns ran success in
      let (last, owned, path) =
        run_successes-Arrives rest result.handle inner' rt' after well' owns' later in
      let path' = subst (λ z. Route z (map move_of rest) (state_tag last)) is path in
      (
        last,
        owned,
        subst (λ z. Route z (map move_of (call ∷ rest)) (state_tag last)) (sym was)
            (moves (move_of call) path'),
      )

-- the states before the cluster has its secrets
unfoldable pub before_active : StateTag → Bool
before_active StateTag.uninitialized = true
before_active StateTag.initialized = true
before_active StateTag.bootstrapping = true
before_active _ = false

Route-injects :
    {E : Type 0} {s t : StateTag} (calls : List (Call E))
    → Route s (map move_of calls) t
    → before_active s ≡ true
    → before_active t ≡ false
    → Memᴰ inject_move (map move_of calls)
unfolding before_active move_of
Route-injects [] ended early late = absurd (cc (early, late))
Route-injects (Call.init _ ∷ rest) (moves _ path) early late =
    tail (Route-injects rest path refl late)
Route-injects (Call.load _ _ ∷ rest) (moves _ path) early late =
    tail (Route-injects rest path refl late)
Route-injects (Call.verify _ _ ∷ rest) (moves _ path) early late =
    tail (Route-injects rest path refl late)
Route-injects (Call.begin_bootstrap _ ∷ rest) (moves _ path) early late =
    tail (Route-injects rest path refl late)
Route-injects (Call.inject_secret _ _ _ _ _ ∷ rest) path early late = head refl
Route-injects (Call.inject_secrets _ ∷ rest) path early late = head refl
Route-injects (Call.status _ ∷ rest) (moves _ path) early late = absurd (cc early)
Route-injects (Call.begin_rotation ∷ rest) (moves _ path) early late = absurd (cc early)
Route-injects (Call.abort_rotation ∷ rest) (moves _ path) early late = absurd (cc early)
Route-injects (Call.complete_rotation _ _ _ _ _ _ ∷ rest) (moves _ path) early late =
    absurd (cc early)

module _ {E : Type 0} (host : Host E) where
  -- A session of calls that all report success, from a machine that is uninitialized, initialized
  -- or bootstrapping to one that is in none of these states, contains a call that injects the
  -- secrets.
  pub activation-injects :
      (calls : List (Call E)) (handle : GenesisHandle) (inner last : GenesisInner E)
      (rt : Runtime E) (after : GenesisHandle × Runtime E)
      → WellFormed rt
      → Owns rt handle inner
      → run_successes host calls (handle, rt) ≡ some after
      → Owns after.1 after.0 last
      → before_active (state_tag inner) ≡ true
      → before_active (state_tag last) ≡ false
      → Memᴰ inject_move (map move_of calls)
  activation-injects calls handle inner last rt after well owns ran owns' early late =
      let (last', owned, path) =
        run_successes-Arrives host calls handle inner rt after well owns ran in
      let e : last' ≡ last = cc (owned.0, owns'.0) in
      Route-injects calls path early (ap (λ z. before_active (state_tag z)) e ∙ late)
