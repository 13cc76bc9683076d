-- ===== src/Ffi/Secrecy/Observed.antt =====
-- What the host of the C ABI (ffi.rs) sees: the results of its calls, and everything outside.
use genesis_operator.Prelude.{
  ℕ, ◌==◌, String, Bool, true, false, Option, none, some, List, [], ◌∷◌, ◌≡◌, refl, ap, ◌∙◌,
  if◌then◌else◌,
}
use genesis_operator.KeyMaterial.{KeyMaterial, as_bytes}
use genesis_operator.Outcome.{Ext}
use genesis_operator.Audit.{AuditRecord}
use genesis_operator.State.{StateTag, Genesis}
use genesis_operator.State.Bootstrapping
use genesis_operator.Ffi.{CStr, Ptr, GenesisHandle, GenesisInner, parse_c_str, parse_json, and_then}
use genesis_operator.Ffi.Flow.{Exit, Flow}
use genesis_operator.Ffi.Runtime.{
  Runtime, Ended, done, undefined, put, enter, dropped_inner, genesis_free, genesis_new,
  new_machine, audit_of, freed,
}
use genesis_operator.Ffi.Calls.{Host}
use genesis_operator.Ffi.Lifecycle.{Call, perform}
use genesis_operator.Ffi.Secrecy.{boxed, Opaque, Alike, same, hidden, body-Alike}
use genesis_operator.Ffi.Secrecy.Calls.{perform-Alike}
use genesis_operator.Ffi.Secrecy.Runs.{
  AlikeCell, AlikeHeap, AlikeRuntime, Matching, put-Alike, settle-Alike, enter-Alike,
}

-- what a host may do with the library
pub data Action (E : Type 0) : Type 0 where
  create : CStr → Option (String → E → E) → Action E
  call : Call E → GenesisHandle → Action E
  free : GenesisHandle → Action E

-- the runtime with, at this address, a box that holds this key
abbrev pub holding :
    {E : Type 0}
    → Ptr
    → Option (Genesis E StateTag.bootstrapping)
    → KeyMaterial
    → Runtime E
    → Runtime E
holding p inner key rt = record rt { heap = put rt.heap p (some (boxed inner key)) }

module _ {E : Type 0} (host : Host E) where
  -- what `genesis_free` of a handle comes to
  abbrev free_seen : Runtime E → Option (Runtime E) → Option Ended × Runtime E
  free_seen rt none = (some undefined, rt)
  free_seen rt (some rt') = (none, rt')

  module _ (clock : E → ℕ) (print_record : AuditRecord → Ext String) where
    -- what the host gets back: `genesis_free` returns nothing
    unfoldable pub act : Action E → Runtime E → Option Ended × Runtime E
    act (create config audit_cb) rt =
        let made = genesis_new clock print_record host.serde.read_config config audit_cb rt in
        (some (done made.0), made.1)
    act (call c handle) rt = let ended = enter (perform host c) handle rt in (some ended.0, ended.1)
    act (free handle) rt = free_seen rt (genesis_free handle rt)

    -- all that it gets back, in order
    unfoldable pub observe : List (Action E) → Runtime E → List (Option Ended) × Runtime E
    observe [] rt = ([], rt)
    observe (action ∷ rest) rt =
        let seen = act action rt in let later = observe rest seen.1 in (seen.0 ∷ later.0, later.1)

    dropped-Alike :
        (i j : GenesisInner E)
        → Alike host i j
        → (env : E) → dropped_inner i env ≡ dropped_inner j env
    unfolding Bootstrapping.drop
    dropped-Alike i j same env = refl
    dropped-Alike i j (hidden inner key1 key2 opaque) env = refl

    free-Alike :
        (handle : GenesisHandle) (rt rt' : Runtime E)
        → AlikeRuntime host rt rt'
        → Matching host
            (free_seen rt (genesis_free handle rt))
            (free_seen rt' (genesis_free handle rt'))
    unfolding genesis_free AlikeHeap
    free-Alike handle rt rt' alike = by_null (handle.ptr == 0)
      where
        by_cells :
            (cell cell' : Option (GenesisInner E))
            → AlikeCell host cell cell'
            → Matching host
                (free_seen rt (freed handle.ptr rt cell))
                (free_seen rt' (freed handle.ptr rt' cell'))
        by_cells none none cells = (refl, alike)
        by_cells (some i) (some j) cells = (
          refl,
          record {
            env = dropped-Alike i j cells rt.env ∙ ap (dropped_inner j) alike.env;
            fresh = alike.fresh;
            heap = put-Alike host rt.heap rt'.heap handle.ptr none none alike.heap tt;
          },
        )
        by_cells none (some j) cells = absurd cells
        by_cells (some i) none cells = absurd cells

        opened : Bool → Runtime E → Option Ended × Runtime E
        opened null run =
            free_seen run (if null then some run else freed handle.ptr run (run.heap handle.ptr))

        by_null : (null : Bool) → Matching host (opened null rt) (opened null rt')
        by_null true = (refl, alike)
        by_null false = by_cells (rt.heap handle.ptr) (rt'.heap handle.ptr) (alike.heap handle.ptr)

    -- what `genesis_new` makes
    made : CStr → Option (String → E → E) → Flow E (Exit E)
    made config audit_cb = new_machine (audit_of clock print_record audit_cb) (
        and_then (parse_c_str config)
          (parse_json 500 "invalid config JSON: " host.serde.read_config))

    act-Alike :
        (action : Action E) (rt rt' : Runtime E)
        → AlikeRuntime host rt rt'
        → Matching host (act action rt) (act action rt')
    unfolding act genesis_new made
    act-Alike (create config audit_cb) rt rt' alike =
        let settled =
          settle-Alike host (made config audit_cb) (made config audit_cb) rt rt'
            (body-Alike host (λ env. (made config audit_cb, env)) rt.env).0 alike in
        (ap (λ result. some (done result)) settled.0, settled.1)
    act-Alike (call c handle) rt rt' alike =
        let ended = enter-Alike host (perform host c) handle rt rt' (perform-Alike host c) alike in
        (ap some ended.0, ended.1)
    act-Alike (free handle) rt rt' alike = free-Alike handle rt rt' alike

    observe-Alike :
        (actions : List (Action E)) (rt rt' : Runtime E)
        → AlikeRuntime host rt rt'
        → Matching host (observe actions rt) (observe actions rt')
    unfolding observe
    observe-Alike [] rt rt' alike = (refl, alike)
    observe-Alike (action ∷ rest) rt rt' alike =
        let seen = act-Alike action rt rt' alike in
        let later = observe-Alike rest _ _ seen.1 in ((λ k. seen.0 k ∷ later.0 k), later.1)

    -- The bytes of a held key reach the outside in the body of the request that writes the secret,
    -- and by no other way. Two runtimes differ only in the key that one box holds, and the API
    -- server does the same with both where they are written. Then no list of calls, with any
    -- arguments and any handles, `genesis_new` and `genesis_free` among them, tells the two apart:
    -- the results are the same, error messages included, and so is everything outside, the audit
    -- events among it.
    pub observe_hides :
        (p : Ptr) (inner : Option (Genesis E StateTag.bootstrapping)) (key1 key2 : KeyMaterial)
        (rt : Runtime E) (actions : List (Action E))
        → Opaque host (as_bytes key1) (as_bytes key2)
        → ((observe actions (holding p inner key1 rt)).0
            ≡ (observe actions (holding p inner key2 rt)).0)
          × ((observe actions (holding p inner key1 rt)).1.env
              ≡ (observe actions (holding p inner key2 rt)).1.env)
    unfolding AlikeHeap
    observe_hides p inner key1 key2 rt actions opaque =
        let seen = observe-Alike actions _ _ (record {
          env = refl;
          fresh = refl;
          heap =
              put-Alike host rt.heap rt.heap p (some (boxed inner key1)) (some (boxed inner key2))
                (λ q. cell-Alike (rt.heap q)) (hidden inner key1 key2 opaque);
        }) in
        (seen.0, seen.1.env)
      where
        cell-Alike : (cell : Option (GenesisInner E)) → AlikeCell host cell cell
        cell-Alike none = tt
        cell-Alike (some i) = same
