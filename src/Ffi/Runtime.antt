-- ===== src/Ffi/Runtime.antt =====
-- The boxes behind the handles: `take_inner`, `inner_to_handle`, `genesis_new`, `genesis_free`, and
-- how an entry point runs on a handle. The allocator gives addresses that were never used, from 1
-- on.
use genesis_operator.Prelude.{ℕ, suc, ◌==◌, String, Option, none, some, if◌then◌else◌}
use genesis_operator.Outcome.{Ext}
use genesis_operator.Audit.{AuditSink, null_audit_sink, ffi_audit_sink, AuditRecord}
use genesis_operator.State.{GenesisConfig}
use genesis_operator.State.Operations
use genesis_operator.State.Bootstrapping
use genesis_operator.Ffi.{
  CStr, Ptr, GenesisHandle, GenesisResult, GenesisInner, uninitialized, bootstrapping, state_tag,
  Parsed, parsed, refused, and_then, parse_json, parse_c_str, error_result, success_result,
  panic_result,
}
use genesis_operator.Ffi.Flow.{Exit, with_handle, without_handle, Flow, next, return, unwinds, Body}

pub record Runtime (E : Type 0) : Type 0 where
  pub env : E
  pub heap : Ptr → Option (GenesisInner E)
  pub fresh : ℕ

-- A call ends with a result, or uses an address that no box has, which is undefined behaviour.
pub data Ended : Type 0 where
  done : GenesisResult → Ended
  undefined : Ended

module _ {E : Type 0} where
  abbrev pub put :
      (Ptr → Option (GenesisInner E))
      → Ptr
      → Option (GenesisInner E)
      → Ptr
      → Option (GenesisInner E)
  put heap p cell q = if q == p then cell else heap q

  unfoldable pub inner_to_handle : GenesisInner E → Runtime E → GenesisHandle × Runtime E
  inner_to_handle inner rt = (
    record { ptr = rt.fresh; state = state_tag inner },
    record rt { heap = put rt.heap rt.fresh (some inner); fresh = suc rt.fresh },
  )

  -- the end of an entry point, with what `catch_unwind` makes of a panic
  unfoldable pub settle : Flow E (Exit E) → Runtime E → GenesisResult × Runtime E
  settle (next (with_handle inner f)) rt =
      (f (inner_to_handle inner rt).0, (inner_to_handle inner rt).1)
  settle (next (without_handle result)) rt = (result, rt)
  settle (return (with_handle inner f)) rt =
      (f (inner_to_handle inner rt).0, (inner_to_handle inner rt).1)
  settle (return (without_handle result)) rt = (result, rt)
  settle (unwinds message) rt = (panic_result, rt)

  abbrev pub after_body : Runtime E → Ptr → Flow E (Exit E) × E → GenesisResult × Runtime E
  after_body rt p (flow, env) = settle flow (record rt { env = env; heap = put rt.heap p none })

  -- `take_inner(handle)`, which frees the box, and then the body on what was in it
  abbrev pub on_box :
      (GenesisInner E → Body E (Exit E))
      → Ptr
      → Runtime E
      → Option (GenesisInner E)
      → Ended × Runtime E
  on_box body p rt none = (undefined, rt)
  on_box body p rt (some inner) =
      (done (after_body rt p (body inner rt.env)).0, (after_body rt p (body inner rt.env)).1)

  unfoldable pub enter :
      (GenesisInner E → Body E (Exit E)) → GenesisHandle → Runtime E → Ended × Runtime E
  enter body handle rt =
      if handle.ptr == 0
      then (done (error_result 1 "null handle pointer"), rt)
      else on_box body handle.ptr rt (rt.heap handle.ptr)

  abbrev pub dropped_inner : GenesisInner E → E → E
  dropped_inner (bootstrapping b) env = Bootstrapping.drop b env
  dropped_inner _ env = env

  abbrev pub freed : Ptr → Runtime E → Option (GenesisInner E) → Option (Runtime E)
  freed p rt none = none
  freed p rt (some inner) =
      some (record rt { env = dropped_inner inner rt.env; heap = put rt.heap p none })

  -- `genesis_free`; `none` is undefined behaviour
  unfoldable pub genesis_free : GenesisHandle → Runtime E → Option (Runtime E)
  genesis_free handle rt =
      if handle.ptr == 0 then some rt else freed handle.ptr rt (rt.heap handle.ptr)

  -- the body of `genesis_new`, with the sink for the callback that was passed
  abbrev pub new_machine : AuditSink E → Parsed GenesisConfig → Flow E (Exit E)
  new_machine audit (refused code message) = next (without_handle (error_result code message))
  new_machine audit (parsed config) =
      next (with_handle (uninitialized (Operations.new config audit)) success_result)

  abbrev pub audit_of : (E → ℕ) → (AuditRecord → Ext String) → Option (String → E → E) → AuditSink E
  audit_of clock print_record none = null_audit_sink
  audit_of clock print_record (some callback) = ffi_audit_sink clock print_record callback

  unfoldable pub genesis_new :
      (E → ℕ)
      → (AuditRecord → Ext String)
      → (String → Ext GenesisConfig)
      → CStr
      → Option (String → E → E)
      → Runtime E
      → GenesisResult × Runtime E
  genesis_new clock print_record read_config config_json audit_cb rt =
      settle
        (new_machine (audit_of clock print_record audit_cb)
          (and_then (parse_c_str config_json) (parse_json 500 "invalid config JSON: " read_config)))
        rt
