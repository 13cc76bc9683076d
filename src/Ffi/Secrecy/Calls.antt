-- ===== src/Ffi/Secrecy/Calls.antt =====
-- Each entry point (ffi.rs) on two machines that differ in the bytes of the key.
use genesis_operator.Prelude.{Bool, true, false, String, Option, none, some, ◌≡◌, refl}
use genesis_operator.KeyMaterial.{KeyMaterial, as_bytes}
use genesis_operator.Outcome.{Res, ok, err, panicked}
use genesis_operator.K8s.Cluster
use genesis_operator.State.{StateTag, Genesis}
use genesis_operator.State.Bootstrapping.{emit_audit, config_ref}
use genesis_operator.Ffi.{CStr, GenesisInner, GenesisHandle, GenesisResult, parse_c_str}
use genesis_operator.Ffi.Flow.{or_graft, consumed}
use genesis_operator.Ffi.Calls.{
  Host, genesis_init, genesis_load, genesis_verify, genesis_begin_bootstrap, genesis_status,
  genesis_begin_rotation, genesis_abort_rotation,
}
use genesis_operator.Ffi.Injecting.{
  without_cluster, injector_or, injector_if, injector_for, genesis_inject_secret,
  genesis_inject_secrets, genesis_complete_rotation,
}
use genesis_operator.Ffi.Lifecycle.{Call, perform}
use genesis_operator.Ffi.Secrecy.{
  boxed, Opaque, Alike, same, hidden, AlikeStep, AlikeFlow, AlikeBody, then-Alike, Known,
  body-Alike, or_graft-Alike, attempt-Alike, wrong_state-Alike,
}
use genesis_operator.Ffi.Secrecy.Injections.{
  Discreet, cluster-Discreet, mock-Discreet, inject_one-Alike, inject_many-Alike,
}

module _ {E : Type 0} (host : Host E) (key1 key2 : KeyMaterial)
    (opaque : Opaque host (as_bytes key1) (as_bytes key2)) where
  open host use {cloud, tls}

  module _ (inner : Option (Genesis E StateTag.bootstrapping)) where
    boxed-Alike : Alike host (boxed inner key1) (boxed inner key2)
    boxed-Alike = hidden inner key1 key2 opaque

    without_cluster-Alike :
        (mock : Bool) (message : String) (failure : GenesisHandle → GenesisResult)
        → AlikeStep host
            (Discreet host key1 key2 opaque)
            (without_cluster host mock (boxed inner key1) message failure)
            (without_cluster host mock (boxed inner key2) message failure)
    unfolding emit_audit
    without_cluster-Alike true message failure env =
        ((refl, (mock-Discreet host key1 key2 opaque)), refl)
    without_cluster-Alike false message failure env = ((boxed-Alike, refl), refl)

    injector_for-Alike :
        AlikeStep host
          (Discreet host key1 key2 opaque)
          (injector_for host (boxed inner key1))
          (injector_for host (boxed inner key2))
    unfolding injector_for injector_if
    injector_for-Alike env = by_service (cloud.vars.var "KUBERNETES_SERVICE_HOST" env)
      where
        by_cluster :
            (r : Res (Cluster.UreqSecretInjector tls)) (env' : E)
            → AlikeFlow host
                (Discreet host key1 key2 opaque)
                (injector_or host cloud.mock_build (boxed inner key1) (r, env')).0
                (injector_or host cloud.mock_build (boxed inner key2) (r, env')).0
              × ((injector_or host cloud.mock_build (boxed inner key1) (r, env')).1
                  ≡ (injector_or host cloud.mock_build (boxed inner key2) (r, env')).1)
        by_cluster (ok injector) env' =
            ((refl, cluster-Discreet host key1 key2 opaque injector), refl)
        by_cluster (err e) env' = without_cluster-Alike cloud.mock_build _ _ env'
        by_cluster (panicked message) env' = (refl, refl)

        by_service :
            (service_host : Option String)
            → AlikeFlow host
                (Discreet host key1 key2 opaque)
                (injector_if host (boxed inner key1) service_host env).0
                (injector_if host (boxed inner key2) service_host env).0
              × ((injector_if host (boxed inner key1) service_host env).1
                  ≡ (injector_if host (boxed inner key2) service_host env).1)
        by_service none = without_cluster-Alike cloud.mock_build _ _ env
        by_service (some service_host) =
            by_cluster (Cluster.in_cluster tls env).0 (Cluster.in_cluster tls env).1

    pub genesis_inject_secret-Alike :
        (a1 a2 a3 a4 a5 : CStr)
        → AlikeBody host
            (genesis_inject_secret host a1 a2 a3 a4 a5 (boxed inner key1))
            (genesis_inject_secret host a1 a2 a3 a4 a5 (boxed inner key2))
    unfolding genesis_inject_secret config_ref
    genesis_inject_secret-Alike a1 a2 a3 a4 a5 = then-Alike host _ _ _ _ (text-Alike a1) λ name _.
        then-Alike host _ _ _ _ (text-Alike a2) λ ns _.
          then-Alike host _ _ _ _ (text-Alike a3) λ key _.
            then-Alike host _ _ _ _ injector_for-Alike λ injector discreet.
              then-Alike host _ _ _ _ (attempt-Alike host consumed _ _ λ env. refl) λ config _.
                then-Alike host _ _ _ _
                  (attempt-Alike host consumed _ _
                    (inject_one-Alike host key1 key2 opaque inner injector name ns key _ discreet))
                  λ active_again _. body-Alike host _
      where
        text-Alike :
            (s : CStr)
            → AlikeStep host
                (Known host)
                (or_graft (boxed inner key1) (parse_c_str s))
                (or_graft (boxed inner key2) (parse_c_str s))
        text-Alike s =
            or_graft-Alike host (boxed inner key1) (boxed inner key2) (parse_c_str s) boxed-Alike

    pub genesis_inject_secrets-Alike :
        (json : CStr)
        → AlikeBody host
            (genesis_inject_secrets host json (boxed inner key1))
            (genesis_inject_secrets host json (boxed inner key2))
    unfolding genesis_inject_secrets config_ref
    genesis_inject_secrets-Alike json =
        then-Alike host _ _ _ _ (or_graft-Alike host _ _ _ boxed-Alike) λ text _.
          then-Alike host _ _ _ _ (or_graft-Alike host _ _ _ boxed-Alike) λ targets _.
            then-Alike host _ _ _ _ injector_for-Alike λ injector discreet.
              then-Alike host _ _ _ _ (attempt-Alike host consumed _ _ λ env. refl) λ config _.
                then-Alike host _ _ _ _
                  (attempt-Alike host consumed _ _
                    (inject_many-Alike host key1 key2 opaque inner injector _ _ discreet))
                  λ active_again _. body-Alike host _

module _ {E : Type 0} (host : Host E) where
  -- each call, on machines that differ at most in the key
  pub perform-Alike :
      (call : Call E) (i j : GenesisInner E)
      → Alike host i j
      → AlikeBody host (perform host call i) (perform host call j)
  unfolding perform genesis_init genesis_load genesis_verify genesis_begin_bootstrap genesis_status
      genesis_begin_rotation genesis_abort_rotation genesis_complete_rotation
  perform-Alike call i j same = body-Alike host (perform host call i)
  perform-Alike (Call.inject_secret a1 a2 a3 a4 a5) i j (hidden inner key1 key2 opaque) =
      genesis_inject_secret-Alike host key1 key2 opaque inner a1 a2 a3 a4 a5
  perform-Alike (Call.inject_secrets json) i j (hidden inner key1 key2 opaque) =
      genesis_inject_secrets-Alike host key1 key2 opaque inner json
  perform-Alike (Call.init _) i j (hidden inner key1 key2 opaque) =
      wrong_state-Alike host _ _ _ (hidden inner key1 key2 opaque)
  perform-Alike (Call.load _ _) i j (hidden inner key1 key2 opaque) =
      wrong_state-Alike host _ _ _ (hidden inner key1 key2 opaque)
  perform-Alike (Call.verify _ _) i j (hidden inner key1 key2 opaque) =
      wrong_state-Alike host _ _ _ (hidden inner key1 key2 opaque)
  perform-Alike (Call.begin_bootstrap _) i j (hidden inner key1 key2 opaque) =
      wrong_state-Alike host _ _ _ (hidden inner key1 key2 opaque)
  perform-Alike (Call.status _) i j (hidden inner key1 key2 opaque) =
      wrong_state-Alike host _ _ _ (hidden inner key1 key2 opaque)
  perform-Alike (Call.begin_rotation) i j (hidden inner key1 key2 opaque) =
      wrong_state-Alike host _ _ _ (hidden inner key1 key2 opaque)
  perform-Alike (Call.abort_rotation) i j (hidden inner key1 key2 opaque) =
      wrong_state-Alike host _ _ _ (hidden inner key1 key2 opaque)
  perform-Alike (Call.complete_rotation _ _ _ _ _ _) i j (hidden inner key1 key2 opaque) =
      wrong_state-Alike host _ _ _ (hidden inner key1 key2 opaque)
