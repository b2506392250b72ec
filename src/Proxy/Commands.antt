-- ===== src/Proxy/Commands.antt =====
-- src/proxy.c: the commands for the agent in the virtual machine.
use cc_oci_runtime.Prelude.{
  ℕ, Bool, true, false, ◌||◌, none, some, [], if◌then◌else◌, ltb_ℤ, pos, Bytes, codes,
}
use cc_oci_runtime.Container.Types.{Process, Config}
use cc_oci_runtime.StateFile.Json.{Json, object, no_member}
use cc_oci_runtime.Proxy.Request.{
  kill_payload, newcontainer_payload, exec_payload, env_json, Passwd, set_env_home,
}
use cc_oci_runtime.Proxy.Client.{
  Session, Outcome, proxy_connect, proxy_disconnect, proxy_attach, proxy_run_hyper_cmd, and_then,
  and_disconnect, pod_container_id,
}

-- Attaching first, and a command for the agent if that succeeds: a failure to attach leaves the
-- connection open.
abbrev pub attached_cmd : Bytes → Bytes → Json → Session → Outcome
attached_cmd container_id cmd payload s =
    and_then (and_then (proxy_connect s) (proxy_attach container_id))
      (λ s. and_disconnect (proxy_run_hyper_cmd cmd payload s))

-- Without a proxy, or an id for the pod, nothing is tried. The id for the payload is `optarg_container_id`.
unfoldable pub proxy_hyper_kill_container : Config → Bytes → ℕ → Session → Outcome
unfolding pod_container_id proxy_connect proxy_attach proxy_run_hyper_cmd proxy_disconnect
    kill_payload
proxy_hyper_kill_container config optarg_container_id signum s = elim config.proxy [
  | none ↦ (false, s)
  | some _ ↦ elim (pod_container_id config) [
    | none ↦ (false, s)
    | some container_id ↦
        attached_cmd container_id (codes "killcontainer") (kill_payload optarg_container_id signum)
          s
  ]
]

unfoldable pub proxy_hyper_destroy_pod : Config → Bytes → Session → Outcome
unfolding proxy_connect proxy_attach proxy_run_hyper_cmd proxy_disconnect
proxy_hyper_destroy_pod config optarg_container_id s = elim config.proxy [
  | none ↦ (false, s)
  | some _ ↦ attached_cmd optarg_container_id (codes "destroypod") (object no_member) s
]

-- The process with its HOME, and what comes of the command. The connection is there already.
unfoldable pub proxy_run_hyper_new_container :
    Passwd → Passwd → Process → Bytes → Bytes → Bytes → Session → Process × Outcome
unfolding set_env_home env_json newcontainer_payload proxy_run_hyper_cmd
proxy_run_hyper_new_container passwd stateless p container_id rootfs image s =
    let p' = set_env_home passwd stateless p in
    (
      p',
      elim (env_json (elim p'.env [ none ↦ [] | some env ↦ env ])) [
        | none ↦ (false, s)
        | some envs ↦
            proxy_run_hyper_cmd (codes "newcontainer")
              (newcontainer_payload p' envs container_id rootfs image) s
      ],
    )

abbrev pub invalid_streams : Process → Bool
invalid_streams p = ltb_ℤ p.stdio_stream (pos 0) || ltb_ℤ p.stderr_stream (pos 0)

abbrev pub disconnect_all : Process × Outcome → Process × Outcome
disconnect_all r = (r.0, and_disconnect r.1)

-- Whatever fails, the connection is closed at the end.
unfoldable pub proxy_hyper_new_pod_container :
    Passwd → Passwd → Process → Bytes → Bytes → Bytes → Bytes → Session → Process × Outcome
unfolding proxy_connect proxy_attach proxy_run_hyper_new_container proxy_disconnect
proxy_hyper_new_pod_container passwd stateless p container_id pod_id rootfs image s =
    let r = and_then (proxy_connect s) (proxy_attach pod_id) in
    disconnect_all (elim r.0 [
      | false ↦ (p, r)
      | true ↦
          if invalid_streams p
          then (p, (false, r.1))
          else proxy_run_hyper_new_container passwd stateless p container_id rootfs image r.1
    ])

unfoldable pub proxy_hyper_new_container :
    Passwd → Passwd → Process → Bytes → Session → Process × Outcome
unfolding proxy_hyper_new_pod_container
proxy_hyper_new_container passwd stateless p container_id s =
    proxy_hyper_new_pod_container passwd stateless p container_id container_id [] [] s

-- Connecting and disconnecting are the caller's.
unfoldable pub proxy_hyper_exec_command :
    Passwd → Passwd → Process → Bytes → Session → Process × Outcome
unfolding set_env_home env_json exec_payload proxy_run_hyper_cmd
proxy_hyper_exec_command passwd stateless p container_id s =
    if invalid_streams p
    then (p, (false, s))
    else (let p' = set_env_home passwd stateless p in
        (
          p',
          elim (env_json (elim p'.env [ none ↦ [] | some env ↦ env ])) [
            | none ↦ (false, s)
            | some envs ↦
                proxy_run_hyper_cmd (codes "execcmd") (exec_payload p' envs container_id) s
          ],
        ))
