-- ===== src/Container/Status.antt =====
-- `State` of container.go, with the part of it that the OCI specification defines.
use lxcri.Base.{wrapped}
use lxcri.Base.Host.{Host, M, query_result, return, with_error, ◌>>=◌}
use lxcri.Oci.{SpecState}
use lxcri.Container.{Container, runtime_path}
use lxcri.Container.State.{container_state}

-- `State`, as its `SpecState`. The path of the runtime directory is there as the bundle, and the name
-- of the liblxc state is read by templates only.
unfoldable pub spec_state_of : Host → Container → M SpecState
spec_state_of h c = do
  status ←
      with_error (wrapped "failed go get container status")
        (query_result (λ w. container_state h w))
  return (record {
    version = c.spec.version;
    id = c.container_id;
    status = status;
    pid = c.pid;
    bundle = runtime_path c "";
    annotations = c.spec.annotations;
  })
