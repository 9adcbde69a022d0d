-- ===== src/Lib.antt =====
-- Verification library of rust-app: the Rust programs that the repository certifies.
--
-- The repository holds an interoperability fixture (src/main.rs, build.rs) and, under cert/,
-- certification/ and proc-isolation-proof/, the programs it certifies. The library models these:
--
-- - the bounded failover model of the durable critical section,
--   cert/beamscale-critical-section/supervisor/conformance/critical_section_formal_model.rs;
-- - the runtime host, cert/beamscale-critical-section/infra-runtime-host/src/lib.rs, which keeps a
--   shard's record per key and drives one Firecracker machine for each shard;
-- - its HTTP service, cert/beamscale-critical-section/infra-runtime-host/src/main.rs, which takes
--   signed requests, calls the host and the artifact store, and speaks with the machines' guests;
-- - the authentication of those requests,
--   cert/beamscale-critical-section/infra-runtime-host/src/runtime_auth.rs: the service calls
--   `verify` before it calls the host;
-- - the host's artifact store,
--   cert/beamscale-critical-section/infra-runtime-host/src/artifact_store.rs: the service asks it for
--   the admitted archive of a build that a machine is to run;
-- - the identity writer that the host starts for each machine,
--   cert/beamscale-critical-section/infra-runtime-host/src/bin/bmscl-runtime-identity-writer.rs;
-- - the policy of the process isolation, proc-isolation-proof/src/config.rs: the command line loads
--   it, and the platforms start a process as it is resolved;
-- - the context ABI, certification/beamscale-context-abi/rust/src: the module contract
--   (module_contract.rs), the artifact manifest that is checked against it, and the tenant runtime
--   with its states, its policy and its metering samples, which stand apart from the host's (lib.rs).
--
-- Prelude holds the shared names: Boolean tests on the native numbers, Prelude.Text (a Rust string
-- is the list of its UTF-8 bytes), Prelude.Utf8 (which bytes are UTF-8), Prelude.Dict (a HashMap is
-- an association list over a Boolean equality), Prelude.BTree (a BTreeMap is the list of its
-- entries in the order of the keys), Prelude.Result (`?`, early returns and loops of fallible
-- code), Prelude.Lists.
--
-- The failover model:
-- - Failover: State, Action, expire, owns, invariant and step. `step` ends in an Outcome: refused
--   (None), stepped (Some), or panicked, by one of its assertions or by a u8 sum that does not fit,
--   which panics in a build by plain `rustc`, as beamscale-critical-section-proof.yml makes it.
-- - Failover.Reach: which states are valid, and that a step keeps them so.
-- - Failover.Fencing: what a lease holder can rely on, and `run`, the path of a list of actions.
--
-- The runtime host:
-- - Host.Types: the structures and enumerations. The text of an error is a constructor of Reason,
--   one per message; ℤ is the i32 of active_delta.
-- - Host.System: what is outside of the program. A call of the operating system is recorded in a
--   history, and Env answers each call from the history in any way; Io is the monad of fallible
--   code over it. SHA-256 and the text of serde_json are fields of Env.
-- - Host.Path, Host.Validate, Host.Words: PathBuf's operations, decimal numbers, and the checks
--   of requests (RuntimePolicy::validate, validate_digest, ...).
-- - Host.Config: HostConfig::from_env and select_backend over the process's variables.
-- - Host.Files, Host.Layout, Host.Jail, Host.Client: files, paths, cgroups, the jailer, namespace and
--   identity, and the requests on the Firecracker socket (FcClient).
-- - Host.Vm: boot_vm, restore_vm, snapshot_and_stop, stop_vm, cleanup_terminated_jail.
-- - Host.State: RuntimeHost is the history with the map of shards; Action is its monad.
-- - Host.Sections: what each method does while it holds the lock on the shards: one function per
--   block of the source between `write().await` and the end of the guard.
-- - Host.Ops: ensure, start, mark_warm_idle, touch, hibernate, terminate, get, composed of the
--   sections and of the work between them, with no other method in between. Host.Metering is
--   `metering`, Host.Sweep `sweep_once`.
-- - Host.Interleaving: the sections of methods that run at once, in any order, with any results.
-- - Proofs: Host.Invariant, Host.Changes (each section respects its shard), Host.Safe (each
--   method), Host.Elsewhere and Host.Spared (what a sweep leaves alone), Host.Refusals, Host.Stale
--   (epochs that are over), Host.Outcomes, Host.Races, Host.Rollback, Host.Waiting, Host.Decimal,
--   Host.Settings.
--
-- The HTTP service:
-- - Service.Json, Service.Types: serde_json's Value, the structures, and the messages of errors.
--   Answer is the body of a response with success; ApiError has the status and the message.
-- - Service.Checks: the checks of requests and statuses (validate_*, check_*, map_err, ...).
-- - Service.Stream: connect_vsock_proxy, read_frame, write_frame, invoke_over_vsock. The calls on a
--   socket are recorded in a history, and Wire answers each from the history in any way, also late,
--   which is how a timeout ends it. Service.Transfer: put_artifact_over_vsock, the messages to the
--   guest and the checks of its answers, with the JSON codec as a parameter.
-- - Service.State: AppState is the host, the observed activations, the consumed nonces, and what
--   has been asked of the store, the sockets and the clock. Setup holds its settings, World what is
--   outside of the program. Handler is the monad of a handler over both.
-- - Service.Authority: authorize_runtime_request, consume_runtime_nonce. Service.Activations: what
--   is observed of activations. Service.Handlers: ensure, start, touch, warm_idle, hibernate,
--   terminate, the three queries, and a round of the sweeper. Service.Invocations: invoke and
--   critical_section. Service.Guest: activate, and the routes (`serve`).
-- - Proofs: Service.Observations, Service.Kept (what a handler keeps), Service.Steps,
--   Service.Authorized and Service.Admission (who gets past the authorization), Service.Replay and
--   Service.Once (nonces), Service.Results, Service.Admitted and Service.Counted (invocations),
--   Service.Activated, Service.Delivery (transfers), Service.Lasting, Service.Requests,
--   Service.Busy.
--
-- The HTTP service:
-- - Service.Json, Service.Types: serde_json's Value, the structures, and the messages of errors.
--   Answer is the body of a response with success; ApiError has the status and the message.
-- - Service.Checks: the checks of requests and statuses (validate_*, check_*, map_err, ...).
-- - Service.Stream: connect_vsock_proxy, read_frame, write_frame, invoke_over_vsock. The calls on a
--   socket are recorded in a history, and Wire answers each from the history in any way, also late,
--   which is how a timeout ends it. Service.Transfer: put_artifact_over_vsock, the messages to the
--   guest and the checks of its answers, with the JSON codec as a parameter.
-- - Service.State: AppState is the host, the observed activations, the consumed nonces, and what
--   has been asked of the store, the sockets and the clock. Setup holds its settings, World what is
--   outside of the program. Handler is the monad of a handler over both.
-- - Service.Authority: authorize_runtime_request, consume_runtime_nonce. Service.Activations: what
--   is observed of activations. Service.Handlers: ensure, start, touch, warm_idle, hibernate,
--   terminate, the three queries, and a round of the sweeper. Service.Invocations: invoke and
--   critical_section. Service.Guest: activate, and the routes (`serve`).
-- - Proofs: Service.Observations, Service.Kept (what a handler keeps), Service.Steps,
--   Service.Authorized and Service.Admission (who gets past the authorization), Service.Replay and
--   Service.Once (nonces), Service.Results, Service.Admitted and Service.Counted (invocations),
--   Service.Activated, Service.Delivery (transfers), Service.Lasting, Service.Requests,
--   Service.Busy.
--
-- The authentication:
-- - Auth: load_secret, verify, request_sha256, signature_for, hmac_sha256, hex_lower and
--   constant_time_eq. `and_then` is `?`; SHA-256, the clock and the secret's variable are the
--   fields of Outside, and `serde_json::to_vec` is a parameter.
-- - Proofs: Auth.Compare, Auth.Hex, Auth.Canonical, Auth.Checks, Auth.Verify.
--
-- The artifact store:
-- - Store: the data, the calls of the file system with the environment that answers them from the
--   history, and the monad over them. SHA-256, serde_json, and tar over flate2 are fields of Env.
-- - Store.Archive: resolve, resolve_directory, validate_record, validate_sha256, hash_file.
-- - Store.Bundle: resolve_admitted_bundle, read_regular_member, build_admitted_tar_gz.
-- - Proofs: Store.Digests and Store.Hashing (the hash of a file), Store.Verified (resolve),
--   Store.Sorting, Store.Members, Store.Documents and Store.Packaged (resolve_admitted_bundle).
--
-- The identity writer:
-- - Writer: parse_args, validate_subject, validate_runtime_id, and `run` up to its first look at the
--   file system (checked_args). Writer.Subjects: the arguments that the host passes
--   (Host.Jail.writer_command), read by the writer.
--
-- The process isolation policy:
-- - Policy: Config with its groups, processes and defaults. Policy.Check: load and validate.
--   Policy.Resolve: resolve_process, processes_for_group and membership_map, over the operations of
--   the vendored reactive map (ReactiveMaps) and what they promise (AreLayered).
-- - Proofs: Policy.Checked, Policy.Confined, Policy.Listed, Policy.Members, Policy.Resolution.
--
-- The context ABI:
-- - Module: ModuleDescriptor and its validation. Module.Entrypoint: parse_entrypoint. Proofs:
--   Module.Laws (entrypoints), Module.Distinct, Module.Accepted.
-- - Manifest: ArtifactManifest, validate_shared_tier and validate_shared_tier_for_module. A HashSet
--   of capabilities is a list of which only the elements matter. Proofs: Manifest.Sets,
--   Manifest.Shared, Manifest.Parity.
-- - Tenant: TenantRuntimeState with can_transition_to, TenantRuntimePolicy with
--   validate_production, MeteringSample with merge. Tenant.Laws: the proofs.
--
-- Bounds and fuel. A machine integer is a native number; additions that saturate are written with
-- their bound, and `saturating_sub` is the subtraction on ℕ. Printing a number has n + 1 rounds,
-- and each takes a digit off (Host.Decimal). The wait for the API socket has timeout / 25 + 2
-- rounds, and each round that goes on sleeps for 25 ms (Host.Waiting). The hash of a file has
-- max_bytes + 2 rounds, and each round that goes on has read a byte or more (Store.Hashing). The
-- acknowledgement of the socket proxy is read in 128 rounds, the bound of the source.
--
-- Not modelled: in the HTTP service the settings that `main` reads, the extraction of requests by
-- axum, and the barrier and the striped gates, which order handlers: a handler runs with no other
-- in between; the file system work of the identity writer; the artifact compiler, which unpacks
-- archives and starts compilers; the Scintilla context ABI, which is mostly connections to
-- databases; the command line and the platforms of the process isolation, which start other
-- programs; the exploration in the failover model's `main`; serde's codecs; and everything that is
-- not Rust. The lock of the runtime host itself is not modelled: a section is atomic, as the lock
-- makes it.
pub mod Prelude
pub mod Failover
pub mod Host
pub mod Module
pub mod Manifest
pub mod Auth
pub mod Service
pub mod Tenant
pub mod Policy
pub mod Store
pub mod Writer
