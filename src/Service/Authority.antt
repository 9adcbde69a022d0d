-- ===== src/Service/Authority.antt =====
-- The authorization of a request: `authorize_runtime_request` and `consume_runtime_nonce` of
-- cert/beamscale-critical-section/infra-runtime-host/src/main.rs.
use rust_app.Prelude.{ℕ, ◌+◌, none, List, [], ◌∷◌, leb, if◌then◌else◌}
use rust_app.Prelude.Text.{Text}
use rust_app.Prelude.Dict.{lookup, insert}
use rust_app.Prelude.BTree.{text_key, is_some}
use rust_app.Prelude.Result.{Result, ok}
use rust_app.Auth.{RuntimeContract, ExpectedRuntimeRequest, Outside, verify, now_unix}
use rust_app.Service.Types.{
  RuntimeRequest, tenant_id, shard_id, execution_class, execution_backend, runtime_epoch,
  execution_class_name, execution_backend_name, unauthorized, internal_server_error,
  replay_detected, ApiError, refused,
}
use rust_app.Service.State.{World, Setup, Handler, ◌>>=◌, auth_answer}

-- The two readings of the clock: the one of `verify`, and the one of the nonce's consumption.
unfoldable pub outside_at : World → ℕ → Outside
outside_at world n = record { clock = world.clock n; secret_var = none; sha256 = world.sha256 }

unfoldable pub expected_request : Text → RuntimeRequest → ExpectedRuntimeRequest
expected_request operation request = record {
  operation = operation;
  tenant_id = tenant_id request;
  shard_id = shard_id request;
  execution_class = execution_class_name (execution_class request);
  execution_backend = execution_backend_name (execution_backend request);
  runtime_epoch = runtime_epoch request;
}

-- `consumed.retain(|_, expiry| *expiry >= now)`.
unfoldable pub retain_unexpired : ℕ → List (Text × ℕ) → List (Text × ℕ)
retain_unexpired now [] = []
retain_unexpired now ((nonce, expiry) ∷ rest) =
    if leb now expiry
    then (nonce, expiry) ∷ retain_unexpired now rest
    else retain_unexpired now rest

-- The insertion takes place on both branches.
unfoldable pub consume_runtime_nonce :
    List (Text × ℕ) → Text → ℕ → ℕ → Result ApiError (Unit {0}) × List (Text × ℕ)
consume_runtime_nonce consumed nonce expires_at now =
    let retained = retain_unexpired now consumed in
    (
      (if is_some (lookup nonce retained) then refused unauthorized replay_detected else ok tt),
      insert nonce expires_at retained,
    )

module _ (world : World) (setup : Setup) where
  unfoldable pub verify_request : Text → RuntimeRequest → RuntimeContract → Handler ℕ
  verify_request operation request contract s = (
    auth_answer unauthorized (
        verify world.body (outside_at world s.clock_reads) setup.runtime_control_secret
          (expected_request operation request) request contract),
    record s { clock_reads = s.clock_reads + 1 },
  )

  unfoldable pub read_clock : Handler ℕ
  read_clock s = (
    auth_answer internal_server_error (now_unix (outside_at world s.clock_reads)),
    record s { clock_reads = s.clock_reads + 1 },
  )

  unfoldable pub consume : Text → ℕ → ℕ → Handler (Unit {0})
  consume nonce expires_at now s =
      let (r, consumed) = consume_runtime_nonce s.consumed_nonces nonce expires_at now in
      (r, record s { consumed_nonces = consumed })

  unfoldable pub authorize_runtime_request :
      Text → RuntimeRequest → RuntimeContract → Handler (Unit {0})
  authorize_runtime_request operation request contract = do
    expires_at ← verify_request operation request contract
    now ← read_clock
    consume contract.nonce expires_at now
