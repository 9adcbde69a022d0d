-- ===== src/Service/State.antt =====
-- The state of the HTTP service and its actions: `AppState` of
-- cert/beamscale-critical-section/infra-runtime-host/src/main.rs. A handler runs with no other one
-- in between.
use rust_app.Prelude.{ℕ, Option, List}
use rust_app.Prelude.Text.{Text}
use rust_app.Prelude.BTree.{text_key}
use rust_app.Prelude.Result.{Result, ok, err}
use rust_app.Host.Types
use rust_app.Host.Types.{ExecutionClass, ShardStatus, HostConfig, class_eq}
use rust_app.Host.System
use rust_app.Host.State
use rust_app.Host.State.{RuntimeHost}
use rust_app.Store
use rust_app.Store.{ArtifactStore, ArtifactStoreError}
use rust_app.Auth
use rust_app.Auth.{RuntimeContract, ExpectedRuntimeRequest, Outside, verify, now_unix}
use rust_app.Service.Types.{
  ShardEpochKey, ObservedActivation, RuntimeRequest, StatusCode, GuestError, auth, guest, serde,
  ApiError, refused,
}
use rust_app.Service.Checks.{Check, map_err}
use rust_app.Service.Stream
use rust_app.Service.Stream.{Wire}
use rust_app.Service.Transfer.{Codec}

-- The fields of AppState that do not change.
pub record Setup : Type 0 where
  pub config : HostConfig
  pub store : ArtifactStore
  pub guest_vsock_port : ℕ
  pub guest_max_frame_bytes : ℕ
  pub guest_max_artifact_chunk_bytes : ℕ
  pub runtime_control_secret : Text

-- What is outside of the program, with what answers the host and the store. `clock` is the reading
-- of the clock at each place that may read it, in seconds, or nothing before 1970; `body` is the
-- text of a request by `serde_json::to_vec`.
pub record World : Type 0 where
  pub host : System.Env
  pub store : Store.Env
  pub wire : Wire
  pub codec : Codec
  pub clock : ℕ → Option ℕ
  pub sha256 : Text → List ℕ
  pub body : RuntimeRequest → Auth.Result Text

-- The fields of AppState that change, with the calls that were made.
pub record AppState : Type 0 where
  pub host : RuntimeHost
  pub store_calls : Store.History
  pub wire_calls : Stream.History
  pub clock_reads : ℕ
  pub observed_activation : List (ShardEpochKey × ObservedActivation)
  pub consumed_nonces : List (Text × ℕ)

abbrev pub Handler : Type 0 → Type 0
Handler A = AppState → Result ApiError A × AppState

unfoldable pub continue :
    {A B : Type 0} → Result ApiError A × AppState → (A → Handler B) → Result ApiError B × AppState
continue (ok x, s) f = f x s
continue (err e, s) f = (err e, s)

infixl 5 ◌>>=◌ ◌>>◌
unfoldable pub ◌>>=◌ : {A B : Type 0} → Handler A → (A → Handler B) → Handler B
unfolding continue
◌>>=◌ m f s = continue (m s) f

unfoldable pub ◌>>◌ : {A B : Type 0} → Handler A → Handler B → Handler B
unfolding ◌>>=◌
m >> k = m >>= λ _. k

module _ {A : Type 0} where
  abbrev pub pure : A → Handler A
  pure x s = (ok x, s)

  -- A check that reads and writes nothing.
  abbrev pub check : Check A → Handler A
  check r s = (r, s)

  -- The result of a handler as a value.
  abbrev pub attempt : Handler A → Handler (Result ApiError A)
  attempt m s = let (r, t) = m s in (ok r, t)

  -- The result of a method of the host, with `map_err`.
  abbrev pub answered : Types.Result A → Result ApiError A
  answered (Types.ok x) = ok x
  answered (Types.err e) = err (map_err e)

  unfoldable pub on_host : State.Action A → Handler A
  on_host m s = let (r, host) = m s.host in (answered r, record s { host = host })

  abbrev pub reject :
      (ArtifactStoreError → ApiError) → Result ArtifactStoreError A → Result ApiError A
  reject f (ok x) = ok x
  reject f (err e) = err (f e)

  unfoldable pub on_store : (ArtifactStoreError → ApiError) → Store.Io A → Handler A
  on_store f m s =
      let (r, calls) = m s.store_calls in (reject f r, record s { store_calls = calls })

  abbrev pub guest_answer : StatusCode → Result GuestError A → Result ApiError A
  guest_answer status (ok x) = ok x
  guest_answer status (err e) = refused status (guest e)

  unfoldable pub on_wire :
      StatusCode → (Stream.History → Result GuestError A × Stream.History) → Handler A
  on_wire status m s =
      let (r, calls) = m s.wire_calls in (guest_answer status r, record s { wire_calls = calls })

  abbrev pub auth_answer : StatusCode → Auth.Result A → Result ApiError A
  auth_answer status (Auth.ok x) = ok x
  auth_answer status (Auth.err e) = refused status (auth e)

abbrev pub serde_answer : StatusCode → Result Text Text → Check Text
serde_answer status (ok x) = ok x
serde_answer status (err text) = refused status (serde text)
