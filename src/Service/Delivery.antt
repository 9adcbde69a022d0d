-- ===== src/Service/Delivery.antt =====
-- What the HTTP service has sent to a guest when the transfer of an artifact succeeds:
-- cert/beamscale-critical-section/infra-runtime-host/src/main.rs.
pub mod Framing
use rust_app.Prelude.{
  ◌∙◌, ℕ, zero, suc, ◌-◌, ◌≤◌, ◌<◌, ◌≡◌, sym, Bool, false, some, List, [], ◌∷◌, ◌++◌,
}
use rust_app.Prelude.Lists.{length, All, is_empty}
use rust_app.Prelude.Text.{Text, bytes}
use rust_app.Prelude.Result.{Result, ok, err}
use rust_app.Prelude.Result as Results
use rust_app.Host.Types.{ShardStatus}
use rust_app.Store.{AdmittedArtifact}
use rust_app.Service.Json.{Value, get, as_str, as_u64}
use rust_app.Service.Stream.{
  Wire, Call, History, Io, Reply, resume, ◌>>=◌, ◌>>◌, refuse_if, ask, write_u32, write_all, flush,
  read_u32, read_exact, write_frame, read_frame, connect_vsock_proxy,
}
use rust_app.Service.Transfer.{
  Codec, chunks_from, chunks, artifact_header, write_chunks, send_artifact,
}
use rust_app.Service.Delivery.Framing.{Transferred}

module _ (codec : Codec) (wire : Wire) where
  -- What the answer of a guest that took an artifact says.
  pub record Confirmed (artifact : AdmittedArtifact) (answer : Text) : Type 0 where
    pub value : Value
    pub parsed : codec.from_slice answer ≡ ok value
    pub build : as_str (get (bytes "build_sha256") value) ≡ some artifact.build_sha256
    pub archive : as_str (get (bytes "archive_sha256") value) ≡ some artifact.archive_sha256
    pub size : as_u64 (get (bytes "archive_bytes") value) ≡ some artifact.archive_bytes

  -- What is left of a transfer after its checks, by what became of the header.
  abbrev Sent : Text → ℕ → AdmittedArtifact → ℕ → ℕ → History → History → Result Text Text → Type 0
  Sent vsock_path port artifact limit chunk_bytes h g (ok header) =
      send_artifact codec wire vsock_path port artifact limit chunk_bytes header h ≡ (ok tt, g)
  Sent vsock_path port artifact limit chunk_bytes h g (err text) = ⊥

  -- The whole of a transfer: the archive has as many bytes as it says, they were sent after the
  -- header that describes them, and the frame that was read confirms them.
  pub record Delivered (vsock_path : Text) (port : ℕ) (shard : ShardStatus)
      (artifact : AdmittedArtifact) (limit chunk_bytes : ℕ) (h g : History) : Type 0 where
    pub count : artifact.archive_bytes ≡ length artifact.bytes
    pub header : Text
    pub described : codec.to_vec (artifact_header shard artifact chunk_bytes) ≡ ok header
    pub answer : Text
    pub transferred :
        Transferred wire vsock_path port header artifact.bytes limit chunk_bytes answer h g
    pub confirmed : Confirmed artifact answer
