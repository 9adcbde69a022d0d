-- ===== src/Host/System.antt =====
-- What the runtime host asks of the operating system. A call is recorded in a history, and the
-- environment answers it from the history, the call included: it may answer in any way, and
-- differently each time. Files, processes, sockets and clocks are outside of the repository.
use rust_app.Prelude.{ℕ, Bool, true, false, Option, List, ◌∷◌}
use rust_app.Prelude.Text.{Text}
use rust_app.Host.Types.{HostError, IoError, Result, ok, err, io}

pub record Command : Type 0 where
  pub program : Text
  pub env : List (Text × Text)
  pub args : List Text

pub data Call : Type 0 where
  system_time instant : Call
  sleep : ℕ → Call
  symlink_metadata exists canonicalize create_dir_all remove_dir_all remove_file : Text → Call
  read_to_string : Text → Call
  copy write : Text → Text → Call
  set_permissions : Text → ℕ → Call
  chown : Text → ℕ → ℕ → Call
  status output spawn : Command → Call
  connect : Text → Call
  write_all : Text → Text → Call
  shutdown read_to_end : Text → Call

pub record Metadata : Type 0 where
  pub is_symlink : Bool
  pub is_file : Bool
  pub mode : ℕ

pub data Reply (A : Type 0) : Type 0 where
  done : A → Reply A
  failed : IoError → Reply A

abbrev pub History : Type 0
History = List Call

-- The bodies that `json!` builds.
mutual
  pub data Json : Type 0 where
    num : ℕ → Json
    str : Text → Json
    bool : Bool → Json
    obj : Fields → Json

  pub data Fields : Type 0 where
    end : Fields
    field : Text → Json → Fields → Fields

pub record Env : Type 0 where
  pub clock : History → ℕ
  pub flag : History → Bool
  pub outcome : History → Reply (Unit {0})
  pub path : History → Reply Text
  pub metadata : History → Reply Metadata
  pub text : History → Reply Text
  pub exit : History → Reply Bool  -- whether the command ran with success
  pub child : History → Reply (Option ℕ)  -- the pid of a child process
  pub sha256 : Text → List ℕ  -- the digest of the `sha2` crate, which is no call
  pub json : Json → Text  -- the text of `serde_json`, which is no call

-- A computation that makes calls.
abbrev pub Io : Type 0 → Type 0
Io A = History → Result A × History

module _ {A : Type 0} where
  abbrev pub pure : A → Io A
  pure x h = (ok x, h)

  abbrev pub raise : HostError → Io A
  raise e h = (err e, h)

  abbrev pub lift : Result A → Io A
  lift r h = (r, h)

  -- One call, and what the environment answers.
  abbrev pub ask : Call → (History → A) → Io A
  ask c answer h = (ok (answer (c ∷ h)), c ∷ h)

  -- `?` on an `io::Result`, and `map_err` to another error.
  abbrev pub or_io : Reply A → Io A
  or_io (done x) = pure x
  or_io (failed e) = raise (io e)

  abbrev pub or_raise : HostError → Reply A → Io A
  or_raise e (done x) = pure x
  or_raise e (failed _) = raise e

-- What follows a computation that ended in the given way.
unfoldable pub resume : {A B : Type 0} → Result A × History → (A → Io B) → Result B × History
resume (ok x, h) f = f x h
resume (err e, h) f = (err e, h)

infixl 5 ◌>>=◌ ◌>>◌
unfoldable pub ◌>>=◌ : {A B : Type 0} → Io A → (A → Io B) → Io B
unfolding resume
◌>>=◌ m f h = resume (m h) f

unfoldable pub ◌>>◌ : {A B : Type 0} → Io A → Io B → Io B
unfolding ◌>>=◌
m >> k = m >>= λ _. k

abbrev pub skip : Io (Unit {0})
skip = pure tt

abbrev pub guard : Bool → HostError → Io (Unit {0})
guard b e h = (elim b [ true ↦ ok tt | false ↦ err e ], h)

-- `let _ = m.await`: the result is dropped, the calls are made.
abbrev pub ignore : {A : Type 0} → Io A → Io (Unit {0})
ignore m h = (ok tt, (m h).1)
