-- ===== src/World/External.antt =====
-- What the pipeline calls and does not implement: the shell and the tools behind it, the network,
-- SHA-256, the clock, UUIDs, the host that it runs on. Each is a function; theorems that rely on how
-- such a function behaves say so in a hypothesis.
use pronze.Prelude.{ℕ, String, Bool, Option, List}
use pronze.Prelude.Int.{ℤ}
use pronze.World.Paths.{FilePath}
use pronze.World.Files.{Fs, Content}

-- A command line with its working directory and its standard input.
pub record Command : Type 0 where
  pub line : String
  pub cwd : Option FilePath
  pub input : Option String

-- What a command leaves: the lines that it printed, its exit code, negative where a signal has ended
-- it, and the files.
pub record Ran : Type 0 where
  pub output : List String
  pub returncode : ℤ
  -- what `write` to its standard input raises, if it does
  pub refusal : Option String
  pub files : Fs

pub record Env : Type 0 where
  -- the n-th command of the run
  pub shell : ℕ → Command → Fs → Ran
  -- `urllib.request.urlretrieve`, which may raise
  pub retrieve : String → Fs → Option Content
  -- `shutil.which`
  pub which : String → Fs → Bool
  -- `hashlib.sha256(…).hexdigest()` of the bytes of a text
  pub sha256 : String → String
  -- the bytes of a file, those of a JSON document as `json.dump` writes it
  pub bytes : Content → String
  -- `time.time()` and `uuid.uuid4()`, at the n-th call
  pub time : ℕ → ℤ
  pub uuid4 : ℕ → String
  -- `f"{seconds:.2f}"`
  pub seconds : ℤ → String
  -- the names of the regular files in a tar archive, or an error
  pub members : Content → Option (List String)
  -- `platform.system()`, `uname -m`, and whether /dev/kvm may be used
  pub system : String
  pub machine : Option String
  pub kvm : Bool
  -- whether `terminate` and `kill` do not raise
  pub stops : List String → Bool
  -- the working directory of the pipeline
  pub cwd : FilePath
  -- whether a process of that command line starts
  pub starts : List String → Fs → Bool
  -- whether the pipe to a process of that command line takes a text
  pub takes_input : List String → String → Bool
