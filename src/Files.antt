-- ===== src/Files.antt =====
-- The file system calls that the stores make (std::fs), as an interface: what a read returns, and
-- that a file holds what was last written to it.
use snap_pipe.Prelude.{◌≡◌, ◌≢◌, Option, none, some, arith}
use snap_pipe.Prelude.Results.{Result, ok, err}
use snap_pipe.Prelude.Text.{Text, text_eq_refl, text_eq_iff}
use snap_pipe.Prelude.Map.{HashMap, lookup, insert, lookup-insert}

abbrev pub FilePath : Type 0
FilePath = Text

-- `std::fs::read_to_string`; the failure carries the message of the system.
pub data ReadOutcome : Type 0 where
  contents : Text → ReadOutcome
  not_found : ReadOutcome
  failed : Text → ReadOutcome

pub record Files : Type 1 where
  pub Disk : Type 0
  pub read : Disk → FilePath → ReadOutcome
  pub write : Disk → FilePath → Text → Result Disk Text
  pub create_dir_all : Disk → FilePath → Result Disk Text
  -- a file that was written reads back
  pub read-write :
      (d e : Disk) (p : FilePath) (body : Text) → write d p body ≡ ok e → read e p ≡ contents body
  -- whether two paths lead to one file; another file is not changed
  pub IsSameFile : FilePath → FilePath → Type 0
  pub read-write_apart :
      (d e : Disk) (p q : FilePath) (body : Text)
      → ¬ IsSameFile p q
      → write d p body ≡ ok e
      → read e q ≡ read d q

-- `fs::read_to_string` where every failure is an error.
abbrev pub text_of : ReadOutcome → Result Text ReadOutcome
text_of (contents body) = ok body
text_of not_found = err not_found
text_of (failed message) = err (failed message)

pub text_of-ok : (r : ReadOutcome) (body : Text) → text_of r ≡ ok body → r ≡ contents body
text_of-ok (contents text) body h = cc
text_of-ok not_found body h = cc
text_of-ok (failed message) body h = cc

-- A disk that never fails, on which the assumptions hold.
outcome : Option Text → ReadOutcome
outcome none = not_found
outcome (some body) = contents body

unfoldable pub memory_read : HashMap Text → FilePath → ReadOutcome
unfolding outcome
memory_read d p = outcome (lookup p d)

unfoldable pub memory_write : HashMap Text → FilePath → Text → Result (HashMap Text) Text
memory_write d p body = ok (insert p body d)

pub memory_read-write :
    (d e : HashMap Text) (p : FilePath) (body : Text)
    → memory_write d p body ≡ ok e
    → memory_read e p ≡ contents body
unfolding memory_read memory_write outcome
memory_read-write d e p body h = ground (arith, lookup-insert p p body d, text_eq_refl p)

pub memory_read-write_apart :
    (d e : HashMap Text) (p q : FilePath) (body : Text)
    → p ≢ q
    → memory_write d p body ≡ ok e
    → memory_read e q ≡ memory_read d q
unfolding memory_read memory_write outcome
memory_read-write_apart d e p q body apart h =
    ground (arith, lookup-insert p q body d, text_eq_iff p q)

abbrev pub memory : Files
memory = record {
  Disk = HashMap Text;
  read = memory_read;
  write = memory_write;
  create_dir_all = λ d p. ok d;
  read-write = memory_read-write;
  IsSameFile = λ p q. p ≡ q;
  read-write_apart = memory_read-write_apart;
}
