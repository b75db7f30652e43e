-- ===== src/Pty/Reader.antt =====
-- session.go: readPump, on what reading the pseudo-terminal gives and how waiting for the process ends.
use vmux.Base.{
  ◌≡◌, refl, ap, ◌∙◌, ℤ, pos, negsuc, Bool, true, false, List, [], ◌∷◌, ◌++◌, if◌then◌else◌, String,
  Bytes,
}
use mathlib.Core.List.{append-nil}

-- A read of the pseudo-terminal: its bytes, at most 32 KiB, and whether it returned an error.
pub record Read : Type 0 where
  pub data_read : Bytes
  pub ends : Bool

-- cmd.Wait: no error, an ExitError with its code, or another error.
pub data Waited : Type 0 where
  exited_well : Waited
  exit_error : ℤ → Waited
  wait_error : Waited

-- pty.data, before its base64 encoding, and pty.exit
pub data Notice : Type 0 where
  data_notice : String → Bytes → Notice
  exit_notice : String → ℤ → Notice

unfoldable pub exit_code : Waited → ℤ
exit_code exited_well = pos 0
exit_code (exit_error code) = code
exit_code wait_error = negsuc 0

-- The bytes that a read gives to the tap and to the client, if there are any.
unfoldable pub data_notices : String → Bytes → List Notice
data_notices sid [] = []
data_notices sid (c ∷ s) = data_notice sid (c ∷ s) ∷ []

-- readPump, with whether onExit has been called. Without an error it still waits for the next read.
unfoldable pub read_pump : String → Waited → List Read → List Notice × Bool
unfolding data_notices exit_code
read_pump sid w [] = ([], false)
read_pump sid w (r ∷ reads) =
    let (later, over) = read_pump sid w reads in
    let now = data_notices sid r.data_read in
    if r.ends then (now ++ exit_notice sid (exit_code w) ∷ [], true) else (now ++ later, over)

-- The bytes that are read up to the first error, and whether there is one.
unfoldable pub output_of : List Read → Bytes × Bool
output_of [] = ([], false)
output_of (r ∷ reads) =
    let (later, over) = output_of reads in
    if r.ends then (r.data_read, true) else (r.data_read ++ later, over)

-- The bytes that the notices show, up to an exit, and whether an exit is the last of them.
unfoldable pub shown_bytes : List Notice → Bytes
shown_bytes [] = []
shown_bytes (data_notice sid b ∷ ns) = b ++ shown_bytes ns
shown_bytes (exit_notice sid code ∷ ns) = shown_bytes ns

-- The notices end with an exit and have no other, or have none.
abbrev pub EndsOnce : String → ℤ → Bool → List Notice → Type 0
EndsOnce sid code over [] = over ≡ false
EndsOnce sid code over (data_notice id b ∷ ns) = (id ≡ sid) × EndsOnce sid code over ns
EndsOnce sid code over (exit_notice id c ∷ ns) =
    (over ≡ true) × ((id ≡ sid) × ((c ≡ code) × (ns ≡ [])))

shown_bytes-data :
    (sid : String) (b : Bytes) (ns : List Notice)
    → shown_bytes (data_notices sid b ++ ns) ≡ b ++ shown_bytes ns
unfolding shown_bytes data_notices
shown_bytes-data sid [] ns = refl
shown_bytes-data sid (c ∷ s) ns = refl

EndsOnce-data :
    (sid : String) (code : ℤ) (over : Bool) (b : Bytes) (ns : List Notice)
    → EndsOnce sid code over ns
    → EndsOnce sid code over (data_notices sid b ++ ns)
unfolding data_notices
EndsOnce-data sid code over [] ns h = h
EndsOnce-data sid code over (c ∷ s) ns h = (refl, h)

-- The notices and the end of a reader, for the bytes and the end of what it reads.
abbrev pub IsPumped : String → ℤ → List Notice × Bool → Bytes × Bool → Type 0
IsPumped sid code out given =
    (shown_bytes out.0 ≡ given.0) × (out.1 ≡ given.1) × EndsOnce sid code given.1 out.0

if-IsPumped :
    (sid : String) (code : ℤ) (b : Bool) (out out' : List Notice × Bool)
    (given given' : Bytes × Bool)
    → IsPumped sid code out given
    → IsPumped sid code out' given'
    → IsPumped sid code (if b then out else out') (if b then given else given')
if-IsPumped sid code true out out' given given' h h' = h
if-IsPumped sid code false out out' given given' h h' = h'

-- What readPump notifies for a session: in order all the bytes that were read up to the first error of a
-- read, those read with the error included, each under the session's id; and after them, exactly if
-- a read has failed, one pty.exit with the code, followed by onExit.
pub read_pump-EndsOnce :
    (sid : String) (w : Waited) (reads : List Read)
    → IsPumped sid (exit_code w) (read_pump sid w reads) (output_of reads)
unfolding read_pump output_of shown_bytes
read_pump-EndsOnce sid w [] = (refl, refl, refl)
read_pump-EndsOnce sid w (r ∷ reads) =
    let (bytes, over, once) = read_pump-EndsOnce sid w reads in
    let code : ℤ = exit_code w in
    let later : List Notice = (read_pump sid w reads).0 in
    let last : List Notice = exit_notice sid code ∷ [] in
    if-IsPumped sid code r.ends (data_notices sid r.data_read ++ last, true)
      (data_notices sid r.data_read ++ later, (read_pump sid w reads).1) (r.data_read, true)
      (r.data_read ++ (output_of reads).0, (output_of reads).1)
      (
        shown_bytes-data sid r.data_read last ∙ append-nil r.data_read,
        refl,
        EndsOnce-data sid code true r.data_read last (refl, (refl, (refl, refl))),
      )
      (
        shown_bytes-data sid r.data_read later ∙ ap (◌++◌ r.data_read) bytes,
        over,
        EndsOnce-data sid code (output_of reads).1 r.data_read later once,
      )
