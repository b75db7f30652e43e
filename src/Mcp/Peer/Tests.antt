-- ===== src/Mcp/Peer/Tests.antt =====
-- Tests of the peer, and its properties at concrete inputs. A line of the tests is a reply to the
-- call whose one-digit id it is.
use vmux.Base.{
  ℕ, zero, suc, ◌+◌, ◌-◌, ◌≡◌, refl, ap, true, false, List, [], ◌∷◌, Option, none, some, Bytes,
  codes, length, arith,
}
use vmux.Mcp.Message.{Message}
use vmux.Mcp.Peer.{
  Codec, Peer, Call, waiting, ended, Ending, Channel, quiet, shut, new_peer, read_line, more, eof,
  take_reply, trim,
}
use vmux.Mcp.Peer.Steps.{Step, draws, registers, writes, takes, reads, closes, run}
use vmux.Mcp.Peer.Coherent.{Coherent}
use vmux.Mcp.Peer.Answers.{run-Coherent}
use vmux.Mcp.Peer.Ends.{IsLast, read_line-ends_calls}
use vmux.Mcp.Peer.Stopped.{IsStuck, read_line-too_long}

abbrev reply : Bytes → Message
reply line = record { id = some line; method = ""; params = []; result = codes "{}"; error = none }

abbrev digit : Bytes → Option ℕ
digit [] = none
digit (c ∷ s) = some (c - b'0')

abbrev codec : Codec
codec = record {
  decode = λ line. some (reply line);
  read_id = digit;
  print_id = λ n. (n + b'0') ∷ [];
}

-- Two calls that are both written before one of them is answered.
abbrev two_calls : List Step
two_calls =
    draws "tools/list" (some [])
    ∷ draws "tools/call" (some (codes "{}"))
    ∷ registers 2
    ∷ registers 1
    ∷ writes 1 true
    ∷ writes 2 true
    ∷ []

abbrev both : Peer
both = run codec (new_peer false) two_calls

abbrev waiting_call : Channel → Call
waiting_call ch = record { method = "tools/list"; params = []; phase = waiting; channel = ch }

-- A reply goes to the call with its id and to no other.
answered_second :
    (run codec both (reads (codes "2\n") more ∷ takes 1 ∷ takes 2 ∷ [])).calls 1
    ≡ some (waiting_call quiet)
unfolding run
answered_second = refl

trimmed : trim (codes "{} \r\n") ≡ codes "{}"
unfolding trim
trimmed = refl

run-Coherent_example : Coherent codec both
run-Coherent_example = run-Coherent codec false two_calls (omega arith)

read_line-ends_calls_example :
    (e : Ending) × ((take_reply (read_line codec both [] eof) 1).calls 1
      ≡ some (record (waiting_call shut) { phase = ended e }))
    × IsLast codec 1 e
unfolding run read_line
read_line-ends_calls_example =
    read_line-ends_calls codec false two_calls [] eof 1 (waiting_call shut) (omega arith) refl
      (omega arith) (λ e. cc e) refl refl

filled : ℕ → Bytes
filled zero = []
filled (suc n) = b'x' ∷ filled n

length-filled : (n : ℕ) → length (filled n) ≡ n
unfolding filled
length-filled zero = refl
length-filled (suc n) = ap suc (length-filled n)

abbrev later : List Step
later = reads (codes "1\n") more ∷ takes 1 ∷ closes ∷ takes 1 ∷ []

stops_at_long_line :
    IsStuck (run codec (read_line codec both (filled 33554433) eof) later) 1 (waiting_call quiet)
unfolding run
stops_at_long_line =
    read_line-too_long codec both (filled 33554433) eof later 1 (waiting_call quiet) (omega arith)
      refl (omega (arith, length-filled 33554433)) refl (omega arith) refl refl
      (tt, (tt, (tt, (tt, tt))))
