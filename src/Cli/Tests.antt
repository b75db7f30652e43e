-- ===== src/Cli/Tests.antt =====
-- The client at concrete inputs. In the lines, a number stands for a message.
use vmux.Base.{
  ℕ, pos, ◌≡◌, refl, true, false, List, [], ◌∷◌, Option, none, some, String, Bytes, String-eq,
  if◌then◌else◌, nat_eq,
}
use vmux.Cli.Client.{
  Response, Probe, Codec, Channel, quiet, shut, holding, unwritten, disconnected, answered, Ending,
  registered, waiting, ended, Call, Client, dial, Step, calls, writes, takes, reads, reading_ends,
  attaches, run, end_reading, take_reply,
}
use vmux.Cli.Coherent.{IsFor}
use vmux.Cli.Answers.{HasReturned, run-IsFor, end_reading-HasReturned}
use vmux.Cli.Attach.{Notices, attach, chunks, first_exit, line_notices}
use vmux.Cli.Heard.{attached_between, attach-shows}
use vmux.Cli.Command.{spawns, fails, shows_usage, opens, main, tty_size}

-- A line with an id has the id as its first number; a line 0 is output, 200 an exit.
abbrev probe_of : Bytes → Option Probe
probe_of [] = none
probe_of (k ∷ rest) =
    if nat_eq k 0
    then some (record { id = none; method = "pty.data"; params = rest })
    else (if nat_eq k 200
        then some (record { id = none; method = "pty.exit"; params = rest })
        else some (record { id = some (k ∷ []); method = ""; params = [] }))

abbrev response_of : Bytes → Option Response
response_of [] = none
response_of (k ∷ rest) = some (record { id = some (k ∷ []); result = rest; error = none })

abbrev id_of : Bytes → Option ℕ
id_of [] = none
id_of (k ∷ rest) = some k

abbrev codec : Codec
codec = record { probe = probe_of; response = response_of; read_id = id_of }

abbrev notices : Notices
notices = record { read_data = λ b. some ("s", some b); read_exit = λ b. some ("s", pos 3) }

abbrev call_of : String → Channel → vmux.Cli.Client.Phase → Call
call_of method ch phase = record { method = method; params = []; phase = phase; channel = ch }

abbrev reply : Response
reply = record { id = some (1 ∷ []); result = 9 ∷ []; error = none }

abbrev answered_steps : List Step
answered_steps = calls "pty.list" [] ∷ writes 1 true ∷ reads (1 ∷ 9 ∷ []) ∷ takes 1 ∷ []

answers_call :
    (run codec dial answered_steps).calls 1
    ≡ some (call_of "pty.list" (holding reply) (ended (answered reply)))
unfolding run
answers_call = refl

reply-IsFor : IsFor codec 1 reply
reply-IsFor =
    run-IsFor codec answered_steps 1 (call_of "pty.list" (holding reply) (ended (answered reply)))
      reply answers_call refl

abbrev open_steps : List Step
open_steps = calls "pty.list" [] ∷ writes 1 true ∷ []

still_waits : (run codec dial open_steps).calls 1 ≡ some (call_of "pty.list" quiet waiting)
unfolding run
still_waits = refl

still_reads : (run codec dial open_steps).reading ≡ true
unfolding run
still_reads = refl

end_reading-HasReturned_example :
    HasReturned codec ((take_reply (end_reading (run codec dial open_steps)) 1).calls 1)
end_reading-HasReturned_example =
    end_reading-HasReturned codec open_steps 1 (call_of "pty.list" quiet waiting) still_reads
      still_waits refl

-- A call that begins after the end of reading is not woken: it waits for good.
late_call_waits :
    (run codec dial
        (reading_ends ∷ calls "pty.list" [] ∷ writes 1 true ∷ reading_ends ∷ takes 1 ∷ [])).calls
      1
    ≡ some (call_of "pty.list" quiet waiting)
unfolding run
late_call_waits = refl

attach-shows_example :
    attach notices "s"
      (run codec dial (attached_between ((0 ∷ 5 ∷ []) ∷ (200 ∷ []) ∷ []) ((0 ∷ 6 ∷ []) ∷ [])))
    ≡ record {
      out = chunks notices "s" (line_notices codec ((0 ∷ 6 ∷ []) ∷ []));
      done = first_exit notices "s" (line_notices codec ((0 ∷ 6 ∷ []) ∷ []));
    }
attach-shows_example =
    attach-shows codec notices "s" ((0 ∷ 5 ∷ []) ∷ (200 ∷ []) ∷ []) ((0 ∷ 6 ∷ []) ∷ [])

-- An exit that is read before attach sets onNotify is lost, and attach is never done.
loses_exit :
    (attach notices "s" (run codec dial (attached_between ((200 ∷ []) ∷ []) ((0 ∷ 6 ∷ []) ∷ [])))
      ≡ record { out = (6 ∷ []) ∷ []; done = none })
    × (attach notices "s" (run codec dial (attached_between [] ((200 ∷ []) ∷ [])))
        ≡ record { out = []; done = some (pos 3) })
unfolding attach run
loses_exit = (refl, refl)

reads_arguments :
    (main true ("spawn" ∷ "--" ∷ "bash" ∷ "-l" ∷ []) ≡ spawns "bash" ("-l" ∷ []))
    × (main true ("spawn" ∷ "--" ∷ []) ≡ fails)
    × (main true ("help" ∷ []) ≡ shows_usage)
    × (main true ("open" ∷ "." ∷ []) ≡ opens ".")
    × (main false [] ≡ shows_usage)
unfolding main
reads_arguments = (refl, refl, refl, refl, refl)

reads_size : (tty_size (some (50, 132)) ≡ (50, 132)) × (tty_size (some (0, 9)) ≡ (24, 80))
unfolding tty_size
reads_size = (refl, refl)
