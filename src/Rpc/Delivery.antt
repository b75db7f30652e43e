-- ===== src/Rpc/Delivery.antt =====
-- What a connection has written of the lines that were queued.
use mathlib.Core.List.{append_assoc, append-nil}
use vmux.Base.{
  ℕ, ◌≤◌, ◌≡◌, refl, sym, ap, subst, ◌∙◌, Bool, true, false, List, [], ◌∷◌, ◌++◌, ltb, Bytes,
  length, length-append, take, drop, take-append-drop, arith, Bool-cases, inl, inr,
}
use vmux.Rpc.Reader.{write_frames}
use vmux.Rpc.Conn.{
  send_buffer, Conn, new_conn, Step, queues, drops, writes, breaks, ends, closes, queue_line, frame,
  write_first, break_first, end_loop, step_by, step, run,
}

abbrev accepted_line : Bool → Bytes → List Bytes
accepted_line true line = line ∷ []
accepted_line false line = []

-- The line that a step puts on the queue, if it does.
abbrev pub accepted_by : Conn → Step → List Bytes
accepted_by c (queues line) = accepted_line (ltb (length c.queue) send_buffer) line
accepted_by c (drops line) = []
accepted_by c writes = []
accepted_by c (breaks n) = []
accepted_by c ends = []
accepted_by c closes = []

-- The lines that the steps put on the queue.
abbrev pub accepted : Conn → List Step → List Bytes
accepted c [] = []
accepted c (a ∷ steps) = accepted_by c a ++ accepted (step c a) steps

-- Of the frames of the lines, in their order, an initial part is written, with nothing in between; the
-- rest is what is queued, as long as the loop runs. The queue never exceeds its capacity.
pub record IsWritten (c : Conn) (lines : List Bytes) : Type 0 where
  pub rest : Bytes
  pub whole : c.output ++ rest ≡ write_frames lines
  pub queued : c.writing ≡ true → rest ≡ write_frames c.queue
  pub bounded : length c.queue ≤ send_buffer

write_frames-append :
    (ls ms : List Bytes) → write_frames (ls ++ ms) ≡ write_frames ls ++ write_frames ms
unfolding write_frames
write_frames-append [] ms = refl
write_frames-append (line ∷ ls) ms =
    ap (λ s. line ++ b'\n' ∷ s) (write_frames-append ls ms)
    ∙ sym (append_assoc line (b'\n' ∷ write_frames ls) (write_frames ms))

frame_first :
    (line : Bytes) (queue : List Bytes)
    → frame line ++ write_frames queue ≡ write_frames (line ∷ queue)
unfolding write_frames
frame_first line queue = append_assoc line (b'\n' ∷ []) (write_frames queue)

queue_line-IsWritten :
    (c : Conn) (line : Bytes) (lines : List Bytes)
    → IsWritten c lines
    → IsWritten (queue_line c line) (lines ++ accepted_line (ltb (length c.queue) send_buffer) line)
unfolding queue_line
queue_line-IsWritten c line lines h = elim (Bool-cases (ltb (length c.queue) send_buffer)) [
  | inl e ↦ simp e (record {
    rest = h.rest ++ write_frames (line ∷ []);
    whole =
        sym (append_assoc c.output h.rest (write_frames (line ∷ [])))
        ∙ ap (λ s. s ++ write_frames (line ∷ [])) h.whole
        ∙ sym (write_frames-append lines (line ∷ []));
    queued = λ on.
        ap (λ s. s ++ write_frames (line ∷ [])) (h.queued on)
        ∙ sym (write_frames-append c.queue (line ∷ []));
    bounded = ground (arith, length-append c.queue (line ∷ []));
  })
  | inr e ↦ simp (e, append-nil lines) h
]

write_first-IsWritten :
    (c : Conn) (queue lines : List Bytes)
    → c.queue ≡ queue
    → c.writing ≡ true
    → IsWritten c lines
    → IsWritten (write_first c queue) lines
unfolding write_first write_frames
write_first-IsWritten c [] lines is on h = h
write_first-IsWritten c (line ∷ queue) lines is on h = record {
  rest = write_frames queue;
  whole =
      append_assoc c.output (frame line) (write_frames queue)
      ∙ ap (λ s. c.output ++ s) (frame_first line queue)
      ∙ ap (λ s. c.output ++ s) (sym (h.queued on ∙ ap write_frames is))
      ∙ h.whole;
  queued = λ _. refl;
  bounded = omega (arith, h.bounded, ap length is);
}

break_first-IsWritten :
    (n : ℕ) (c : Conn) (queue lines : List Bytes)
    → c.queue ≡ queue
    → c.writing ≡ true
    → IsWritten c lines
    → IsWritten (break_first n c queue) lines
unfolding break_first write_frames
break_first-IsWritten n c [] lines is on h = h
break_first-IsWritten n c (line ∷ queue) lines is on h = record {
  rest = drop n (frame line) ++ write_frames queue;
  whole =
      append_assoc c.output (take n (frame line)) (drop n (frame line) ++ write_frames queue)
      ∙ ap (λ s. c.output ++ s)
          (sym (append_assoc (take n (frame line)) (drop n (frame line)) (write_frames queue))
            ∙ ap (λ s. s ++ write_frames queue) (take-append-drop n (frame line))
            ∙ frame_first line queue
            ∙ sym (h.queued on ∙ ap write_frames is))
      ∙ h.whole;
  queued = λ e. cc e;
  bounded = omega (arith, h.bounded, ap length is);
}

end_loop-IsWritten :
    (c : Conn) (lines : List Bytes) → IsWritten c lines → IsWritten (end_loop c) lines
unfolding end_loop
end_loop-IsWritten c lines h = elim (Bool-cases c.done) [
  | inl e ↦
      simp e (record { rest = h.rest; whole = h.whole; queued = λ on. cc on; bounded = h.bounded })
  | inr e ↦ simp e h
]

step_by-IsWritten :
    (c : Conn) (b : Bool) (a : Step) (lines : List Bytes)
    → c.writing ≡ b
    → IsWritten c lines
    → IsWritten (step_by c b a) (lines ++ accepted_by c a)
unfolding step_by
step_by-IsWritten c b (queues line) lines is h = queue_line-IsWritten c line lines h
step_by-IsWritten c b (drops line) lines is h = rw (append-nil lines) h
step_by-IsWritten c true writes lines is h =
    rw (append-nil lines) (write_first-IsWritten c c.queue lines refl is h)
step_by-IsWritten c false writes lines is h = rw (append-nil lines) h
step_by-IsWritten c true (breaks n) lines is h =
    rw (append-nil lines) (break_first-IsWritten n c c.queue lines refl is h)
step_by-IsWritten c false (breaks n) lines is h = rw (append-nil lines) h
step_by-IsWritten c b ends lines is h = rw (append-nil lines) (end_loop-IsWritten c lines h)
step_by-IsWritten c b closes lines is h =
    rw (append-nil lines)
      (record { rest = h.rest; whole = h.whole; queued = h.queued; bounded = h.bounded })

run_from-IsWritten :
    (c : Conn) (steps : List Step) (lines : List Bytes)
    → IsWritten c lines
    → IsWritten (run c steps) (lines ++ accepted c steps)
unfolding run step
run_from-IsWritten c [] lines h = rw (append-nil lines) h
run_from-IsWritten c (a ∷ steps) lines h =
    subst (IsWritten (run (step c a) steps))
      (append_assoc lines (accepted_by c a) (accepted (step c a) steps))
      (run_from-IsWritten (step c a) steps (lines ++ accepted_by c a)
        (step_by-IsWritten c c.writing a lines refl h))

-- However senders, the writing loop and the closing of a connection are interleaved: what is written to
-- the socket is an initial part of the frames of the queued lines, in the order of their queueing; as long
-- as the loop runs, the frames that are missing are those of the queue; and the queue never holds
-- more than 256 lines.
pub run-IsWritten : (steps : List Step) → IsWritten (run new_conn steps) (accepted new_conn steps)
unfolding write_frames
run-IsWritten steps =
    run_from-IsWritten new_conn steps []
      (record { rest = []; whole = refl; queued = λ on. refl; bounded = omega arith })
