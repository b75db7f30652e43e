-- ===== src/Mcp/Peer/Answers.antt =====
-- The calls of a peer over every interleaving.
use vmux.Base.{
  ℕ, ◌+◌, ◌^◌, ◌≤◌, ◌<◌, ◌≡◌, inl, inr, refl, ◌∙◌, Bool, true, false, List, [], ◌∷◌, ◌++◌, Option,
  none, some, if◌then◌else◌, ltb, Bytes, String-eq, ◌==◌, length, arith, Option-cases,
}
use vmux.Mcp.Message.{Message}
use vmux.Mcp.Peer.{
  Call, Codec, Peer, new_peer, change_at, draw, register, register_in, write, write_in, take_reply,
  take_in, give_up, give_up_in, deliver, deliver_to, deliver_in, fail_pending, route, route_call,
  route_line, trim, ReadEnd, more, eof, broken, after_line, read_line, close, notify, max_message,
}
use vmux.Mcp.Peer.Serve.{serve, Handled, nth, without, serve_request}
use vmux.Mcp.Peer.Steps.{
  Step, draws, registers, writes, takes, gives_up, reads, serves, notifies, closes, step, run,
}
use vmux.Mcp.Peer.Coherent.{
  Coherent, register-Coherent, write-Coherent, take_reply-Coherent, give_up-Coherent,
}
use vmux.Mcp.Peer.Kept.{read_line-Coherent, draw-Coherent, serve-Coherent}

change_at-next_id :
    (p : Peer) (id : ℕ) (f : Bool → Call → Bool × Call) (o : Option Call)
    → (change_at p id f o).next_id ≡ p.next_id
unfolding change_at
change_at-next_id p id f none = refl
change_at-next_id p id f (some c) = refl

if-next_id :
    (b : Bool) (p q : Peer) (n : ℕ)
    → p.next_id ≡ n
    → q.next_id ≡ n
    → (if b then p else q).next_id ≡ n
if-next_id true p q n h k = h
if-next_id false p q n h k = k

deliver-next_id : (codec : Codec) (p : Peer) (m : Message) → (deliver codec p m).next_id ≡ p.next_id
unfolding deliver deliver_to
deliver-next_id codec p m = elim (Option-cases m.id) [
  | inl e ↦ rw (e, deliver)
  | inr (raw, e) ↦ elim (Option-cases (codec.read_id raw)) [
    | inl n ↦ rw (e, deliver, n)
    | inr (id, n) ↦ rw (e, deliver, n) (change_at-next_id p id (deliver_in m) (p.calls id))
  ]
]

route_call-next_id :
    (p : Peer) (m : Message) (o : Option Bytes) → (route_call p m o).next_id ≡ p.next_id
unfolding route_call
route_call-next_id p m (some raw) = refl
route_call-next_id p m none =
    if-next_id p.has_handler (record p { notified = p.notified ++ m ∷ [] }) p p.next_id refl refl

route_line-next_id :
    (codec : Codec) (p : Peer) (line : Bytes) → (route_line codec p line).next_id ≡ p.next_id
unfolding route_line route
route_line-next_id codec p line = elim (Option-cases (codec.decode line)) [
  | inl e ↦ rw (e, route_line) (if-next_id (ltb 0 (length (trim line))) p p p.next_id refl refl)
  | inr (m, e) ↦
      rw (e, route_line)
        (if-next_id (ltb 0 (length (trim line))) (route codec p m) p p.next_id
          (if-next_id (m.method == "") (deliver codec p m) (route_call p m m.id) p.next_id
            (deliver-next_id codec p m) (route_call-next_id p m m.id))
          refl)
]

after_line-next_id : (p : Peer) (end : ReadEnd) → (after_line p end).next_id ≡ p.next_id
unfolding after_line fail_pending
after_line-next_id p more = refl
after_line-next_id p eof = refl
after_line-next_id p broken = refl

read_line-next_id :
    (codec : Codec) (p : Peer) (line : Bytes) (end : ReadEnd)
    → (read_line codec p line end).next_id ≡ p.next_id
unfolding read_line
read_line-next_id codec p line end =
    let read : Peer = after_line (route_line codec p line) end in
    let stopped : Peer = record p { reading = false } in
    let long : Bool = ltb max_message (length line) in
    if-next_id p.reading (if long then stopped else read) p p.next_id
      (if-next_id long stopped read p.next_id refl
        (after_line-next_id (route_line codec p line) end ∙ route_line-next_id codec p line))
      refl

serve-next_id :
    (p : Peer) (n : ℕ) (out : Handled) (ok : Bool) → (serve p n out ok).next_id ≡ p.next_id
unfolding serve
serve-next_id p n out ok = elim (Option-cases (nth p.inbound n)) [
  | inl e ↦ rw (e, serve)
  | inr (req, e) ↦
      let rest : Peer = record p { inbound = without p.inbound n } in
      rw (e, serve)
        (if-next_id ok (record rest { sent = p.sent ++ serve_request p.has_handler req out ∷ [] })
          rest p.next_id refl refl)
]

-- A step draws one id at most.
pub step-next_id :
    (codec : Codec) (p : Peer) (a : Step)
    → p.next_id + 1 < 2 ^ 64
    → (step codec p a).next_id ≤ p.next_id + 1
unfolding step draw register write take_reply give_up close notify
step-next_id codec p (draws method none) room = omega arith
step-next_id codec p (draws method (some params)) room = omega (arith, room)
step-next_id codec p (registers id) room =
    omega (arith, change_at-next_id p id (λ b c. register_in p.closed b c c.phase) (p.calls id))
step-next_id codec p (writes id ok) room =
    omega (arith, change_at-next_id p id (λ b c. write_in ok b c c.phase) (p.calls id))
step-next_id codec p (takes id) room =
    omega (arith, change_at-next_id p id (λ b c. take_in b c c.phase c.channel) (p.calls id))
step-next_id codec p (gives_up id) room =
    omega (arith, change_at-next_id p id (λ b c. give_up_in b c c.phase) (p.calls id))
step-next_id codec p (reads line end) room = omega (arith, read_line-next_id codec p line end)
step-next_id codec p (serves n h ok) room = omega (arith, serve-next_id p n h ok)
step-next_id codec p (notifies method none ok) room = omega arith
step-next_id codec p (notifies method (some params) ok) room = omega arith
step-next_id codec p closes room = omega arith

step-Coherent :
    (codec : Codec) (p : Peer) (a : Step)
    → p.next_id + 1 < 2 ^ 64
    → Coherent codec p
    → Coherent codec (step codec p a)
unfolding step close notify
step-Coherent codec p (draws method params) room h = draw-Coherent codec p method params room h
step-Coherent codec p (registers id) room h = register-Coherent codec p id h
step-Coherent codec p (writes id ok) room h = write-Coherent codec p id ok h
step-Coherent codec p (takes id) room h = take_reply-Coherent codec p id h
step-Coherent codec p (gives_up id) room h = give_up-Coherent codec p id h
step-Coherent codec p (reads line end) room h = read_line-Coherent codec p line end h
step-Coherent codec p (serves n out ok) room h = serve-Coherent codec p n out ok h
step-Coherent codec p (notifies method none ok) room h = h
step-Coherent codec p (notifies method (some params) ok) room h = record {
  each = h.each;
  later = h.later;
}
step-Coherent codec p closes room h = record { each = h.each; later = h.later }

run_from-Coherent :
    (codec : Codec) (p : Peer) (steps : List Step)
    → p.next_id + length steps < 2 ^ 64
    → Coherent codec p
    → Coherent codec (run codec p steps)
unfolding run
run_from-Coherent codec p [] room h = h
run_from-Coherent codec p (a ∷ steps) room h =
    let small : p.next_id + 1 < 2 ^ 64 = omega (arith, room) in
    run_from-Coherent codec (step codec p a) steps
      (omega (arith, room, step-next_id codec p a small)) (step-Coherent codec p a small h)

-- However the calls, the reading loop, the handlers and Close are interleaved, fewer than 2^64
-- steps after the peer was made: a call that waits has its entry in pending exactly as long as its
-- channel is open and empty, no other call has an entry, and the message that stands in a
-- channel, or that a call has returned with, has the id of that call.
pub run-Coherent :
    (codec : Codec) (has_handler : Bool) (steps : List Step)
    → length steps < 2 ^ 64
    → Coherent codec (run codec (new_peer has_handler) steps)
run-Coherent codec has_handler steps room =
    run_from-Coherent codec (new_peer has_handler) steps (omega (arith, room))
      (record { each = λ id. refl; later = λ id after. refl })
