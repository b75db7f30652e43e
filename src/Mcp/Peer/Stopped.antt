-- ===== src/Mcp/Peer/Stopped.antt =====
-- What becomes of a call that waits when Run has already returned.
use vmux.Base.{
  ℕ, ◌+◌, ◌%◌, ◌^◌, ◌≤◌, ◌<◌, ◌≡◌, ◌≢◌, inl, inr, refl, sym, ap, subst, ◌∙◌, Bool, true, false,
  List, [], ◌∷◌, ◌++◌, Option, none, some, if◌then◌else◌, ltb, Bytes, String-eq, length, arith,
  Option-cases, Every,
}
use vmux.Mcp.Peer.{
  quiet, drawn, waiting, Call, Codec, Peer, change_at, draw, register, register_in, write, write_in,
  take_reply, take_in, give_up, give_up_in, ReadEnd, read_line, close, notify, max_message,
}
use vmux.Mcp.Peer.Serve.{serve, Handled, nth, without, serve_request}
use vmux.Mcp.Peer.Steps.{
  Step, draws, registers, writes, takes, gives_up, reads, serves, notifies, closes, step, run,
}
use vmux.Mcp.Peer.Coherent.{at-holds}
use vmux.Mcp.Peer.Answers.{step-next_id}

-- Run has returned and the call waits with nothing in its channel.
pub record IsStuck (p : Peer) (id : ℕ) (c : Call) : Type 0 where
  pub over : p.reading ≡ false
  pub there : p.calls id ≡ some c
  pub old : id ≤ p.next_id
  pub waits : c.phase ≡ waiting
  pub empty : c.channel ≡ quiet

-- No step gives the call up, that is, its context does not end.
abbrev pub IsKept : ℕ → Step → Type 0
IsKept id (draws method params) = Unit
IsKept id (registers k) = Unit
IsKept id (writes k ok) = Unit
IsKept id (takes k) = Unit
IsKept id (gives_up k) = id ≢ k
IsKept id (reads line end) = Unit
IsKept id (serves n out ok) = Unit
IsKept id (notifies method params ok) = Unit
IsKept id closes = Unit

change_at-IsStuck :
    (p : Peer) (id k : ℕ) (c : Call) (f : Bool → Call → Bool × Call) (o : Option Call)
    → p.calls k ≡ o
    → ((b : Bool) → id ≡ k → (f b c).1 ≡ c)
    → IsStuck p id c
    → IsStuck (change_at p k f o) id c
unfolding change_at
change_at-IsStuck p id k c f none is keeps h = h
change_at-IsStuck p id k c f (some d) is keeps h = record {
  over = h.over;
  there =
      at-holds (λ q v. id ≡ q → v ≡ some c) k (some (f (p.pending k) d).1) p.calls id
        (λ e.
          let same : some d ≡ some c = sym is ∙ ap p.calls (sym e) ∙ h.there in
          let it : d ≡ c = cc same in
          ap some (ap (λ x. (f (p.pending k) x).1) it ∙ keeps (p.pending k) e))
        (λ e. h.there) refl;
  old = h.old;
  waits = h.waits;
  empty = h.empty;
}

if-IsStuck :
    (b : Bool) (p q : Peer) (id : ℕ) (c : Call)
    → IsStuck p id c
    → IsStuck q id c
    → IsStuck (if b then p else q) id c
if-IsStuck true p q id c h k = h
if-IsStuck false p q id c h k = k

serve-IsStuck :
    (p : Peer) (n : ℕ) (out : Handled) (ok : Bool) (id : ℕ) (c : Call)
    → IsStuck p id c
    → IsStuck (serve p n out ok) id c
unfolding serve
serve-IsStuck p n out ok id c h = elim (Option-cases (nth p.inbound n)) [
  | inl e ↦ rw (e, serve) h
  | inr (req, e) ↦
      let rest : Peer = record p { inbound = without p.inbound n } in
      let h' : IsStuck rest id c = record {
        over = h.over;
        there = h.there;
        old = h.old;
        waits = h.waits;
        empty = h.empty;
      } in
      rw (e, serve)
        (if-IsStuck ok (record rest { sent = p.sent ++ serve_request p.has_handler req out ∷ [] })
          rest id c
          (record { over = h.over; there = h.there; old = h.old; waits = h.waits; empty = h.empty })
          h')
]

step-IsStuck :
    (codec : Codec) (p : Peer) (a : Step) (id : ℕ) (c : Call)
    → p.next_id + 1 < 2 ^ 64
    → IsKept id a
    → IsStuck p id c
    → IsStuck (step codec p a) id c
unfolding step draw register write take_reply give_up close read_line serve notify
step-IsStuck codec p (draws method none) id c room kept h = h
step-IsStuck codec p (draws method (some params)) id c room kept h =
    let next : (p.next_id + 1) % 2 ^ 64 ≡ p.next_id + 1 = omega (arith, room) in
    let new : Call = record { method = method; params = params; phase = drawn; channel = quiet } in
    record {
      over = h.over;
      there =
          at-holds (λ q v. id ≡ q → v ≡ some c) ((p.next_id + 1) % 2 ^ 64) (some new) p.calls id
            (λ e. absurd (omega (arith, next, h.old, e))) (λ e. h.there) refl;
      old = omega (arith, next, h.old);
      waits = h.waits;
      empty = h.empty;
    }
step-IsStuck codec p (registers k) id c room kept h =
    change_at-IsStuck p id k c (λ b d. register_in p.closed b d d.phase) (p.calls k) refl
      (λ b e. ap (λ ph. (register_in p.closed b c ph).1) h.waits) h
step-IsStuck codec p (writes k ok) id c room kept h =
    let h' =
      change_at-IsStuck p id k c (λ b d. write_in ok b d d.phase) (p.calls k) refl
        (λ b e. ap (λ ph. (write_in ok b c ph).1) h.waits) h in
    record { over = h'.over; there = h'.there; old = h'.old; waits = h.waits; empty = h.empty }
step-IsStuck codec p (takes k) id c room kept h =
    change_at-IsStuck p id k c (λ b d. take_in b d d.phase d.channel) (p.calls k) refl
      (λ b e.
        ap (λ ph. (take_in b c ph c.channel).1) h.waits
        ∙ ap (λ ch. (take_in b c waiting ch).1) h.empty)
      h
step-IsStuck codec p (gives_up k) id c room kept h =
    change_at-IsStuck p id k c (λ b d. give_up_in b d d.phase) (p.calls k) refl
      (λ b e. absurd (kept e)) h
step-IsStuck codec p (reads line end) id c room kept h = simp h.over h
step-IsStuck codec p (serves n out ok) id c room kept h = serve-IsStuck p n out ok id c h
step-IsStuck codec p (notifies method none ok) id c room kept h = h
step-IsStuck codec p (notifies method (some params) ok) id c room kept h = record {
  over = h.over;
  there = h.there;
  old = h.old;
  waits = h.waits;
  empty = h.empty;
}
step-IsStuck codec p closes id c room kept h = record {
  over = h.over;
  there = h.there;
  old = h.old;
  waits = h.waits;
  empty = h.empty;
}

-- Once Run has returned, a call that waits with nothing in its channel waits for good: however the
-- other goroutines go on, Close included, as long as its own context does not end and fewer than
-- 2^64 ids are drawn.
pub run-IsStuck :
    (codec : Codec) (p : Peer) (steps : List Step) (id : ℕ) (c : Call)
    → p.next_id + length steps < 2 ^ 64
    → Every (IsKept id) steps
    → IsStuck p id c
    → IsStuck (run codec p steps) id c
unfolding run
run-IsStuck codec p [] id c room kept h = h
run-IsStuck codec p (a ∷ steps) id c room kept h =
    let small : p.next_id + 1 < 2 ^ 64 = omega (arith, room) in
    run-IsStuck codec (step codec p a) steps id c
      (omega (arith, room, step-next_id codec p a small)) kept.1
      (step-IsStuck codec p a id c small kept.0 h)

-- A message beyond the limit ends Run without failPending: each call that then waits with nothing
-- in its channel waits for good, whatever steps follow, unless its own context ends.
pub read_line-too_long :
    (codec : Codec) (p : Peer) (line : Bytes) (end : ReadEnd) (steps : List Step) (id : ℕ)
    (c : Call)
    → p.next_id + length steps < 2 ^ 64
    → p.reading ≡ true
    → max_message < length line
    → p.calls id ≡ some c
    → id ≤ p.next_id
    → c.phase ≡ waiting
    → c.channel ≡ quiet
    → Every (IsKept id) steps
    → IsStuck (run codec (read_line codec p line end) steps) id c
unfolding read_line
read_line-too_long codec p line end steps id c room on long has old waits empty kept =
    let over : ltb max_message (length line) ≡ true = ground (arith, long) in
    let stopped : Peer = record p { reading = false } in
    let is : read_line codec p line end ≡ stopped = simp (on, over) in
    subst (λ q. IsStuck (run codec q steps) id c) (sym is)
      (run-IsStuck codec stopped steps id c room kept
        (record { over = refl; there = has; old = old; waits = waits; empty = empty }))
