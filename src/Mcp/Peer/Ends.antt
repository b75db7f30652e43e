-- ===== src/Mcp/Peer/Ends.antt =====
-- The end of a peer's connection: what becomes of the calls that wait.
use mathlib.Core.Bool.{false≢true}
use vmux.Base.{
  ℕ, ◌^◌, ◌≤◌, ◌<◌, ◌≡◌, ◌≢◌, refl, sym, ap, subst, ◌∙◌, Bool, true, false, List, some, ltb, nat_eq,
  Bytes, String-eq, length, arith,
}
use vmux.Mcp.Peer.{
  Channel, quiet, holding, shut, Ending, answered, refused, unwritten, cancelled, disconnected,
  waiting, ended, Call, Codec, Peer, new_peer, set_at, change_at, take_reply, take_in, fail_pending,
  ReadEnd, more, eof, broken, after_line, read_line, max_message,
}
use vmux.Mcp.Peer.Steps.{Step, run}
use vmux.Mcp.Peer.Coherent.{IsFor, IsAt, IsCoherent, Coherent}
use vmux.Mcp.Peer.Kept.{read_line-Coherent}
use vmux.Mcp.Peer.Answers.{run-Coherent}

nothing_pending :
    (codec : Codec) (p : Peer) (line : Bytes) (end : ReadEnd) (id : ℕ)
    → p.reading ≡ true
    → length line ≤ max_message
    → end ≢ more
    → (read_line codec p line end).pending id ≡ false
unfolding read_line after_line fail_pending
nothing_pending codec p line more id on short ends = absurd (ends refl)
nothing_pending codec p line eof id on short ends =
    let fits : ltb max_message (length line) ≡ false = ground (arith, short) in simp (on, fits)
nothing_pending codec p line broken id on short ends =
    let fits : ltb max_message (length line) ≡ false = ground (arith, short) in simp (on, fits)

-- How a call that reads from its channel can end after the connection has.
abbrev pub IsLast : Codec → ℕ → Ending → Type 0
IsLast codec id (answered m) = IsFor codec id m
IsLast codec id disconnected = Unit
IsLast codec id refused = ⊥
IsLast codec id unwritten = ⊥
IsLast codec id cancelled = ⊥

change_at_self :
    (p : Peer) (id : ℕ) (f : Bool → Call → Bool × Call) (c : Call)
    → p.calls id ≡ some c
    → (change_at p id f (p.calls id)).calls id ≡ some (f (p.pending id) c).1
unfolding change_at set_at
change_at_self p id f c has =
    let self : nat_eq id id ≡ true = ground arith in
    ap (λ o. (change_at p id f o).calls id) has ∙ rw self refl

take_in-IsLast :
    (codec : Codec) (id : ℕ) (b : Bool) (c : Call) (ch : Channel)
    → b ≡ false
    → IsAt codec id b ch waiting
    → (e : Ending) × ((take_in b c waiting ch).1 ≡ record c { phase = ended e }) × IsLast codec id e
unfolding take_in
take_in-IsLast codec id b c quiet alone h = absurd (false≢true (sym alone ∙ h))
take_in-IsLast codec id b c (holding m) alone h = (answered m, refl, h.1)
take_in-IsLast codec id b c shut alone h = (disconnected, refl, tt)

taken-IsLast :
    (codec : Codec) (p : Peer) (id : ℕ) (c : Call)
    → IsCoherent codec id (p.pending id) (p.calls id)
    → p.calls id ≡ some c
    → c.phase ≡ waiting
    → p.pending id ≡ false
    → (e : Ending) × ((take_reply p id).calls id ≡ some (record c { phase = ended e }))
      × IsLast codec id e
unfolding take_reply
taken-IsLast codec p id c h has waits alone =
    let here : IsAt codec id (p.pending id) c.channel waiting =
      subst (λ ph. IsAt codec id (p.pending id) c.channel ph) waits
        (subst (λ o. IsCoherent codec id (p.pending id) o) has h) in
    let (e, is, last) = take_in-IsLast codec id (p.pending id) c c.channel alone here in
    (
      e,
      change_at_self p id (λ b d. take_in b d d.phase d.channel) c has
          ∙ ap (λ ph. some (take_in (p.pending id) c ph c.channel).1) waits
          ∙ ap some is,
      last,
    )

-- When Run has read to the end of the connection, whether cleanly or by an error, no call is left
-- waiting: each one that waits returns as soon as it reads from its channel, with the answer that had
-- reached it or with the error that the connection is closed. The last line read must be within the
-- limit of a message, and fewer than 2^64 steps may have been taken.
pub read_line-ends_calls :
    (codec : Codec) (has_handler : Bool) (steps : List Step) (line : Bytes) (end : ReadEnd) (id : ℕ)
    (c : Call)
    → length steps < 2 ^ 64
    → (run codec (new_peer has_handler) steps).reading ≡ true
    → length line ≤ max_message
    → end ≢ more
    → (read_line codec (run codec (new_peer has_handler) steps) line end).calls id ≡ some c
    → c.phase ≡ waiting
    → (e : Ending) × ((take_reply
            (read_line codec (run codec (new_peer has_handler) steps) line end)
            id).calls
          id
        ≡ some (record c { phase = ended e }))
      × IsLast codec id e
read_line-ends_calls codec has_handler steps line end id c room on short ends has waits =
    let p : Peer = run codec (new_peer has_handler) steps in
    let h : Coherent codec (read_line codec p line end) =
      read_line-Coherent codec p line end (run-Coherent codec has_handler steps room) in
    taken-IsLast codec (read_line codec p line end) id c (h.each id) has waits
      (nothing_pending codec p line end id on short ends)
