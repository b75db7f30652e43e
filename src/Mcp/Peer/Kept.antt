-- ===== src/Mcp/Peer/Kept.antt =====
-- The reading loop, the drawing of ids and the serving of requests keep the calls coherent.
use vmux.Base.{
  ℕ, ◌+◌, ◌%◌, ◌^◌, ◌<◌, ◌≡◌, inl, inr, refl, subst, Bool, true, false, [], ◌∷◌, ◌++◌, Option, none,
  some, if◌then◌else◌, ltb, String, Bytes, String-eq, ◌==◌, length, arith, Bool-cases, Option-cases,
}
use vmux.Mcp.Message.{Message}
use vmux.Mcp.Peer.{
  Channel, quiet, holding, shut, answered, refused, unwritten, cancelled, disconnected, Phase,
  drawn, registered, waiting, ended, Call, Codec, Peer, draw, deliver, deliver_to, deliver_in,
  shut_call, fail_pending, route, route_call, route_line, trim, ReadEnd, more, eof, broken,
  after_line, read_line, max_message,
}
use vmux.Mcp.Peer.Serve.{serve, Handled, nth, without, serve_request}
use vmux.Mcp.Peer.Coherent.{IsFor, IsAt, IsCoherent, Coherent, at-holds, change_at-Coherent}

module _ (codec : Codec) where
  deliver_in-IsAt :
      (m : Message) (id : ℕ) (b : Bool) (c : Call)
      → IsFor codec id m
      → IsAt codec id b c.channel c.phase
      → IsAt codec id (deliver_in m b c).0 (deliver_in m b c).1.channel (deliver_in m b c).1.phase
  unfolding deliver_in
  deliver_in-IsAt m id false c for h = h
  deliver_in-IsAt m id true c for h = delivered c.phase c.channel h
    where
      delivered :
          (phase : Phase) (ch : Channel)
          → IsAt codec id true ch phase
          → IsAt codec id false (holding m) phase
      delivered drawn ch k = refl
      delivered registered ch k = (refl, for)
      delivered waiting ch k = (refl, for)
      delivered (ended (answered x)) ch k = (refl, k.1)
      delivered (ended refused) ch k = refl
      delivered (ended unwritten) ch k = refl
      delivered (ended cancelled) ch k = refl
      delivered (ended disconnected) ch k = refl

  deliver_to-Coherent :
      (p : Peer) (m : Message) (raw : Bytes) (o : Option ℕ)
      → m.id ≡ some raw
      → codec.read_id raw ≡ o
      → Coherent codec p
      → Coherent codec (deliver_to p m o)
  unfolding deliver_to
  deliver_to-Coherent p m raw none has reads h = h
  deliver_to-Coherent p m raw (some id) has reads h =
      change_at-Coherent codec p id (deliver_in m) (p.calls id) refl
        (λ b c at. deliver_in-IsAt m id b c (raw, has, reads) at) h

  deliver-Coherent :
      (p : Peer) (m : Message) → Coherent codec p → Coherent codec (deliver codec p m)
  unfolding deliver
  deliver-Coherent p m h = elim (Option-cases m.id) [
    | inl e ↦ rw (e, deliver) h
    | inr (raw, e) ↦ rw (e, deliver) (deliver_to-Coherent p m raw (codec.read_id raw) e refl h)
  ]

  -- Closing the channel of a call that is in pending.
  shut_call-IsCoherent :
      (id : ℕ) (b : Bool) (o : Option Call)
      → IsCoherent codec id b o
      → IsCoherent codec id false (if b then shut_call o else o)
  unfolding shut_call
  shut_call-IsCoherent id false o h = h
  shut_call-IsCoherent id true none h = refl
  shut_call-IsCoherent id true (some c) h = closed c.phase c.channel h
    where
      closed :
          (phase : Phase) (ch : Channel)
          → IsAt codec id true ch phase
          → IsAt codec id false shut phase
      closed drawn ch k = refl
      closed registered ch k = refl
      closed waiting ch k = refl
      closed (ended (answered m)) ch k = (refl, k.1)
      closed (ended refused) ch k = refl
      closed (ended unwritten) ch k = refl
      closed (ended cancelled) ch k = refl
      closed (ended disconnected) ch k = refl

  either_Coherent :
      (b : Bool) (p q : Peer)
      → Coherent codec p
      → Coherent codec q
      → Coherent codec (if b then p else q)
  either_Coherent true p q h k = h
  either_Coherent false p q h k = k

  fail_pending-Coherent : (p : Peer) → Coherent codec p → Coherent codec (fail_pending p)
  unfolding fail_pending shut_call
  fail_pending-Coherent p h = record {
    each = λ id. shut_call-IsCoherent id (p.pending id) (p.calls id) (h.each id);
    later = λ id after. elim (Bool-cases (p.pending id)) [
      | inl e ↦ rw (e, h.later id after) refl
      | inr e ↦ rw e (h.later id after)
    ];
  }

  route_call-Coherent :
      (p : Peer) (m : Message) (o : Option Bytes)
      → Coherent codec p
      → Coherent codec (route_call p m o)
  unfolding route_call
  route_call-Coherent p m (some raw) h = record { each = h.each; later = h.later }
  route_call-Coherent p m none h =
      either_Coherent p.has_handler (record p { notified = p.notified ++ m ∷ [] }) p
        (record { each = h.each; later = h.later }) h

  route-Coherent : (p : Peer) (m : Message) → Coherent codec p → Coherent codec (route codec p m)
  unfolding route
  route-Coherent p m h =
      either_Coherent (m.method == "") (deliver codec p m) (route_call p m m.id)
        (deliver-Coherent p m h) (route_call-Coherent p m m.id h)

  route_line-Coherent :
      (p : Peer) (line : Bytes) → Coherent codec p → Coherent codec (route_line codec p line)
  unfolding route_line
  route_line-Coherent p line h = elim (Bool-cases (ltb 0 (length (trim line)))) [
    | inl e ↦ elim (Option-cases (codec.decode line)) [
      | inl none_is ↦ rw (e, none_is, route_line) h
      | inr (m, some_is) ↦ rw (e, some_is, route_line) (route-Coherent p m h)
    ]
    | inr e ↦ rw (e, route_line) h
  ]

  pub stop-Coherent : (p : Peer) → Coherent codec p → Coherent codec (record p { reading = false })
  stop-Coherent p h = record { each = h.each; later = h.later }

  after_line-Coherent :
      (p : Peer) (end : ReadEnd) → Coherent codec p → Coherent codec (after_line p end)
  unfolding after_line
  after_line-Coherent p more h = h
  after_line-Coherent p eof h = stop-Coherent (fail_pending p) (fail_pending-Coherent p h)
  after_line-Coherent p broken h = stop-Coherent (fail_pending p) (fail_pending-Coherent p h)

  pub read_line-Coherent :
      (p : Peer) (line : Bytes) (end : ReadEnd)
      → Coherent codec p
      → Coherent codec (read_line codec p line end)
  unfolding read_line
  read_line-Coherent p line end h =
      let read : Peer = after_line (route_line codec p line) end in
      let stopped : Peer = record p { reading = false } in
      let long : Bool = ltb max_message (length line) in
      either_Coherent p.reading (if long then stopped else read) p
        (either_Coherent long stopped read (stop-Coherent p h)
          (after_line-Coherent (route_line codec p line) end (route_line-Coherent p line h)))
        h

  pub draw-Coherent :
      (p : Peer) (method : String) (params : Option Bytes)
      → p.next_id + 1 < 2 ^ 64
      → Coherent codec p
      → Coherent codec (draw p method params)
  unfolding draw
  draw-Coherent p method none room h = h
  draw-Coherent p method (some params) room h =
      let id : ℕ = (p.next_id + 1) % 2 ^ 64 in
      let next : id ≡ p.next_id + 1 = omega (arith, room) in
      let c : Call = record { method = method; params = params; phase = drawn; channel = quiet } in
      let unused : p.pending id ≡ false =
        subst (λ o. IsCoherent codec id (p.pending id) o) (h.later id (omega (arith, next)))
          (h.each id) in
      record {
        each = λ k.
            at-holds (λ q o. IsCoherent codec q (p.pending q) o) id (some c) p.calls k unused
              (h.each k);
        later = λ k after.
            at-holds (λ q o. p.next_id + 1 < q → o ≡ none) id (some c) p.calls k
              (λ early. absurd (omega (arith, early, next)))
              (λ early. h.later k (omega (arith, early))) (omega (arith, after, next));
      }

  pub serve-Coherent :
      (p : Peer) (n : ℕ) (out : Handled) (ok : Bool)
      → Coherent codec p
      → Coherent codec (serve p n out ok)
  unfolding serve
  serve-Coherent p n out ok h = elim (Option-cases (nth p.inbound n)) [
    | inl e ↦ rw (e, serve) h
    | inr (req, e) ↦
        let rest : Peer = record p { inbound = without p.inbound n } in
        rw (e, serve)
          (either_Coherent ok
            (record rest { sent = p.sent ++ serve_request p.has_handler req out ∷ [] }) rest
            (record { each = h.each; later = h.later }) (record { each = h.each; later = h.later }))
  ]
