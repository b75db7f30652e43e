-- ===== src/Cli/Coherent.antt =====
-- What holds of every call of a client and its entry in pending.
use vmux.Base.{
  ℕ, ◌≡◌, inl, inr, refl, sym, subst, Bool, true, false, List, [], ◌∷◌, Option, none, some, Bytes,
  String, String-eq, ◌==◌, Bool-cases, if◌then◌else◌,
}
use vmux.Mcp.Peer.{set_at}
use vmux.Mcp.Peer.Coherent.{at-holds, set_at-holds}
use vmux.Cli.Client.{
  Response, Probe, Codec, Channel, quiet, shut, holding, unwritten, disconnected, answered, Phase,
  registered, waiting, ended, Call, Client, change_call, begin_call, write_in, write_call, take_in,
  take_reply, hold, deliver, deliver_read, deliver_id, respond, has_id, notify, route, read_line,
  shut_call, fail_pending, end_reading, Step, calls, writes, takes, reads, reading_ends, attaches,
  step, run,
}

-- The response has an id that reads as `id`.
abbrev pub IsFor : Codec → ℕ → Response → Type 0
IsFor codec id r = (raw : Bytes) × (r.id ≡ some raw) × (codec.read_id raw ≡ some id)

abbrev pub IsOpen : Codec → ℕ → Bool → Channel → Type 0
IsOpen codec id b quiet = b ≡ true
IsOpen codec id b (holding r) = IsFor codec id r
IsOpen codec id b shut = Unit

abbrev pub IsAt : Codec → ℕ → Bool → Channel → Phase → Type 0
IsAt codec id b ch registered = IsOpen codec id b ch
IsAt codec id b ch waiting = IsOpen codec id b ch
IsAt codec id b ch (ended (answered r)) = IsFor codec id r
IsAt codec id b ch (ended unwritten) = Unit
IsAt codec id b ch (ended disconnected) = Unit

-- A call that has not returned is in pending until its channel has a response or is closed; a response
-- in its channel, or that it returned with, has its id.
abbrev pub IsCoherent : Codec → ℕ → Bool → Option Call → Type 0
IsCoherent codec id b none = Unit
IsCoherent codec id b (some call) = IsAt codec id b call.channel call.phase

abbrev pub Coherent : Codec → Client → Type 0
Coherent codec c = (id : ℕ) → IsCoherent codec id (c.pending id) (c.calls id)

module _ (codec : Codec) where
  change_call-Coherent :
      (c : Client) (id : ℕ) (f : Call → Call) (o : Option Call)
      → c.calls id ≡ o
      → ((b : Bool) (call : Call)
          → IsAt codec id b call.channel call.phase
          → IsAt codec id b (f call).channel (f call).phase)
      → Coherent codec c
      → Coherent codec (change_call c id f o)
  unfolding change_call
  change_call-Coherent c id f none is keeps h = h
  change_call-Coherent c id f (some call) is keeps h =
      let here : IsCoherent codec id (c.pending id) (some call) =
        subst (λ o. IsCoherent codec id (c.pending id) o) is (h id) in
      λ k.
        at-holds (λ q o. IsCoherent codec q (c.pending q) o) id (some (f call)) c.calls k
          (keeps (c.pending id) call here) (h k)

  begin_call-Coherent :
      (c : Client) (method : String) (params : Bytes)
      → Coherent codec c
      → Coherent codec (begin_call c method params)
  unfolding begin_call
  begin_call-Coherent c method params h =
      λ k. set_at-holds (IsCoherent codec) _ true _ c.pending c.calls k refl (h k)

  write_in-IsAt :
      (ok b : Bool) (id : ℕ) (call : Call) (phase : Phase)
      → IsAt codec id b call.channel phase
      → call.phase ≡ phase
      → IsAt codec id b (write_in ok call phase).channel (write_in ok call phase).phase
  unfolding write_in
  write_in-IsAt true b id call registered h at = h
  write_in-IsAt false b id call registered h at = tt
  write_in-IsAt ok b id call waiting h at = rw at h
  write_in-IsAt ok b id call (ended e) h at = rw at h

  take_in-IsAt :
      (b : Bool) (id : ℕ) (call : Call) (phase : Phase) (ch : Channel)
      → IsAt codec id b ch phase
      → call.phase ≡ phase
      → call.channel ≡ ch
      → IsAt codec id b (take_in call phase ch).channel (take_in call phase ch).phase
  unfolding take_in
  take_in-IsAt b id call registered ch h at on = rw (at, on) h
  take_in-IsAt b id call (ended e) ch h at on = rw at h
  take_in-IsAt b id call waiting quiet h at on = rw (at, on) h
  take_in-IsAt b id call waiting shut h at on = tt
  take_in-IsAt b id call waiting (holding r) h at on = h

  hold-IsAt :
      (b : Bool) (id : ℕ) (r : Response) (ch : Channel) (phase : Phase)
      → IsFor codec id r
      → IsAt codec id b ch phase
      → IsAt codec id false (holding r) phase
  hold-IsAt b id r ch registered for h = for
  hold-IsAt b id r ch waiting for h = for
  hold-IsAt b id r ch (ended (answered r')) for h = h
  hold-IsAt b id r ch (ended unwritten) for h = tt
  hold-IsAt b id r ch (ended disconnected) for h = tt

  -- Removing an id that is absent, or whose call holds a response by now.
  hold_at-Coherent :
      (c : Client) (id : ℕ) (r : Response) (o : Option Call)
      → c.calls id ≡ o
      → IsFor codec id r
      → Coherent codec c
      → Coherent codec
          (change_call (record c { pending = set_at id false c.pending }) id (hold r) o)
  unfolding change_call hold
  hold_at-Coherent c id r none is for h = λ k.
      at-holds (λ q b. IsCoherent codec q b (c.calls q)) id false c.pending k
        (subst (λ o. IsCoherent codec id false o) (sym is) tt) (h k)
  hold_at-Coherent c id r (some call) is for h =
      let here : IsCoherent codec id (c.pending id) (some call) =
        subst (λ o. IsCoherent codec id (c.pending id) o) is (h id) in
      λ k.
        set_at-holds (IsCoherent codec) id false (some (hold r call)) c.pending c.calls k
          (hold-IsAt (c.pending id) id r call.channel call.phase for here) (h k)

  deliver-Coherent :
      (c : Client) (id : ℕ) (r : Response)
      → IsFor codec id r
      → Coherent codec c
      → Coherent codec (deliver c id r)
  unfolding deliver
  deliver-Coherent c id r for h = elim (Bool-cases (c.pending id)) [
    | inl e ↦ rw e (hold_at-Coherent c id r (c.calls id) refl for h)
    | inr e ↦ rw e (λ k.
        at-holds (λ q b. IsCoherent codec q b (c.calls q)) id false c.pending k
          (subst (λ b. IsCoherent codec id b (c.calls id)) e (h id)) (h k))
  ]

  deliver_read-Coherent :
      (c : Client) (r : Response) (raw : Bytes) (o : Option ℕ)
      → r.id ≡ some raw
      → codec.read_id raw ≡ o
      → Coherent codec c
      → Coherent codec (deliver_read c r o)
  unfolding deliver_read
  deliver_read-Coherent c r raw none is read h = h
  deliver_read-Coherent c r raw (some id) is read h = deliver-Coherent c id r (raw, is, read) h

  deliver_id-Coherent :
      (c : Client) (r : Response) (o : Option Bytes)
      → r.id ≡ o
      → Coherent codec c
      → Coherent codec (deliver_id codec c r o)
  unfolding deliver_id
  deliver_id-Coherent c r none is h = h
  deliver_id-Coherent c r (some raw) is h =
      deliver_read-Coherent c r raw (codec.read_id raw) is refl h

  respond-Coherent :
      (c : Client) (o : Option Response) → Coherent codec c → Coherent codec (respond codec c o)
  unfolding respond
  respond-Coherent c none h = h
  respond-Coherent c (some r) h = deliver_id-Coherent c r r.id refl h

  notify-Coherent :
      (c : Client) (method : String) (params : Bytes)
      → Coherent codec c
      → Coherent codec (notify c method params)
  unfolding notify
  notify-Coherent c method params h = elim (Bool-cases c.attached) [
    | inl e ↦ rw e h
    | inr e ↦ rw e h
  ]

  route-Coherent :
      (c : Client) (line : Bytes) (o : Option Probe)
      → Coherent codec c
      → Coherent codec (route codec c line o)
  unfolding route
  route-Coherent c line none h = h
  route-Coherent c line (some p) h =
      let answer = respond-Coherent c (codec.response line) h in
      elim (Bool-cases (has_id p.id)) [
        | inl e ↦ rw e answer
        | inr e ↦ elim (Bool-cases (p.method == "")) [
          | inl f ↦ rw (e, f) answer
          | inr f ↦ rw (e, f) (notify-Coherent c p.method p.params h)
        ]
      ]

  shut_call-IsAt :
      (b : Bool) (id : ℕ) (o : Option Call)
      → IsCoherent codec id b o
      → IsCoherent codec id false (shut_call o)
  unfolding shut_call
  shut_call-IsAt b id none h = tt
  shut_call-IsAt b id (some call) h = shut-IsAt b id call.channel call.phase h
    where
      shut-IsAt :
          (b : Bool) (id : ℕ) (ch : Channel) (phase : Phase)
          → IsAt codec id b ch phase
          → IsAt codec id false shut phase
      shut-IsAt b id ch registered h = tt
      shut-IsAt b id ch waiting h = tt
      shut-IsAt b id ch (ended (answered r)) h = h
      shut-IsAt b id ch (ended unwritten) h = tt
      shut-IsAt b id ch (ended disconnected) h = tt

  fail_pending-Coherent : (c : Client) → Coherent codec c → Coherent codec (fail_pending c)
  unfolding fail_pending
  fail_pending-Coherent c h = λ k. elim (Bool-cases (c.pending k)) [
    | inl e ↦ rw e (shut_call-IsAt (c.pending k) k (c.calls k) (h k))
    | inr e ↦ rw e (subst (λ b. IsCoherent codec k b (c.calls k)) e (h k))
  ]

  if-Coherent :
      (b : Bool) (c c' : Client)
      → Coherent codec c
      → Coherent codec c'
      → Coherent codec (if b then c else c')
  if-Coherent true c c' h h' = h
  if-Coherent false c c' h h' = h'

  step-Coherent : (c : Client) (a : Step) → Coherent codec c → Coherent codec (step codec c a)
  unfolding step write_call take_reply read_line end_reading
  step-Coherent c (calls method params) h = begin_call-Coherent c method params h
  step-Coherent c (writes id ok) h =
      change_call-Coherent c id (λ call. write_in ok call call.phase) (c.calls id) refl
        (λ b call at. write_in-IsAt ok b id call call.phase at refl) h
  step-Coherent c (takes id) h =
      change_call-Coherent c id (λ call. take_in call call.phase call.channel) (c.calls id) refl
        (λ b call at. take_in-IsAt b id call call.phase call.channel at refl refl) h
  step-Coherent c (reads line) h =
      if-Coherent c.reading (route codec c line (codec.probe line)) c
        (route-Coherent c line (codec.probe line) h) h
  step-Coherent c reading_ends h =
      if-Coherent c.reading (record (fail_pending c) { reading = false }) c
        (fail_pending-Coherent c h) h
  step-Coherent c attaches h = h

  pub run-Coherent :
      (c : Client) (steps : List Step) → Coherent codec c → Coherent codec (run codec c steps)
  unfolding run
  run-Coherent c [] h = h
  run-Coherent c (a ∷ steps) h = run-Coherent (step codec c a) steps (step-Coherent c a h)
