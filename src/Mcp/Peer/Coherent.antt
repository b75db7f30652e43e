-- ===== src/Mcp/Peer/Coherent.antt =====
-- What holds of every call and its entry in pending.
use vmux.Base.{
  ℕ, ◌<◌, ◌≡◌, inl, inr, refl, sym, ap, subst, ◌∙◌, Bool, true, false, Option, none, some, nat_eq,
  Bytes, String-eq, arith, Bool-cases,
}
use vmux.Mcp.Message.{Message}
use vmux.Mcp.Peer.{
  Channel, quiet, holding, shut, answered, refused, unwritten, cancelled, disconnected, Phase,
  drawn, registered, waiting, ended, Call, Codec, Peer, set_at, change_at, register, register_in,
  write, write_in, take_reply, take_in, give_up, give_up_in,
}

-- The message answers the call with that id.
abbrev pub IsFor : Codec → ℕ → Message → Type 0
IsFor codec id m = (raw : Bytes) × (m.id ≡ some raw) × (codec.read_id raw ≡ some id)

abbrev pub IsOpen : Codec → ℕ → Bool → Channel → Type 0
IsOpen codec id b quiet = b ≡ true
IsOpen codec id b (holding m) = (b ≡ false) × IsFor codec id m
IsOpen codec id b shut = b ≡ false

abbrev pub IsAt : Codec → ℕ → Bool → Channel → Phase → Type 0
IsAt codec id b ch drawn = b ≡ false
IsAt codec id b ch registered = IsOpen codec id b ch
IsAt codec id b ch waiting = IsOpen codec id b ch
IsAt codec id b ch (ended (answered m)) = (b ≡ false) × IsFor codec id m
IsAt codec id b ch (ended refused) = b ≡ false
IsAt codec id b ch (ended unwritten) = b ≡ false
IsAt codec id b ch (ended cancelled) = b ≡ false
IsAt codec id b ch (ended disconnected) = b ≡ false

-- A call that waits has its entry in pending until its channel has a message or is closed, and
-- no other call has one; a message in a channel or an answer is the one for that call.
abbrev pub IsCoherent : Codec → ℕ → Bool → Option Call → Type 0
IsCoherent codec id b none = b ≡ false
IsCoherent codec id b (some c) = IsAt codec id b c.channel c.phase

pub record Coherent (codec : Codec) (p : Peer) : Type 0 where
  pub each : (id : ℕ) → IsCoherent codec id (p.pending id) (p.calls id)
  pub later : (id : ℕ) → p.next_id < id → p.calls id ≡ none

-- A fact about every index of a function that is changed at one.
pub at-holds :
    {A : Type 0} (P : ℕ → A → Type 0) (id : ℕ) (v : A) (f : ℕ → A) (k : ℕ)
    → P id v
    → P k (f k)
    → P k (set_at id v f k)
unfolding set_at
at-holds P id v f k here there = elim (Bool-cases (nat_eq id k)) [
  | inl e ↦ rw e (subst (λ q. P q v) (ground (arith, e)) here)
  | inr e ↦ rw e there
]

pub set_at-holds :
    {A : Type 0} (P : ℕ → Bool → A → Type 0) (id : ℕ) (b : Bool) (o : A) (pending : ℕ → Bool)
    (calls : ℕ → A) (k : ℕ)
    → P id b o
    → P k (pending k) (calls k)
    → P k (set_at id b pending k) (set_at id o calls k)
unfolding set_at
set_at-holds P id b o pending calls k here there = elim (Bool-cases (nat_eq id k)) [
  | inl e ↦ rw e (subst (λ q. P q b o) (ground (arith, e)) here)
  | inr e ↦ rw e there
]

module _ (codec : Codec) where
  -- A step that keeps one call coherent keeps them all so.
  pub change_at-Coherent :
      (p : Peer) (id : ℕ) (f : Bool → Call → Bool × Call) (o : Option Call)
      → p.calls id ≡ o
      → ((b : Bool) (c : Call)
          → IsAt codec id b c.channel c.phase
          → IsAt codec id (f b c).0 (f b c).1.channel (f b c).1.phase)
      → Coherent codec p
      → Coherent codec (change_at p id f o)
  unfolding change_at
  change_at-Coherent p id f none is keeps h = h
  change_at-Coherent p id f (some c) is keeps h =
      let here : IsCoherent codec id (p.pending id) (some c) =
        subst (λ o. IsCoherent codec id (p.pending id) o) is (h.each id) in
      let (b, c') = f (p.pending id) c in
      record {
        each = λ k.
            set_at-holds (IsCoherent codec) id b (some c') p.pending p.calls k
              (keeps (p.pending id) c here) (h.each k);
        later = λ k after.
            set_at-holds (λ q _ o. p.next_id < q → o ≡ none) id b (some c') p.pending p.calls k
              (λ early. cc (is, h.later id early)) (h.later k) after;
      }

  register_in-IsAt :
      (closed b : Bool) (id : ℕ) (c : Call) (phase : Phase)
      → IsAt codec id b c.channel phase
      → c.phase ≡ phase
      → IsAt codec id
          (register_in closed b c phase).0
          (register_in closed b c phase).1.channel
          (register_in closed b c phase).1.phase
  unfolding register_in
  register_in-IsAt true b id c drawn h at = h
  register_in-IsAt false b id c drawn h at = refl
  register_in-IsAt closed b id c registered h at = rw at h
  register_in-IsAt closed b id c waiting h at = rw at h
  register_in-IsAt closed b id c (ended e) h at = rw at h

  pub register-Coherent : (p : Peer) (id : ℕ) → Coherent codec p → Coherent codec (register p id)
  unfolding register
  register-Coherent p id h =
      change_at-Coherent p id (λ b c. register_in p.closed b c c.phase) (p.calls id) refl
        (λ b c at. register_in-IsAt p.closed b id c c.phase at refl) h

  write_in-IsAt :
      (ok b : Bool) (id : ℕ) (c : Call) (phase : Phase)
      → IsAt codec id b c.channel phase
      → c.phase ≡ phase
      → IsAt codec id
          (write_in ok b c phase).0
          (write_in ok b c phase).1.channel
          (write_in ok b c phase).1.phase
  unfolding write_in
  write_in-IsAt true b id c registered h at = h
  write_in-IsAt false b id c registered h at = refl
  write_in-IsAt ok b id c drawn h at = rw at h
  write_in-IsAt ok b id c waiting h at = rw at h
  write_in-IsAt ok b id c (ended e) h at = rw at h

  pub write-Coherent :
      (p : Peer) (id : ℕ) (ok : Bool) → Coherent codec p → Coherent codec (write codec p id ok)
  unfolding write
  write-Coherent p id ok h =
      let k =
        change_at-Coherent p id (λ b c. write_in ok b c c.phase) (p.calls id) refl
          (λ b c at. write_in-IsAt ok b id c c.phase at refl) h in
      record { each = k.each; later = k.later }

  take_in-IsAt :
      (b : Bool) (id : ℕ) (c : Call) (phase : Phase) (ch : Channel)
      → IsAt codec id b ch phase
      → c.phase ≡ phase
      → c.channel ≡ ch
      → IsAt codec id
          (take_in b c phase ch).0
          (take_in b c phase ch).1.channel
          (take_in b c phase ch).1.phase
  unfolding take_in
  take_in-IsAt b id c waiting quiet h at is = rw (at, is) h
  take_in-IsAt b id c waiting (holding m) h at is = h
  take_in-IsAt b id c waiting shut h at is = h
  take_in-IsAt b id c drawn ch h at is = rw at h
  take_in-IsAt b id c registered ch h at is = rw (at, is) h
  take_in-IsAt b id c (ended e) ch h at is =
      subst (λ (x : Phase × Channel). IsAt codec id b x.1 x.0)
        (ap (λ (x : Phase). (x, ch)) (sym at) ∙ ap (λ (x : Channel). (c.phase, x)) (sym is)) h

  pub take_reply-Coherent :
      (p : Peer) (id : ℕ) → Coherent codec p → Coherent codec (take_reply p id)
  unfolding take_reply
  take_reply-Coherent p id h =
      change_at-Coherent p id (λ b c. take_in b c c.phase c.channel) (p.calls id) refl
        (λ b c at. take_in-IsAt b id c c.phase c.channel at refl refl) h

  give_up_in-IsAt :
      (b : Bool) (id : ℕ) (c : Call) (phase : Phase)
      → IsAt codec id b c.channel phase
      → c.phase ≡ phase
      → IsAt codec id
          (give_up_in b c phase).0
          (give_up_in b c phase).1.channel
          (give_up_in b c phase).1.phase
  unfolding give_up_in
  give_up_in-IsAt b id c waiting h at = refl
  give_up_in-IsAt b id c drawn h at = rw at h
  give_up_in-IsAt b id c registered h at = rw at h
  give_up_in-IsAt b id c (ended e) h at = rw at h

  pub give_up-Coherent : (p : Peer) (id : ℕ) → Coherent codec p → Coherent codec (give_up p id)
  unfolding give_up
  give_up-Coherent p id h =
      change_at-Coherent p id (λ b c. give_up_in b c c.phase) (p.calls id) refl
        (λ b c at. give_up_in-IsAt b id c c.phase at refl) h
