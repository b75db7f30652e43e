-- ===== src/Cli/Answers.antt =====
-- Which responses the calls of a client return with, and what the end of the connection wakes.
use vmux.Base.{
  ℕ, ◌≡◌, ◌≢◌, inl, inr, refl, ap, subst, ◌∙◌, Bool, true, false, List, Option, some, String-eq,
  Bool-cases, eq_self, ℕ-eq, if◌then◌else◌,
}
use vmux.Mcp.Peer.{set_at}
use vmux.Cli.Client.{
  Response, Codec, Channel, quiet, shut, holding, disconnected, answered, Ending, Phase, registered,
  waiting, ended, Call, Client, dial, change_call, take_in, take_reply, shut_call, fail_pending,
  end_reading, Step, run,
}
use vmux.Cli.Coherent.{IsFor, IsAt, IsCoherent, Coherent, run-Coherent}

module _ (codec : Codec) where
  dial-run : (steps : List Step) → Coherent codec (run codec dial steps)
  dial-run steps = run-Coherent codec dial steps (λ id. tt)

  answered-IsFor :
      (b : Bool) (id : ℕ) (call : Call) (phase : Phase) (r : Response)
      → call.phase ≡ phase
      → phase ≡ ended (answered r)
      → IsAt codec id b call.channel call.phase
      → IsFor codec id r
  answered-IsFor b id call phase r at is h = subst (λ p. IsAt codec id b call.channel p) (at ∙ is) h

  -- Over every interleaving of calls, writes, receives and lines, a call that returns with a response
  -- returns with one that has the call's own id.
  pub run-IsFor :
      (steps : List Step) (id : ℕ) (call : Call) (r : Response)
      → (run codec dial steps).calls id ≡ some call
      → call.phase ≡ ended (answered r)
      → IsFor codec id r
  run-IsFor steps id call r got done =
      let c : Client = run codec dial steps in
      answered-IsFor (c.pending id) id call call.phase r refl done
        (subst (λ o. IsCoherent codec id (c.pending id) o) got (dial-run steps id))

  abbrev pub HasReturned : Option Call → Type 0
  HasReturned o = (call : Call) × ((e : Ending) × ((o ≡ some call) × (call.phase ≡ ended e)))

  taken_at :
      (c : Client) (id : ℕ) (f : Call → Call) (o : Option Call) (call : Call)
      → o ≡ some call
      → (change_call c id f o).calls id ≡ some (f call)
  unfolding change_call set_at
  taken_at c id f o call is = rw (is, eq_self id)

  take_in-ended :
      (call : Call) (phase : Phase) (ch : Channel)
      → phase ≡ waiting
      → ch ≢ quiet
      → (e : Ending) × ((take_in call phase ch).phase ≡ ended e)
  unfolding take_in
  take_in-ended call registered ch at n = cc at
  take_in-ended call (ended e) ch at n = (e, cc at)
  take_in-ended call waiting quiet at n = absurd (n refl)
  take_in-ended call waiting shut at n = (disconnected, refl)
  take_in-ended call waiting (holding r) at n = (answered r, refl)

  take_reply-HasReturned :
      (c : Client) (id : ℕ) (call : Call)
      → c.calls id ≡ some call
      → call.phase ≡ waiting
      → call.channel ≢ quiet
      → HasReturned ((take_reply c id).calls id)
  unfolding take_reply
  take_reply-HasReturned c id call got at n =
      let (e, is) = take_in-ended call call.phase call.channel at n in
      (
        take_in call call.phase call.channel,
        (e, (taken_at c id (λ d. take_in d d.phase d.channel) (c.calls id) call got, is)),
      )

  not_quiet :
      (id : ℕ) (b : Bool) (ch : Channel) (phase : Phase)
      → IsAt codec id b ch phase
      → phase ≡ waiting
      → b ≡ false
      → ch ≢ quiet
  not_quiet id b quiet registered h at out = cc at
  not_quiet id b quiet (ended e) h at out = cc at
  not_quiet id b quiet waiting h at out = cc (h, out)
  not_quiet id b shut phase h at out = λ q. cc q
  not_quiet id b (holding r) phase h at out = λ q. cc q

  end_reading-calls :
      (c : Client) (id : ℕ)
      → c.reading ≡ true
      → (end_reading c).calls id ≡ (if c.pending id then shut_call (c.calls id) else c.calls id)
  unfolding end_reading fail_pending
  end_reading-calls c id on =
      ap (λ b. (if b then record (fail_pending c) { reading = false } else c).calls id) on

  -- Over every interleaving, a call whose request was written while the connection was still read
  -- returns at its next receive once reading ends.
  pub end_reading-HasReturned :
      (steps : List Step) (id : ℕ) (call : Call)
      → (run codec dial steps).reading ≡ true
      → (run codec dial steps).calls id ≡ some call
      → call.phase ≡ waiting
      → HasReturned ((take_reply (end_reading (run codec dial steps)) id).calls id)
  unfolding shut_call
  end_reading-HasReturned steps id call on got at =
      let c : Client = run codec dial steps in
      let now = end_reading-calls c id on in
      elim (Bool-cases (c.pending id)) [
        | inl e ↦
            take_reply-HasReturned (end_reading c) id (record call { channel = shut })
              (now ∙ rw (e, got)) at (λ q. cc q)
        | inr e ↦
            let h : IsAt codec id (c.pending id) call.channel call.phase =
              subst (λ o. IsCoherent codec id (c.pending id) o) got (dial-run steps id) in
            take_reply-HasReturned (end_reading c) id call (now ∙ rw (e, got)) at
              (not_quiet id (c.pending id) call.channel call.phase h at e)
      ]
