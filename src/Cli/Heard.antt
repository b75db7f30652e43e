-- ===== src/Cli/Heard.antt =====
-- What the terminal shows of the lines that the client reads.
use vmux.Base.{
  ℤ, ℕ, ◌≡◌, inl, inr, refl, sym, ap, ◌∙◌, Bool, true, false, List, [], ◌∷◌, ◌++◌, Option, none,
  some, Bytes, String, String-eq, ◌==◌, if◌then◌else◌, Bool-cases, map, arith, eq_of_test,
}
use mathlib.Core.List.{append_assoc, append-nil}
use vmux.Mcp.Peer.{set_at}
use vmux.Cli.Client.{
  Probe, Codec, Client, dial, has_id, notify, respond, route, read_line, deliver_id, deliver_read,
  deliver, change_call, Step, reads, attaches, step, run, Response, hold, Call,
}
use vmux.Cli.Attach.{
  Notices, Terminal, or_new, on_notify, on_notices, blank, attach, probe_notice, line_notices,
  notice_data, notice_code, chunks, first_exit, data_of, code_of, own_chunk, own_code, chunk_list,
}

or_new-none : (a : Option ℤ) → or_new a none ≡ a
unfolding or_new
or_new-none none = refl
or_new-none (some a) = refl

or_new_assoc : (a b c : Option ℤ) → or_new (or_new a b) c ≡ or_new a (or_new b c)
unfolding or_new
or_new_assoc none b c = refl
or_new_assoc (some a) b c = refl

exit-ne-data : (m : String) → (m == "pty.data") ≡ true → (m == "pty.exit") ≡ false
exit-ne-data m h = rw (eq_of_test m "pty.data" h) refl

data_of-own_chunk :
    (sid : String) (o : Option (String × Option Bytes)) → data_of sid o ≡ own_chunk sid o
unfolding data_of own_chunk chunk_list
data_of-own_chunk sid none = refl
data_of-own_chunk sid (some (id, none)) = ground arith
data_of-own_chunk sid (some (id, some chunk)) = refl

code_of-own_code : (sid : String) (o : Option (String × ℤ)) → code_of sid o ≡ own_code sid o
unfolding code_of own_code
code_of-own_code sid none = refl
code_of-own_code sid (some (id, code)) = refl

module _ (n : Notices) (sid : String) where
  on_notify-out :
      (t : Terminal) (m : String × Bytes)
      → (on_notify n sid t m.0 m.1).out ≡ t.out ++ notice_data n sid m
  unfolding on_notify notice_data
  on_notify-out t m = ground (arith, append-nil t.out, data_of-own_chunk sid (n.read_data m.1))

  on_notify-done :
      (t : Terminal) (m : String × Bytes)
      → (on_notify n sid t m.0 m.1).done ≡ or_new t.done (notice_code n sid m)
  unfolding on_notify notice_code
  on_notify-done t m =
      ground (arith, exit-ne-data m.0, or_new-none t.done, code_of-own_code sid (n.read_exit m.1))

  on_notices-out :
      (ms : List (String × Bytes)) (t : Terminal)
      → (on_notices n sid t ms).out ≡ t.out ++ chunks n sid ms
  unfolding on_notices chunks
  on_notices-out [] t = sym (append-nil t.out)
  on_notices-out (m ∷ ms) t =
      on_notices-out ms (on_notify n sid t m.0 m.1)
      ∙ ap (λ o. o ++ chunks n sid ms) (on_notify-out t m)
      ∙ append_assoc t.out (notice_data n sid m) (chunks n sid ms)

  on_notices-done :
      (ms : List (String × Bytes)) (t : Terminal)
      → (on_notices n sid t ms).done ≡ or_new t.done (first_exit n sid ms)
  unfolding on_notices first_exit
  on_notices-done [] t = sym (or_new-none t.done)
  on_notices-done (m ∷ ms) t =
      on_notices-done ms (on_notify n sid t m.0 m.1)
      ∙ ap (λ o. or_new o (first_exit n sid ms)) (on_notify-done t m)
      ∙ or_new_assoc t.done (notice_code n sid m) (first_exit n sid ms)

-- The lines read before attach sets onNotify, and those read after.
abbrev pub attached_between : List Bytes → List Bytes → List Step
attached_between before after = map reads before ++ attaches ∷ map reads after

-- The part of a client that notifications depend on.
abbrev Ears : Type 0
Ears = Bool × (Bool × List (String × Bytes))

abbrev ears : Client → Ears
ears c = (c.reading, (c.attached, c.notified))

if-ears :
    (b : Bool) (c c' : Client) (x : Ears)
    → ears c ≡ x
    → ears c' ≡ x
    → ears (if b then c else c') ≡ x
if-ears true c c' x h h' = h
if-ears false c c' x h h' = h'

change_call-ears :
    (c : Client) (id : ℕ) (f : Call → Call) (o : Option Call) → ears (change_call c id f o) ≡ ears c
unfolding change_call
change_call-ears c id f none = refl
change_call-ears c id f (some call) = refl

deliver-ears : (c : Client) (id : ℕ) (r : Response) → ears (deliver c id r) ≡ ears c
unfolding deliver
deliver-ears c id r =
    let taken : Client = record c { pending = set_at id false c.pending } in
    if-ears (c.pending id) (change_call taken id (hold r) (c.calls id)) taken (ears c)
      (change_call-ears taken id (hold r) (c.calls id)) refl

deliver_read-ears : (c : Client) (r : Response) (o : Option ℕ) → ears (deliver_read c r o) ≡ ears c
unfolding deliver_read
deliver_read-ears c r none = refl
deliver_read-ears c r (some id) = deliver-ears c id r

deliver_id-ears :
    (codec : Codec) (c : Client) (r : Response) (o : Option Bytes)
    → ears (deliver_id codec c r o) ≡ ears c
unfolding deliver_id
deliver_id-ears codec c r none = refl
deliver_id-ears codec c r (some raw) = deliver_read-ears c r (codec.read_id raw)

respond-ears :
    (codec : Codec) (c : Client) (o : Option Response) → ears (respond codec c o) ≡ ears c
unfolding respond
respond-ears codec c none = refl
respond-ears codec c (some r) = deliver_id-ears codec c r r.id

module _ (codec : Codec) (on : Bool) (ms : List (String × Bytes)) where
  -- What a client with these ears makes of more notifications.
  hearing : List (String × Bytes) → Ears
  hearing new = (true, (on, ms ++ (if on then new else [])))

  hearing_none : (c : Client) → ears c ≡ (true, (on, ms)) → ears c ≡ hearing []
  unfolding hearing
  hearing_none c is = is ∙ ground (arith, append-nil ms)

  notify-ears :
      (c : Client) (method : String) (params : Bytes)
      → ears c ≡ (true, (on, ms))
      → ears (notify c method params) ≡ hearing ((method, params) ∷ [])
  unfolding notify hearing
  notify-ears c method params is = ground (arith, is, append-nil ms)

  route-ears :
      (c : Client) (line : Bytes) (o : Option Probe)
      → ears c ≡ (true, (on, ms))
      → ears (route codec c line o) ≡ hearing (probe_notice o)
  unfolding route probe_notice
  route-ears c line none is = hearing_none c is
  route-ears c line (some p) is =
      let quiet = respond-ears codec c (codec.response line) ∙ hearing_none c is in
      elim (Bool-cases (has_id p.id)) [
        | inl e ↦ rw e quiet
        | inr e ↦ elim (Bool-cases (p.method == "")) [
          | inl f ↦ rw (e, f) quiet
          | inr f ↦ rw (e, f) (notify-ears c p.method p.params is)
        ]
      ]

  read_line-ears :
      (c : Client) (line : Bytes)
      → ears c ≡ (true, (on, ms))
      → ears (read_line codec c line) ≡ hearing (probe_notice (codec.probe line))
  unfolding read_line
  read_line-ears c line is =
      let on : c.reading ≡ true = ap (λ x. x.0) is in
      ap (λ b. ears (if b then route codec c line (codec.probe line) else c)) on
      ∙ route-ears c line (codec.probe line) is

module _ (codec : Codec) where
  run_append :
      (c : Client) (xs ys : List Step) → run codec c (xs ++ ys) ≡ run codec (run codec c xs) ys
  unfolding run
  run_append c [] ys = refl
  run_append c (x ∷ xs) ys = run_append (step codec c x) xs ys

  deaf-ears :
      (c : Client) (lines : List Bytes)
      → ears c ≡ (true, (false, []))
      → ears (run codec c (map reads lines)) ≡ (true, (false, []))
  unfolding run step hearing
  deaf-ears c [] is = is
  deaf-ears c (line ∷ lines) is =
      deaf-ears (read_line codec c line) lines (read_line-ears codec false [] c line is)

  heard-ears :
      (c : Client) (ms : List (String × Bytes)) (lines : List Bytes)
      → ears c ≡ (true, (true, ms))
      → ears (run codec c (map reads lines)) ≡ (true, (true, ms ++ line_notices codec lines))
  unfolding run step hearing line_notices
  heard-ears c ms [] is = is ∙ ap (λ l. (true, (true, l))) (sym (append-nil ms))
  heard-ears c ms (line ∷ lines) is =
      let new : List (String × Bytes) = probe_notice (codec.probe line) in
      heard-ears (read_line codec c line) (ms ++ new) lines (read_line-ears codec true ms c line is)
      ∙ ap (λ l. (true, (true, l))) (append_assoc ms new (line_notices codec lines))

  notified_after :
      (before after : List Bytes)
      → (run codec dial (attached_between before after)).notified ≡ line_notices codec after
  unfolding run step
  notified_after before after =
      let c : Client = run codec dial (map reads before) in
      let deaf = deaf-ears dial before refl in
      let set : ears (record c { attached = true }) ≡ (true, (true, [])) =
        ap (λ (x : Ears). (x.0, (true, x.1.1))) deaf in
      ap (λ d. d.notified) (run_append dial (map reads before) (attaches ∷ map reads after))
      ∙ ap (λ (x : Ears). x.1.1) (heard-ears (record c { attached = true }) [] after set)

  -- Of the lines that the client reads, those before attach sets onNotify leave nothing behind: the
  -- terminal shows the chunks of the session's output in the notifications of the later lines, in
  -- their order, and it is done exactly if one of these has an exit of the session, with the code of
  -- the first.
  pub attach-shows :
      (n : Notices) (sid : String) (before after : List Bytes)
      → attach n sid (run codec dial (attached_between before after)) ≡ record {
        out = chunks n sid (line_notices codec after);
        done = first_exit n sid (line_notices codec after);
      }
  unfolding attach or_new
  attach-shows n sid before after =
      let ms : List (String × Bytes) = line_notices codec after in
      ap (on_notices n sid blank) (notified_after before after)
      ∙ cc (on_notices-out n sid ms blank, on_notices-done n sid ms blank)
