-- ===== src/Rpc/Frames.antt =====
-- What a connection reads of the frames that another wrote.
use mathlib.Core.List.{append_assoc, append-nil}
use mathlib.Core.Option
use vmux.Base.{
  ℕ, zero, suc, ◌+◌, ◌≤◌, ◌<◌, ◌≡◌, ◌≢◌, refl, ap, ◌∙◌, true, false, List, [], ◌∷◌, ◌++◌, Option,
  none, some, ltb, nat_eq, Bytes, length, arith, Every, length-append,
}
use vmux.Rpc.Reader.{
  max_line, read_bytes, trim_breaks, too_long, got, read_line_of, read_line, keep_line, serve_line,
  handle_conn, write_frames,
}

-- A line that is no line break inside, is not empty and fits in a frame.
pub record IsFrame (line : Bytes) : Type 0 where
  pub plain : Every (λ c. (c ≢ b'\n') × (c ≢ b'\r')) line
  pub filled : 0 < length line
  pub fits : length line < max_line

read_bytes-line :
    (line rest : Bytes)
    → Every (λ c. (c ≢ b'\n') × (c ≢ b'\r')) line
    → read_bytes (line ++ b'\n' ∷ rest)
      ≡ record { line = line ++ b'\n' ∷ []; rest = rest; ended = false }
unfolding read_bytes
read_bytes-line [] rest h = refl
read_bytes-line (c ∷ line) rest h =
    let other : nat_eq c b'\n' ≡ false = ground (arith, h.0.0) in
    rw (other, read_bytes-line line rest h.1) refl

trim_breaks-line :
    (line : Bytes)
    → Every (λ c. (c ≢ b'\n') × (c ≢ b'\r')) line
    → trim_breaks (line ++ b'\n' ∷ []) ≡ line
unfolding trim_breaks
trim_breaks-line [] h = refl
trim_breaks-line (c ∷ []) h = ground (arith, h.0.0, h.0.1)
trim_breaks-line (c ∷ d ∷ line) h = rw (trim_breaks-line (d ∷ line) h.1) refl

read_line-IsFrame :
    (line rest : Bytes) → IsFrame line → read_line (line ++ b'\n' ∷ rest) ≡ got line rest
unfolding read_line read_line_of
read_line-IsFrame line rest h =
    let fits : ltb max_line (length (line ++ b'\n' ∷ [])) ≡ false =
      ground (arith, length-append line (b'\n' ∷ []), h.fits) in
    rw (read_bytes-line line rest h.plain, fits, trim_breaks-line line h.plain) refl

keep_line-filled :
    (line : Bytes) (ls : List Bytes) → 0 < length line → keep_line line ls ≡ line ∷ ls
unfolding keep_line
keep_line-filled [] ls h = absurd (omega (arith, h))
keep_line-filled (c ∷ line) ls h = refl

handle_conn-got :
    (n : ℕ) (s line rest : Bytes)
    → read_line s ≡ got line rest
    → handle_conn (suc n) s ≡ Option.map (keep_line line) (handle_conn n rest)
unfolding handle_conn serve_line
handle_conn-got n s line rest e = ap (serve_line (handle_conn n)) e

handle_conn-stopped : (n : ℕ) (s : Bytes) → read_line s ≡ too_long → handle_conn (suc n) s ≡ some []
unfolding handle_conn serve_line
handle_conn-stopped n s e = ap (serve_line (handle_conn n)) e

map_none : (o : Option (List Bytes)) → o ≡ Option.map (◌++◌ []) o
map_none none = refl
map_none (some ls) = refl

map_kept :
    (line : Bytes) (ls : List Bytes) (o : Option (List Bytes))
    → 0 < length line
    → Option.map (keep_line line) (Option.map (◌++◌ ls) o) ≡ Option.map (◌++◌ (line ∷ ls)) o
map_kept line ls none h = refl
map_kept line ls (some more) h = ap some (keep_line-filled line (ls ++ more) h)

frames_of :
    (m : ℕ) (ls : List Bytes) (n : ℕ) (tail : Bytes)
    → m ≡ length ls + n
    → Every IsFrame ls
    → handle_conn m (write_frames ls ++ tail) ≡ Option.map (◌++◌ ls) (handle_conn n tail)
unfolding write_frames
frames_of m [] n tail is h =
    let same : m ≡ n = omega (arith, is) in
    ap (λ k. handle_conn k tail) same ∙ map_none (handle_conn n tail)
frames_of zero (line ∷ ls) n tail is h = absurd (omega (arith, is))
frames_of (suc m) (line ∷ ls) n tail is h =
    ap (handle_conn (suc m)) (append_assoc line (b'\n' ∷ write_frames ls) tail)
    ∙ handle_conn-got m (line ++ b'\n' ∷ (write_frames ls ++ tail)) line (write_frames ls ++ tail)
        (read_line-IsFrame line (write_frames ls ++ tail) h.0)
    ∙ ap (Option.map (keep_line line)) (frames_of m ls n tail (omega (arith, is)) h.1)
    ∙ map_kept line ls (handle_conn n tail) h.0.filled

-- Frames that were written are read back, in their order and without their line breaks, and the
-- connection goes on with what follows them. Each line has no line break inside, is not empty, and is
-- shorter than the limit of a message.
pub handle_conn-write_frames :
    (ls : List Bytes) (n : ℕ) (tail : Bytes)
    → Every IsFrame ls
    → handle_conn (length ls + n) (write_frames ls ++ tail)
      ≡ Option.map (◌++◌ ls) (handle_conn n tail)
handle_conn-write_frames ls n tail h = frames_of (length ls + n) ls n tail refl h

pub handle_conn-ended : (n : ℕ) → handle_conn (suc n) [] ≡ some []
unfolding handle_conn serve_line
handle_conn-ended n = refl

read_line-too_long :
    (line rest : Bytes)
    → Every (λ c. (c ≢ b'\n') × (c ≢ b'\r')) line
    → max_line ≤ length line
    → read_line (line ++ b'\n' ∷ rest) ≡ too_long
unfolding read_line read_line_of
read_line-too_long line rest h long =
    let over : ltb max_line (length (line ++ b'\n' ∷ [])) ≡ true =
      ground (arith, length-append line (b'\n' ∷ []), long) in
    rw (read_bytes-line line rest h, over) refl

-- A frame beyond the limit ends the connection: what was written before it is dispatched, and
-- neither it nor anything after it.
pub handle_conn-too_long :
    (ls : List Bytes) (n : ℕ) (line rest : Bytes)
    → Every IsFrame ls
    → Every (λ c. (c ≢ b'\n') × (c ≢ b'\r')) line
    → max_line ≤ length line
    → handle_conn (length ls + suc n) (write_frames ls ++ (line ++ b'\n' ∷ rest)) ≡ some ls
handle_conn-too_long ls n line rest h plain long =
    handle_conn-write_frames ls (suc n) (line ++ b'\n' ∷ rest) h
    ∙ ap (Option.map (◌++◌ ls))
        (handle_conn-stopped n (line ++ b'\n' ∷ rest) (read_line-too_long line rest plain long))
    ∙ ap some (append-nil ls)
