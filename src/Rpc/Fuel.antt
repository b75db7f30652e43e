-- ===== src/Rpc/Fuel.antt =====
-- The loop of a connection ends: each turn takes something from its input.
use mathlib.Core.Bool.{true≢false}
use mathlib.Core.Option
use vmux.Base.{
  ℕ, zero, suc, ◌<◌, ◌≡◌, refl, ap, false, List, [], ◌∷◌, Option, some, ltb, nat_eq, Bytes, length,
  arith, Bool-cases, inl, inr,
}
use vmux.Rpc.Reader.{
  max_line, read_bytes, ReadLine, too_long, ended, got, read_line_of, read_line, serve_line,
  keep_line, handle_conn,
}

read_bytes-shorter :
    (s : Bytes) → (read_bytes s).ended ≡ false → length (read_bytes s).rest < length s
unfolding read_bytes
read_bytes-shorter [] h = absurd (true≢false h)
read_bytes-shorter (c ∷ s) h = elim (Bool-cases (nat_eq c b'\n')) [
  | inl e ↦ rw e (omega arith)
  | inr e ↦
      let going : (read_bytes s).ended ≡ false = rw e at h in
      rw e (omega (arith, read_bytes-shorter s going))
]

-- What readLine leaves is shorter than what it was given.
IsLess : ℕ → ReadLine → Type 0
IsLess n too_long = Unit
IsLess n ended = Unit
IsLess n (got line rest) = length rest < n

read_line-IsLess : (s : Bytes) → IsLess (length s) (read_line s)
unfolding read_line read_line_of IsLess
read_line-IsLess s = elim (Bool-cases (ltb max_line (length (read_bytes s).line))) [
  | inl e ↦ rw e tt
  | inr e ↦ elim (Bool-cases (read_bytes s).ended) [
    | inl f ↦ rw (e, f) tt
    | inr f ↦ rw (e, f) (read_bytes-shorter s f)
  ]
]

-- With either fuel the loop returns, after the same lines.
abbrev Agree : Option (List Bytes) → Option (List Bytes) → Type 0
Agree a b = (ls : List Bytes) × (a ≡ some ls) × (b ≡ some ls)

serve_line-Agree :
    (size : ℕ) (f g : Bytes → Option (List Bytes)) (r : ReadLine)
    → ((rest : Bytes) → length rest < size → Agree (f rest) (g rest))
    → IsLess size r
    → Agree (serve_line f r) (serve_line g r)
unfolding IsLess serve_line
serve_line-Agree size f g too_long again less = ([], refl, refl)
serve_line-Agree size f g ended again less = ([], refl, refl)
serve_line-Agree size f g (got line rest) again less =
    let (ls, left, right) = again rest less in
    (
      keep_line line ls,
      ap (Option.map (keep_line line)) left,
      ap (Option.map (keep_line line)) right,
    )

-- The loop over a connection's input returns: with any fuel that is more than the length of the input it
-- does so, and the lines it has dispatched do not depend on the fuel.
pub handle_conn-fuel :
    (m n : ℕ) (s : Bytes)
    → length s < m
    → length s < n
    → (ls : List Bytes) × (handle_conn m s ≡ some ls) × (handle_conn n s ≡ some ls)
unfolding handle_conn
handle_conn-fuel zero n s h k = absurd (omega (arith, h))
handle_conn-fuel (suc m) zero s h k = absurd (omega (arith, k))
handle_conn-fuel (suc m) (suc n) s h k =
    serve_line-Agree (length s) (handle_conn m) (handle_conn n) (read_line s)
      (λ rest less. handle_conn-fuel m n rest (omega (arith, less, h)) (omega (arith, less, k)))
      (read_line-IsLess s)
