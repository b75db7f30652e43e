-- ===== src/Editor/Templates.antt =====
-- What BuildArgs makes of a template, described piece by piece.
use vmux.Base.{
  ℤ, ℕ, ◌≢◌, ◌≡◌, refl, sym, ap, ◌∙◌, false, List, [], ◌∷◌, ◌++◌, map, Bytes, nat_eq, Every,
}
use mathlib.Core.List.{append_assoc, append-nil}
use vmux.Editor.Args.{
  Editor, is_space, ended_field, fields_from, fields, itoa, has_prefix, matching, replaced, replace,
  path_hole, line_hole, col_hole, replacements, build_args,
}

-- A piece of a template: a rune that stands for itself, or a placeholder.
pub data Piece : Type 0 where
  rune : ℕ → Piece
  path line col : Piece

abbrev pub print_piece : Piece → Bytes
print_piece (rune c) = c ∷ []
print_piece path = path_hole
print_piece line = line_hole
print_piece col = col_hole

abbrev pub print_pieces : List Piece → Bytes
print_pieces [] = []
print_pieces (p ∷ ps) = print_piece p ++ print_pieces ps

-- The template with a space between its tokens.
abbrev pub print_tokens : List (List Piece) → Bytes
print_tokens [] = []
print_tokens (t ∷ []) = print_pieces t
print_tokens (t ∷ u ∷ ts) = print_pieces t ++ b' ' ∷ print_tokens (u ∷ ts)

-- A rune that stands for itself is no space and does not begin a placeholder.
abbrev pub IsPlain : Piece → Type 0
IsPlain (rune c) = (is_space c ≡ false) × (nat_eq b'{' c ≡ false)
IsPlain path = Unit
IsPlain line = Unit
IsPlain col = Unit

abbrev pub IsToken : List Piece → Type 0
IsToken ps = (ps ≢ []) × Every IsPlain ps

module _ (given : Bytes) (at_line at_col : ℤ) where
  abbrev pub show_piece : Piece → Bytes
  show_piece (rune c) = c ∷ []
  show_piece path = given
  show_piece line = itoa at_line
  show_piece col = itoa at_col

  abbrev pub show_pieces : List Piece → Bytes
  show_pieces [] = []
  show_pieces (p ∷ ps) = show_piece p ++ show_pieces ps

  replace_piece :
      (p : Piece) (s : Bytes)
      → IsPlain p
      → replace (replacements given at_line at_col) 0 (print_piece p ++ s)
        ≡ show_piece p ++ replace (replacements given at_line at_col) 0 s
  unfolding replace replacements matching has_prefix replaced
  replace_piece (rune c) s h = rw h.1
  replace_piece path s h = refl
  replace_piece line s h = refl
  replace_piece col s h = refl

  replace_pieces :
      (ps : List Piece)
      → Every IsPlain ps
      → replace (replacements given at_line at_col) 0 (print_pieces ps) ≡ show_pieces ps
  unfolding replace
  replace_pieces [] h = refl
  replace_pieces (p ∷ ps) h =
      replace_piece p (print_pieces ps) h.0 ∙ ap (◌++◌ (show_piece p)) (replace_pieces ps h.1)

-- A field goes on over a rune that is no space, and over every piece.
fields_over_rune :
    (field s : Bytes) (c : ℕ)
    → is_space c ≡ false
    → fields_from field (c ∷ s) ≡ fields_from (field ++ c ∷ []) s
unfolding fields_from
fields_over_rune field s c h = rw h

IsSolid : Bytes → Type 0
IsSolid = Every (λ (c : ℕ). is_space c ≡ false)

fields_over :
    (field t s : Bytes) → IsSolid t → fields_from field (t ++ s) ≡ fields_from (field ++ t) s
unfolding IsSolid
fields_over field [] s h = ap (λ f. fields_from f s) (sym (append-nil field))
fields_over field (c ∷ t) s h =
    fields_over_rune field (t ++ s) c h.0
    ∙ fields_over (field ++ c ∷ []) t s h.1
    ∙ ap (λ f. fields_from f s) (append_assoc field (c ∷ []) t)

append-IsSolid : (s t : Bytes) → IsSolid s → IsSolid t → IsSolid (s ++ t)
unfolding IsSolid
append-IsSolid [] t h k = k
append-IsSolid (c ∷ s) t h k = (h.0, append-IsSolid s t h.1 k)

piece-IsSolid : (p : Piece) → IsPlain p → IsSolid (print_piece p)
unfolding IsSolid is_space
piece-IsSolid (rune c) h = (h.0, tt)
piece-IsSolid path h = (refl, (refl, (refl, (refl, (refl, (refl, tt))))))
piece-IsSolid line h = (refl, (refl, (refl, (refl, (refl, (refl, tt))))))
piece-IsSolid col h = (refl, (refl, (refl, (refl, (refl, tt)))))

pieces-IsSolid : (ps : List Piece) → Every IsPlain ps → IsSolid (print_pieces ps)
unfolding IsSolid
pieces-IsSolid [] h = tt
pieces-IsSolid (p ∷ ps) h =
    append-IsSolid (print_piece p) (print_pieces ps) (piece-IsSolid p h.0) (pieces-IsSolid ps h.1)

ended_nonempty :
    (p : Piece) (s : Bytes) → ended_field (print_piece p ++ s) ≡ (print_piece p ++ s) ∷ []
unfolding ended_field
ended_nonempty (rune c) s = refl
ended_nonempty path s = refl
ended_nonempty line s = refl
ended_nonempty col s = refl

ended_token : (t : List Piece) → t ≢ [] → ended_field (print_pieces t) ≡ print_pieces t ∷ []
ended_token [] h = absurd (h refl)
ended_token (p ∷ ps) h = ended_nonempty p (print_pieces ps)

fields_at_space :
    (field s : Bytes) → fields_from field (b' ' ∷ s) ≡ ended_field field ++ fields_from [] s
unfolding fields_from is_space
fields_at_space field s = refl

fields-print_tokens :
    (ts : List (List Piece))
    → Every IsToken ts
    → fields_from [] (print_tokens ts) ≡ map print_pieces ts
unfolding fields_from ended_field
fields-print_tokens [] h = refl
fields-print_tokens (t ∷ []) h =
    ap (fields_from []) (sym (append-nil (print_pieces t)))
    ∙ fields_over [] (print_pieces t) [] (pieces-IsSolid t h.0.1)
    ∙ ended_token t h.0.0
fields-print_tokens (t ∷ u ∷ ts) h =
    fields_over [] (print_pieces t) (b' ' ∷ print_tokens (u ∷ ts)) (pieces-IsSolid t h.0.1)
    ∙ fields_at_space (print_pieces t) (print_tokens (u ∷ ts))
    ∙ ap (λ fs. fs ++ fields_from [] (print_tokens (u ∷ ts))) (ended_token t h.0.0)
    ∙ ap (◌∷◌ (print_pieces t)) (fields-print_tokens (u ∷ ts) h.1)

map_shown :
    (given : Bytes) (at_line at_col : ℤ) (ts : List (List Piece))
    → Every IsToken ts
    → map (replace (replacements given at_line at_col) 0) (map print_pieces ts)
      ≡ map (show_pieces given at_line at_col) ts
map_shown given at_line at_col [] h = refl
map_shown given at_line at_col (t ∷ ts) h =
    rw (replace_pieces given at_line at_col t h.0.1, map_shown given at_line at_col ts h.1)

-- Of an editor whose template prints tokens of plain runes and placeholders, with a space between them, the
-- arguments are the tokens with every placeholder filled in, one argument for each token: whatever
-- spaces, quotes or placeholders the path itself has, they split no argument and are not replaced
-- again.
pub build_args-print_tokens :
    (e : Editor) (given : Bytes) (at_line at_col : ℤ) (ts : List (List Piece))
    → Every IsToken ts
    → e.args ≡ print_tokens ts
    → build_args e given at_line at_col ≡ map (show_pieces given at_line at_col) ts
unfolding build_args fields
build_args-print_tokens e given at_line at_col ts h is =
    ap (λ a. map (replace (replacements given at_line at_col) 0) (fields_from [] a)) is
    ∙ ap (map (replace (replacements given at_line at_col) 0)) (fields-print_tokens ts h)
    ∙ map_shown given at_line at_col ts h
