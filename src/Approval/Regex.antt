-- ===== src/Approval/Regex.antt =====
-- The part of Go's regexp syntax that the rules use, as a matcher on byte strings that follows all
-- ways to match: `MatchString` asks only whether there is one.
use mathlib.Core.List.{flat_map}
use vmux.Base.{
  ℕ, zero, suc, Bool, true, false, not, ◌&&◌, ◌||◌, List, [], ◌∷◌, ◌++◌, Option, none, some, Bytes,
  nat_eq, ltb, leb, if◌then◌else◌, length,
}

pub data Regex : Type 0 where
  -- one byte that passes the test
  byte : (ℕ → Bool) → Regex
  -- the empty text, and `\b`
  nothing : Regex
  word_boundary : Regex
  seq alt : Regex → Regex → Regex
  star : Regex → Regex

-- A place in a text: the byte before it, if any, and the text after it.
pub record Place : Type 0 where
  pub before : Option ℕ
  pub after : Bytes

-- [0-9A-Za-z_]
unfoldable pub is_word : ℕ → Bool
is_word c =
    leb b'0' c && leb c b'9'
    || leb b'A' c && leb c b'Z'
    || leb b'a' c && leb c b'z'
    || nat_eq c b'_'

before_is_word : Option ℕ → Bool
unfolding is_word
before_is_word none = false
before_is_word (some c) = is_word c

after_is_word : Bytes → Bool
unfolding is_word
after_is_word [] = false
after_is_word (c ∷ s) = is_word c

at_boundary : Place → Bool
unfolding before_is_word after_is_word
at_boundary p =
    if before_is_word p.before then not (after_is_word p.after) else after_is_word p.after

step_byte : (ℕ → Bool) → Bytes → List Place
step_byte test [] = []
step_byte test (c ∷ s) = if test c then record { before = some c; after = s } ∷ [] else []

keep_shorter : ℕ → List Place → List Place
keep_shorter n [] = []
keep_shorter n (p ∷ ps) =
    let rest = keep_shorter n ps in if ltb (length p.after) n then p ∷ rest else rest

-- The places after any number of matches that each take a byte at least.
repeat : ℕ → (Place → List Place) → Place → List Place
unfolding keep_shorter
repeat zero once p = p ∷ []
repeat (suc n) once p = p ∷ flat_map (repeat n once) (keep_shorter (length p.after) (once p))

-- The places where a match that begins at `p` may end.
unfoldable pub ends : Regex → Place → List Place
unfolding step_byte at_boundary repeat
ends (byte test) p = step_byte test p.after
ends nothing p = p ∷ []
ends word_boundary p = if at_boundary p then p ∷ [] else []
ends (seq r s) p = flat_map (ends s) (ends r p)
ends (alt r s) p = ends r p ++ ends s p
ends (star r) p = repeat (length p.after) (ends r) p

is_some_place : List Place → Bool
is_some_place [] = false
is_some_place (p ∷ ps) = true

match_from : Regex → Option ℕ → Bytes → Bool
unfolding ends is_some_place
match_from r before [] = is_some_place (ends r (record { before = before; after = [] }))
match_from r before (c ∷ s) =
    is_some_place (ends r (record { before = before; after = c ∷ s })) || match_from r (some c) s

-- regexp.MatchString: a match anywhere in the text.
unfoldable pub match_string : Regex → Bytes → Bool
unfolding match_from
match_string r s = match_from r none s

-- The forms that the patterns are written with.
abbrev pub lit : ℕ → Regex
lit c = byte (nat_eq c)

abbrev pub word : Bytes → Regex
word [] = nothing
word (c ∷ s) = seq (lit c) (word s)

abbrev pub is_space : ℕ → Bool
is_space c = nat_eq c 9 || nat_eq c 10 || nat_eq c 12 || nat_eq c 13 || nat_eq c 32

abbrev pub is_letter : ℕ → Bool
is_letter c = leb b'A' c && leb c b'Z' || leb b'a' c && leb c b'z'

abbrev pub space : Regex
space = byte is_space

abbrev pub letter : Regex
letter = byte is_letter

abbrev pub any_byte : Regex
any_byte = byte (λ c. not (nat_eq c 10))

abbrev pub plus : Regex → Regex
plus r = seq r (star r)

abbrev pub optional : Regex → Regex
optional r = alt r nothing
