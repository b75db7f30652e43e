-- ===== src/Editor/Args.antt =====
-- invoke.go: BuildArgs, with strings.Fields, strings.NewReplacer and strconv.Itoa as it uses them. A
-- text is the list of its runes.
use vmux.Base.{
  ℤ, pos, negsuc, ℕ, zero, suc, ◌+◌, ◌-◌, ◌/◌, ◌%◌, Bool, true, false, ◌||◌, ◌&&◌, List, [], ◌∷◌,
  ◌++◌, Option, none, some, if◌then◌else◌, ltb, leb, nat_eq, length, map, Bytes, codes, String,
}

-- Editor, of registry.go
pub record Editor : Type 0 where
  pub id : String
  pub name : String
  pub bin : String
  pub args : Bytes
  pub line_col : Bool

-- unicode.IsSpace
unfoldable pub is_space : ℕ → Bool
is_space r =
    leb 9 r && leb r 13
    || nat_eq r 32
    || nat_eq r 133
    || nat_eq r 160
    || nat_eq r 5760
    || leb 8192 r && leb r 8202
    || nat_eq r 8232
    || nat_eq r 8233
    || nat_eq r 8239
    || nat_eq r 8287
    || nat_eq r 12288

-- The field that ends where a space or the end of the text stands.
unfoldable pub ended_field : Bytes → List Bytes
ended_field [] = []
ended_field (c ∷ s) = (c ∷ s) ∷ []

unfoldable pub fields_from : Bytes → Bytes → List Bytes
unfolding ended_field is_space
fields_from field [] = ended_field field
fields_from field (c ∷ s) =
    let next = fields_from [] s in
    let longer = fields_from (field ++ c ∷ []) s in
    if is_space c then ended_field field ++ next else longer

-- strings.Fields
unfoldable pub fields : Bytes → List Bytes
unfolding fields_from
fields s = fields_from [] s

-- The digits of a number below 10 ^ fuel.
unfoldable pub digits : ℕ → ℕ → Bytes → Bytes
digits zero n rest = rest
digits (suc fuel) n rest =
    let more = digits fuel (n / 10) ((b'0' + n % 10) ∷ rest) in
    if ltb n 10 then (b'0' + n) ∷ rest else more

-- strconv.Itoa of an int of 64 bits, which has 19 digits at most
unfoldable pub itoa : ℤ → Bytes
unfolding digits
itoa (pos n) = digits 19 n []
itoa (negsuc n) = b'-' ∷ digits 19 (suc n) []

unfoldable pub has_prefix : Bytes → Bytes → Bool
has_prefix [] s = true
has_prefix (c ∷ old) [] = false
has_prefix (c ∷ old) (d ∷ s) = nat_eq c d && has_prefix old s

-- The first of the pairs whose old text stands at the start of `s`.
unfoldable pub matching : List (Bytes × Bytes) → Bytes → Option (Bytes × Bytes)
unfolding has_prefix
matching [] s = none
matching (p ∷ pairs) s = if has_prefix p.0 s then some p else matching pairs s

-- What the replacer writes at a rune, from what it writes after the rune and after the old text.
unfoldable pub replaced : ℕ → Option (Bytes × Bytes) → Bytes → (ℕ → Bytes) → Bytes
replaced c none after rest = c ∷ after
replaced c (some p) after rest = p.1 ++ rest (length p.0 - 1)

-- strings.NewReplacer(...).Replace, where `skip` runes of an old text are left
unfoldable pub replace : List (Bytes × Bytes) → ℕ → Bytes → Bytes
unfolding matching replaced
replace pairs skip [] = []
replace pairs (suc skip) (c ∷ s) = replace pairs skip s
replace pairs zero (c ∷ s) =
    replaced c (matching pairs (c ∷ s)) (replace pairs 0 s) (λ skip. replace pairs skip s)

abbrev pub path_hole : Bytes
path_hole = codes "{path}"

abbrev pub line_hole : Bytes
line_hole = codes "{line}"

abbrev pub col_hole : Bytes
col_hole = codes "{col}"

unfoldable pub replacements : Bytes → ℤ → ℤ → List (Bytes × Bytes)
unfolding itoa
replacements path line col = (path_hole, path) ∷ (line_hole, itoa line) ∷ (col_hole, itoa col) ∷ []

-- BuildArgs
unfoldable pub build_args : Editor → Bytes → ℤ → ℤ → List Bytes
unfolding fields replace replacements
build_args e path line col = map (replace (replacements path line col) 0) (fields e.args)
