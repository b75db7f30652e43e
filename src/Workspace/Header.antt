-- ===== src/Workspace/Header.antt =====
-- git.go: parseBranch on the headers that git prints.
use vmux.Base.{
  ℕ, ◌≡◌, ◌≢◌, refl, ap, Bool, true, false, ◌&&◌, ◌||◌, [], ◌∷◌, ◌++◌, nat_eq, Bytes, codes, length,
  take, some, none, arith, Every,
}
use vmux.Workspace.Git.{has_prefix, index_of, parse_branch}

-- A header: a branch, a branch with its upstream and how far they are apart, a branch without commits,
-- and no branch.
pub data Header : Type 0 where
  local unborn : Bytes → Header
  tracking : Bytes → Bytes → Header
  detached : Header

abbrev pub print_header : Header → Bytes
print_header (local name) = name
print_header (unborn name) = codes "No commits yet on " ++ name
print_header (tracking name upstream) = name ++ (codes "..." ++ upstream)
print_header detached = codes "HEAD (no branch)"

-- What parseBranch takes for the branch: of a branch without commits, the first word of the header.
abbrev pub shown_branch : Header → Bytes
shown_branch (local name) = name
shown_branch (unborn name) = codes "No"
shown_branch (tracking name upstream) = name
shown_branch detached = codes "HEAD"

-- The text begins with a dot or is at its end.
abbrev is_dot_or_end : Bytes → Bool
is_dot_or_end [] = true
is_dot_or_end (c ∷ s) = nat_eq c b'.'

-- No dot stands before another one or at the end.
abbrev pub HasApartDots : Bytes → Type 0
HasApartDots [] = Unit
HasApartDots (c ∷ s) = ((nat_eq c b'.' && is_dot_or_end s) ≡ false) × HasApartDots s

-- What git allows as the name of a branch, as far as it counts here.
pub record IsName (name : Bytes) : Type 0 where
  pub solid : Every (λ c. c ≢ b' ') name
  pub dots : HasApartDots name

abbrev pub IsHeader : Header → Type 0
IsHeader (local name) = IsName name
IsHeader (unborn name) = IsName name
IsHeader (tracking name upstream) = IsName name
IsHeader detached = Unit

-- Three dots do not begin at a place of a text where the dots stand apart.
no_prefix :
    (c : ℕ) (s rest : Bytes)
    → (nat_eq c b'.' && is_dot_or_end s) ≡ false
    → has_prefix (c ∷ (s ++ rest)) (codes "...") ≡ false
unfolding has_prefix
no_prefix c [] rest h = ground (arith, h)
no_prefix c (d ∷ s) rest h = ground (arith, h)

no_prefix_alone :
    (c : ℕ) (s : Bytes)
    → (nat_eq c b'.' && is_dot_or_end s) ≡ false
    → has_prefix (c ∷ s) (codes "...") ≡ false
unfolding has_prefix
no_prefix_alone c [] h = ground (arith, h)
no_prefix_alone c (d ∷ s) h = ground (arith, h)

index_of-apart : (s : Bytes) → HasApartDots s → index_of (codes "...") s ≡ none
unfolding index_of
index_of-apart [] h = unfold has_prefix in refl
index_of-apart (c ∷ s) h = rw (no_prefix_alone c s h.0, index_of-apart s h.1) refl

index_of-dots :
    (s rest : Bytes)
    → HasApartDots s
    → index_of (codes "...") (s ++ (codes "..." ++ rest)) ≡ some (length s)
unfolding index_of
index_of-dots [] rest h = unfold has_prefix in refl
index_of-dots (c ∷ s) rest h =
    rw (no_prefix c s (codes "..." ++ rest) h.0, index_of-dots s rest h.1) refl

index_of-solid : (s : Bytes) → Every (λ c. c ≢ b' ') s → index_of (codes " ") s ≡ none
unfolding index_of has_prefix
index_of-solid [] h = refl
index_of-solid (c ∷ s) h =
    let other : nat_eq c b' ' ≡ false = ground (arith, h.0) in rw (other, index_of-solid s h.1) refl

take-length : (s rest : Bytes) → take (length s) (s ++ rest) ≡ s
take-length [] rest = refl
take-length (c ∷ s) rest = ap (◌∷◌ c) (take-length s rest)

abbrev has_dot : Bytes → Bool
has_dot [] = false
has_dot (c ∷ s) = nat_eq c b'.' || has_dot s

append-HasApartDots : (s t : Bytes) → has_dot s ≡ false → HasApartDots t → HasApartDots (s ++ t)
append-HasApartDots [] t h k = k
append-HasApartDots (c ∷ s) t h k =
    let here : nat_eq c b'.' ≡ false = ground (arith, h) in
    let later : has_dot s ≡ false = ground (arith, h) in
    (rw here refl, append-HasApartDots s t later k)

-- Of every header that git prints, parseBranch gives the name of the branch, "HEAD" for none, and only
-- "No" where the branch has no commits yet.
pub parse_branch-print_header :
    (h : Header) → IsHeader h → parse_branch (print_header h) ≡ shown_branch h
unfolding parse_branch
parse_branch-print_header (local name) h =
    rw (index_of-apart name h.dots, index_of-solid name h.solid, parse_branch) refl
parse_branch-print_header (unborn name) h =
    rw
      (
        index_of-apart (codes "No commits yet on " ++ name)
            (append-HasApartDots (codes "No commits yet on ") name refl h.dots),
        parse_branch,
      )
      (unfold index_of has_prefix in refl)
parse_branch-print_header (tracking name upstream) h =
    rw (index_of-dots name upstream h.dots, parse_branch)
      (take-length name (codes "..." ++ upstream))
parse_branch-print_header detached h = unfold index_of has_prefix in refl
