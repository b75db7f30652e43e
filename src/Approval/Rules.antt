-- ===== src/Approval/Rules.antt =====
-- rules.go: the dangerous-command rules and the first of them that fires.
use vmux.Base.{
  ℕ, ◌≡◌, ◌⊎◌, inl, inr, refl, Bool, true, false, not, ◌||◌, List, [], ◌∷◌, ◌++◌, Option, none,
  some, String, Bytes, codes, nat_eq, if◌then◌else◌, Every, Bool-cases,
}
use mathlib.Core.List.{reverse}
use vmux.Approval.Regex.{
  Regex, seq, alt, star, word_boundary, byte, lit, word, space, letter, any_byte, plus, optional,
  match_string,
}

pub record Rule : Type 0 where
  pub id : String
  pub reason : String
  pub pattern : Regex

abbrev bounded : String → Regex
bounded s = seq word_boundary (seq (word (codes s)) word_boundary)

-- `\b` in front, and the rest
abbrev opening : String → Regex → Regex
opening s r = seq word_boundary (seq (word (codes s)) r)

-- (-[a-zA-Z]*x[a-zA-Z]*y)
abbrev flags : ℕ → ℕ → Regex
flags x y = seq (lit b'-') (seq (star letter) (seq (lit x) (seq (star letter) (lit y))))

abbrev rm_rf : Rule
rm_rf = record {
  id = "rm-rf";
  reason = "recursive force delete";
  pattern = opening "rm" (
      seq (plus space) (
        seq
          (alt (flags b'r' b'f')
            (alt (flags b'f' b'r') (alt (word (codes "-rf")) (word (codes "-fr")))))
          word_boundary));
}

abbrev pub sudo : Rule
sudo = record { id = "sudo"; reason = "privilege escalation"; pattern = bounded "sudo" }

abbrev curl_pipe_sh : Rule
curl_pipe_sh = record {
  id = "curl-pipe-sh";
  reason = "pipe remote script to shell";
  pattern = seq word_boundary (
      seq (alt (word (codes "curl")) (word (codes "wget"))) (
        seq word_boundary (
          seq (star (byte (λ c. not (nat_eq c b'|')))) (
            seq (lit b'|') (
              seq (star space) (
                seq (optional (seq (word (codes "sudo")) (plus space))) (
                  seq (optional (word (codes "ba"))) (seq (word (codes "sh")) word_boundary))))))));
}

abbrev dd : Rule
dd = record {
  id = "dd";
  reason = "raw disk write";
  pattern =
      opening "dd"
        (seq (plus space) (seq (star any_byte) (seq word_boundary (word (codes "of=")))));
}

abbrev mkfs : Rule
mkfs = record { id = "mkfs"; reason = "format filesystem"; pattern = bounded "mkfs" }

abbrev force_push : Rule
force_push = record {
  id = "force-push";
  reason = "force-push rewrites remote history";
  pattern = seq (bounded "git") (
      seq (star any_byte) (
        seq (bounded "push") (
          seq (star any_byte) (
            alt (seq (word (codes "--force")) word_boundary) (
              alt (seq (word (codes "--force-with-lease")) word_boundary)
                (seq space (seq (word (codes "-f")) word_boundary)))))));
}

abbrev chmod_777 : Rule
chmod_777 = record {
  id = "chmod-777";
  reason = "world-writable permissions";
  pattern = opening "chmod" (
      seq (plus space) (
        seq (optional (seq (word (codes "-R")) (plus space)))
          (seq (optional (lit b'0')) (seq (word (codes "777")) word_boundary))));
}

abbrev pub default_rules : List Rule
default_rules = rm_rf ∷ sudo ∷ curl_pipe_sh ∷ dd ∷ mkfs ∷ force_push ∷ chmod_777 ∷ []

unfoldable pub fires : Rule → Bytes → Bool
fires r cmdline = match_string r.pattern cmdline

-- strings.Join(args, " ")
unfoldable pub join_words : List Bytes → Bytes
join_words [] = []
join_words (a ∷ []) = a
join_words (a ∷ b ∷ rest) = a ++ b' ' ∷ join_words (b ∷ rest)

-- The white space that strings.TrimSpace cuts from an ASCII text.
is_trimmed : ℕ → Bool
is_trimmed c = nat_eq c 9 || nat_eq c 10 || nat_eq c 11 || nat_eq c 12 || nat_eq c 13 || nat_eq c 32

trim_left : Bytes → Bytes
unfolding is_trimmed
trim_left [] = []
trim_left (c ∷ s) = let rest = trim_left s in if is_trimmed c then rest else c ∷ s

unfoldable pub trim_space : Bytes → Bytes
unfolding trim_left
trim_space s = reverse (trim_left (reverse (trim_left s)))

unfoldable pub command_line : Bytes → List Bytes → Bytes
unfolding join_words trim_space
command_line command args = trim_space (command ++ b' ' ∷ join_words args)

-- The loop of FirstMatch.
unfoldable pub first_firing : List Rule → Bytes → Option Rule
first_firing [] cmdline = none
first_firing (r ∷ rules) cmdline =
    let rest = first_firing rules cmdline in if fires r cmdline then some r else rest

unfoldable pub first_match : List Rule → Bytes → List Bytes → Option Rule
unfolding first_firing
first_match rules command args = first_firing rules (command_line command args)

pub record IsFirst (rules : List Rule) (cmdline : Bytes) (r : Rule) : Type 0 where
  pub passed : List Rule
  pub later : List Rule
  pub split : rules ≡ passed ++ r ∷ later
  pub silent : Every (λ q. fires q cmdline ≡ false) passed
  pub fired : fires r cmdline ≡ true

-- What the loop returns says which rules fire.
pub first_firing-cases :
    (rules : List Rule) (cmdline : Bytes)
    → (first_firing rules cmdline ≡ none) × Every (λ q. fires q cmdline ≡ false) rules
      ⊎ ((r : Rule) × (first_firing rules cmdline ≡ some r) × IsFirst rules cmdline r)
unfolding first_firing
first_firing-cases [] cmdline = inl (refl, tt)
first_firing-cases (r ∷ rules) cmdline = elim (Bool-cases (fires r cmdline)) [
  | inl e ↦
      inr (r, rw e, record { passed = []; later = rules; split = refl; silent = tt; fired = e })
  | inr e ↦ elim (first_firing-cases rules cmdline) [
    | inl h ↦ inl (rw e h.0, (e, h.1))
    | inr h ↦ inr (
      h.0,
      rw e h.1,
      record {
        passed = r ∷ h.2.passed;
        later = h.2.later;
        split = rw h.2.split;
        silent = (e, h.2.silent);
        fired = h.2.fired;
      },
    )
  ]
]
