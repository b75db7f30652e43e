-- ===== src/Activity/Persist.antt =====
-- What All reads back from the log files.
use mathlib.Core.List.{append_assoc}
use vmux.Base.{
  ◌<◌, ◌≡◌, ◌⊎◌, inl, inr, refl, sym, ap, ◌∙◌, true, List, [], ◌∷◌, ◌++◌, Option, none, some,
  if◌then◌else◌, ltb, arith, Bool-cases, Option-cases, lookup, insert, lookup-insert,
  lookup-insert_cases, String, String-eq, ◌==◌, Bytes, Bytes-eq, length, eq_of_test, map, Every,
}
use vmux.Activity.Event.{Event}
use vmux.Activity.Log.{
  Logs, lines_of, write_line, persist, safe_key, scan, keep_some, all, max_line,
}

-- The event `e` is written as the line `line`, which is short enough and is read as the event.
pub record IsCoded (marshal : Event → Option Bytes) (unmarshal : Bytes → Option Event)
    (line : Bytes) (e : Event) : Type 0 where
  pub encodes : marshal e ≡ some line
  pub decodes : unmarshal line ≡ some e
  pub fits : length line < max_line

-- A file is open under the key of its session only.
abbrev pub IsKeyedBySession : Logs → Type 0
IsKeyedBySession l =
    (sid : String) (key : Bytes) → lookup sid l.open_files ≡ some key → key ≡ safe_key sid

-- The events among `es` whose session has the key `key`.
unfoldable pub of_key : Bytes → List Event → List Event
of_key key [] = []
of_key key (e ∷ es) = if safe_key e.session_id == key then e ∷ of_key key es else of_key key es

lines_of-write_line :
    (l : Logs) (key q line : Bytes)
    → lines_of (write_line l key (some line)) q
      ≡ (if key == q then lines_of l q ++ line ∷ [] else lines_of l q)
unfolding lines_of write_line
lines_of-write_line l key q line =
    let new : List Bytes = lines_of l key ++ line ∷ [] in
    let found : lookup q (insert key new l.lines)
        ≡ (if key == q then some new else lookup q l.lines) =
      lookup-insert key q new l.lines in
    elim (Bool-cases (key == q)) [
      | inl same ↦
          let there : key ≡ q = eq_of_test key q same in
          rw (found, same, there, lines_of, write_line)
      | inr other ↦ rw (found, other, lines_of, write_line)
    ]

keep_some-append :
    (o : Option Event) (es ds : List Event) → keep_some o (es ++ ds) ≡ keep_some o es ++ ds
unfolding keep_some
keep_some-append none es ds = refl
keep_some-append (some e) es ds = refl

-- Lines that are read without an error, and the lines after them.
scan-append :
    (unmarshal : Bytes → Option Event) (ls more : List Bytes)
    → (scan unmarshal ls).1 ≡ true
    → scan unmarshal (ls ++ more)
      ≡ ((scan unmarshal ls).0 ++ (scan unmarshal more).0, (scan unmarshal more).1)
unfolding scan
scan-append unmarshal [] more h = refl
scan-append unmarshal (l ∷ ls) more h = elim (Bool-cases (ltb (length l) max_line)) [
  | inr long ↦ cc (rw long at h)
  | inl short ↦
      let later : (scan unmarshal ls).1 ≡ true = rw short at h in
      rw (short, scan-append unmarshal ls more later)
        (ap (λ es. (es, (scan unmarshal more).1))
          (keep_some-append (unmarshal l) (scan unmarshal ls).0 (scan unmarshal more).0))
]

module _ (marshal : Event → Option Bytes) (unmarshal : Bytes → Option Event) (line : Event → Bytes)
    (old : Bytes → List Bytes) where
  abbrev pub AreCoded : List Event → Type 0
  AreCoded es = Every (λ e. IsCoded marshal unmarshal (line e) e) es

  scan-lines : (es : List Event) → AreCoded es → scan unmarshal (map line es) ≡ (es, true)
  unfolding scan
  scan-lines [] w = refl
  scan-lines (e ∷ es) w =
      let short : ltb (length (line e)) max_line ≡ true = ground (arith, w.0.fits) in
      rw (short, scan-lines es w.1, w.0.decodes)

  -- Every file holds its old lines and then those of the events whose session has its key.
  pub record IsLogOf (l : Logs) (es : List Event) : Type 0 where
    pub can_open : (key : Bytes) → l.can_open key ≡ true
    pub keyed : IsKeyedBySession l
    pub holds : (key : Bytes) → lines_of l key ≡ old key ++ map line (of_key key es)

  lines_of-persist :
      (l : Logs) (es : List Event) (e : Event) (key : Bytes)
      → IsCoded marshal unmarshal (line e) e
      → IsLogOf l es
      → lines_of (persist marshal l e) key
        ≡ (if safe_key e.session_id == key then lines_of l key ++ line e ∷ [] else lines_of l key)
  unfolding persist
  lines_of-persist l es e key w h = elim (Option-cases (lookup e.session_id l.open_files)) [
    | inl missing ↦
        rw (missing, h.can_open (safe_key e.session_id), w.encodes, persist)
          (lines_of-write_line
            (record l { open_files = insert e.session_id (safe_key e.session_id) l.open_files })
            (safe_key e.session_id) key (line e))
    | inr (k, found) ↦
        rw (found, persist, h.keyed e.session_id k found, w.encodes)
          (lines_of-write_line l (safe_key e.session_id) key (line e))
  ]

  persist-opens :
      (l : Logs) (es : List Event) (e : Event)
      → IsCoded marshal unmarshal (line e) e
      → IsLogOf l es
      → (((persist marshal l e).open_files ≡ l.open_files)
          ⊎ ((persist marshal l e).open_files
              ≡ insert e.session_id (safe_key e.session_id) l.open_files))
        × ((persist marshal l e).can_open ≡ l.can_open)
  unfolding persist write_line
  persist-opens l es e w h = elim (Option-cases (lookup e.session_id l.open_files)) [
    | inl missing ↦
        rw (missing, h.can_open (safe_key e.session_id), w.encodes, persist, write_line)
          (inr refl, refl)
    | inr (k, found) ↦ rw (found, w.encodes, persist, write_line) (inl refl, refl)
  ]

  persist-IsKeyedBySession :
      (l : Logs) (es : List Event) (e : Event)
      → IsCoded marshal unmarshal (line e) e
      → IsLogOf l es
      → IsKeyedBySession (persist marshal l e)
  persist-IsKeyedBySession l es e w h sid key got = elim (persist-opens l es e w h).0 [
    | inl same ↦ h.keyed sid key (ap (lookup sid) (sym same) ∙ got)
    | inr more ↦
        elim (lookup-insert_cases e.session_id sid (safe_key e.session_id) l.open_files
          (ap (lookup sid) (sym more) ∙ got)) [
            | inl (there, new) ↦ cc (there, new)
            | inr (elsewhere, older) ↦ h.keyed sid key older
          ]
  ]

  lines-of_key :
      (key : Bytes) (es : List Event) (e : Event)
      → map line (of_key key (es ++ e ∷ [])) ≡ (
          if safe_key e.session_id == key
          then map line (of_key key es) ++ line e ∷ []
          else map line (of_key key es))
  unfolding of_key
  lines-of_key key [] e = elim (Bool-cases (safe_key e.session_id == key)) [
    | inl same ↦ rw same
    | inr other ↦ rw other
  ]
  lines-of_key key (d ∷ es) e = elim (Bool-cases (safe_key d.session_id == key)) [
    | inl same ↦ elim (Bool-cases (safe_key e.session_id == key)) [
      | inl too ↦ rw (same, lines-of_key key es e, too)
      | inr other ↦ rw (same, lines-of_key key es e, other)
    ]
    | inr other ↦ rw (other, lines-of_key key es e)
  ]

  holds-persist :
      (l : Logs) (es : List Event) (e : Event) (key : Bytes)
      → IsCoded marshal unmarshal (line e) e
      → IsLogOf l es
      → lines_of (persist marshal l e) key ≡ old key ++ map line (of_key key (es ++ e ∷ []))
  holds-persist l es e key w h = elim (Bool-cases (safe_key e.session_id == key)) [
    | inl same ↦
        rw (lines_of-persist l es e key w h, lines-of_key key es e, same, h.holds key)
          (append_assoc (old key) (map line (of_key key es)) (line e ∷ []))
    | inr other ↦ rw (lines_of-persist l es e key w h, lines-of_key key es e, other, h.holds key)
  ]

  pub persist-IsLogOf :
      (l : Logs) (es : List Event) (e : Event)
      → IsCoded marshal unmarshal (line e) e
      → IsLogOf l es
      → IsLogOf (persist marshal l e) (es ++ e ∷ [])
  persist-IsLogOf l es e w h = record {
    can_open = rw (persist-opens l es e w h).1 h.can_open;
    keyed = persist-IsKeyedBySession l es e w h;
    holds = λ key. holds-persist l es e key w h;
  }

  of_key-AreCoded : (key : Bytes) (es : List Event) → AreCoded es → AreCoded (of_key key es)
  unfolding of_key
  of_key-AreCoded key [] w = w
  of_key-AreCoded key (e ∷ es) w = elim (Bool-cases (safe_key e.session_id == key)) [
    | inl same ↦ rw same (w.0, of_key-AreCoded key es w.1)
    | inr other ↦ rw other (of_key-AreCoded key es w.1)
  ]

  -- All reads what it read of the old lines, and the events of the sessions with the same key.
  pub all-IsLogOf :
      (l : Logs) (older es : List Event) (sid : String)
      → AreCoded es
      → scan unmarshal (old (safe_key sid)) ≡ (older, true)
      → IsLogOf l es
      → all unmarshal l sid ≡ (older ++ of_key (safe_key sid) es, true)
  unfolding all
  all-IsLogOf l older es sid w before h =
      let new : List Event = of_key (safe_key sid) es in
      let rest = scan-lines new (of_key-AreCoded (safe_key sid) es w) in
      rw (h.holds (safe_key sid)) (
        scan-append unmarshal (old (safe_key sid)) (map line new) (ap (λ p. p.1) before)
        ∙ ap (λ es. (es ++ (scan unmarshal (map line new)).0, (scan unmarshal (map line new)).1))
            (ap (λ p. p.0) before)
        ∙ ap (λ p. (older ++ p.0, p.1)) rest)
