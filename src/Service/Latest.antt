-- ===== src/Service/Latest.antt =====
-- A screenshot that was captured is the one that browserSession.latestShot returns.
use vmux.Base.{
  ◌≡◌, ◌≢◌, inl, inr, refl, sym, ap, ◌∙◌, suc, Bool, true, false, ◌&&◌, List, [], ◌∷◌, ◌++◌, Option,
  none, some, if◌then◌else◌, String, String-eq, Bytes, Bytes-eq, ltb, length, Every,
  lookup-insert_self, Bool-cases, arith, eq_self, test_of_ne,
}
use vmux.Activity.Event.{Event}
use vmux.Activity.Store.{Store}
use vmux.BrowserSession.Screenshots.{
  max_shots, FileName, full, thumb, Shot, Picture, ScreenshotStore, Env, shot_of, found_ring,
  ring_of, set_file, same_name, remove_shot, evict, enter_shot, add_where, add_files, add, last_of,
  latest, has_shot, read_full, safe_key,
}
use vmux.Service.Reply.{returned}
use vmux.Service.Browser.{
  latest_png, latest_reply, browser_latest_shot, capture_stored, on_screenshot,
}

abbrev Files : Type 0
Files = Bytes → FileName → Option Bytes

last_of-append :
    (x : Shot) (xs : List Shot) (shot : Shot) → last_of (x ∷ xs ++ shot ∷ []) ≡ some shot
unfolding last_of
last_of-append x [] shot = refl
last_of-append x (y ∷ xs) shot = last_of-append y xs shot

last_of_after : (xs : List Shot) (shot : Shot) → last_of (xs ++ shot ∷ []) ≡ some shot
unfolding last_of
last_of_after [] shot = refl
last_of_after (x ∷ xs) shot = last_of-append x xs shot

has_shot_after : (xs : List Shot) (shot : Shot) → has_shot shot.id (xs ++ shot ∷ []) ≡ true
unfolding has_shot
has_shot_after [] shot = ground (arith, eq_self shot.id)
has_shot_after (x ∷ xs) shot = ground (arith, has_shot_after xs shot)

-- Removing another shot leaves a shot's picture.
remove_shot-other :
    (key : Bytes) (x : Shot) (id : String) (files : Bytes → FileName → Option Bytes)
    → x.id ≢ id
    → remove_shot key x files key (full id) ≡ files key (full id)
unfolding remove_shot set_file same_name
remove_shot-other key x id files other = ground (arith, test_of_ne id x.id (λ e. other (sym e)))

-- What an eviction leaves of the newest shot, whose id no other has.
module _ (key : Bytes) (shot : Shot) where
  abbrev pub Leaves : Files → List Shot × Files → Type 0
  Leaves files left =
      (last_of left.0 ≡ some shot)
      × (has_shot shot.id left.0 ≡ true)
      × (left.1 key (full shot.id) ≡ files key (full shot.id))

  evict-Leaves :
      (xs : List Shot) (files : Files)
      → Every (λ (x : Shot). x.id ≢ shot.id) xs
      → Leaves files (evict key (xs ++ shot ∷ []) files)
  unfolding evict last_of
  evict-Leaves [] files others = (refl, has_shot_after [] shot, refl)
  evict-Leaves (x ∷ xs) files others =
      elim (Bool-cases (ltb max_shots (suc (length (xs ++ shot ∷ []))))) [
        | inl e ↦
            let (last, has, file) = evict-Leaves xs (remove_shot key x files) others.1 in
            rw e (last, has, file ∙ remove_shot-other key x shot.id files others.0)
        | inr e ↦ rw e (last_of_after (x ∷ xs) shot, has_shot_after (x ∷ xs) shot, refl)
      ]

-- The reply for a session whose newest shot is `shot`, with its picture in place.
latest_of-ring :
    (s : ScreenshotStore) (sid : String) (shot : Shot) (png : Bytes)
    → last_of (ring_of s sid) ≡ some shot
    → has_shot shot.id (ring_of s sid) ≡ true
    → s.files (safe_key sid) (full shot.id) ≡ some png
    → browser_latest_shot s (some sid)
      ≡ returned (record { shot_id = shot.id; width = shot.width; height = shot.height; png = png })
unfolding browser_latest_shot latest_reply latest_png latest read_full
latest_of-ring s sid shot png last has file =
    ap (latest_reply s sid) last
    ∙ ap (λ b. latest_png shot (if b then s.files (safe_key sid) (full shot.id) else none)) has
    ∙ ap (latest_png shot) file

-- The picture that Add writes before the thumbnail.
written_full :
    (key png thumbnail : Bytes) (id : String) (files : Files)
    → set_file key
        (thumb id)
        (some thumbnail)
        (set_file key (full id) (some png) files)
        key
        (full id)
      ≡ some png
unfolding set_file same_name
written_full key png thumbnail id files = ground (arith, eq_self key, eq_self id)

latest_of-enter_shot :
    (s : ScreenshotStore) (sid : String) (shot : Shot) (png : Bytes) (files : Files)
    → Every (λ (x : Shot). x.id ≢ shot.id) (ring_of s sid)
    → files (safe_key sid) (full shot.id) ≡ some png
    → browser_latest_shot (enter_shot s sid shot files) (some sid)
      ≡ returned (record { shot_id = shot.id; width = shot.width; height = shot.height; png = png })
unfolding enter_shot ring_of found_ring
latest_of-enter_shot s sid shot png files others file =
    let left : List Shot × Files = evict (safe_key sid) (ring_of s sid ++ shot ∷ []) files in
    let (last, has, kept) = evict-Leaves (safe_key sid) shot (ring_of s sid) files others in
    let ring : ring_of (enter_shot s sid shot files) sid ≡ left.0 =
      ap found_ring (lookup-insert_self sid left.0 s.shots) in
    latest_of-ring (enter_shot s sid shot files) sid shot png (ap last_of ring ∙ last)
      (ap (has_shot shot.id) ring ∙ has) (kept ∙ file)

captured :
    (redact : String → String) (marshal : Event → Option Bytes) (act : Store) (upstream : String)
    (s : ScreenshotStore) (o : Option Shot)
    → ((capture_stored redact marshal act upstream s o).shots ≡ s)
      × ((capture_stored redact marshal act upstream s o).notified ≡ o)
unfolding capture_stored
captured redact marshal act upstream s none = (refl, refl)
captured redact marshal act upstream s (some shot) = (refl, refl)

add_decoded :
    (decode : Bytes → Option Picture) (env : Env) (s : ScreenshotStore) (sid : String) (png : Bytes)
    (p : Picture)
    → decode png ≡ some p
    → add decode env s sid png
      ≡ add_where (env.can_make && env.can_write) env.can_write_thumb env s sid p
unfolding add add_files
add_decoded decode env s sid png p is = rw (is, add)

module _ (env : Env) (s : ScreenshotStore) (sid : String) (p : Picture) where
  IsShown : ScreenshotStore × Option Shot → Type 0
  IsShown out =
      (shot : Shot)
      → out.1 ≡ some shot
      → browser_latest_shot out.0 (some sid)
        ≡ returned (record { shot_id = env.id; width = p.width; height = p.height; png = p.png })

  add_where-IsShown :
      (a b : Bool)
      → Every (λ (x : Shot). x.id ≢ env.id) (ring_of s sid)
      → IsShown (add_where a b env s sid p)
  unfolding add_where IsShown
  add_where-IsShown false b others shot got = cc got
  add_where-IsShown true false others shot got = cc got
  add_where-IsShown true true others shot got =
      latest_of-enter_shot s sid (shot_of env sid p) p.png _ others
        (written_full (safe_key sid) p.png p.thumbnail env.id s.files)

-- A screenshot whose capture was notified is the one that browserSession.latestShot returns next for the
-- session, with the size and the bytes that decoding gave, whatever older shots its capture has
-- evicted: provided that none of the session's shots has the id that was drawn for it.
pub on_screenshot-browser_latest_shot :
    (redact : String → String) (marshal : Event → Option Bytes) (decode : Bytes → Option Picture)
    (env : Env) (s : ScreenshotStore) (act : Store) (upstream : String) (png : Bytes) (p : Picture)
    (shot : Shot)
    → decode png ≡ some p
    → Every (λ (x : Shot). x.id ≢ env.id) (ring_of s upstream)
    → (on_screenshot redact marshal decode env s act upstream png).notified ≡ some shot
    → browser_latest_shot
        (on_screenshot redact marshal decode env s act upstream png).shots
        (some upstream)
      ≡ returned (record { shot_id = env.id; width = p.width; height = p.height; png = p.png })
unfolding on_screenshot IsShown
on_screenshot-browser_latest_shot redact marshal decode env s act upstream png p shot is others
      got =
    let made = add_decoded decode env s upstream png p is in
    let out : ScreenshotStore × Option Shot = add decode env s upstream png in
    let (shots, notified) = captured redact marshal act upstream out.0 out.1 in
    let shown = add_where-IsShown env s upstream p _ _ others in
    ap (λ t. browser_latest_shot t (some upstream)) (shots ∙ ap (λ r. r.0) made)
    ∙ shown shot (ap (λ r. r.1) (sym made) ∙ sym notified ∙ got)
