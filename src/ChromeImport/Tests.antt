-- ===== src/ChromeImport/Tests.antt =====
-- Tests of the import from Chrome, and its properties at concrete inputs.
use vmux.Base.{
  ℕ, ◌≡◌, refl, ap, true, [], ◌∷◌, none, some, Bytes, codes, length, arith, suc, if◌then◌else◌,
  nat_eq, lookup,
}
use vmux.ChromeImport.Cookies.{Cipher, unpad, encrypt_cookie, decrypt_cookie}
use vmux.ChromeImport.Padding.{decrypt_cookie-encrypt_cookie}
use vmux.ChromeImport.Bookmarks.{
  Node, node, nil, cons, BookmarkFile, Json, merge, merge_bookmarks, imported_from, target_of,
  fresh_file,
}
use vmux.ChromeImport.Merge.{merge_bookmarks-twice}

abbrev swap_one : ℕ → ℕ
swap_one c = if nat_eq c 0 then 1 else (if nat_eq c 1 then 0 else c)

-- A cipher that swaps the two bytes 0 and 1, in place of AES.
abbrev swap : Bytes → Bytes
swap [] = []
swap (c ∷ s) = swap_one c ∷ swap s

swap_one-swap_one : (c : ℕ) → swap_one (swap_one c) ≡ c
swap_one-swap_one c = ground arith

length-swap : (s : Bytes) → length (swap s) ≡ length s
length-swap [] = refl
length-swap (c ∷ s) = ap suc (length-swap s)

swap-swap : (s : Bytes) → swap (swap s) ≡ s
swap-swap [] = refl
swap-swap (c ∷ s) = rw (swap_one-swap_one c, swap-swap s) refl

abbrev swapping : Cipher
swapping = record { takes_key = λ k. true; encrypt = λ k s. swap s; decrypt = λ k s. swap s }

bad_padding : unpad 4 (1 ∷ 2 ∷ 3 ∷ 5 ∷ []) ≡ none
unfolding unpad
bad_padding = refl

decrypt_cookie-encrypt_cookie_example :
    (c : Bytes) × (encrypt_cookie swapping [] (1 ∷ 0 ∷ 7 ∷ []) ≡ some c)
    × (decrypt_cookie swapping [] c ≡ some (1 ∷ 0 ∷ 7 ∷ []))
decrypt_cookie-encrypt_cookie_example =
    decrypt_cookie-encrypt_cookie swapping [] (1 ∷ 0 ∷ 7 ∷ []) refl length-swap
      (λ d full. swap-swap d)

abbrev page : Node
page = node "url" "Go" "https://go.dev" nil

abbrev chrome : BookmarkFile
chrome = record {
  version = 1;
  roots = ("bookmark_bar", node "folder" "Bar" "" (cons page nil)) ∷ [];
}

abbrev imported : BookmarkFile
imported = merge (imported_from chrome) fresh_file

-- JSON of two files: "c" is Chrome's and "t" the merged one.
abbrev json : Json
json = record {
  decode = λ s. some chrome;
  decode_onto = λ f s. imported;
  encode = λ f. some (codes "t");
}

urls_imported : (merge_bookmarks json true (some (codes "c")) none).1 ≡ some 1
unfolding merge_bookmarks lookup
urls_imported = refl

merge_bookmarks-twice_example :
    (merge_bookmarks json true
      (some (codes "c"))
      (merge_bookmarks json true (some (codes "c")) none).0).0
    ≡ (merge_bookmarks json true (some (codes "c")) none).0
unfolding target_of
merge_bookmarks-twice_example =
    merge_bookmarks-twice json true (codes "c") chrome none (codes "t") refl refl refl
