-- ===== src/ChromeImport/Cookies.antt =====
-- cookies.go: the padding and the envelope of an encrypted cookie. AES in CBC mode is an argument.
use vmux.Base.{
  ℕ, ◌-◌, ◌%◌, Bool, not, ◌||◌, [], ◌∷◌, ◌++◌, Option, none, some, if◌then◌else◌, ltb, nat_eq,
  Bytes, Bytes-eq, ◌==◌, codes, length, take, drop, replicate,
}

-- aes.BlockSize
abbrev pub block_size : ℕ
block_size = 16

-- aes.NewCipher with the CBC modes over it: whether a key has a length that AES takes, and the two
-- directions with Chrome's initial vector.
pub record Cipher : Type 0 where
  pub takes_key : Bytes → Bool
  pub encrypt : Bytes → Bytes → Bytes
  pub decrypt : Bytes → Bytes → Bytes

unfoldable pub last_of : Bytes → ℕ
last_of [] = 0
last_of (c ∷ []) = c
last_of (c ∷ d ∷ s) = last_of (d ∷ s)

-- padPKCS7; the byte of the padding is at most the block's size, which fits.
unfoldable pub pad_to : ℕ → Bytes → Bytes
pad_to size s = let pad = size - length s % size in s ++ replicate pad (pad % 256)

unfoldable pub cut_padding : ℕ → Bytes → ℕ → Option Bytes
cut_padding size s pad =
    if nat_eq pad 0 || ltb size pad || ltb (length s) pad
    then none
    else some (take (length s - pad) s)

-- unpadPKCS7
unfoldable pub unpad : ℕ → Bytes → Option Bytes
unfolding cut_padding last_of
unpad size s =
    if nat_eq (length s) 0 || not (nat_eq (length s % size) 0)
    then none
    else cut_padding size s (last_of s)

-- DecryptCookie; `none` is an error.
unfoldable pub decrypt_cookie : Cipher → Bytes → Bytes → Option Bytes
unfolding unpad
decrypt_cookie cipher key s =
    if ltb (length s) 3 || not (take 3 s == codes "v10")
    then none
    else (if nat_eq (length (drop 3 s)) 0 || not (nat_eq (length (drop 3 s) % block_size) 0)
        then none
        else (if cipher.takes_key key
            then unpad block_size (cipher.decrypt key (drop 3 s))
            else none))

-- EncryptCookie
unfoldable pub encrypt_cookie : Cipher → Bytes → Bytes → Option Bytes
unfolding pad_to
encrypt_cookie cipher key s =
    if cipher.takes_key key
    then some (codes "v10" ++ cipher.encrypt key (pad_to block_size s))
    else none
