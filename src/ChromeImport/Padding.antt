-- ===== src/ChromeImport/Padding.antt =====
-- A cookie that was encrypted is decrypted to itself.
use vmux.Base.{
  ℕ, zero, suc, ◌+◌, ◌-◌, ◌%◌, ◌<◌, ◌≡◌, refl, ap, ◌∙◌, true, false, not, ◌||◌, [], ◌∷◌, ◌++◌, none,
  some, if◌then◌else◌, ltb, nat_eq, Bytes, Bytes-eq, codes, length, replicate, length-append,
  take-append_length, arith, bytes_eq,
}
use vmux.ChromeImport.Cookies.{
  block_size, Cipher, last_of, pad_to, cut_padding, unpad, decrypt_cookie, encrypt_cookie,
}

last_of-append : (s t : Bytes) → 0 < length t → last_of (s ++ t) ≡ last_of t
unfolding last_of
last_of-append [] t h = refl
last_of-append (c ∷ []) [] h = absurd (omega (arith, h))
last_of-append (c ∷ []) (d ∷ t) h = refl
last_of-append (c ∷ d ∷ s) t h = last_of-append (d ∷ s) t h

last_of-replicate : (n c : ℕ) → last_of (replicate (suc n) c) ≡ c
unfolding last_of
last_of-replicate zero c = refl
last_of-replicate (suc n) c = last_of-replicate n c

length-replicate : (n c : ℕ) → length (replicate n c) ≡ n
length-replicate zero c = refl
length-replicate (suc n) c = ap suc (length-replicate n c)

cut_padding-replicate :
    (s : Bytes) (n : ℕ)
    → n < block_size
    → cut_padding block_size (s ++ replicate (suc n) (suc n)) (suc n) ≡ some s
unfolding cut_padding
cut_padding-replicate s n h =
    let whole : length (s ++ replicate (suc n) (suc n)) ≡ length s + suc n =
      length-append s (replicate (suc n) (suc n))
      ∙ ap (λ k. length s + k) (length-replicate (suc n) (suc n)) in
    let cut : length (s ++ replicate (suc n) (suc n)) - suc n ≡ length s = omega (arith, whole) in
    let fits : (nat_eq (suc n) 0
          || ltb block_size (suc n)
          || ltb (length (s ++ replicate (suc n) (suc n))) (suc n))
        ≡ false =
      ground (arith, whole, h) in
    rw (fits, cut, take-append_length s (replicate (suc n) (suc n))) refl

unpad-replicate :
    (s : Bytes) (n : ℕ)
    → n < block_size
    → (length s + suc n) % block_size ≡ 0
    → unpad block_size (s ++ replicate (suc n) (suc n)) ≡ some s
unfolding unpad
unpad-replicate s n h full =
    let padding : Bytes = replicate (suc n) (suc n) in
    let whole : length (s ++ padding) ≡ length s + suc n =
      length-append s padding ∙ ap (λ k. length s + k) (length-replicate (suc n) (suc n)) in
    let filled : (nat_eq (length (s ++ padding)) 0
          || not (nat_eq (length (s ++ padding) % block_size) 0))
        ≡ false =
      ground (arith, whole, full) in
    let last : last_of (s ++ padding) ≡ suc n =
      last_of-append s padding (omega arith) ∙ last_of-replicate n (suc n) in
    ap (λ b. if b then none else cut_padding block_size (s ++ padding) (last_of (s ++ padding)))
      filled
    ∙ ap (cut_padding block_size (s ++ padding)) last
    ∙ cut_padding-replicate s n h

-- The padding fills the last block, or is a block of its own.
pad_to-replicate :
    (s : Bytes)
    → pad_to block_size s
      ≡ s ++ replicate (suc (15 - length s % block_size)) (suc (15 - length s % block_size))
unfolding pad_to
pad_to-replicate s =
    let size : block_size - length s % block_size ≡ suc (15 - length s % block_size) =
      omega arith in
    let byte : (block_size - length s % block_size) % 256 ≡ suc (15 - length s % block_size) =
      omega arith in
    ap (λ n. s ++ replicate n ((block_size - length s % block_size) % 256)) size
    ∙ ap (λ c. s ++ replicate (suc (15 - length s % block_size)) c) byte

unpad-pad_to : (s : Bytes) → unpad block_size (pad_to block_size s) ≡ some s
unpad-pad_to s =
    ap (unpad block_size) (pad_to-replicate s)
    ∙ unpad-replicate s (15 - length s % block_size) (omega arith) (omega arith)

length-pad_to :
    (s : Bytes)
    → (length (pad_to block_size s) % block_size ≡ 0) × (0 < length (pad_to block_size s))
length-pad_to s =
    let n : ℕ = suc (15 - length s % block_size) in
    let size : length (pad_to block_size s) ≡ length s + n =
      ap length (pad_to-replicate s)
      ∙ length-append s (replicate n n)
      ∙ ap (λ k. length s + k) (length-replicate n n) in
    (omega (arith, size), omega (arith, size))

decrypt_cookie-body :
    (cipher : Cipher) (key body : Bytes)
    → cipher.takes_key key ≡ true
    → 0 < length body
    → length body % block_size ≡ 0
    → decrypt_cookie cipher key (codes "v10" ++ body) ≡ unpad block_size (cipher.decrypt key body)
unfolding decrypt_cookie bytes_eq
decrypt_cookie-body cipher key body takes some_left full =
    let long : ltb (length (codes "v10" ++ body)) 3 ≡ false = ground arith in
    let filled : (nat_eq (length body) 0 || not (nat_eq (length body % block_size) 0)) ≡ false =
      ground (arith, some_left, full) in
    simp (long, filled, takes)

-- Decrypting what was encrypted with the same key gives the cookie back, and a key that AES takes
-- always encrypts. This needs of AES in CBC mode that it keeps the length of whole blocks and that
-- decryption undoes encryption on them.
pub decrypt_cookie-encrypt_cookie :
    (cipher : Cipher) (key s : Bytes)
    → cipher.takes_key key ≡ true
    → ((d : Bytes) → length (cipher.encrypt key d) ≡ length d)
    → ((d : Bytes) → length d % block_size ≡ 0 → cipher.decrypt key (cipher.encrypt key d) ≡ d)
    → (c : Bytes) × (encrypt_cookie cipher key s ≡ some c) × (decrypt_cookie cipher key c ≡ some s)
unfolding encrypt_cookie
decrypt_cookie-encrypt_cookie cipher key s takes same undoes =
    let padded : Bytes = pad_to block_size s in
    let body : Bytes = cipher.encrypt key padded in
    let (full, filled) = length-pad_to s in
    (
      codes "v10" ++ body,
      ap (λ b. if b then some (codes "v10" ++ body) else none) takes,
      decrypt_cookie-body cipher key body takes (omega (arith, same padded, filled))
            (ap (λ n. n % block_size) (same padded) ∙ full)
          ∙ ap (unpad block_size) (undoes padded full)
          ∙ unpad-pad_to s,
    )
