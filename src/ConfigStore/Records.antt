-- ===== src/ConfigStore/Records.antt =====
-- A message or the owner's names made a record of bytes and read back.
use meshtastic_zephyr.Prelude.{
  ℕ, zero, suc, ◌+◌, ◌-◌, ◌/◌, ◌%◌, ◌*◌, ◌≤◌, ◌<◌, ◌==◌, ◌≡◌, refl, ap, sym, ◌∙◌, List, [], ◌∷◌,
  ◌++◌, Option, some, ok, arith, length, take, drop, replicate, length-append, length-take,
  length-replicate, take-append_self, drop-append_self, until_nul, Option-cases, inl, inr, true,
}
use meshtastic_zephyr.ConfigStore.{
  Store, encode_record, decode_record, setting_get_owner, setting_set_owner, copy_string,
  string_buffer, copy_fixed_string, long_name_len, short_name_len,
}

-- The encoder stays within its buffer.
unfoldable pub IsWithin : (ℕ → Option (List ℕ)) → Type 0
IsWithin encode = (size : ℕ) (bytes : List ℕ) → encode size ≡ some bytes → length bytes ≤ size

-- What is relied on for one message: its decoder gives it back.
unfoldable pub IsBack : {A : Type 0} → A → (ℕ → Option (List ℕ)) → (List ℕ → Option A) → Type 0
IsBack m encode decode =
    (size : ℕ) (bytes : List ℕ) → encode size ≡ some bytes → decode bytes ≡ some m

-- The header of a record gives its length back.
pub decode-header :
    {A : Type 0} (decode : List ℕ → Option A) (bytes : List ℕ) (m : A)
    → length bytes < 65536
    → decode bytes ≡ some m
    → decode_record decode (1 ∷ 0 ∷ length bytes % 256 ∷ length bytes / 256 % 256 ∷ bytes) ≡ ok m
unfolding decode_record
decode-header decode bytes m small e =
    let two : length bytes % 256 + length bytes / 256 % 256 * 256 ≡ length bytes = omega arith in
    rw (two, e) (ground arith)

pub decode-encode :
    {A : Type 0} (m : A) (encode : ℕ → Option (List ℕ)) (decode : List ℕ → Option A) (buf_len : ℕ)
    {buf : List ℕ}
    → buf_len ≤ 256
    → IsWithin encode
    → IsBack m encode decode
    → encode_record encode buf_len ≡ ok buf
    → decode_record decode buf ≡ ok m
unfolding encode_record IsWithin IsBack
decode-encode m encode decode buf_len {buf} small within back e =
    elim (Option-cases (encode (buf_len - 4))) [
      | inl fails ↦ absurd (ground (arith, fails))
      | inr (bytes, writes) ↦
          let fits = within (buf_len - 4) bytes writes in
          let read = decode-header decode bytes m (omega arith) (back (buf_len - 4) bytes writes) in
          ground (arith, writes, read)
    ]

pub take-all : {A : Type 0} (n : ℕ) (xs : List A) → length xs ≤ n → take n xs ≡ xs
take-all zero [] h = refl
take-all zero (x ∷ xs) h = absurd (omega arith)
take-all (suc n) [] h = refl
take-all (suc n) (x ∷ xs) h = ap (◌∷◌ x) (take-all n xs (omega arith))

-- A C string that a buffer of `size` bytes holds with its NUL.
pub record IsText (size : ℕ) (s : List ℕ) : Type 0 where
  pub fits : length s < size
  pub no_nul : until_nul s ≡ s

until_nul-take :
    (n m : ℕ) (s : List ℕ)
    → length s ≤ n
    → until_nul s ≡ s
    → until_nul (take n (s ++ replicate {A = ℕ} m 0)) ≡ s
until_nul-take zero m [] h e = refl
until_nul-take (suc n) zero [] h e = refl
until_nul-take (suc n) (suc m) [] h e = refl
until_nul-take zero m (c ∷ s) h e = absurd (omega arith)
until_nul-take (suc n) m (c ∷ s) h e = ground (arith, until_nul-take n m s)

pub length-string_buffer : (size : ℕ) (s : List ℕ) → length (string_buffer size s) ≡ size
length-string_buffer size s =
    let zeros : List ℕ = replicate size 0 in
    omega (
      arith,
      length-take size (copy_string size s ++ zeros),
      length-append (copy_string size s) zeros,
      length-replicate {A = ℕ} size 0,
    )

pub copy-string_buffer :
    (size : ℕ) (s : List ℕ) → IsText size s → copy_fixed_string size (string_buffer size s) ≡ s
copy-string_buffer size s t =
    rw
      (
        take-all (size - 1) s (omega arith),
        until_nul-take size size s (omega arith) t.no_nul,
        take-all (size - 1) s (omega arith),
      )
      refl

take-front : (n : ℕ) (xs ys : List ℕ) → length xs ≡ n → take n (xs ++ ys) ≡ xs
take-front n xs ys e = ap (λ k. take k (xs ++ ys)) (sym e) ∙ take-append_self xs ys

drop-front : (n : ℕ) (xs ys : List ℕ) → length xs ≡ n → drop n (xs ++ ys) ≡ ys
drop-front n xs ys e = ap (λ k. drop k (xs ++ ys)) (sym e) ∙ drop-append_self xs ys

set_owner-buffers :
    (long short : List ℕ) (t : Store)
    → length long ≡ long_name_len
    → length short ≡ short_name_len
    → setting_set_owner (1 ∷ long ++ short) t
      ≡ ok (record t {
        long_name = copy_fixed_string long_name_len long;
        short_name = copy_fixed_string short_name_len short;
      })
unfolding setting_set_owner
set_owner-buffers long short t e f =
    let both : (length (long ++ short) == 45) ≡ true = ground (arith, length-append long short) in
    rw (both, take-front 40 long short e, drop-front 40 long short e) refl

-- The owner's record gives the names back, whatever they were.
pub set_owner-get :
    (s t : Store) (buf_len : ℕ) {buf : List ℕ}
    → IsText long_name_len s.long_name
    → IsText short_name_len s.short_name
    → setting_get_owner s buf_len ≡ ok buf
    → setting_set_owner buf t ≡ ok (record t { long_name = s.long_name; short_name = s.short_name })
unfolding setting_get_owner
set_owner-get s t buf_len {buf} long short e =
    let long_buffer : List ℕ = string_buffer long_name_len s.long_name in
    let short_buffer : List ℕ = string_buffer short_name_len s.short_name in
    let is : buf ≡ 1 ∷ long_buffer ++ short_buffer = ground arith in
    rw
      (
        is,
        set_owner-buffers long_buffer short_buffer t (length-string_buffer 40 s.long_name)
            (length-string_buffer 5 s.short_name),
        copy-string_buffer 40 s.long_name long,
        copy-string_buffer 5 s.short_name short,
      )
      refl
