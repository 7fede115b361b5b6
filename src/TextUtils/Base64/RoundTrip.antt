-- ===== src/TextUtils/Base64/RoundTrip.antt =====
-- Bytes written in base64 are read back: src/xmlbeansxx/TextUtils.cpp.
use xmlbeansxx.Prelude.{
  ℕ, suc, ◌+◌, ◌-◌, ◌*◌, ◌/◌, ◌%◌, ◌<◌, ◌≤◌, [], ◌∷◌, ◌++◌, some, length, replicate, ◌≡◌, refl, ap,
  sym, ◌∙◌, subst, Text, arith, inl, inr, ◌⊎◌,
}
use xmlbeansxx.TextUtils.{in_base64, to_canonical_base64}
use xmlbeansxx.TextUtils.Base64.{
  put_pads, base64_encode, look_at, find_pads, first_bytes, bytes_of, base64_decode, Codec,
}
use xmlbeansxx.TextUtils.Base64.Quads.{
  quad, put_pads-quad, find_pads-quad, find_pads-digits, find_pads-one, canonical-quad,
  some-injective-take,
}

-- Every byte is one.
abbrev pub Bytes : Text → Type 0
Bytes [] = Unit
Bytes (c ∷ s) = (c < 256) × Bytes s

-- The text `w` is read as the bytes `s`.
record Readable (binary_t : Text → Text) (s w : Text) : Type 0 where
  canonical : to_canonical_base64 w ≡ w
  found : bytes_of binary_t (find_pads w) ≡ some s
  shape : (w ≡ []) ⊎ (2 < length w)

module _ (base64_t binary_t : Text → Text) (digit value : ℕ → ℕ)
    (codec : Codec base64_t binary_t digit value) where
  abbrev group : ℕ → ℕ → ℕ → Text → Text
  group a b c t =
      quad (digit (a / 4)) (digit (a % 4 * 16 + b / 16)) (digit (b % 16 * 4 + c / 64))
        (digit (c % 64)) t

  ungroup :
      (w x y z : ℕ) (a b c : ℕ) (s : Text)
      → w ≡ a / 4
      → x ≡ a % 4 * 16 + b / 16
      → y ≡ b % 16 * 4 + c / 64
      → z ≡ c % 64
      → b < 256
      → c < 256
      → (w * 4 + x / 16) ∷ (x % 16 * 16 + y / 4) ∷ (y % 4 * 64 + z) ∷ s ≡ a ∷ b ∷ c ∷ s
  ungroup w x y z a b c s hw hx hy hz hb hc =
      ap (λ k. k ∷ (x % 16 * 16 + y / 4) ∷ (y % 4 * 64 + z) ∷ s) {x = w * 4 + x / 16} {y = a}
        (omega (arith, hw, hx, hb))
      ∙ ap (λ k. a ∷ k ∷ (y % 4 * 64 + z) ∷ s) {x = x % 16 * 16 + y / 4} {y = b}
          (omega (arith, hx, hy, hb, hc))
      ∙ ap (λ k. a ∷ b ∷ k ∷ s) {x = y % 4 * 64 + z} {y = c} (omega (arith, hy, hz, hc))

  binary_t-group :
      (a b c : ℕ) (t : Text)
      → a < 256
      → b < 256
      → c < 256
      → binary_t (group a b c t) ≡ a ∷ b ∷ c ∷ binary_t t
  binary_t-group a b c t ha hb hc =
      codec.from_digits _ _ _ _ t
      ∙ ungroup _ _ _ _ a b c (binary_t t) (codec.value-digit (a / 4) (omega (arith, ha)))
          (codec.value-digit (a % 4 * 16 + b / 16) (omega (arith, hb)))
          (codec.value-digit (b % 16 * 4 + c / 64) (omega (arith, hc)))
          (codec.value-digit (c % 64) (omega arith)) hb hc

  Readable-group :
      (a b c : ℕ) (s t : Text)
      → a < 256
      → b < 256
      → c < 256
      → Readable binary_t s t
      → Readable binary_t (a ∷ b ∷ c ∷ s) (group a b c t)
  Readable-group a b c s t ha hb hc r = record {
    canonical =
        canonical-quad _ _ _ _ t (codec.digit_in (a / 4) (omega (arith, ha)))
          (codec.digit_in (a % 4 * 16 + b / 16) (omega (arith, hb)))
          (codec.digit_in (b % 16 * 4 + c / 64) (omega (arith, hc)))
          (codec.digit_in (c % 64) (omega arith)) r.canonical;
    found = by_shape t r.found r.shape;
    shape = inr (omega arith);
  }
    where
      by_shape :
          (t : Text)
          → bytes_of binary_t (find_pads t) ≡ some s
          → (t ≡ []) ⊎ (2 < length t)
          → bytes_of binary_t (find_pads (group a b c t)) ≡ some (a ∷ b ∷ c ∷ s)
      by_shape t found (inr long) =
          ap (bytes_of binary_t) (find_pads-quad _ _ _ _ t long)
          ∙ ap (λ d. first_bytes d (find_pads t).1) (binary_t-group a b c (find_pads t).0 ha hb hc)
          ∙ some-injective-take a b c (binary_t (find_pads t).0) s (find_pads t).1 found
      by_shape t found (inl empty) =
          subst (λ t. bytes_of binary_t (find_pads (group a b c t)) ≡ some (a ∷ b ∷ c ∷ s))
            (sym empty)
            (ap (bytes_of binary_t) (
                find_pads-digits _ _ _ _
                  (codec.digit_no_pad (b % 16 * 4 + c / 64) (omega (arith, hc)))
                  (codec.digit_no_pad (c % 64) (omega arith)))
              ∙ ap (λ d. first_bytes d 0) (binary_t-group a b c [] ha hb hc)
              ∙ some-injective-take a b c (binary_t []) s 0 (
                  unfold find_pads in
                  subst (λ t. bytes_of binary_t (find_pads t) ≡ some s) empty found))

  -- The pads fit behind the digits.
  pads_fit :
      (s : Text)
      → (3 - length s % 3) % 3 ≤ length (base64_t (s ++ replicate ((3 - length s % 3) % 3) 0))
  pads_fit [] = omega arith
  pads_fit (a ∷ []) = rw (codec.to_digits a 0 0 []) (omega arith)
  pads_fit (a ∷ b ∷ []) = rw (codec.to_digits a b 0 []) (omega arith)
  pads_fit (a ∷ b ∷ c ∷ s) =
      rw (codec.to_digits a b c (s ++ replicate ((3 - length (a ∷ b ∷ c ∷ s) % 3) % 3) 0))
        (omega arith)

  base64_encode-group :
      (a b c : ℕ) (s : Text)
      → base64_encode base64_t (a ∷ b ∷ c ∷ s) ≡ group a b c (base64_encode base64_t s)
  unfolding base64_encode
  base64_encode-group a b c s =
      ap (λ k. put_pads k 1 (base64_t (a ∷ b ∷ c ∷ s ++ replicate k 0)))
        {x = (3 - suc (suc (suc (length s))) % 3) % 3} {y = (3 - length s % 3) % 3} (omega arith)
      ∙ ap (put_pads pads 1) (codec.to_digits a b c (s ++ replicate pads 0))
      ∙ put_pads-quad _ _ _ _ pads 1 (base64_t (s ++ replicate pads 0)) (omega (arith, pads_fit s))
    where
      pads : ℕ
      pads = (3 - length s % 3) % 3

  two_bytes :
      (w x y : ℕ) (a b : ℕ)
      → w ≡ a / 4
      → x ≡ a % 4 * 16 + b / 16
      → y ≡ b % 16 * 4 + 0 / 64
      → b < 256
      → some ((w * 4 + x / 16) ∷ (x % 16 * 16 + y / 4) ∷ []) ≡ some (a ∷ b ∷ [])
  two_bytes w x y a b hw hx hy hb =
      ap (λ k. some (k ∷ (x % 16 * 16 + y / 4) ∷ [])) {x = w * 4 + x / 16} {y = a}
        (omega (arith, hw, hx, hb))
      ∙ ap (λ k. some (a ∷ k ∷ [])) {x = x % 16 * 16 + y / 4} {y = b} (omega (arith, hx, hy, hb))

  -- The last digits, of one byte and of two.
  encode_one :
      (a : ℕ)
      → base64_encode base64_t (a ∷ [])
        ≡ digit (a / 4) ∷ digit (a % 4 * 16 + 0 / 16) ∷ b'=' ∷ b'=' ∷ []
  unfolding base64_encode put_pads
  encode_one a = ap (put_pads 2 1) (codec.to_digits a 0 0 [] ∙ ap (group a 0 0) codec.to_nothing)

  encode_two :
      (a b : ℕ)
      → base64_encode base64_t (a ∷ b ∷ [])
        ≡ digit (a / 4) ∷ digit (a % 4 * 16 + b / 16) ∷ digit (b % 16 * 4 + 0 / 64) ∷ b'=' ∷ []
  unfolding base64_encode put_pads
  encode_two a b = ap (put_pads 1 1) (codec.to_digits a b 0 [] ∙ ap (group a b 0) codec.to_nothing)

  from_last :
      (w x y z : ℕ)
      → binary_t (quad w x y z [])
        ≡ (value w * 4 + value x / 16)
          ∷ (value x % 16 * 16 + value y / 4)
          ∷ (value y % 4 * 64 + value z)
          ∷ []
  from_last w x y z =
      codec.from_digits w x y z []
      ∙ ap
          (quad_of (value w * 4 + value x / 16) (value x % 16 * 16 + value y / 4)
            (value y % 4 * 64 + value z))
          codec.from_nothing
    where
      quad_of : ℕ → ℕ → ℕ → Text → Text
      quad_of a b c t = a ∷ b ∷ c ∷ t

  Readable-one : (a : ℕ) → a < 256 → Readable binary_t (a ∷ []) (base64_encode base64_t (a ∷ []))
  Readable-one a ha = subst (Readable binary_t (a ∷ [])) (sym (encode_one a)) (record {
    canonical =
        unfold in_base64 to_canonical_base64 in
        canonical-quad _ _ _ _ [] (codec.digit_in (a / 4) (omega (arith, ha)))
          (codec.digit_in (a % 4 * 16 + 0 / 16) (omega arith)) refl refl refl;
    found =
        unfold find_pads look_at in
        ap (λ d. first_bytes d 2)
          (from_last (digit (a / 4)) (digit (a % 4 * 16 + 0 / 16)) b'0' b'0')
        ∙ ap (λ k. some (k ∷ []))
            (omega (
              arith,
              codec.value-digit (a / 4) (omega (arith, ha)),
              codec.value-digit (a % 4 * 16 + 0 / 16) (omega arith),
            ));
    shape = inr (omega arith);
  })

  Readable-two :
      (a b : ℕ)
      → a < 256
      → b < 256
      → Readable binary_t (a ∷ b ∷ []) (base64_encode base64_t (a ∷ b ∷ []))
  Readable-two a b ha hb = subst (Readable binary_t (a ∷ b ∷ [])) (sym (encode_two a b)) (record {
    canonical =
        unfold in_base64 to_canonical_base64 in
        canonical-quad _ _ _ _ [] (codec.digit_in (a / 4) (omega (arith, ha)))
          (codec.digit_in (a % 4 * 16 + b / 16) (omega (arith, hb)))
          (codec.digit_in (b % 16 * 4 + 0 / 64) (omega arith)) refl refl;
    found =
        ap (bytes_of binary_t)
          (find_pads-one _ _ _ (codec.digit_no_pad (b % 16 * 4 + 0 / 64) (omega arith)))
        ∙ ap (λ d. first_bytes d 1)
            (from_last (digit (a / 4)) (digit (a % 4 * 16 + b / 16)) (digit (b % 16 * 4 + 0 / 64))
              b'0')
        ∙ two_bytes _ _ _ a b (codec.value-digit (a / 4) (omega (arith, ha)))
            (codec.value-digit (a % 4 * 16 + b / 16) (omega (arith, hb)))
            (codec.value-digit (b % 16 * 4 + 0 / 64) (omega arith)) hb;
    shape = inr (omega arith);
  })

  Readable-base64_encode : (s : Text) → Bytes s → Readable binary_t s (base64_encode base64_t s)
  Readable-base64_encode [] h =
      unfold base64_encode put_pads in
      subst (Readable binary_t []) (sym codec.to_nothing) (record {
        canonical = unfold to_canonical_base64 in refl;
        found = unfold find_pads in ap (λ d. first_bytes d 0) codec.from_nothing;
        shape = inl refl;
      })
  Readable-base64_encode (a ∷ []) (ha, h) = Readable-one a ha
  Readable-base64_encode (a ∷ b ∷ []) (ha, (hb, h)) = Readable-two a b ha hb
  Readable-base64_encode (a ∷ b ∷ c ∷ s) (ha, (hb, (hc, h))) =
      subst (Readable binary_t (a ∷ b ∷ c ∷ s)) (sym (base64_encode-group a b c s))
        (Readable-group a b c s (base64_encode base64_t s) ha hb hc (Readable-base64_encode s h))

  -- Where the iterators of Boost do what is documented, bytes that are written by base64Encode are
  -- read back by base64Decode, all of them and no more, whatever their number.
  pub base64_decode-base64_encode :
      (s : Text) → Bytes s → base64_decode binary_t (base64_encode base64_t s) ≡ some s
  unfolding base64_decode
  base64_decode-base64_encode s h =
      let r = Readable-base64_encode s h in
      ap (λ w. bytes_of binary_t (find_pads w)) r.canonical ∙ r.found
