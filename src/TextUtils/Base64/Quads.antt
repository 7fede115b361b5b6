-- ===== src/TextUtils/Base64/Quads.antt =====
-- Four digits of base64 before the others: src/xmlbeansxx/TextUtils.cpp.
use xmlbeansxx.Prelude.{
  ℕ, zero, suc, ◌+◌, ◌-◌, ◌<◌, ◌≤◌, [], ◌∷◌, none, some, Bool, true, false, ◌==◌, ltb,
  if◌then◌else◌, length, take, get_or, set, ◌≡◌, refl, ap, sym, ◌∙◌, Text, arith, Bool-cases,
  lt→ltb, inl, inr,
}
use mathlib.Core.Option.{none-ne-some, some-injective}
use xmlbeansxx.TextUtils.{in_base64, to_canonical_base64}
use xmlbeansxx.TextUtils.Base64.{put_pads, look_at, find_pads, first_bytes}

length-set : (t : Text) (i v : ℕ) → length (set t i v) ≡ length t
length-set [] i v = refl
length-set (c ∷ t) zero v = refl
length-set (c ∷ t) (suc i) v = ap suc (length-set t i v)

-- Four digits stand before a text.
module _ (w x y z : ℕ) where
  abbrev pub quad : Text → Text
  quad t = w ∷ x ∷ y ∷ z ∷ t

  pub put_pads-quad :
      (rounds i : ℕ) (t : Text)
      → i + rounds ≤ suc (length t)
      → put_pads rounds i (quad t) ≡ quad (put_pads rounds i t)
  unfolding put_pads
  put_pads-quad zero i t h = refl
  put_pads-quad (suc rounds) i t h =
      ap (λ k. put_pads rounds (i + 1) (set (quad t) k b'=')) {x = length (quad t) - i}
        {y = suc (suc (suc (suc (length t - i))))} (omega (arith, h))
      ∙ put_pads-quad rounds (i + 1) (set t (length t - i) b'=')
          (omega (arith, h, length-set t (length t - i) b'='))

  abbrev pub quad_in : Text × ℕ → Text × ℕ
  quad_in (t, pads) = (quad t, pads)

  pub look_at-quad :
      (i : ℕ) (r : Text × ℕ) → look_at (suc (suc (suc (suc i)))) (quad_in r) ≡ quad_in (look_at i r)
  unfolding look_at
  look_at-quad i (t, pads) = elim (Bool-cases (get_or t i 0 == b'=')) [
    | inl pad ↦ rw pad refl
    | inr other ↦ rw other refl
  ]

  pub find_pads-quad : (t : Text) → 2 < length t → find_pads (quad t) ≡ quad_in (find_pads t)
  unfolding find_pads
  find_pads-quad t h =
      ap
        (λ b.
          if b
          then look_at (length (quad t) - 2) (look_at (length (quad t) - 1) (quad t, 0))
          else (quad t, 0))
        (lt→ltb 2 (length (quad t)) (omega (arith, h)))
      ∙ ap (λ k. look_at (length (quad t) - 2) (look_at k (quad t, 0))) {x = length (quad t) - 1}
          {y = suc (suc (suc (suc (length t - 1))))} (omega (arith, h))
      ∙ ap (look_at (length (quad t) - 2)) (look_at-quad (length t - 1) (t, 0))
      ∙ ap (λ k. look_at k (quad_in (look_at (length t - 1) (t, 0)))) {x = length (quad t) - 2}
          {y = suc (suc (suc (suc (length t - 2))))} (omega (arith, h))
      ∙ look_at-quad (length t - 2) (look_at (length t - 1) (t, 0))
      ∙ ap
          (λ b.
            quad_in (if b then look_at (length t - 2) (look_at (length t - 1) (t, 0)) else (t, 0)))
          (sym (lt→ltb 2 (length t) h))

  pub find_pads-digits :
      (y == b'=') ≡ false → (z == b'=') ≡ false → find_pads (quad []) ≡ (quad [], 0)
  unfolding find_pads look_at
  find_pads-digits hy hz = rw (hz, hy) refl

  pub canonical-quad :
      (t : Text)
      → in_base64 w ≡ true
      → in_base64 x ≡ true
      → in_base64 y ≡ true
      → in_base64 z ≡ true
      → to_canonical_base64 t ≡ t
      → to_canonical_base64 (quad t) ≡ quad t
  unfolding to_canonical_base64
  canonical-quad t hw hx hy hz h = rw (hw, hx, hy, hz) (ap quad h)

-- A digit and a pad at the end.
pub find_pads-one :
    (w x y : ℕ)
    → (y == b'=') ≡ false
    → find_pads (w ∷ x ∷ y ∷ b'=' ∷ []) ≡ (w ∷ x ∷ y ∷ b'0' ∷ [], 1)
unfolding find_pads look_at
find_pads-one w x y hy = rw hy refl

pub some-injective-take :
    (a b c : ℕ) (dec s : Text) (pads : ℕ)
    → first_bytes dec pads ≡ some s
    → first_bytes (a ∷ b ∷ c ∷ dec) pads ≡ some (a ∷ b ∷ c ∷ s)
some-injective-take a b c dec s pads h = elim (Bool-cases (ltb (length dec) pads)) [
  | inl short ↦ absurd (
      none-ne-some s (
        ap (λ (u : Bool). if u then none else some (take (length dec - pads) dec)) (sym short) ∙ h))
  | inr enough ↦
      ap
        (λ (u : Bool).
          if u then none else some (take (suc (suc (suc (length dec))) - pads) (a ∷ b ∷ c ∷ dec)))
        {x = ltb (suc (suc (suc (length dec)))) pads} {y = false} (ground (arith, enough))
      ∙ ap (λ k. some (take k (a ∷ b ∷ c ∷ dec))) {x = suc (suc (suc (length dec))) - pads}
          {y = suc (suc (suc (length dec - pads)))} (ground (arith, enough))
      ∙ ap (λ l. some (a ∷ b ∷ c ∷ l))
          (some-injective _ _ (
            ap (λ (u : Bool). if u then none else some (take (length dec - pads) dec)) (sym enough)
            ∙ h))
]
