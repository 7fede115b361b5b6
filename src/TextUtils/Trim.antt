-- ===== src/TextUtils/Trim.antt =====
-- `TextUtils::collapse` takes the white space off both ends.
use xmlbeansxx.Prelude.{
  ℕ, ◌+◌, ◌-◌, ◌≤◌, ◌≡◌, refl, ap, sym, ◌∙◌, [], ◌∷◌, ◌++◌, append_assoc, true, false, length,
  length-append, take, drop, take-append, Text, arith, append-nil,
}
use mathlib.Core.List.{reverse, reverse-append, reverse-cons}
use xmlbeansxx.TextUtils.{is_white, skip_white, collapse}

abbrev pub AllWhite : Text → Type 0
AllWhite [] = Unit {0}
AllWhite (c ∷ s) = (is_white c ≡ true) × AllWhite s

-- The text begins with a byte that is not white space.
abbrev pub StartsSolid : Text → Type 0
StartsSolid [] = ⊥
StartsSolid (c ∷ s) = is_white c ≡ false

skip_white-append : (w s : Text) → AllWhite w → StartsSolid s → skip_white (w ++ s) ≡ length w
unfolding skip_white
skip_white-append [] [] h k = absurd k
skip_white-append [] (c ∷ s) h k = ground arith
skip_white-append (c ∷ w) s h k = ground (arith, skip_white-append w s h.1 k)

pub StartsSolid-append : (s t : Text) → StartsSolid s → StartsSolid (s ++ t)
StartsSolid-append [] t h = absurd h
StartsSolid-append (c ∷ s) t h = h

AllWhite-append : (s t : Text) → AllWhite s → AllWhite t → AllWhite (s ++ t)
AllWhite-append [] t h k = k
AllWhite-append (c ∷ s) t h k = (h.0, AllWhite-append s t h.1 k)

pub AllWhite-reverse : (s : Text) → AllWhite s → AllWhite (reverse s)
AllWhite-reverse [] h = tt
AllWhite-reverse (c ∷ s) h =
    rw (reverse-cons c s) (AllWhite-append (reverse s) (c ∷ []) (AllWhite-reverse s h.1) (h.0, tt))

length-reverse : (s : Text) → length (reverse s) ≡ length s
length-reverse [] = refl
length-reverse (c ∷ s) =
    omega
      (arith, ap length (reverse-cons c s), length-append (reverse s) (c ∷ []), length-reverse s)

drop-append : (w s : Text) → drop (length w) (w ++ s) ≡ s
drop-append [] s = refl
drop-append (c ∷ w) s = drop-append w s

StartsSolid-length : (s : Text) → StartsSolid s → 1 ≤ length s
StartsSolid-length [] h = absurd h
StartsSolid-length (c ∷ s) h = omega arith

-- `collapse` once both counts are known.
cut_both :
    (w s w' : Text)
    → 1 ≤ length s
    → skip_white (w ++ (s ++ w')) ≡ length w
    → skip_white (reverse (w ++ (s ++ w'))) ≡ length w'
    → collapse (w ++ (s ++ w')) ≡ s
unfolding collapse
cut_both w s w' solid front back = rw (front, back) (ground (arith, size, ends, middle))
  where
    size : length (w ++ (s ++ w')) ≡ length w + (length s + length w')
    size = omega (arith, length-append w (s ++ w'), length-append s w')

    ends : length (w ++ (s ++ w')) - length w' - length w ≡ length s
    ends = omega (arith, size)

    middle :
        take (length (w ++ (s ++ w')) - length w' - length w) (drop (length w) (w ++ (s ++ w'))) ≡ s
    middle = rw (ends, drop-append w (s ++ w')) (take-append s w')

-- The white space before and behind a text that begins and ends with other bytes is taken off,
-- and nothing else.
pub collapse-append :
    (w s w' : Text)
    → AllWhite w
    → AllWhite w'
    → StartsSolid s
    → StartsSolid (reverse s)
    → collapse (w ++ (s ++ w')) ≡ s
collapse-append w s w' hw hw' front back =
    cut_both w s w' (StartsSolid-length s front) from_front from_back
  where
    from_front : skip_white (w ++ (s ++ w')) ≡ length w
    from_front = skip_white-append w (s ++ w') hw (StartsSolid-append s w' front)

    turned : reverse (w ++ (s ++ w')) ≡ reverse w' ++ (reverse s ++ reverse w)
    turned =
        reverse-append w (s ++ w')
        ∙ ap (λ t. t ++ reverse w) (reverse-append s w')
        ∙ append_assoc (reverse w') (reverse s) (reverse w)

    from_back : skip_white (reverse (w ++ (s ++ w'))) ≡ length w'
    from_back =
        ap skip_white turned
        ∙ skip_white-append (reverse w') (reverse s ++ reverse w) (AllWhite-reverse w' hw')
            (StartsSolid-append (reverse s) (reverse w) back)
        ∙ length-reverse w'

skip_white_all : (w : Text) → AllWhite w → skip_white w ≡ length w
unfolding skip_white
skip_white_all [] h = refl
skip_white_all (c ∷ w) h = ground (arith, skip_white_all w h.1)

-- A text of white space alone is collapsed to the empty text.
pub collapse_white : (w : Text) → AllWhite w → collapse w ≡ []
unfolding collapse
collapse_white w h = ground (arith, skip_white_all w h)

-- No white space at all, as a type.
abbrev pub AllSolid : Text → Type 0
AllSolid [] = Unit {0}
AllSolid (c ∷ s) = (is_white c ≡ false) × AllSolid s

pub AllSolid-append : (s t : Text) → AllSolid s → AllSolid t → AllSolid (s ++ t)
AllSolid-append [] t h k = k
AllSolid-append (c ∷ s) t h k = (h.0, AllSolid-append s t h.1 k)

StartsSolid-append_last :
    (s : Text) (c : ℕ) → AllSolid s → is_white c ≡ false → StartsSolid (s ++ c ∷ [])
StartsSolid-append_last [] c h k = k
StartsSolid-append_last (d ∷ s) c h k = h.0

AllSolid-reverse : (s : Text) → AllSolid s → AllSolid (reverse s)
AllSolid-reverse [] h = tt
AllSolid-reverse (c ∷ s) h =
    rw (reverse-cons c s) (AllSolid-append (reverse s) (c ∷ []) (AllSolid-reverse s h.1) (h.0, tt))

-- A text without white space is left as it is.
pub collapse_solid : (s : Text) → AllSolid s → collapse s ≡ s
collapse_solid [] h = collapse_white [] tt
collapse_solid (c ∷ s) h =
    ap collapse (sym (append-nil (c ∷ s)))
    ∙ collapse-append [] (c ∷ s) [] tt tt h.0
        (rw (reverse-cons c s) (StartsSolid-append_last (reverse s) c (AllSolid-reverse s h.1) h.0))
