-- ===== src/Calendar/Zone/Positions.antt =====
-- Where a byte stands in a text that is put together.
use xmlbeansxx.Prelude.{
  ℕ, zero, suc, ◌≤◌, ◌<◌, ◌≡◌, refl, ap, [], ◌∷◌, ◌++◌, none, some, length, length-append, take,
  drop, take-append, Text, arith, lt→ltb,
}
use xmlbeansxx.Fields.{ok, out_of_range}
use xmlbeansxx.Fields.Numbers.{Lacks}
use xmlbeansxx.Calendar.Zone.{npos, index_of, last_index_of, find, rfind, substr_at, cut_at}

pub index_of-Lacks : (b : ℕ) (s : Text) → Lacks b s → index_of b s ≡ none
unfolding index_of
index_of-Lacks b [] h = refl
index_of-Lacks b (c ∷ s) h = ground (arith, index_of-Lacks b s h.1)

pub last_index_of-Lacks : (b : ℕ) (s : Text) → Lacks b s → last_index_of b s ≡ none
unfolding last_index_of
last_index_of-Lacks b [] h = refl
last_index_of-Lacks b (c ∷ s) h = rw (last_index_of-Lacks b s h.1) (ground arith)

pub index_of-append : (b : ℕ) (s t : Text) → Lacks b s → index_of b (s ++ b ∷ t) ≡ some (length s)
unfolding index_of
index_of-append b [] t h = ground arith
index_of-append b (c ∷ s) t h = rw (index_of-append b s t h.1) (ground arith)

pub last_index_of-append :
    (b : ℕ) (s t : Text) → Lacks b t → last_index_of b (s ++ b ∷ t) ≡ some (length s)
unfolding last_index_of
last_index_of-append b [] t h = rw (last_index_of-Lacks b t h) (ground arith)
last_index_of-append b (c ∷ s) t h = rw (last_index_of-append b s t h) (ground arith)

pub rfind-Lacks : (b : ℕ) (s : Text) → Lacks b s → rfind b s ≡ npos
unfolding rfind
rfind-Lacks b s h = rw (last_index_of-Lacks b s h) refl

pub find-Lacks : (b : ℕ) (s : Text) → Lacks b s → find b s ≡ npos
unfolding find
find-Lacks b s h = rw (index_of-Lacks b s h) refl

pub rfind-append : (b : ℕ) (s t : Text) → Lacks b t → rfind b (s ++ b ∷ t) ≡ length s
unfolding rfind
rfind-append b s t h = rw (last_index_of-append b s t h) refl

pub find-append : (b : ℕ) (s t : Text) → Lacks b s → find b (s ++ b ∷ t) ≡ length s
unfolding find
find-append b s t h = rw (index_of-append b s t h) refl

drop-append : (s t : Text) → drop (length s) (s ++ t) ≡ t
drop-append [] t = refl
drop-append (c ∷ s) t = drop-append s t

take_more : (s : Text) (n : ℕ) → length s ≤ n → take n s ≡ s
take_more [] zero h = refl
take_more [] (suc n) h = refl
take_more (c ∷ s) zero h = absurd (omega arith)
take_more (c ∷ s) (suc n) h = ap (λ t. c ∷ t) (take_more s n (omega arith))

-- `substr` of a prefix, and of all that is behind one.
pub substr_at-prefix : (s t : Text) → substr_at (s ++ t) 0 (length s) ≡ ok s
unfolding substr_at
substr_at-prefix s t = rw (take-append s t) (ground arith)

pub substr_at-rest : (s t : Text) (n : ℕ) → length t ≤ n → substr_at (s ++ t) (length s) n ≡ ok t
unfolding substr_at
substr_at-rest s t n h = rw (drop-append s t, take_more t n h) (ground (arith, length-append s t))

-- A text is cut at the last occurrence of a byte.
pub cut_at-append : (b : ℕ) (s t : Text) → Lacks b t → cut_at b (s ++ b ∷ t) ≡ ok (b ∷ t, s)
cut_at-append b s t h =
    rw
      (
        rfind-append b s t h,
        substr_at-rest s (b ∷ t) (length (s ++ b ∷ t)) (omega (arith, length-append s (b ∷ t))),
        substr_at-prefix s (b ∷ t),
      )
      refl

-- Where the byte does not come, `substr` is called with `npos`.
pub cut_at-Lacks : (b : ℕ) (s : Text) → Lacks b s → length s < npos → cut_at b s ≡ out_of_range
unfolding substr_at
cut_at-Lacks b s h k = rw (rfind-Lacks b s h, lt→ltb (length s) npos k) refl
