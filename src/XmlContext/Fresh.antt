-- ===== src/XmlContext/Fresh.antt =====
-- `getNextPrefix` calls itself until it meets a prefix that is not taken: it ends, since the
-- candidates differ and a map has no more keys than entries.
use xmlbeansxx.Prelude.{
  ℕ, zero, suc, ◌+◌, ◌%◌, ◌≤◌, ◌<◌, ◌≡◌, ◌≢◌, refl, ap, [], ◌∷◌, ◌++◌, Option, some, Bool, false,
  if◌then◌else◌, Bool-cases, inl, inr, length, Text, text_eq, text_eq_iff, arith,
}
use xmlbeansxx.NsMap.{PrefixMap, lookup, is_set_prefix}
use xmlbeansxx.NsMap.Resolve.{NoColon}
use xmlbeansxx.XmlContext.{candidate, get_next_prefix}

append_last : (p : Text) (a b : ℕ) → p ++ a ∷ [] ≡ p ++ b ∷ [] → a ≡ b
append_last [] a b h = ground arith
append_last (c ∷ p) a b h = append_last p a b (ground arith)

candidate_inj :
    (p : Text) (i j : ℕ) → b'a' + i < 256 → b'a' + j < 256 → candidate p i ≡ candidate p j → i ≡ j
candidate_inj p i j hi hj h = omega (arith, append_last p ((b'a' + i) % 256) ((b'a' + j) % 256) h)

one_if : Bool → ℕ
one_if b = if b then 1 else 0

-- How many of `k` candidates a key is, and how many of them a map has.
hits : Text → Text → ℕ → ℕ → ℕ
hits p q c zero = 0
hits p q c (suc k) = one_if (text_eq q (candidate p c)) + hits p q (suc c) k

used : Text → PrefixMap → ℕ → ℕ → ℕ
used p m c zero = 0
used p m c (suc k) = one_if (is_set_prefix m (candidate p c)) + used p m (suc c) k

hits_past : (p : Text) (i c k : ℕ) → i < c → b'a' + c + k ≤ 256 → hits p (candidate p i) c k ≡ 0
unfolding hits one_if
hits_past p i c zero h b = refl
hits_past p i c (suc k) h b = ground (
  arith,
  text_eq_iff (candidate p i) (candidate p c),
  candidate_inj p i c (omega arith) (omega arith),
  hits_past p i (suc c) k (omega arith) (omega arith),
)

hits_bound : (p q : Text) (c k : ℕ) → b'a' + c + k ≤ 256 → hits p q c k ≤ 1
unfolding hits one_if
hits_bound p q c zero b = omega arith
hits_bound p q c (suc k) b = elim (Bool-cases (text_eq q (candidate p c))) [
  | inl same ↦
      let e = (text_eq_iff q (candidate p c)).0 same in
      rw same (
        omega (
          arith,
          hits_past p c (suc c) k (omega arith) (omega arith),
          ap (λ t. hits p t (suc c) k) e,
        ))
  | inr other ↦ rw other (omega (arith, hits_bound p q (suc c) k (omega arith)))
]

used-nil : (p : Text) (c k : ℕ) → used p [] c k ≡ 0
unfolding used one_if is_set_prefix lookup
used-nil p c zero = refl
used-nil p c (suc k) = omega (arith, used-nil p (suc c) k)

used-cons :
    (p q u : Text) (m : PrefixMap) (c k : ℕ) → used p ((q, u) ∷ m) c k ≤ hits p q c k + used p m c k
unfolding used hits one_if is_set_prefix lookup
used-cons p q u m c zero = omega arith
used-cons p q u m c (suc k) = ground (arith, used-cons p q u m (suc c) k)

used-le-length : (p : Text) (m : PrefixMap) (c k : ℕ) → b'a' + c + k ≤ 256 → used p m c k ≤ length m
used-le-length p [] c k b = omega (arith, used-nil p c k)
used-le-length p ((q, u) ∷ m) c k b =
    omega (arith, used-cons p q u m c k, hits_bound p q c k b, used-le-length p m c k b)

-- A result: a candidate that is not taken, from the letters at hand.
pub record IsFresh (m : PrefixMap) (p : Text) (c k : ℕ) (r : Option (Text × ℕ)) : Type 0 where
  pub index : ℕ
  pub returns : r ≡ some (candidate p index, suc index)
  pub free : is_set_prefix m (candidate p index) ≡ false
  pub from : c ≤ index
  pub below : index < c + k

IsFresh-or_used :
    (calls : ℕ) (m : PrefixMap) (p : Text) (c : ℕ)
    → used p m c calls < calls
    → IsFresh m p c calls (get_next_prefix calls m p c)
unfolding used one_if get_next_prefix
IsFresh-or_used zero m p c h = absurd (omega arith)
IsFresh-or_used (suc calls) m p c h = elim (Bool-cases (is_set_prefix m (candidate p c))) [
  | inl set ↦
      let f = IsFresh-or_used calls m p (suc c) (ground arith) in
      rw set (record {
        index = f.index;
        returns = f.returns;
        free = f.free;
        from = omega (arith, f.from);
        below = omega (arith, f.below);
      })
  | inr free ↦
      rw free
        (record { index = c; returns = refl; free = free; from = omega arith; below = omega arith })
]

-- `getNextPrefix` ends with a prefix that is not taken, after at most one call more than the map
-- has entries, as long as the letters do not run past the last byte.
pub get_next_prefix-IsFresh :
    (m : PrefixMap) (p : Text) (c : ℕ)
    → b'a' + c + suc (length m) ≤ 256
    → IsFresh m p c (suc (length m)) (get_next_prefix (suc (length m)) m p c)
get_next_prefix-IsFresh m p c b =
    IsFresh-or_used (suc (length m)) m p c (omega (arith, used-le-length p m c (suc (length m)) b))

NoColon-append : (p : Text) (a : ℕ) → NoColon p → a ≢ b':' → NoColon (p ++ a ∷ [])
NoColon-append [] a h n = (n, tt)
NoColon-append (c ∷ p) a h n = (h.0, NoColon-append p a h.1 n)

pub candidate-NoColon : (p : Text) (i : ℕ) → NoColon p → b'a' + i < 256 → NoColon (candidate p i)
candidate-NoColon p i h b = NoColon-append p ((b'a' + i) % 256) h (omega arith)
