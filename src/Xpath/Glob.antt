-- ===== src/Xpath/Glob.antt =====
-- What a pattern of a path matches: `tokenize` and `matchQNameString` against wildcards.
use xmlbeansxx.Prelude.{
  ℕ, zero, suc, ◌≡◌, refl, ap, sym, subst, ◌∙◌, List, [], ◌∷◌, ◌++◌, append-nil, Option, none, some,
  Bool, true, false, ◌||◌, ◌==◌, if◌then◌else◌, length, Text, text_eq→eq, arith,
}
use xmlbeansxx.Fields
use xmlbeansxx.Fields.{split_at}
use xmlbeansxx.Xpath.Pattern.{
  next_token, tokenize_loop, tokenize, strip, or_later, after_find, go_on, match_all, is_nil,
  matched, is_found, match_qname_string,
}

-- A text fits a pattern in which each star stands for any text.
pub data Fits : Text → Text → Type 0 where
  end : Fits [] []
  same : {p q : Text} → (c : ℕ) → Fits p q → Fits (c ∷ p) (c ∷ q)
  star : {p q : Text} → (g : Text) → Fits p q → Fits (b'*' ∷ p) (g ++ q)

Fits-append : (u : Text) {p q : Text} → Fits p q → Fits (u ++ p) (u ++ q)
Fits-append [] f = f
Fits-append (c ∷ u) f = same c (Fits-append u f)

Fits-self : (u : Text) → Fits u (u ++ [])
Fits-self [] = end
Fits-self (c ∷ u) = same c (Fits-self u)

-- The pieces with stars between them.
abbrev join : List Text → Text
join [] = []
join (t ∷ []) = t
join (t ∷ u ∷ ts) = t ++ b'*' ∷ join (u ∷ ts)

-- A text is put together again from around a byte.
abbrev IsSplit : ℕ → Text → Option (Text × Text) → Type 0
IsSplit b s none = Unit {0}
IsSplit b s (some (before, after)) = s ≡ before ++ b ∷ after

IsSplit-behind :
    (b c : ℕ) (s : Text) (o : Option (Text × Text))
    → IsSplit b s o
    → IsSplit b (c ∷ s) (Fields.behind c o)
IsSplit-behind b c s none h = tt
IsSplit-behind b c s (some (before, after)) h = ap (λ s. c ∷ s) h

IsSplit-if :
    (b c : ℕ) (s : Text) (hit : Bool) (o : Option (Text × Text))
    → (hit ≡ true → c ≡ b)
    → IsSplit b (c ∷ s) o
    → IsSplit b (c ∷ s) (if hit then some ([], s) else o)
IsSplit-if b c s true o h k = ap (λ c. c ∷ s) (h refl)
IsSplit-if b c s false o h k = k

pub IsSplit-split_at : (b : ℕ) (s : Text) → IsSplit b s (split_at b s)
unfolding split_at
IsSplit-split_at b [] = tt
IsSplit-split_at b (c ∷ s) =
    IsSplit-if b c s (c == b) (Fields.behind c (split_at b s)) (equal b c)
      (IsSplit-behind b c s (split_at b s) (IsSplit-split_at b s))
  where
    equal : (b c : ℕ) → (c == b) ≡ true → c ≡ b
    equal b c e = ground arith

join-next_token :
    (later : Text → List Text) (s : Text) (o : Option (Text × Text))
    → ((r : Text) → (t : Text) × (ts : List Text) × (later r ≡ t ∷ ts) × (join (later r) ≡ r))
    → IsSplit b'*' s o
    → (t : Text) × (ts : List Text) × (next_token later s o ≡ t ∷ ts)
      × (join (next_token later s o) ≡ s)
join-next_token later s none ih h = (s, [], refl, refl)
join-next_token later s (some (token, rest)) ih h =
    let (t, ts, e, j) = ih rest in
    (
      token,
      later rest,
      refl,
      ap (λ l. join (token ∷ l)) e ∙ ap (λ l. token ++ b'*' ∷ l) (sym (ap join e) ∙ j) ∙ sym h,
    )

join-tokenize_loop :
    (fuel : ℕ) (s : Text)
    → (t : Text) × (ts : List Text) × (tokenize_loop fuel b'*' s ≡ t ∷ ts)
      × (join (tokenize_loop fuel b'*' s) ≡ s)
unfolding tokenize_loop
join-tokenize_loop zero s = (s, [], refl, refl)
join-tokenize_loop (suc fuel) s =
    join-next_token (tokenize_loop fuel b'*') s (split_at b'*' s) (join-tokenize_loop fuel)
      (IsSplit-split_at b'*' s)

-- What `strip` and `after_find` say of a text.
abbrev Stripped : Text → Text → Option Text → Type 0
Stripped t q none = Unit {0}
Stripped t q (some r) = q ≡ t ++ r

Stripped-if :
    (c d : ℕ) (t q : Text) (hit : Bool) (o : Option Text)
    → (hit ≡ true → c ≡ d)
    → Stripped t q o
    → Stripped (c ∷ t) (d ∷ q) (if hit then o else none)
Stripped-if c d t q true none h k = tt
Stripped-if c d t q true (some r) h k = ap (λ c. c ∷ q) (sym (h refl)) ∙ ap (λ q. c ∷ q) k
Stripped-if c d t q false o h k = tt

Stripped-strip : (t q : Text) → Stripped t q (strip t q)
unfolding strip
Stripped-strip [] q = refl
Stripped-strip (c ∷ t) [] = tt
Stripped-strip (c ∷ t) (d ∷ q) =
    Stripped-if c d t q (c == d) (strip t q) (equal c d) (Stripped-strip t q)
  where
    equal : (c d : ℕ) → (c == d) ≡ true → c ≡ d
    equal c d e = ground arith

abbrev Found : Text → Text → Option Text → Type 0
Found t q none = Unit {0}
Found t q (some r) = (g : Text) × (q ≡ g ++ (t ++ r))

Found-or_later :
    (t q : Text) (c : ℕ) (o later : Option Text)
    → Stripped t (c ∷ q) o
    → Found t q later
    → Found t (c ∷ q) (or_later o later)
Found-or_later t q c (some r) later h k = ([], h)
Found-or_later t q c none none h k = tt
Found-or_later t q c none (some r) h (g, e) = (c ∷ g, ap (λ q. c ∷ q) e)

Found-Stripped : (t q : Text) (o : Option Text) → Stripped t q o → Found t q o
Found-Stripped t q none h = tt
Found-Stripped t q (some r) h = ([], h)

Found-after_find : (t q : Text) → Found t q (after_find t q)
unfolding after_find
Found-after_find t [] = Found-Stripped t [] (strip t []) (Stripped-strip t [])
Found-after_find t (c ∷ q) =
    Found-or_later t q c (strip t (c ∷ q)) (after_find t q) (Stripped-strip t (c ∷ q))
      (Found-after_find t q)

-- The last token: what is left over is empty, or the pattern ends with a star.
last-Fits : (u q g r : Text) → q ≡ g ++ (u ++ r) → (is_nil r || is_nil u) ≡ true → Fits (b'*' ∷ u) q
last-Fits u q g [] e h = subst (Fits (b'*' ∷ u)) (sym e) (star g (Fits-self u))
last-Fits [] q g (c ∷ r) e h =
    subst (Fits (b'*' ∷ [])) (append-nil (g ++ (c ∷ r)) ∙ sym e) (star (g ++ (c ∷ r)) end)
last-Fits (d ∷ u) q g (c ∷ r) e h = cc

matched_skip :
    (t u : Text) (tab : List Text) (o : Option Text) → matched (t ∷ u ∷ tab) o ≡ matched (u ∷ tab) o
matched_skip t u tab none = refl
matched_skip t u tab (some r) = refl

Found-Fits :
    (tab : List Text) (u q : Text) (o : Option Text)
    → ((v : Text) (rest : List Text) (r : Text)
        → tab ≡ v ∷ rest
        → matched tab (match_all tab r) ≡ true
        → Fits (b'*' ∷ join tab) r)
    → Found u q o
    → matched (u ∷ tab) (go_on (match_all tab) o) ≡ true
    → Fits (b'*' ∷ join (u ∷ tab)) q
unfolding match_all
Found-Fits tab u q none ih f h = cc
Found-Fits [] u q (some r) ih (g, e) h = last-Fits u q g r e h
Found-Fits (v ∷ tab) u q (some r) ih (g, e) h = subst (Fits (b'*' ∷ join (u ∷ v ∷ tab))) (sym e) (
    star g
      (Fits-append u (ih v tab r refl (sym (matched_skip u v tab (match_all (v ∷ tab) r)) ∙ h))))

rest-Fits :
    (tab : List Text) (u q : Text)
    → matched (u ∷ tab) (match_all (u ∷ tab) q) ≡ true
    → Fits (b'*' ∷ join (u ∷ tab)) q
unfolding match_all
rest-Fits [] u q h =
    Found-Fits [] u q (after_find u q) (λ v rest r e. absurd (nil_cons v rest e))
      (Found-after_find u q) h
  where
    nil_cons : (v : Text) (rest : List Text) → ¬ ([] ≡ v ∷ rest)
    nil_cons v rest e = cc
rest-Fits (v ∷ tab) u q h =
    Found-Fits (v ∷ tab) u q (after_find u q) (λ _ _ r _ k. rest-Fits tab v r k)
      (Found-after_find u q) h

after_find-strip : (t q r : Text) → strip t q ≡ some r → after_find t q ≡ some r
unfolding after_find
after_find-strip t [] r e = e
after_find-strip t (c ∷ q) r e = ap (λ o. or_later o (after_find t q)) e

first-Fits :
    (t u : Text) (tab : List Text) (q : Text) (o : Option Text)
    → strip t q ≡ o
    → Stripped t q o
    → (if is_found o then matched (t ∷ u ∷ tab) (match_all (t ∷ u ∷ tab) q) else false) ≡ true
    → Fits (join (t ∷ u ∷ tab)) q
unfolding match_all
first-Fits t u tab q none e s h = cc
first-Fits t u tab q (some r) e s h = subst (Fits (join (t ∷ u ∷ tab))) (sym s) (
    Fits-append t (
      rest-Fits tab u r (
        sym (matched_skip t u tab (match_all (u ∷ tab) r))
        ∙ sym (
            ap (λ o. matched (t ∷ u ∷ tab) (go_on (match_all (u ∷ tab)) o))
              (after_find-strip t q r e))
        ∙ h)))

tab-Fits : (tab : List Text) (q : Text) → match_qname_string q tab ≡ true → Fits (join tab) q
unfolding match_qname_string
tab-Fits [] q h = cc
tab-Fits (t ∷ []) q h = subst (λ q. Fits t q) (append-nil t ∙ text_eq→eq t q h) (Fits-self t)
tab-Fits (t ∷ u ∷ tab) q h = first-Fits t u tab q (strip t q) refl (Stripped-strip t q) h

-- A name that a pattern of a path selects fits the pattern, where each star of the pattern
-- stands for any text: without a star it is the name itself.
pub match_qname_string-Fits :
    (pattern name : Text)
    → match_qname_string name (tokenize pattern b'*') ≡ true
    → Fits pattern name
unfolding tokenize
match_qname_string-Fits pattern name h =
    let (t, ts, e, j) = join-tokenize_loop (length pattern) pattern in
    subst (λ p. Fits p name) j (tab-Fits (tokenize_loop (length pattern) b'*' pattern) name h)
