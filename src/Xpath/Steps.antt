-- ===== src/Xpath/Steps.antt =====
-- A path is read step by step: `getPath` on two paths with a slash between them.
use xmlbeansxx.Prelude.{
  ℕ, zero, suc, ◌≤◌, ◌<◌, ◌≡◌, refl, ap, sym, subst, ◌∙◌, [], ◌∷◌, ◌++◌, Option, none, some, Bool,
  true, false, ◌==◌, if◌then◌else◌, length, length-append, Text, arith,
}
use xmlbeansxx.Fields
use xmlbeansxx.Fields.{split_at}
use xmlbeansxx.NsMap.{PrefixMap}
use xmlbeansxx.Heap.{Heap, Return, ok, fault, M, and_then}
use xmlbeansxx.Xpath.{
  Buffer, or_whole, get_xpath_part, get_xpath_predicat, do_predicat, do_part, do_step, with_part,
  get_path_loop, get_path,
}
use xmlbeansxx.Xpath.Glob.{IsSplit-split_at}

and_then_in :
    {A B C : Type 0} (r : Return A × Heap) (f : A → M C) (g : A → M B) (k : B → M C)
    → ((x : A) (h : Heap) → f x h ≡ and_then (g x h) k)
    → and_then r f ≡ and_then (and_then r g) k
and_then_in (ok x, h) f g k e = e x h
and_then_in (fault e', h) f g k e = refl

and_then_same :
    {A B : Type 0} (r : Return A × Heap) (f g : A → M B)
    → ((x : A) (h : Heap) → f x h ≡ g x h)
    → and_then r f ≡ and_then r g
and_then_same (ok x, h) f g e = e x h
and_then_same (fault e', h) f g e = refl

-- The end of a path, and an empty buffer.
loop-nil :
    (fuel : ℕ) (ns : PrefixMap) (obj : Buffer) (h : Heap)
    → get_path_loop fuel ns [] obj h ≡ (ok obj, h)
unfolding get_path_loop
loop-nil zero ns obj h = refl
loop-nil (suc fuel) ns obj h = refl

no_fuel : (m : ℕ) → ¬ (suc m ≤ 0)
no_fuel m h = omega arith

loop-empty :
    (fuel : ℕ) (ns : PrefixMap) (path : Text) (h : Heap)
    → length path ≤ fuel
    → get_path_loop fuel ns path [] h ≡ (ok [], h)
unfolding get_path_loop
loop-empty fuel ns [] h e = loop-nil fuel ns [] h
loop-empty zero ns (c ∷ path) h e = absurd (no_fuel (length path) e)
loop-empty (suc fuel) ns (c ∷ path) h e = refl

-- What is behind the first slash is shorter.
split_shorter : (b : ℕ) (s : Text) (x r : Text) → split_at b s ≡ some (x, r) → length r < length s
split_shorter b s x r e = shorter (subst (IsSplit' b s) e (IsSplit-split_at b s))
  where
    IsSplit' : ℕ → Text → Option (Text × Text) → Type 0
    IsSplit' b s none = Unit {0}
    IsSplit' b s (some (before, after)) = s ≡ before ++ b ∷ after

    shorter : s ≡ x ++ b ∷ r → length r < length s
    shorter e = omega (arith, ap length e, length-append x (b ∷ r))

-- A split of a text with more behind it.
abbrev joined : Text → Text → Option (Text × Text) → Option (Text × Text)
joined a b none = some (a, b)
joined a b (some (x, r)) = some (x, r ++ b'/' ∷ b)

joined-behind :
    (c : ℕ) (a b : Text) (o : Option (Text × Text))
    → Fields.behind c (joined a b o) ≡ joined (c ∷ a) b (Fields.behind c o)
joined-behind c a b none = refl
joined-behind c a b (some (x, r)) = refl

joined-if :
    (hit : Bool) (c : ℕ) (a b : Text) (o : Option (Text × Text))
    → (if hit then some ([], a ++ b'/' ∷ b) else Fields.behind c (joined a b o))
      ≡ joined (c ∷ a) b (if hit then some ([], a) else Fields.behind c o)
joined-if true c a b o = refl
joined-if false c a b o = joined-behind c a b o

split_at-append : (a b : Text) → split_at b'/' (a ++ b'/' ∷ b) ≡ joined a b (split_at b'/' a)
unfolding split_at
split_at-append [] b = refl
split_at-append (c ∷ a) b =
    ap (λ o. if c == b'/' then some ([], a ++ b'/' ∷ b) else Fields.behind c o)
      (split_at-append a b)
    ∙ joined-if (c == b'/') c a b (split_at b'/' a)

-- Any fuel that a path has bytes is enough, and gives the same.
abbrev SameLoop : ℕ → ℕ → PrefixMap → Type 0
SameLoop f k ns =
    (path : Text) (obj : Buffer) (h : Heap)
    → length path ≤ f
    → length path ≤ k
    → get_path_loop f ns path obj h ≡ get_path_loop k ns path obj h

same_step :
    (f k : ℕ) (ns : PrefixMap) (c : ℕ) (path : Text) (obj : Buffer) (h : Heap)
    (o : Option (Text × Text))
    → SameLoop f k ns
    → split_at b'/' (c ∷ path) ≡ o
    → length path ≤ f
    → length path ≤ k
    → with_part (do_step ns) (get_path_loop f ns) (or_whole (c ∷ path) o) obj h
      ≡ with_part (do_step ns) (get_path_loop k ns) (or_whole (c ∷ path) o) obj h
same_step f k ns c path [] h o ih e hf hk = refl
same_step f k ns c path (x ∷ obj) h none ih e hf hk =
    and_then_same (do_step ns (c ∷ path) (x ∷ obj) h) (get_path_loop f ns [])
      (get_path_loop k ns []) (λ y h'. ih [] y h' (omega arith) (omega arith))
same_step f k ns c path (x ∷ obj) h (some (p, r)) ih e hf hk =
    and_then_same (do_step ns p (x ∷ obj) h) (get_path_loop f ns r) (get_path_loop k ns r)
      (λ y h'. ih r y h' (bound f hf) (bound k hk))
  where
    less : length r < suc (length path)
    less = split_shorter b'/' (c ∷ path) p r e

    bound : (m : ℕ) → length path ≤ m → length r ≤ m
    bound m h = omega (arith, less)

same_loop : (f k : ℕ) (ns : PrefixMap) → SameLoop f k ns
unfolding get_path_loop get_xpath_part
same_loop f k ns [] obj h hf hk = loop-nil f ns obj h ∙ sym (loop-nil k ns obj h)
same_loop zero k ns (c ∷ path) obj h hf hk = absurd (no_fuel (length path) hf)
same_loop (suc f) zero ns (c ∷ path) obj h hf hk = absurd (no_fuel (length path) hk)
same_loop (suc f) (suc k) ns (c ∷ path) obj h hf hk =
    same_step f k ns c path obj h (split_at b'/' (c ∷ path)) (same_loop f k ns) refl (less hf)
      (less hk)
  where
    less : {m : ℕ} → suc (length path) ≤ suc m → length path ≤ m
    less h = omega arith

abbrev Composed : PrefixMap → Text → ℕ → ℕ → ℕ → Text → Type 0
Composed ns b f k l a =
    (obj : Buffer) (h : Heap)
    → length (a ++ b'/' ∷ b) ≤ f
    → length a ≤ k
    → length b ≤ l
    → get_path_loop f ns (a ++ b'/' ∷ b) obj h
      ≡ and_then (get_path_loop k ns a obj h) (get_path_loop l ns b)

do_step-nil : (ns : PrefixMap) (obj : Buffer) (h : Heap) → do_step ns [] obj h ≡ (ok obj, h)
unfolding get_xpath_predicat do_part do_predicat split_at
do_step-nil ns obj h = refl

Composed-nil : (ns : PrefixMap) (b : Text) (f k l : ℕ) → Composed ns b f k l []
unfolding get_path_loop get_xpath_part split_at
Composed-nil ns b zero k l obj h hf hk hl = absurd (no_fuel (length b) hf)
Composed-nil ns b (suc f) k l [] h hf hk hl =
    sym (loop-empty l ns b h hl)
    ∙ sym (ap (λ r. and_then r (get_path_loop l ns b)) (loop-nil k ns [] h))
Composed-nil ns b (suc f) k l (o ∷ obj) h hf hk hl =
    ap (λ r. and_then r (get_path_loop f ns b)) (do_step-nil ns (o ∷ obj) h)
    ∙ same_loop f l ns b (o ∷ obj) h (less hf) hl
    ∙ sym (ap (λ r. and_then r (get_path_loop l ns b)) (loop-nil k ns (o ∷ obj) h))
  where
    less : suc (length b) ≤ suc f → length b ≤ f
    less h = omega arith

Composed-part :
    (ns : PrefixMap) (c : ℕ) (a b : Text) (f k l : ℕ) (o : Option (Text × Text)) (obj : Buffer)
    (h : Heap)
    → split_at b'/' (c ∷ a) ≡ o
    → ((r : Text) → length r < length (c ∷ a) → Composed ns b f k l r)
    → length (a ++ b'/' ∷ b) ≤ f
    → length a ≤ k
    → length b ≤ l
    → with_part
        (do_step ns)
        (get_path_loop f ns)
        (or_whole (c ∷ (a ++ b'/' ∷ b)) (joined (c ∷ a) b o))
        obj
        h
      ≡ and_then
          (with_part (do_step ns) (get_path_loop k ns) (or_whole (c ∷ a) o) obj h)
          (get_path_loop l ns b)
Composed-part ns c a b f k l none [] h e ih hf hk hl = sym (loop-empty l ns b h hl)
Composed-part ns c a b f k l (some (p, r)) [] h e ih hf hk hl = sym (loop-empty l ns b h hl)
Composed-part ns c a b f k l none (x ∷ obj) h e ih hf hk hl =
    and_then_in (do_step ns (c ∷ a) (x ∷ obj) h) (get_path_loop f ns b) (get_path_loop k ns [])
      (get_path_loop l ns b)
      (λ y h'.
        same_loop f l ns b y h' enough hl
        ∙ sym (ap (λ r. and_then r (get_path_loop l ns b)) (loop-nil k ns y h')))
  where
    enough : length b ≤ f
    enough = omega (arith, length-append a (b'/' ∷ b))
Composed-part ns c a b f k l (some (p, r)) (x ∷ obj) h e ih hf hk hl =
    and_then_in (do_step ns p (x ∷ obj) h) (get_path_loop f ns (r ++ b'/' ∷ b))
      (get_path_loop k ns r) (get_path_loop l ns b) (λ y h'. ih r shorter y h' enough bound hl)
  where
    shorter : length r < suc (length a)
    shorter = split_shorter b'/' (c ∷ a) p r e

    enough : length (r ++ b'/' ∷ b) ≤ f
    enough = omega (arith, length-append a (b'/' ∷ b), length-append r (b'/' ∷ b), shorter)

    bound : length r ≤ k
    bound = omega (arith, shorter)

composed : (ns : PrefixMap) (b : Text) (f k l : ℕ) (a : Text) → Composed ns b f k l a
unfolding get_path_loop get_xpath_part
composed ns b f k l [] obj h hf hk hl = Composed-nil ns b f k l obj h hf hk hl
composed ns b zero k l (c ∷ a) obj h hf hk hl = absurd (no_fuel (length (a ++ b'/' ∷ b)) hf)
composed ns b (suc f) zero l (c ∷ a) obj h hf hk hl = absurd (no_fuel (length a) hk)
composed ns b (suc f) (suc k) l (c ∷ a) obj h hf hk hl =
    ap (λ o. with_part (do_step ns) (get_path_loop f ns) (or_whole (c ∷ (a ++ b'/' ∷ b)) o) obj h)
      (split_at-append (c ∷ a) b)
    ∙ Composed-part ns c a b f k l (split_at b'/' (c ∷ a)) obj h refl (λ r _. composed ns b f k l r)
        (less hf) (less hk) hl
  where
    less : {m n : ℕ} → suc m ≤ suc n → m ≤ n
    less h = omega arith

-- getPath on two paths with a slash between them is getPath on the first and then on the second,
-- for every buffer and document: with the same result, or with the fault of the part that fails.
-- More fuel than getPath takes gives the same.
pub get_path-append :
    (ns : PrefixMap) (a b : Text) (obj : Buffer) (h : Heap)
    → (get_path ns (a ++ b'/' ∷ b) obj h ≡ and_then (get_path ns a obj h) (get_path ns b))
      × ((fuel : ℕ) → length a ≤ fuel → get_path_loop fuel ns a obj h ≡ get_path ns a obj h)
unfolding get_path
get_path-append ns a b obj h = (
  composed ns b (length (a ++ b'/' ∷ b)) (length a) (length b) a obj h (omega arith) (omega arith)
      (omega arith),
  λ fuel enough. same_loop fuel (length a) ns a obj h enough (omega arith),
)
