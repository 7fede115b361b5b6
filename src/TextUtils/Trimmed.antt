-- ===== src/TextUtils/Trimmed.antt =====
-- What `TextUtils::collapse` gives for every text.
use xmlbeansxx.Prelude.{
  ◌≡◌, ◌≢◌, refl, ap, sym, subst, ◌∙◌, ◌⊎◌, inl, inr, [], ◌∷◌, ◌++◌, append-nil, Text, Bool-cases,
}
use mathlib.Core.List.{reverse, reverse-append, reverse-reverse}
use xmlbeansxx.TextUtils.{is_white, collapse}
use xmlbeansxx.TextUtils.Trim.{
  AllWhite, AllWhite-reverse, StartsSolid, collapse-append, collapse_white,
}

-- `t` is `s` without the white space around it: the ends of `t`, if it has any, are not white.
pub record Trimmed (s t : Text) : Type 0 where
  pub before : Text
  pub after : Text
  pub around : s ≡ before ++ (t ++ after)
  pub before_white : AllWhite before
  pub after_white : AllWhite after
  pub ends_solid : (t ≡ []) ⊎ (StartsSolid t × StartsSolid (reverse t))

-- White space, then text that begins with another byte.
record Fronted (s : Text) : Type 0 where
  front : Text
  rest : Text
  parts : s ≡ front ++ rest
  front_white : AllWhite front
  rest_solid : StartsSolid rest

fronted : (s : Text) → AllWhite s ⊎ Fronted s
fronted [] = inl tt
fronted (c ∷ s) = elim (Bool-cases (is_white c)) [
  | inl white ↦ elim (fronted s) [
    | inl all ↦ inl (white, all)
    | inr f ↦ inr record {
      front = c ∷ f.front;
      rest = f.rest;
      parts = ap (λ t. c ∷ t) f.parts;
      front_white = (white, f.front_white);
      rest_solid = f.rest_solid;
    }
  ]
  | inr solid ↦
      inr record { front = []; rest = c ∷ s; parts = refl; front_white = tt; rest_solid = solid }
]

reverse-nil : (s : Text) → StartsSolid s → reverse s ≢ []
reverse-nil s h e = subst StartsSolid (sym (reverse-reverse s) ∙ ap reverse e) h

StartsSolid-prefix : (s t : Text) → StartsSolid (s ++ t) → s ≢ [] → StartsSolid s
StartsSolid-prefix [] t h k = absurd (k refl)
StartsSolid-prefix (c ∷ s) t h k = h

-- A text with a byte that is not white is two runs of white space around a solid middle.
solid_middle : (s : Text) → Fronted s → Trimmed s (collapse s)
solid_middle s f = elim (fronted (reverse f.rest)) [
  | inl white ↦ absurd (not_white f.rest f.rest_solid white)
  | inr b ↦
      from_parts f.front (reverse b.rest) (reverse b.front) f.front_white
        (AllWhite-reverse b.front b.front_white)
        (f.parts ∙ ap (λ t. f.front ++ t) (turned b.front b.rest f.rest b.parts))
        (StartsSolid-prefix (reverse b.rest) (reverse b.front)
          (subst StartsSolid (turned b.front b.rest f.rest b.parts) f.rest_solid)
          (reverse-nil b.rest b.rest_solid))
        (subst StartsSolid (sym (reverse-reverse b.rest)) b.rest_solid)
]
  where
    not_white : (t : Text) → StartsSolid t → AllWhite (reverse t) → ⊥
    not_white [] h k = h
    not_white (c ∷ t) h k =
        cc (h, (subst AllWhite (reverse-reverse (c ∷ t)) (AllWhite-reverse (reverse (c ∷ t)) k)).0)

    turned : (w m t : Text) → reverse t ≡ w ++ m → t ≡ reverse m ++ reverse w
    turned w m t e = sym (reverse-reverse t) ∙ ap reverse e ∙ reverse-append w m

    from_parts :
        (w m w' : Text)
        → AllWhite w
        → AllWhite w'
        → s ≡ w ++ (m ++ w')
        → StartsSolid m
        → StartsSolid (reverse m)
        → Trimmed s (collapse s)
    from_parts w m w' hw hw' e front back =
        subst (Trimmed s) (sym (ap collapse e ∙ collapse-append w m w' hw hw' front back)) record {
          before = w;
          after = w';
          around = e;
          before_white = hw;
          after_white = hw';
          ends_solid = inr (front, back);
        }

-- `collapse` takes white space off both ends of any text, and what is left is empty or begins and
-- ends with bytes that are not white space.
pub collapse-Trimmed : (s : Text) → Trimmed s (collapse s)
collapse-Trimmed s = elim (fronted s) [
  | inl white ↦ subst (Trimmed s) (sym (collapse_white s white)) record {
    before = s;
    after = [];
    around = sym (append-nil s);
    before_white = white;
    after_white = tt;
    ends_solid = inl refl;
  }
  | inr f ↦ solid_middle s f
]

-- Collapsing again changes nothing.
pub collapse_idem : (s : Text) → collapse (collapse s) ≡ collapse s
collapse_idem s = elim (collapse-Trimmed s).ends_solid [
  | inl nothing ↦ ap collapse nothing ∙ collapse_white [] tt ∙ sym nothing
  | inr ends ↦
      ap collapse (sym (append-nil (collapse s)))
      ∙ collapse-append [] (collapse s) [] tt tt ends.0 ends.1
]
