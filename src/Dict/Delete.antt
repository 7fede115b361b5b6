-- ===== src/Dict/Delete.antt =====
-- `ElemDict::del` of src/xmlbeansxx/Dict.cpp compacts its vector in place, behind two positions.
-- It is shown to be the filter that drops a name.
use xmlbeansxx.Prelude.{
  ℕ, suc, ◌+◌, ◌-◌, ◌≡◌, refl, ap, sym, ◌∙◌, [], ◌∷◌, ◌++◌, append-nil, append_assoc, true, false,
  if◌then◌else◌, Bool-cases, inl, inr, length, length-append, get_or, get_or-append, set,
  set-append, take, take-append, arith,
}
use xmlbeansxx.QName.{QName, qname_eq, qname_eq_left, qname_eq_right}
use xmlbeansxx.Dict.{
  DictEl, ElemDict, no_el, count, DelState, move_down, del_round, del_loop, del_end, del,
}
use xmlbeansxx.Dict.Values.{values}

module _ {A : Type 0} where
  -- The elements of the other names, in order.
  unfoldable pub keep : ElemDict A → QName → ElemDict A
  keep [] u = []
  keep (it ∷ rest) u = let later = keep rest u in if qname_eq it.name u then later else it ∷ later

  -- The vector inside the loop: what is kept, stale elements between the positions, and what is
  -- still to be read.
  record Split (kept junk rest : ElemDict A) (s : DelState A) : Type 0 where
    contents_are : s.contents ≡ kept ++ (junk ++ rest)
    p_is : s.p ≡ length kept + length junk
    p2_is : s.p2 ≡ length kept
    stale : s.ile ≡ length junk

  -- The stale elements once the element read has been moved down over the first of them.
  abbrev moved : ElemDict A → DictEl A → ElemDict A
  moved [] x = []
  moved (j ∷ js) x = x ∷ js

  abbrev shifted : ElemDict A → DictEl A → ElemDict A
  shifted [] x = []
  shifted (j ∷ js) x = js ++ x ∷ []

  get_at :
      (xs : ElemDict A) (x : DictEl A) (ys : ElemDict A) (i : ℕ)
      → i ≡ length xs
      → get_or (xs ++ x ∷ ys) i no_el ≡ x
  get_at xs x ys i h = rw h (get_or-append xs x ys no_el)

  set_at_length :
      (xs : ElemDict A) (x v : DictEl A) (ys : ElemDict A) (i : ℕ)
      → i ≡ length xs
      → set (xs ++ x ∷ ys) i v ≡ xs ++ v ∷ ys
  set_at_length xs x v ys i h = rw h (set-append xs x v ys)

  overwrite_first :
      (kept js : ElemDict A) (j x : DictEl A) (rest : ElemDict A) (p p2 : ℕ)
      → p ≡ length kept + suc (length js)
      → p2 ≡ length kept
      → move_down (kept ++ j ∷ (js ++ x ∷ rest)) p p2 ≡ kept ++ x ∷ (js ++ x ∷ rest)
  unfolding move_down
  overwrite_first kept js j x rest p p2 hp hp2 =
      ground (arith, read, set_at_length kept j x (js ++ x ∷ rest) p2 hp2)
    where
      read : get_or (kept ++ j ∷ (js ++ x ∷ rest)) p no_el ≡ x
      read =
          rw (← append_assoc kept (j ∷ js) (x ∷ rest))
            (get_at (kept ++ j ∷ js) x rest p (omega (arith, hp, length-append kept (j ∷ js))))

  move_down-moved :
      (kept junk : ElemDict A) (x : DictEl A) (rest : ElemDict A) (s : DelState A)
      → Split kept junk (x ∷ rest) s
      → move_down s.contents s.p s.p2 ≡ kept ++ (moved junk x ++ x ∷ rest)
  unfolding move_down
  move_down-moved kept [] x rest s h = ground (arith, h.contents_are)
  move_down-moved kept (j ∷ js) x rest s h =
      ap (λ c. move_down c s.p s.p2) h.contents_are
      ∙ overwrite_first kept js j x rest s.p s.p2 h.p_is h.p2_is

  length-moved : (junk : ElemDict A) (x : DictEl A) → length (moved junk x) ≡ length junk
  length-moved [] x = refl
  length-moved (j ∷ js) x = refl

  length-shifted : (junk : ElemDict A) (x : DictEl A) → length (shifted junk x) ≡ length junk
  length-shifted [] x = refl
  length-shifted (j ∷ js) x = omega (arith, length-append js (x ∷ []))

  moved-shifted :
      (junk : ElemDict A) (x : DictEl A) (rest : ElemDict A)
      → moved junk x ++ x ∷ rest ≡ x ∷ (shifted junk x ++ rest)
  moved-shifted [] x rest = refl
  moved-shifted (j ∷ js) x rest = ap (◌∷◌ x) (sym (append_assoc js (x ∷ []) rest))

  read_at_p :
      (kept junk : ElemDict A) (x : DictEl A) (rest : ElemDict A) (s : DelState A)
      → Split kept junk (x ∷ rest) s
      → get_or (move_down s.contents s.p s.p2) s.p no_el ≡ x
  read_at_p kept junk x rest s h =
      rw (move_down-moved kept junk x rest s h, ← append_assoc kept (moved junk x) (x ∷ rest))
        (get_at (kept ++ moved junk x) x rest s.p
          (omega (arith, h.p_is, length-append kept (moved junk x), length-moved junk x)))

  Split-hit :
      (u : QName) (kept junk : ElemDict A) (x : DictEl A) (rest : ElemDict A) (s : DelState A)
      → qname_eq x.name u ≡ true
      → Split kept junk (x ∷ rest) s
      → Split kept (moved junk x ++ no_el ∷ []) rest (del_round u s)
        × ((del_round u s).ile ≡ s.ile + 1)
  unfolding del_round
  Split-hit u kept junk x rest s hit h =
      rw (read_at_p kept junk x rest s h, hit)
        (
          record {
            contents_are =
                ap (λ c. set c s.p no_el)
                  (move_down-moved kept junk x rest s h
                    ∙ sym (append_assoc kept (moved junk x) (x ∷ rest)))
                ∙ set_at_length (kept ++ moved junk x) x no_el rest s.p place
                ∙ append_assoc kept (moved junk x) (no_el ∷ rest)
                ∙ ap (◌++◌ kept) (sym (append_assoc (moved junk x) (no_el ∷ []) rest));
            p_is =
                omega
                  (arith, h.p_is, length-append (moved junk x) (no_el ∷ []), length-moved junk x);
            p2_is = h.p2_is;
            stale =
                omega
                  (arith, h.stale, length-append (moved junk x) (no_el ∷ []), length-moved junk x);
          },
          refl,
        )
    where
      place : s.p ≡ length (kept ++ moved junk x)
      place = omega (arith, h.p_is, length-append kept (moved junk x), length-moved junk x)

  Split-miss :
      (u : QName) (kept junk : ElemDict A) (x : DictEl A) (rest : ElemDict A) (s : DelState A)
      → qname_eq x.name u ≡ false
      → Split kept junk (x ∷ rest) s
      → Split (kept ++ x ∷ []) (shifted junk x) rest (del_round u s) × ((del_round u s).ile ≡ s.ile)
  unfolding del_round
  Split-miss u kept junk x rest s miss h =
      rw (read_at_p kept junk x rest s h, miss)
        (
          record {
            contents_are =
                move_down-moved kept junk x rest s h
                ∙ ap (◌++◌ kept) (moved-shifted junk x rest)
                ∙ sym (append_assoc kept (x ∷ []) (shifted junk x ++ rest));
            p_is = omega (arith, h.p_is, length-append kept (x ∷ []), length-shifted junk x);
            p2_is = omega (arith, h.p2_is, length-append kept (x ∷ []));
            stale = omega (arith, h.stale, length-shifted junk x);
          },
          refl,
        )

  -- A state at the end of the loop: the elements kept, and how many were not.
  record Ends (kept : ElemDict A) (n : ℕ) (s : DelState A) : Type 0 where
    junk : ElemDict A
    split : Split kept junk [] s
    ile_is : s.ile ≡ n

  Ends-del_loop :
      (u : QName) (rest kept junk : ElemDict A) (s : DelState A)
      → Split kept junk rest s
      → Ends (kept ++ keep rest u) (s.ile + count rest u) (del_loop (length rest) u s)
  unfolding del_loop keep count
  Ends-del_loop u [] kept junk s h =
      rw (append-nil kept) (record { junk = junk; split = h; ile_is = omega arith })
  Ends-del_loop u (x ∷ rest) kept junk s h = elim (Bool-cases (qname_eq x.name u)) [
    | inl hit ↦
        let (h', i) = Split-hit u kept junk x rest s hit h in
        let e = Ends-del_loop u rest kept (moved junk x ++ no_el ∷ []) (del_round u s) h' in
        rw hit (record { junk = e.junk; split = e.split; ile_is = omega (arith, e.ile_is, i) })
    | inr miss ↦
        let (h', i) = Split-miss u kept junk x rest s miss h in
        let e = Ends-del_loop u rest (kept ++ x ∷ []) (shifted junk x) (del_round u s) h' in
        rw (miss, ← append_assoc kept (x ∷ []) (keep rest u))
          (record { junk = e.junk; split = e.split; ile_is = omega (arith, e.ile_is, i) })
  ]

  Ends-del_end : (d : ElemDict A) (u : QName) → Ends (keep d u) (count d u) (del_end d u)
  unfolding del_end
  Ends-del_end d u =
      let e =
        Ends-del_loop u d [] [] (record { contents = d; p = 0; p2 = 0; ile = 0 })
          (record { contents_are = refl; p_is = omega arith; p2_is = refl; stale = refl }) in
      record { junk = e.junk; split = e.split; ile_is = omega (arith, e.ile_is) }

  popped :
      (kept : ElemDict A) (n : ℕ) (s : DelState A)
      → Ends kept n s
      → take (length s.contents - s.ile) s.contents ≡ kept
  popped kept n s e = rw kept_size (ap (take (length kept)) whole ∙ take-append kept _)
    where
      whole : s.contents ≡ kept ++ (e.junk ++ [])
      whole = e.split.contents_are

      kept_size : length s.contents - s.ile ≡ length kept
      kept_size = omega (
        arith,
        ap length whole,
        e.split.stale,
        length-append kept (e.junk ++ []),
        length-append e.junk [],
      )

  -- The loop of `del` is the filter that drops the elements of a name and keeps the order of the
  -- others, and the number that it returns is the number of the elements dropped.
  pub del-keep : (d : ElemDict A) (u : QName) → del d u ≡ (keep d u, count d u)
  unfolding del
  del-keep d u = let e = Ends-del_end d u in rw (popped _ _ _ e, e.ile_is)

  pub values-keep :
      (d : ElemDict A) (u w : QName)
      → values (keep d u) w ≡ (if qname_eq u w then [] else values d w)
  unfolding keep values
  values-keep [] u w = ground arith
  values-keep (it ∷ rest) u w =
      ground (arith, qname_eq_left it.name u w, qname_eq_right u w it.name, values-keep rest u w)

  -- After `del` nothing stands under the name, and the values under every other name are as before.
  pub values-del :
      (d : ElemDict A) (u w : QName)
      → values (del d u).0 w ≡ (if qname_eq u w then [] else values d w)
  values-del d u w = rw (del-keep d u) (values-keep d u w)
