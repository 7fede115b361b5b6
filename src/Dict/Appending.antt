-- ===== src/Dict/Appending.antt =====
-- `ElemDict::set` at the first position that is free: src/xmlbeansxx/ElemDict.h.
use xmlbeansxx.Prelude.{◌≡◌, refl, ap, [], ◌∷◌, ◌++◌, Option, Bool-cases, inl, inr, pos}
use xmlbeansxx.QName.{QName, qname_eq}
use xmlbeansxx.Dict.{
  ElemDict, dict_el, missed, behind, add, pad, count, set_scan, finish_set, set_at,
}

module _ {A : Type 0} where
  set_scan-count :
      (d : ElemDict A) (u : QName) (v : Option A)
      → set_scan d u (pos (count d u)) v ≡ missed (pos 0)
  unfolding set_scan count
  set_scan-count [] u v = refl
  set_scan-count (it ∷ rest) u v = elim (Bool-cases (qname_eq it.name u)) [
    | inl hit ↦ rw hit (ap (behind it) (set_scan-count rest u v))
    | inr miss ↦ rw miss (ap (behind it) (set_scan-count rest u v))
  ]

  -- The value is put behind all elements, whatever their names.
  pub set_at-count :
      (d : ElemDict A) (u : QName) (v : Option A)
      → set_at d u (pos (count d u)) v ≡ d ++ dict_el u v ∷ []
  unfolding set_at finish_set add pad
  set_at-count d u v = ap (finish_set d u v) (set_scan-count d u v)
