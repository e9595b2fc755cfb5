-- ===== src/Ai/Unused.antt =====
-- The map of an earlier run's findings in src/modules/ai/scan/regenerate-merge.ts: every finding is
-- stored once, under its own identifier.
use mathlib.Core.Path.{subst}
use critiq_be.Prelude.{
  suc, ◌+◌, ◌≡◌, refl, sym, ap, ◌∙◌, Bool, true, false, Option, none, some, List, [], ◌∷◌, Text,
  text_eq, text_eq_iff, countb, length, All, findb, map_get, map_set, map_delete, map_get-map_set,
  arith, if◌then◌else◌, Bool-cases, inl, inr,
}
use critiq_be.Ai.RunMerge.{PreviousRunFinding, Unused, index_from, values}

abbrev pub IsKeyed : Unused → Type 0
IsKeyed [] = Unit
IsKeyed ((k, p) ∷ m) = (k ≡ p.stored.id) × (map_get k m ≡ none) × IsKeyed m

map_delete-none : (j k : Text) (m : Unused) → map_get k m ≡ none → map_get k (map_delete j m) ≡ none
unfolding map_get map_delete
map_delete-none j k [] h = refl
map_delete-none j k ((i, p) ∷ m) h = ground (arith, map_delete-none j k m)

pub map_delete-IsKeyed : (j : Text) (m : Unused) → IsKeyed m → IsKeyed (map_delete j m)
unfolding map_delete
map_delete-IsKeyed j [] h = unfold map_delete in tt
map_delete-IsKeyed j ((k, p) ∷ m) (e, n, h) = elim (Bool-cases (text_eq k j)) [
  | inl t ↦ rw (map_delete, t) h
  | inr f ↦ rw (map_delete, f) (e, map_delete-none j k m n, map_delete-IsKeyed j m h)
]

map_set-IsKeyed :
    (p : PreviousRunFinding) (m : Unused) → IsKeyed m → IsKeyed (map_set p.stored.id p m)
unfolding map_set
map_set-IsKeyed p [] h = unfold map_set map_get in (refl, refl, tt)
map_set-IsKeyed p ((k, q) ∷ m) (e, n, h) = elim (Bool-cases (text_eq k p.stored.id)) [
  | inl t ↦ rw (map_set, t) ((text_eq_iff k p.stored.id).0 t, n, h)
  | inr f ↦ rw (map_set, f) (e, other k f n, map_set-IsKeyed p m h)
]
  where
    other :
        (i : Text)
        → text_eq i p.stored.id ≡ false
        → map_get i m ≡ none
        → map_get i (map_set p.stored.id p m) ≡ none
    other i f g =
        map_get-map_set p.stored.id i p m
        ∙ ground (arith, text_eq_iff i p.stored.id, text_eq_iff p.stored.id i, f, g)

pub index_from-IsKeyed :
    (m : Unused) (ps : List PreviousRunFinding) → IsKeyed m → IsKeyed (index_from m ps)
unfolding index_from
index_from-IsKeyed m [] h = h
index_from-IsKeyed m (p ∷ ps) h =
    index_from-IsKeyed (map_set p.stored.id p m) ps (map_set-IsKeyed p m h)

module _ (k j : Text) (q : PreviousRunFinding) (m : Unused) where
  map_get_hit : text_eq j k ≡ true → map_get k ((j, q) ∷ m) ≡ some q
  unfolding map_get
  map_get_hit e = rw e refl

  map_get_miss : text_eq j k ≡ false → map_get k ((j, q) ∷ m) ≡ map_get k m
  unfolding map_get
  map_get_miss e = rw e refl

abbrev previous_or : PreviousRunFinding → Option PreviousRunFinding → PreviousRunFinding
previous_or p none = p
previous_or p (some x) = x

-- A key that is bound in a keyed map is the identifier of what it is bound to.
pub map_get-key :
    (k : Text) (m : Unused) (p : PreviousRunFinding)
    → IsKeyed m
    → map_get k m ≡ some p
    → k ≡ p.stored.id
map_get-key k [] p h e = unfold map_get in cc
map_get-key k ((j, q) ∷ m) p (own, n, h) e = elim (Bool-cases (text_eq j k)) [
  | inl t ↦
      let same : q ≡ p = ap (previous_or q) (sym (map_get_hit k j q m t) ∙ e) in
      sym ((text_eq_iff j k).0 t) ∙ own ∙ ap (λ x. x.stored.id) same
  | inr f ↦ map_get-key k m p h (sym (map_get_miss k j q m f) ∙ e)
]

module _ (t : PreviousRunFinding → Bool) (k : Text) (q : PreviousRunFinding) (m : Unused) where
  findb_hit : t q ≡ true → findb t (values ((k, q) ∷ m)) ≡ some q
  unfolding findb values
  findb_hit e = rw e refl

  findb_miss : t q ≡ false → findb t (values ((k, q) ∷ m)) ≡ findb t (values m)
  unfolding findb values
  findb_miss e = rw e refl

-- What is found among the values is what its identifier is mapped to.
pub findb-map_get :
    (t : PreviousRunFinding → Bool) (m : Unused) (p : PreviousRunFinding)
    → IsKeyed m
    → findb t (values m) ≡ some p
    → map_get p.stored.id m ≡ some p
findb-map_get t [] p h e = unfold values findb in cc
findb-map_get t ((k, q) ∷ m) p (own, n, h) e = elim (Bool-cases (t q)) [
  | inl hit ↦
      let same : q ≡ p = ap (previous_or q) (sym (findb_hit t k q m hit) ∙ e) in
      subst (λ x. map_get x.stored.id ((k, q) ∷ m) ≡ some x) same
        (map_get_hit q.stored.id k q m ((text_eq_iff k q.stored.id).1 own))
  | inr miss ↦
      let later : map_get p.stored.id m ≡ some p =
        findb-map_get t m p h (sym (findb_miss t k q m miss) ∙ e) in
      elim (Bool-cases (text_eq k p.stored.id)) [
        | inr f ↦ map_get_miss p.stored.id k q m f ∙ later
        | inl e' ↦
            let both : map_get k m ≡ some p =
              ap (λ i. map_get i m) ((text_eq_iff k p.stored.id).0 e') ∙ later in
            cc
      ]
]

-- Deleting what a key is mapped to takes that finding out of the values.
module _ (q : PreviousRunFinding → Bool) where
  pub countb-map_delete :
      (k : Text) (m : Unused) (p : PreviousRunFinding)
      → map_get k m ≡ some p
      → countb q (values m) ≡ (if q p then 1 else 0) + countb q (values (map_delete k m))
  unfolding values countb map_get map_delete
  countb-map_delete k [] p e = cc
  countb-map_delete k ((j, x) ∷ m) p e = ground (arith, countb-map_delete k m p)

pub length-map_delete :
    (k : Text) (m : Unused) (p : PreviousRunFinding)
    → map_get k m ≡ some p
    → length (values m) ≡ suc (length (values (map_delete k m)))
unfolding values map_get map_delete
length-map_delete k [] p e = cc
length-map_delete k ((j, x) ∷ m) p e = ground (arith, length-map_delete k m p)

module _ {ℓ} (P : PreviousRunFinding → Type ℓ) where
  pub map_delete-All : (k : Text) (m : Unused) → All P (values m) → All P (values (map_delete k m))
  unfolding values map_delete
  map_delete-All k [] h = unfold map_delete in tt
  map_delete-All k ((j, x) ∷ m) (p, h) = elim (Bool-cases (text_eq j k)) [
    | inl t ↦ rw (map_delete, t) h
    | inr f ↦ rw (map_delete, f) (p, map_delete-All k m h)
  ]

  map_set-All :
      (k : Text) (x : PreviousRunFinding) (m : Unused)
      → P x
      → All P (values m)
      → All P (values (map_set k x m))
  unfolding values map_set
  map_set-All k x [] p h = unfold map_set in (p, tt)
  map_set-All k x ((j, y) ∷ m) p (q, h) = elim (Bool-cases (text_eq j k)) [
    | inl t ↦ rw (map_set, t) (p, h)
    | inr f ↦ rw (map_set, f) (q, map_set-All k x m p h)
  ]

  pub index_from-All :
      (m : Unused) (ps : List PreviousRunFinding)
      → All P (values m)
      → All P ps
      → All P (values (index_from m ps))
  unfolding index_from
  index_from-All m [] h a = h
  index_from-All m (x ∷ ps) h (p, a) =
      index_from-All (map_set x.stored.id x m) ps (map_set-All x.stored.id x m p h) a
