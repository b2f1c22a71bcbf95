-- ===== src/Recovery/Order.antt =====
-- core/application/recovery.py: the order in which a scan's items are sorted.
use video_captioner_z.Base.{
  ◌<◌, ◌⊎◌, ap, ◌∙◌, Any, at_head, in_tail, ltb, ℕ, ◌≡◌, refl, sym, subst, Bool, true, false, List,
  [], ◌∷◌, All, arith, inl, inr, Bool-cases, if◌then◌else◌,
}
use video_captioner_z.Text.{codes}
use video_captioner_z.Recovery.{
  RecoveryItem, text_le, same_text, comes_first, insert_item, sort_items,
}

text_le-total : (xs ys : List ℕ) → text_le xs ys ≡ false → text_le ys xs ≡ true
unfolding text_le
text_le-total [] ys h = absurd (cc)
text_le-total (x ∷ xs) [] h = refl
text_le-total (x ∷ xs) (y ∷ ys) h = ground (arith, h, text_le-total xs ys)

same_text-sym : (xs ys : List ℕ) → same_text xs ys ≡ same_text ys xs
unfolding same_text
same_text-sym [] [] = refl
same_text-sym [] (y ∷ ys) = refl
same_text-sym (x ∷ xs) [] = refl
same_text-sym (x ∷ xs) (y ∷ ys) = ground (arith, same_text-sym xs ys)

comes_first-total : (a b : RecoveryItem) → comes_first a b ≡ false → comes_first b a ≡ true
unfolding comes_first
comes_first-total a b h = ground (
  arith,
  h,
  same_text-sym (codes a.created_at_utc) (codes b.created_at_utc),
  text_le-total (codes a.created_at_utc) (codes b.created_at_utc),
  text_le-total (codes a.batch_id) (codes b.batch_id),
)

-- The order of texts by their code points, as Python compares them.
pub data Precedes : List ℕ → List ℕ → Type 0 where
  ends : {y : ℕ} {ys : List ℕ} → Precedes [] (y ∷ ys)
  less : {x y : ℕ} {xs ys : List ℕ} → x < y → Precedes (x ∷ xs) (y ∷ ys)
  same : {x : ℕ} {xs ys : List ℕ} → Precedes xs ys → Precedes (x ∷ xs) (x ∷ ys)

-- An item was created before another, or at the same time with an id that is not greater.
abbrev pub IsBefore : RecoveryItem → RecoveryItem → Type 0
IsBefore a b =
    Precedes (codes a.created_at_utc) (codes b.created_at_utc)
    ⊎ ((codes a.created_at_utc ≡ codes b.created_at_utc)
        × (Precedes (codes a.batch_id) (codes b.batch_id) ⊎ (codes a.batch_id ≡ codes b.batch_id)))

text_le-cases : (xs ys : List ℕ) → text_le xs ys ≡ true → Precedes xs ys ⊎ (xs ≡ ys)
unfolding text_le
text_le-cases [] [] h = inr refl
text_le-cases [] (y ∷ ys) h = inl ends
text_le-cases (x ∷ xs) [] h = absurd (cc)
text_le-cases (x ∷ xs) (y ∷ ys) h = elim (Bool-cases (ltb x y)) [
  | inl e ↦ inl (less (ground (arith, e)))
  | inr e ↦
      let first : x ≡ y = ground (arith, h, e) in
      elim (text_le-cases xs ys (ground (arith, h, e))) [
        | inl p ↦ inl (subst (λ z. Precedes (x ∷ xs) (z ∷ ys)) first (same p))
        | inr p ↦ inr (ap (λ z. z ∷ xs) first ∙ ap (λ zs. y ∷ zs) p)
      ]
]

same_text-eq : (xs ys : List ℕ) → same_text xs ys ≡ true → xs ≡ ys
unfolding same_text
same_text-eq [] [] h = refl
same_text-eq [] (y ∷ ys) h = absurd (cc)
same_text-eq (x ∷ xs) [] h = absurd (cc)
same_text-eq (x ∷ xs) (y ∷ ys) h =
    let first : x ≡ y = ground (arith, h) in
    ap (λ z. z ∷ xs) first ∙ ap (λ zs. y ∷ zs) (same_text-eq xs ys (ground (arith, h)))

same_text_self : (xs : List ℕ) → same_text xs xs ≡ true
unfolding same_text
same_text_self [] = refl
same_text_self (x ∷ xs) = ground (arith, same_text_self xs)

comes_first-IsBefore : (a b : RecoveryItem) → comes_first a b ≡ true → IsBefore a b
unfolding comes_first
comes_first-IsBefore a b h =
    elim (Bool-cases (same_text (codes a.created_at_utc) (codes b.created_at_utc))) [
      | inl e ↦ inr (
        same_text-eq _ _ e,
        text_le-cases (codes a.batch_id) (codes b.batch_id) (ground (arith, e, h)),
      )
      | inr e ↦
          elim (text_le-cases (codes a.created_at_utc) (codes b.created_at_utc)
            (ground (arith, e, h))) [
              | inl p ↦ inl p
              | inr p ↦ absurd (
                  differ
                    (sym (ap (same_text (codes a.created_at_utc)) p)
                      ∙ same_text_self (codes a.created_at_utc))
                    e)
            ]
    ]
  where
    differ : {b : Bool} → b ≡ true → b ≡ false → ⊥
    differ h k = absurd (cc)

-- each item comes before the next, or at the same place
pub data InOrder : List RecoveryItem → Type 0 where
  no_item : InOrder []
  one_item : {a : RecoveryItem} → InOrder (a ∷ [])
  more_items :
      {a b : RecoveryItem} {items : List RecoveryItem}
      → IsBefore a b
      → InOrder (b ∷ items)
      → InOrder (a ∷ b ∷ items)

insert_after :
    (a b : RecoveryItem) (items : List RecoveryItem)
    → IsBefore b a
    → InOrder (b ∷ items)
    → InOrder (b ∷ insert_item a items)
unfolding insert_item
insert_after a b [] t h = more_items t one_item
insert_after a b (c ∷ items) t (more_items k rest) =
    let order = λ (first : Bool). if first then a ∷ c ∷ items else c ∷ insert_item a items in
    elim (Bool-cases (comes_first a c)) [
      | inl e ↦
          subst (λ first. InOrder (b ∷ order first)) (sym e)
            (more_items t (more_items (comes_first-IsBefore a c e) rest))
      | inr e ↦
          subst (λ first. InOrder (b ∷ order first)) (sym e)
            (more_items k
              (insert_after a c items (comes_first-IsBefore c a (comes_first-total a c e)) rest))
    ]

insert_item-InOrder :
    (a : RecoveryItem) (items : List RecoveryItem) → InOrder items → InOrder (insert_item a items)
unfolding insert_item
insert_item-InOrder a [] no_item = one_item
insert_item-InOrder a (b ∷ items) h =
    let order = λ (first : Bool). if first then a ∷ b ∷ items else b ∷ insert_item a items in
    elim (Bool-cases (comes_first a b)) [
      | inl e ↦
          subst (λ first. InOrder (order first)) (sym e) (more_items (comes_first-IsBefore a b e) h)
      | inr e ↦
          subst (λ first. InOrder (order first)) (sym e)
            (insert_after a b items (comes_first-IsBefore b a (comes_first-total a b e)) h)
    ]

pub sort_items-InOrder : (items : List RecoveryItem) → InOrder (sort_items items)
unfolding sort_items
sort_items-InOrder [] = no_item
sort_items-InOrder (a ∷ items) = insert_item-InOrder a (sort_items items) (sort_items-InOrder items)

module _ (P : RecoveryItem → Type 0) where
  insert_item-All :
      (a : RecoveryItem) (items : List RecoveryItem)
      → P a
      → All P items
      → All P (insert_item a items)
  unfolding insert_item
  insert_item-All a [] p h = (p, tt)
  insert_item-All a (b ∷ items) p h =
      let order = λ (first : Bool). if first then a ∷ b ∷ items else b ∷ insert_item a items in
      elim (Bool-cases (comes_first a b)) [
        | inl e ↦ subst (λ first. All P (order first)) (sym e) (p, h)
        | inr e ↦ subst (λ first. All P (order first)) (sym e) (h.0, insert_item-All a items p h.1)
      ]

  pub sort_items-All : (items : List RecoveryItem) → All P items → All P (sort_items items)
  unfolding sort_items
  sort_items-All [] h = tt
  sort_items-All (a ∷ items) h = insert_item-All a (sort_items items) h.0 (sort_items-All items h.1)

insert_item-Any :
    (P : RecoveryItem → Type 0) (a : RecoveryItem) (items : List RecoveryItem)
    → Any P (a ∷ items)
    → Any P (insert_item a items)
unfolding insert_item
insert_item-Any P a [] h = h
insert_item-Any P a (b ∷ items) h =
    let put = λ (p : Any P (a ∷ items)). in_tail (insert_item-Any P a items p) in
    let order = λ (first : Bool). if first then a ∷ b ∷ items else b ∷ insert_item a items in
    elim (Bool-cases (comes_first a b)) [
      | inl e ↦ subst (λ first. Any P (order first)) (sym e) h
      | inr e ↦ subst (λ first. Any P (order first)) (sym e) (placed put h)
    ]
  where
    placed :
        (Any P (a ∷ items) → Any P (b ∷ insert_item a items))
        → Any P (a ∷ b ∷ items)
        → Any P (b ∷ insert_item a items)
    placed put (at_head p) = put (at_head p)
    placed put (in_tail (at_head p)) = at_head p
    placed put (in_tail (in_tail t)) = put (in_tail t)

pub sort_items-Any :
    (P : RecoveryItem → Type 0) (items : List RecoveryItem) → Any P items → Any P (sort_items items)
unfolding sort_items
sort_items-Any P [] h = elim h [ ]
sort_items-Any P (a ∷ items) (at_head p) = insert_item-Any P a (sort_items items) (at_head p)
sort_items-Any P (a ∷ items) (in_tail t) =
    insert_item-Any P a (sort_items items) (in_tail (sort_items-Any P items t))
