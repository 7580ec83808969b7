-- ===== src/Base/Sort.antt =====
-- `sort.Slice` and `sort.Strings`: insertion sort by a Boolean order, and what it guarantees. Where the
-- order is antisymmetric the result does not depend on the algorithm, nor on the order of the input.
use mathlib.Core.Path.{ap₂}
use mathlib.Core.List.Permᴰ
use mathlib.Core.List.{Permᴰ, Memᴰ}
use ha.Base.{
  ◌≡◌, refl, ap, ◌∙◌, suc, length, inl, inr, Bool, true, false, List, [], ◌∷◌, arith, if◌then◌else◌,
  All, Bool-cases,
}

-- What Go asks of the `less` function.
pub record IsStrictOrder {ℓ} {A : Type ℓ} (less : A → A → Bool) : Type ℓ where
  pub asymm : (a b : A) → less a b ≡ true → less b a ≡ false
  pub trans_not : (a b c : A) → less b a ≡ false → less c b ≡ false → less c a ≡ false

module _ {ℓ} {A : Type ℓ} (less : A → A → Bool) where
  unfoldable pub insert_sorted : A → List A → List A
  insert_sorted x [] = x ∷ []
  insert_sorted x (y ∷ ys) = if less y x then y ∷ insert_sorted x ys else x ∷ y ∷ ys

  unfoldable pub sort : List A → List A
  unfolding insert_sorted
  sort [] = []
  sort (x ∷ xs) = insert_sorted x (sort xs)

  -- No later element is below an earlier one.
  abbrev pub IsSorted : List A → Type ℓ
  IsSorted [] = Unit
  IsSorted (x ∷ xs) = All (λ y. less y x ≡ false) xs × IsSorted xs

  pub insert_sorted-perm : (x : A) (xs : List A) → Permᴰ (insert_sorted x xs) (x ∷ xs)
  unfolding insert_sorted
  insert_sorted-perm x [] = Permᴰ.refl (x ∷ [])
  insert_sorted-perm x (y ∷ ys) = elim (Bool-cases (less y x)) [
    | inl h ↦ rw h (Permᴰ.trans (Permᴰ.cons refl (insert_sorted-perm x ys)) (Permᴰ.swap refl refl))
    | inr h ↦ rw h (Permᴰ.refl (x ∷ y ∷ ys))
  ]

  -- Sorting loses and adds nothing.
  pub sort-perm : (xs : List A) → Permᴰ (sort xs) xs
  unfolding sort
  sort-perm [] = Permᴰ.nil
  sort-perm (x ∷ xs) = Permᴰ.trans (insert_sorted-perm x (sort xs)) (Permᴰ.cons refl (sort-perm xs))

  module _ (order : IsStrictOrder less) where
    All-weaken :
        (x y : A) (ys : List A)
        → less y x ≡ false
        → All (λ z. less z y ≡ false) ys
        → All (λ z. less z x ≡ false) ys
    All-weaken x y [] h all = tt
    All-weaken x y (z ∷ zs) h (first, rest) =
        (order.trans_not x y z h first, All-weaken x y zs h rest)

    All-insert_sorted :
        (z x : A) (ys : List A)
        → less x z ≡ false
        → All (λ y. less y z ≡ false) ys
        → All (λ y. less y z ≡ false) (insert_sorted x ys)
    unfolding insert_sorted
    All-insert_sorted z x [] h all = (h, tt)
    All-insert_sorted z x (y ∷ ys) h (first, rest) = elim (Bool-cases (less y x)) [
      | inl e ↦ rw e (first, All-insert_sorted z x ys h rest)
      | inr e ↦ rw e (h, (first, rest))
    ]

    insert_sorted-IsSorted : (x : A) (ys : List A) → IsSorted ys → IsSorted (insert_sorted x ys)
    unfolding insert_sorted
    insert_sorted-IsSorted x [] s = (tt, tt)
    insert_sorted-IsSorted x (y ∷ ys) (least, s) = elim (Bool-cases (less y x)) [
      | inl e ↦
          rw e (All-insert_sorted y x ys (order.asymm y x e) least, insert_sorted-IsSorted x ys s)
      | inr e ↦ rw e ((e, All-weaken x y ys e least), (least, s))
    ]

    pub sort-IsSorted : (xs : List A) → IsSorted (sort xs)
    unfolding sort
    sort-IsSorted [] = tt
    sort-IsSorted (x ∷ xs) = insert_sorted-IsSorted x (sort xs) (sort-IsSorted xs)

    module _ (total : (a b : A) → less a b ≡ false → less b a ≡ false → a ≡ b) where
      insert_sorted_comm :
          (a b : A) (ys : List A)
          → insert_sorted a (insert_sorted b ys) ≡ insert_sorted b (insert_sorted a ys)
      unfolding insert_sorted
      insert_sorted_comm a b [] = ground (arith, total a b, order.asymm a b, order.asymm b a)
      insert_sorted_comm a b (y ∷ ys) = ground (
        arith,
        insert_sorted_comm a b ys,
        total a b,
        order.asymm a b,
        order.asymm b a,
        order.asymm y a,
        order.asymm y b,
        order.trans_not a b y,
        order.trans_not b a y,
        order.trans_not a y b,
        order.trans_not b y a,
      )

      -- The sorted list is the same for every order of the input.
      pub sort-eq_of_perm : {xs ys : List A} → Permᴰ xs ys → sort xs ≡ sort ys
      unfolding sort
      sort-eq_of_perm Permᴰ.nil = refl
      sort-eq_of_perm (Permᴰ.cons e p) = ap₂ insert_sorted e (sort-eq_of_perm p)
      sort-eq_of_perm (Permᴰ.swap {a} {b} {l} e d) = insert_sorted_comm a b (sort l) ∙ rw (e, d)
      sort-eq_of_perm (Permᴰ.trans p q) = sort-eq_of_perm p ∙ sort-eq_of_perm q

module _ {ℓ} {A : Type ℓ} where
  -- A property of all elements survives sorting.
  pub All-perm {κ} : (P : A → Type κ) {xs ys : List A} → Permᴰ xs ys → All P ys → All P xs
  All-perm P Permᴰ.nil h = h
  All-perm P (Permᴰ.cons e p) (first, rest) = (rw e first, All-perm P p rest)
  All-perm P (Permᴰ.swap e d) (first, (second, rest)) = (rw e second, (rw d first, rest))
  All-perm P (Permᴰ.trans p q) h = All-perm P p (All-perm P q h)

  pub length-perm : {xs ys : List A} → Permᴰ xs ys → length xs ≡ length ys
  length-perm Permᴰ.nil = refl
  length-perm (Permᴰ.cons e p) = ap suc (length-perm p)
  length-perm (Permᴰ.swap e d) = refl
  length-perm (Permᴰ.trans p q) = length-perm p ∙ length-perm q

  pub mem-perm : {a : A} {xs ys : List A} → Permᴰ xs ys → Memᴰ a xs → Memᴰ a ys
  mem-perm Permᴰ.nil m = elim m [ ]
  mem-perm (Permᴰ.cons e p) (Memᴰ.head d) = Memᴰ.head (d ∙ e)
  mem-perm (Permᴰ.cons e p) (Memᴰ.tail m) = Memᴰ.tail (mem-perm p m)
  mem-perm (Permᴰ.swap e d) (Memᴰ.head c) = Memᴰ.tail (Memᴰ.head (c ∙ e))
  mem-perm (Permᴰ.swap e d) (Memᴰ.tail (Memᴰ.head c)) = Memᴰ.head (c ∙ d)
  mem-perm (Permᴰ.swap e d) (Memᴰ.tail (Memᴰ.tail m)) = Memᴰ.tail (Memᴰ.tail m)
  mem-perm (Permᴰ.trans p q) m = mem-perm q (mem-perm p m)

  pub All-mem {κ} : (P : A → Type κ) {a : A} (xs : List A) → All P xs → Memᴰ a xs → P a
  All-mem P [] h m = elim m [ ]
  All-mem P (x ∷ xs) (h, rest) (Memᴰ.head e) = rw e h
  All-mem P (x ∷ xs) (h, rest) (Memᴰ.tail m) = All-mem P xs rest m

module _ {ℓ} {A : Type ℓ} (less : A → A → Bool) (order : IsStrictOrder less) where
  irrefl : (a : A) → less a a ≡ false
  irrefl a = ground (arith, order.asymm a a)

  -- The first element of the sorted list is one of the input, and none of the input is below it.
  pub sort-first :
      (xs : List A) {c : A} {cs : List A}
      → sort less xs ≡ c ∷ cs
      → Memᴰ c xs × ((z : A) → Memᴰ z xs → less z c ≡ false)
  sort-first xs {c} {cs} e = (
    mem-perm (sort-perm less xs) (rw e (Memᴰ.head refl)),
    λ z m.
        least z (rw e at (mem-perm (Permᴰ.symm (sort-perm less xs)) m))
          (rw e at (sort-IsSorted less order xs)),
  )
    where
      least : (z : A) → Memᴰ z (c ∷ cs) → IsSorted less (c ∷ cs) → less z c ≡ false
      least z (Memᴰ.head d) s = rw d (irrefl c)
      least z (Memᴰ.tail m) (below, s) = All-mem (λ y. less y c ≡ false) cs below m
