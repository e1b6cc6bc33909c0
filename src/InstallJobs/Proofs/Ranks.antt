-- ===== src/InstallJobs/Proofs/Ranks.antt =====
-- Insertion sort by an order that decides between any two elements that stand apart: the first `n`
-- elements are those that fewer than `n` others come before.
use ha_paneld_home_assistant.Prelude.{
  ℕ, zero, suc, ◌<◌, ◌≡◌, ◌↔◌, ◌⊎◌, refl, sym, ap, subst, ◌∙◌, Bool, true, false, List, [], ◌∷◌,
  arith, take, All, Bool-cases, inl, inr, if◌then◌else◌,
}
use ha_paneld_home_assistant.InstallJobs.Document.{sort_by, insert_by}
use ha_paneld_home_assistant.InstallJobs.Proofs.Entries.{Pairwise, All-map}

abbrev pub Any : {A : Type 0} → (A → Type 0) → List A → Type 0
Any P [] = ⊥
Any P (x ∷ xs) = P x ⊎ Any P xs

abbrev pub count : {A : Type 0} → (A → Bool) → List A → ℕ
count f [] = 0
count f (x ∷ xs) = if f x then suc (count f xs) else count f xs

pub Any-map :
    {A : Type 0} {Q P R : A → Type 0} (xs : List A)
    → ((x : A) → Q x → P x → R x)
    → All Q xs
    → Any P xs
    → Any R xs
Any-map [] f all found = found
Any-map (x ∷ xs) f (q, all) (inl h) = inl (f x q h)
Any-map (x ∷ xs) f (q, all) (inr found) = inr (Any-map xs f all found)

pub all_trivial : {A : Type 0} (xs : List A) → All (λ x. Unit {0}) xs
all_trivial [] = tt
all_trivial (x ∷ xs) = (tt, all_trivial xs)

module _ {A : Type 0} (le : A → A → Bool) where
  module _ (P : A → Type 0) where
    pub insert_by-All : (x : A) (ys : List A) → P x → All P ys → All P (insert_by le x ys)
    unfolding insert_by
    insert_by-All x [] h hs = (h, tt)
    insert_by-All x (y ∷ ys) h hs = elim (Bool-cases (le x y)) [
      | inl e ↦ rw e (h, hs)
      | inr e ↦ rw e (hs.0, insert_by-All x ys h hs.1)
    ]

    pub sort_by-All : (xs : List A) → All P xs → All P (sort_by le xs)
    unfolding sort_by
    sort_by-All [] h = tt
    sort_by-All (x ∷ xs) h = insert_by-All x (sort_by le xs) h.0 (sort_by-All xs h.1)

    insert_by-Any : (x : A) (ys : List A) → Any P (insert_by le x ys) ↔ (P x ⊎ Any P ys)
    unfolding insert_by
    insert_by-Any x [] = ((λ h. h), λ h. h)
    insert_by-Any x (y ∷ ys) =
        let rest = insert_by-Any x ys in
        elim (Bool-cases (le x y)) [
          | inl e ↦ rw e ((λ h. h), λ h. h)
          | inr e ↦ rw e (
            λ h. elim h [
              | inl first ↦ inr (inl first)
              | inr later ↦ elim (rest.0 later) [
                | inl here ↦ inl here
                | inr there ↦ inr (inr there)
              ]
            ],
            λ h. elim h [
              | inl here ↦ inr (rest.1 (inl here))
              | inr there ↦ elim there [
                | inl first ↦ inl first
                | inr later ↦ inr (rest.1 (inr later))
              ]
            ],
          )
        ]

    pub sort_by-Any : (xs : List A) → Any P (sort_by le xs) ↔ Any P xs
    unfolding sort_by
    sort_by-Any [] = ((λ h. h), λ h. h)
    sort_by-Any (x ∷ xs) =
        let rest = sort_by-Any xs in
        let one = insert_by-Any x (sort_by le xs) in
        (
          λ h. elim (one.0 h) [ inl here ↦ inl here | inr there ↦ inr (rest.0 there) ],
          λ h. one.1 (elim h [ inl here ↦ inl here | inr there ↦ inr (rest.1 there) ]),
        )

  insert_by-count :
      (f : A → Bool) (x : A) (ys : List A) → count f (insert_by le x ys) ≡ count f (x ∷ ys)
  unfolding insert_by
  insert_by-count f x [] = refl
  insert_by-count f x (y ∷ ys) = ground (arith, insert_by-count f x ys)

  pub sort_by-count : (f : A → Bool) (xs : List A) → count f (sort_by le xs) ≡ count f xs
  unfolding sort_by
  sort_by-count f [] = refl
  sort_by-count f (x ∷ xs) =
      insert_by-count f x (sort_by le xs) ∙ ap (λ n. if f x then suc n else n) (sort_by-count f xs)

-- `newer` is the strict order by which `le` sorts, the newest first.
pub record Sorts {A : Type 0} (newer le : A → A → Bool) (Apart : A → A → Type 0) : Type 0 where
  pub irrefl : (a : A) → newer a a ≡ false
  pub trans : (a b c : A) → newer a b ≡ true → newer b c ≡ true → newer a c ≡ true
  pub before : (a b : A) → Apart a b → le a b ≡ true → newer a b ≡ true
  pub after : (a b : A) → Apart a b → le a b ≡ false → newer b a ≡ true

module _ {A : Type 0} (newer le : A → A → Bool) (Apart : A → A → Type 0)
    (o : Sorts newer le Apart) where
  abbrev Descending : List A → Type 0
  Descending = Pairwise (λ a b. newer a b ≡ true)

  insert_by-Descending :
      (x : A) (ys : List A) → All (Apart x) ys → Descending ys → Descending (insert_by le x ys)
  unfolding insert_by
  insert_by-Descending x [] apart h = (tt, tt)
  insert_by-Descending x (y ∷ ys) (other, apart) (all, h) = elim (Bool-cases (le x y)) [
    | inl e ↦
        let first = o.before x y other e in
        rw e ((first, All-map ys (λ z n. o.trans x y z first n) all), (all, h))
    | inr e ↦ rw e (
      insert_by-All le (λ z. newer y z ≡ true) x ys (o.after x y other e) all,
      insert_by-Descending x ys apart h,
    )
  ]

  sort_by-Descending : (xs : List A) → Pairwise Apart xs → Descending (sort_by le xs)
  unfolding sort_by
  sort_by-Descending [] h = tt
  sort_by-Descending (x ∷ xs) (apart, h) =
      insert_by-Descending x (sort_by le xs) (sort_by-All le (Apart x) xs apart)
        (sort_by-Descending xs h)

  none_newer :
      (x : A) (xs : List A) → All (λ t. newer x t ≡ true) xs → count (λ t. newer t x) xs ≡ 0
  none_newer x [] all = refl
  none_newer x (t ∷ xs) (h, all) = elim (Bool-cases (newer t x)) [
    | inl e ↦ cc (o.trans x t x h e, o.irrefl x)
    | inr e ↦ rw e (none_newer x xs all)
  ]

  -- Fewer than `n` elements of the list are newer.
  abbrev IsAmong : ℕ → List A → A → Type 0
  IsAmong n xs s = count (λ t. newer t s) xs < n

  take-IsAmong :
      (P : A → Type 0) (n : ℕ) (xs : List A)
      → Descending xs
      → Any P (take n xs) ↔ Any (λ s. P s × IsAmong n xs s) xs
  take-IsAmong P zero [] d = ((λ h. h), λ h. h)
  take-IsAmong P zero (x ∷ xs) d =
      ((λ h. absurd h), λ h. nowhere (λ s. count (λ t. newer t s) (x ∷ xs)) (x ∷ xs) h)
    where
      nowhere : (f : A → ℕ) (ys : List A) → Any (λ s. P s × (f s < 0)) ys → ⊥
      nowhere f [] h = h
      nowhere f (y ∷ ys) (inl h) = absurd (omega (arith, h.1))
      nowhere f (y ∷ ys) (inr h) = nowhere f ys h
  take-IsAmong P (suc n) [] d = ((λ h. h), λ h. h)
  take-IsAmong P (suc n) (x ∷ xs) (all, d) =
      let rest = take-IsAmong P n xs d in
      let least : count (λ t. newer t x) (x ∷ xs) ≡ 0 = rw (o.irrefl x) (none_newer x xs all) in
      (
        λ h. elim h [
          | inl here ↦ inl (here, omega (arith, least))
          | inr there ↦ inr (
              Any-map {Q = λ s. newer x s ≡ true} xs (λ s n (q, r). (q, rw n (omega (arith, r))))
                all (rest.0 there))
        ],
        λ h. elim h [
          | inl here ↦ inl here.0
          | inr there ↦ inr (
              rest.1
                (Any-map {Q = λ s. newer x s ≡ true} xs (λ s n (q, r). (q, lower s n r)) all there))
        ],
      )
    where
      lower : (s : A) → newer x s ≡ true → IsAmong (suc n) (x ∷ xs) s → IsAmong n xs s
      lower s e r = let r2 = rw e at r in omega (arith, r2)

  -- The first `n` of the sorted list.
  pub take-sort_by :
      (P : A → Type 0) (n : ℕ) (xs : List A)
      → Pairwise Apart xs
      → Any P (take n (sort_by le xs)) ↔ Any (λ s. P s × IsAmong n xs s) xs
  take-sort_by P n xs apart =
      let ranked = take-IsAmong P n (sort_by le xs) (sort_by-Descending xs apart) in
      let same = λ (s : A). sort_by-count le (λ t. newer t s) xs in
      let back = sort_by-Any le (λ s. P s × IsAmong n xs s) xs in
      (
        λ h. back.0 (
            Any-map (sort_by le xs) (λ s u (q, r). (q, subst (λ m. m < n) (same s) r))
              (all_trivial _) (ranked.0 h)),
        λ h. ranked.1 (
            Any-map (sort_by le xs) (λ s u (q, r). (q, subst (λ m. m < n) (sym (same s)) r))
              (all_trivial _) (back.1 h)),
      )
