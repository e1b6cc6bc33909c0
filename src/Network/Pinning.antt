-- ===== src/Network/Pinning.antt =====
-- Pins of custom_components/panel_assistant/install_network.py: what is chosen, and that it holds.
use ha_paneld_home_assistant.Prelude.{
  ◌≡◌, ◌↔◌, refl, sym, subst, true, false, none, some, some_eq, List, [], ◌∷◌, arith, text_eq_iff,
  text_eq_refl, All, any, ==_iff, Bool-cases, inl, inr,
}
use ha_paneld_home_assistant.Platform.{IpAddress, v4, v6, ip_eq}
use ha_paneld_home_assistant.Network.{is_allowed_install_address}
use ha_paneld_home_assistant.Network.Resolver.{key_le, least, preferred_address}

abbrev pub Allowed : IpAddress → Type 0
Allowed a = is_allowed_install_address a ≡ true

ip_eq_refl : (a : IpAddress) → ip_eq a a ≡ true
unfolding ip_eq
ip_eq_refl (v4 n) = (==_iff n n).1 refl
ip_eq_refl (v6 n none) = ground arith
ip_eq_refl (v6 n (some s)) = ground (arith, text_eq_refl s)

ip_eq_sound : (a b : IpAddress) → ip_eq a b ≡ true → a ≡ b
unfolding ip_eq
ip_eq_sound (v4 m) (v4 n) h = ground arith
ip_eq_sound (v6 m none) (v6 n none) h = ground arith
ip_eq_sound (v6 m (some s)) (v6 n (some t)) h = ground (arith, text_eq_iff s t)
ip_eq_sound (v6 m none) (v6 n (some t)) h = ground arith
ip_eq_sound (v6 m (some s)) (v6 n none) h = ground arith
ip_eq_sound (v4 m) (v6 n t) h = cc
ip_eq_sound (v6 m s) (v4 n) h = cc

-- `address in addresses`
abbrev pub In : IpAddress → List IpAddress → Type 0
In a xs = any (ip_eq a) xs ≡ true

pub All-In :
    (P : IpAddress → Type 0) (xs : List IpAddress) (a : IpAddress) → All P xs → In a xs → P a
unfolding any
All-In P (x ∷ xs) a (px, rest) h = elim (Bool-cases (ip_eq a x)) [
  | inl same ↦ subst P (sym (ip_eq_sound a x same)) px
  | inr other ↦ All-In P xs a rest (rw other at h)
]
All-In P [] a all h = cc

In-cons : (a x : IpAddress) (xs : List IpAddress) → In a xs → In a (x ∷ xs)
unfolding any
In-cons a x xs h = ground arith

pub In-self : (a : IpAddress) (xs : List IpAddress) → In a (a ∷ xs)
unfolding any
In-self a xs = ground (arith, ip_eq_refl a)

In-swap : (a x y : IpAddress) (xs : List IpAddress) → In a (x ∷ xs) → In a (x ∷ y ∷ xs)
unfolding any
In-swap a x y xs h = ground arith

-- No address of the list comes before the one that is preferred.
abbrev pub IsLeast : IpAddress → List IpAddress → Type 0
IsLeast a xs = In a xs × All (λ b. key_le a b ≡ true) xs

key_le_refl : (a : IpAddress) → key_le a a ≡ true
unfolding key_le
key_le_refl (v4 n) = ground arith
key_le_refl (v6 n s) = ground arith

key_le_trans : (a b c : IpAddress) → key_le a b ≡ true → key_le b c ≡ true → key_le a c ≡ true
unfolding key_le
key_le_trans (v4 m) (v4 n) (v4 k) h1 h2 = ground arith
key_le_trans (v4 m) (v4 n) (v6 k s) h1 h2 = refl
key_le_trans (v4 m) (v6 n s) (v4 k) h1 h2 = cc
key_le_trans (v4 m) (v6 n s) (v6 k t) h1 h2 = refl
key_le_trans (v6 m s) (v4 n) c h1 h2 = cc
key_le_trans (v6 m s) (v6 n t) (v4 k) h1 h2 = cc
key_le_trans (v6 m s) (v6 n t) (v6 k u) h1 h2 = ground arith

key_le_total : (a b : IpAddress) → key_le a b ≡ false → key_le b a ≡ true
unfolding key_le
key_le_total (v4 m) (v4 n) h = ground arith
key_le_total (v4 m) (v6 n s) h = cc
key_le_total (v6 m s) (v4 n) h = refl
key_le_total (v6 m s) (v6 n t) h = ground arith

key_le_antisym :
    (a b : IpAddress) → Allowed a → Allowed b → key_le a b ≡ true → key_le b a ≡ true → a ≡ b
unfolding key_le is_allowed_install_address
key_le_antisym (v4 m) (v4 n) ha hb h1 h2 = ground arith
key_le_antisym (v4 m) (v6 n s) ha hb h1 h2 = cc
key_le_antisym (v6 m s) (v4 n) ha hb h1 h2 = cc
key_le_antisym (v6 m none) (v6 n none) ha hb h1 h2 = ground arith
key_le_antisym (v6 m (some s)) (v6 n t) ha hb h1 h2 = cc
key_le_antisym (v6 m none) (v6 n (some t)) ha hb h1 h2 = cc

All-le :
    (a b : IpAddress) (xs : List IpAddress)
    → key_le a b ≡ true
    → All (λ c. key_le b c ≡ true) xs
    → All (λ c. key_le a c ≡ true) xs
All-le a b [] h all = tt
All-le a b (x ∷ xs) h (first, rest) = (key_le_trans a b x h first, All-le a b xs h rest)

least-before :
    (a b : IpAddress) (bs : List IpAddress) → key_le a b ≡ true → least a (b ∷ bs) ≡ least a bs
unfolding least
least-before a b bs h = rw h

least-after :
    (a b : IpAddress) (bs : List IpAddress) → key_le a b ≡ false → least a (b ∷ bs) ≡ least b bs
unfolding least
least-after a b bs h = rw h

least-IsLeast : (a : IpAddress) (xs : List IpAddress) → IsLeast (least a xs) (a ∷ xs)
unfolding least
least-IsLeast a [] = (In-self a [], (key_le_refl a, tt))
least-IsLeast a (b ∷ bs) = elim (Bool-cases (key_le a b)) [
  | inl before ↦
      let (found, (first, rest)) = least-IsLeast a bs in
      subst (λ x. IsLeast x (a ∷ b ∷ bs)) (sym (least-before a b bs before))
        (In-swap _ a b bs found, (first, (key_le_trans _ a b first before, rest)))
  | inr after ↦
      let (found, (first, rest)) = least-IsLeast b bs in
      subst (λ x. IsLeast x (a ∷ b ∷ bs)) (sym (least-after a b bs after))
        (
          In-cons _ a (b ∷ bs) found,
          (key_le_trans _ b a first (key_le_total a b after), (first, rest)),
        )
]

pub preferred-IsLeast :
    (xs : List IpAddress) {a : IpAddress} → preferred_address xs ≡ some a → IsLeast a xs
unfolding preferred_address
preferred-IsLeast [] h = cc
preferred-IsLeast (x ∷ xs) h = subst (λ a. IsLeast a (x ∷ xs)) (some_eq h) (least-IsLeast x xs)

-- The address that is preferred among allowed ones depends on which addresses there are, not on
-- their order or how often a resolver names them.
pub preferred_address-unordered :
    (xs ys : List IpAddress) (a b : IpAddress)
    → All Allowed xs
    → ((c : IpAddress) → In c xs ↔ In c ys)
    → preferred_address xs ≡ some a
    → preferred_address ys ≡ some b
    → a ≡ b
preferred_address-unordered xs ys a b allowed same ha hb =
    let (a_in, a_least) = preferred-IsLeast xs ha in
    let (b_in, b_least) = preferred-IsLeast ys hb in
    let b_there = (same b).1 b_in in
    key_le_antisym a b (All-In Allowed xs a allowed a_in) (All-In Allowed xs b allowed b_there)
      (All-In _ xs b a_least b_there) (All-In _ ys a b_least ((same a).0 a_in))
