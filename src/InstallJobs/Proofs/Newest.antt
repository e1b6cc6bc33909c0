-- ===== src/InstallJobs/Proofs/Newest.antt =====
-- The order of `_prune`: by the time of the last update, and by the identifier among equal times.
use ha_paneld_home_assistant.Prelude.{
  ◌≡◌, refl, Bool, true, false, ◌&&◌, ◌||◌, [], ◌∷◌, arith, Text, text_eq, text_ltb, text_eq_iff,
}
use ha_paneld_home_assistant.InstallJobs.Receipt.{InstallJobReceipt}
use ha_paneld_home_assistant.InstallJobs.Document.{pair_le}
use ha_paneld_home_assistant.InstallJobs.Proofs.Ranks.{Sorts}

text_ltb_irrefl : (s : Text) → text_ltb s s ≡ false
unfolding text_ltb
text_ltb_irrefl [] = refl
text_ltb_irrefl (c ∷ s) = ground (arith, text_ltb_irrefl s)

text_ltb_trans : (s t u : Text) → text_ltb s t ≡ true → text_ltb t u ≡ true → text_ltb s u ≡ true
unfolding text_ltb
text_ltb_trans [] [] u h k = cc
text_ltb_trans [] (b ∷ t) [] h k = cc
text_ltb_trans [] (b ∷ t) (c ∷ u) h k = refl
text_ltb_trans (a ∷ s) [] u h k = cc
text_ltb_trans (a ∷ s) (b ∷ t) [] h k = cc
text_ltb_trans (a ∷ s) (b ∷ t) (c ∷ u) h k = ground (arith, h, k, text_ltb_trans s t u)

text_ltb_total : (s t : Text) → text_ltb s t ≡ false → text_eq s t ≡ false → text_ltb t s ≡ true
unfolding text_ltb text_eq
text_ltb_total [] [] h k = cc
text_ltb_total [] (b ∷ t) h k = cc
text_ltb_total (a ∷ s) [] h k = refl
text_ltb_total (a ∷ s) (b ∷ t) h k = ground (arith, h, k, text_ltb_total s t)

-- `<` on pairs of texts.
abbrev pair_ltb : Text → Text → Text → Text → Bool
pair_ltb u i v j = text_ltb u v || (text_eq u v && text_ltb i j)

pair_ltb_trans :
    (u i v j w k : Text)
    → pair_ltb u i v j ≡ true
    → pair_ltb v j w k ≡ true
    → pair_ltb u i w k ≡ true
pair_ltb_trans u i v j w k h1 h2 = ground (
  arith,
  h1,
  h2,
  text_ltb_trans u v w,
  text_ltb_trans i j k,
  text_eq_iff u v,
  text_eq_iff v w,
  text_eq_iff u w,
)

pair_le-before :
    (u i v j : Text) → text_eq i j ≡ false → pair_le (u, i) (v, j) ≡ true → pair_ltb u i v j ≡ true
unfolding pair_le
pair_le-before u i v j apart h =
    ground (arith, h, text_ltb_total j i, text_eq_iff i j, text_eq_iff j i)

pair_le-after :
    (u i v j : Text) → text_eq i j ≡ false → pair_le (u, i) (v, j) ≡ false → pair_ltb v j u i ≡ true
unfolding pair_le
pair_le-after u i v j apart h =
    ground (arith, h, text_ltb_total u v, text_eq_iff u v, text_eq_iff v u)

pub other_way : (i j : Text) → text_eq i j ≡ false → text_eq j i ≡ false
other_way i j h = ground (arith, h, text_eq_iff i j, text_eq_iff j i)

-- Updated later, or at the same time with a higher identifier.
abbrev pub newer : InstallJobReceipt → InstallJobReceipt → Bool
newer a b =
    text_ltb b.updated_at a.updated_at
    || (text_eq b.updated_at a.updated_at && text_ltb b.job_id a.job_id)

abbrev pub newest_le : InstallJobReceipt → InstallJobReceipt → Bool
newest_le a b = pair_le (b.updated_at, b.job_id) (a.updated_at, a.job_id)

abbrev pub HasOtherId : InstallJobReceipt → InstallJobReceipt → Type 0
HasOtherId a b = text_eq a.job_id b.job_id ≡ false

pub newest-Sorts : Sorts newer newest_le HasOtherId
newest-Sorts = record {
  irrefl = λ a. ground (arith, text_ltb_irrefl a.updated_at, text_ltb_irrefl a.job_id);
  trans = λ a b c h k.
      pair_ltb_trans c.updated_at c.job_id b.updated_at b.job_id a.updated_at a.job_id k h;
  before = λ a b apart h.
      pair_le-before b.updated_at b.job_id a.updated_at a.job_id (other_way a.job_id b.job_id apart)
        h;
  after = λ a b apart h.
      pair_le-after b.updated_at b.job_id a.updated_at a.job_id (other_way a.job_id b.job_id apart)
        h;
}
