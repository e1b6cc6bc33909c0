-- ===== src/BuildFeed/Proofs.antt =====
-- Proofs about custom_components/panel_assistant/build_feed.py.
use ha_paneld_home_assistant.Prelude.{
  ℕ, ◌≤◌, ◌<◌, ◌≡◌, ◌≢◌, refl, subst, ◌∙◌, Bool, true, false, not, some, some_eq, List, [], ◌∷◌,
  arith, length, leb, ◌==◌, ==_iff, leb→le, Text, codes, All, any, Bool-cases, inl, inr,
  and-eq-true, Gives-some, Gives-bind, Gives-check, chars_in, ltb, mem_text,
}
use ha_paneld_home_assistant.Value.{item, is_text}
use ha_paneld_home_assistant.Web.{Web, Url}
use ha_paneld_home_assistant.Release.Descriptor.{
  text_of, verify_detached_signature, canonical_fields,
}
use ha_paneld_home_assistant.InstallJobs.Document.{items_of, item_count, insert_by}
use ha_paneld_home_assistant.InstallJobs.Proofs.Ranks.{insert_by-All, sort_by-All}
use ha_paneld_home_assistant.BuildFeed.Build.{FeedBuild}
use ha_paneld_home_assistant.BuildFeed.Feed.{
  BuildFeed, newest, first_build, find, find_build, codes_distinct, newest_first, parse_builds,
  parse_build_feed, max_feed_bytes, max_feed_builds, feed_fields, feed_schema, feed_channels,
}
use ha_paneld_home_assistant.BuildFeed.Codes.{HasCode, parse_builds-HasCode}

-- Every build comes before those of a lower version code, and no two have one code.
abbrev pub Descending : List FeedBuild → Type 0
Descending [] = Unit
Descending (b ∷ bs) = All (λ c. c.version_code < b.version_code) bs × Descending bs

abbrev newer_first : FeedBuild → FeedBuild → Bool
newer_first a b = leb b.version_code a.version_code

below-All :
    (m n : ℕ) (ys : List FeedBuild)
    → m < n
    → All (λ c. c.version_code < m) ys
    → All (λ c. c.version_code < n) ys
below-All m n [] lt all = tt
below-All m n (y ∷ ys) lt (h, all) = (omega (arith, h, lt), below-All m n ys lt all)

insert_by-Descending :
    (x : FeedBuild) (ys : List FeedBuild)
    → All (λ c. x.version_code ≢ c.version_code) ys
    → Descending ys
    → Descending (insert_by newer_first x ys)
unfolding insert_by
insert_by-Descending x [] new h = (tt, tt)
insert_by-Descending x (y ∷ ys) (other, new) (all, h) =
    elim (Bool-cases (leb y.version_code x.version_code)) [
      | inl newer ↦
          let lt : y.version_code < x.version_code = omega (arith, leb→le _ _ newer, other) in
          rw newer ((lt, below-All y.version_code x.version_code ys lt all), (all, h))
      | inr older ↦ rw older (
        insert_by-All newer_first (λ c. c.version_code < y.version_code) x ys (ground arith) all,
        insert_by-Descending x ys new h,
      )
    ]

All-others :
    (n : ℕ) (bs : List FeedBuild)
    → any (λ c. n == c.version_code) bs ≡ false
    → All (λ c. n ≢ c.version_code) bs
unfolding any
All-others n [] h = tt
All-others n (b ∷ bs) h = (ground arith, All-others n bs (ground arith))

newest_first-Descending :
    (bs : List FeedBuild) → codes_distinct bs ≡ true → Descending (newest_first bs)
unfolding newest_first codes_distinct
newest_first-Descending [] h = tt
newest_first-Descending (b ∷ bs) h =
    let (new, rest) = and-eq-true (not (any (λ c. b.version_code == c.version_code) bs)) _ h in
    insert_by-Descending b (newest_first bs)
      (sort_by-All newer_first _ bs (All-others b.version_code bs (ground arith)))
      (newest_first-Descending bs rest)

-- A feed that was authenticated and parsed.
pub record IsFeed (w : Web) (body signature : Text) (feed : BuildFeed) : Type 0 where
  pub verified : verify_detached_signature w body signature ≡ some tt
  pub small : length body ≤ max_feed_bytes
  pub raw : (feed.raw ≡ body) × (feed.signature ≡ signature)
  pub channel : mem_text feed.channel feed_channels ≡ true
  pub descending : Descending feed.builds
  pub in_range : All HasCode feed.builds

-- The bytes of a feed that is parsed carry a valid signature of the release key and are kept; its
-- channel is a known one, and its builds have distinct codes that Android allows, the highest first.
pub parse_build_feed-IsFeed :
    (w : Web) (body signature : Text) (feed_url : Url) (feed : BuildFeed)
    → parse_build_feed w body signature feed_url ≡ some feed
    → IsFeed w body signature feed
unfolding parse_build_feed newest_first
parse_build_feed-IsFeed w body signature feed_url =
    Gives-check _ (leb (length body) max_feed_bytes) _ λ small.
      Gives-bind _ (verify_detached_signature w body signature) _ λ u verified.
        Gives-check _ (chars_in (λ c. ltb c 128) body) _ λ ascii.
          Gives-bind _ (canonical_fields w feed_fields body) _ λ fields canonical.
            Gives-bind _ (item (codes "schema") fields) _ λ schema has_schema.
              Gives-check _ (is_text feed_schema schema) _ λ is_schema.
                Gives-bind _ (item (codes "channel") fields) _ λ named has_channel.
                  Gives-bind _ (text_of named) _ λ channel is_channel.
                    Gives-check _ (mem_text channel feed_channels) _ λ known.
                      Gives-bind _ (item (codes "builds") fields) _ λ listed has_builds.
                        Gives-bind _ (items_of listed) _ λ entries is_list.
                          Gives-check _ (leb (item_count entries) max_feed_builds) _ λ few.
                            Gives-bind _ (parse_builds w feed_url entries) _ λ builds parsed.
                              Gives-check _ (codes_distinct builds) _ λ distinct.
                                Gives-some _ _ (record {
                                  verified = verified;
                                  small = leb→le _ _ small;
                                  raw = (refl, refl);
                                  channel = known;
                                  descending = newest_first-Descending builds distinct;
                                  in_range =
                                      sort_by-All newer_first HasCode builds
                                        (parse_builds-HasCode w feed_url entries builds parsed);
                                })

find_build-code :
    (n : ℕ) (bs : List FeedBuild) {b : FeedBuild} → find_build n bs ≡ some b → b.version_code ≡ n
unfolding find_build
find_build-code n [] h = cc
find_build-code n (c ∷ bs) {b = b} h = elim (Bool-cases (c.version_code == n)) [
  | inl same ↦
      subst (λ (x : FeedBuild). x.version_code ≡ n) (some_eq (rw same at h))
        ((==_iff c.version_code n).0 same)
  | inr other ↦ find_build-code n bs (rw other at h)
]

find_build-skips :
    (n : ℕ) (b : FeedBuild) (bs : List FeedBuild)
    → n < b.version_code
    → find_build n (b ∷ bs) ≡ find_build n bs
unfolding find_build
find_build-skips n b bs h = ground (arith, h)

find_build-lower :
    (b : FeedBuild) (cs bs : List FeedBuild)
    → All (λ c. c.version_code < b.version_code) cs
    → All (λ c. find_build c.version_code bs ≡ some c) cs
    → All (λ c. find_build c.version_code (b ∷ bs) ≡ some c) cs
find_build-lower b [] bs lower found = tt
find_build-lower b (c ∷ cs) bs (lt, lower) (e, found) =
    (find_build-skips c.version_code b bs lt ∙ e, find_build-lower b cs bs lower found)

find_build-All :
    (bs : List FeedBuild) → Descending bs → All (λ b. find_build b.version_code bs ≡ some b) bs
unfolding find_build
find_build-All [] h = tt
find_build-All (b ∷ bs) (lower, h) = (
  rw ((==_iff b.version_code b.version_code).1 refl),
  find_build-lower b bs bs lower (find_build-All bs h),
)

first_build-highest :
    (bs : List FeedBuild) {b : FeedBuild}
    → Descending bs
    → first_build bs ≡ some b
    → All (λ c. c.version_code ≤ b.version_code) bs
unfolding first_build
first_build-highest [] h e = tt
first_build-highest (c ∷ bs) (lower, h) e =
    subst (λ (b : FeedBuild). All (λ d. d.version_code ≤ b.version_code) (c ∷ bs)) (some_eq e)
      (omega arith, at_most c.version_code bs lower)
  where
    at_most :
        (n : ℕ) (ds : List FeedBuild)
        → All (λ d. d.version_code < n) ds
        → All (λ d. d.version_code ≤ n) ds
    at_most n [] all = tt
    at_most n (d ∷ ds) (lt, all) = (omega (arith, lt), at_most n ds all)

-- In a feed that was parsed the newest build has the highest code, a search by a code finds a build
-- of that code only, and it finds every build of the feed.
pub parse_build_feed-find :
    (w : Web) (body signature : Text) (feed_url : Url) (feed : BuildFeed)
    → parse_build_feed w body signature feed_url ≡ some feed
    → ((b : FeedBuild)
        → newest feed ≡ some b
        → All (λ c. c.version_code ≤ b.version_code) feed.builds)
      × ((n : ℕ) (b : FeedBuild) → find feed n ≡ some b → b.version_code ≡ n)
      × All (λ b. find feed b.version_code ≡ some b) feed.builds
unfolding newest find
parse_build_feed-find w body signature feed_url feed h =
    let is_feed = parse_build_feed-IsFeed w body signature feed_url feed h in
    (
      λ b e. first_build-highest feed.builds is_feed.descending e,
      λ n b e. find_build-code n feed.builds e,
      find_build-All feed.builds is_feed.descending,
    )
