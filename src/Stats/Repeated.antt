-- ===== src/Stats/Repeated.antt =====
-- Statistics that are applied again for one game: src/game/stats/game-stats.service.ts.
use livepoly_server.Base.{
  ℕ, ◌≡◌, ◌≢◌, refl, sym, ◌∙◌, Bool, true, false, Option, none, some, List, [], ◌∷◌, ◌++◌, any, All,
  find_by, update_by, ◌||◌, ◌==◌, Bool-cases, Option-cases, inl, inr, ==_refl, if-holds,
}
use livepoly_server.Stats.{
  Doubles, PlayerStats, RatingChange, StatsTables, UserResult, stats_user, change_user, has_stats,
  create_missing_player_stats, is_recorded, record_change, record_if_found, record_changes,
}

or_true : (b : Bool) {c : Bool} → c ≡ true → (b || c) ≡ true
or_true true e = refl
or_true false e = e

pub true_ne_false : true ≢ false
true_ne_false e = cc

any-append {ℓ} :
    {A : Type ℓ} (test : A → Bool) (xs ys : List A)
    → any test xs ≡ true
    → any test (xs ++ ys) ≡ true
any-append test [] ys e = absurd (true_ne_false (sym e))
any-append test (x ∷ xs) ys e = elim (Bool-cases (test x)) [
  | inl t ↦ rw t refl
  | inr t ↦ rw t (any-append test xs ys (rw t at e))
]

any-last {ℓ} :
    {A : Type ℓ} (test : A → Bool) (xs : List A) {y : A}
    → test y ≡ true
    → any test (xs ++ y ∷ []) ≡ true
any-last test [] t = rw t refl
any-last test (x ∷ xs) t = or_true (test x) (any-last test xs t)

-- A search by a key that some element has.
pub find_by-any {ℓ} :
    {A : Type ℓ} (key : A → ℕ) (k : ℕ) (xs : List A)
    → any (λ x. key x == k) xs ≡ true
    → (x : A) × (find_by key k xs ≡ some x)
find_by-any key k [] e = absurd (true_ne_false (sym e))
find_by-any key k (x ∷ xs) e = elim (Bool-cases (key x == k)) [
  | inl t ↦ (x, rw t refl)
  | inr t ↦ rw t (find_by-any key k xs (rw t at e))
]

any-update_by :
    (user k : ℕ) (f : PlayerStats → PlayerStats) (rows : List PlayerStats)
    → ((row : PlayerStats) → stats_user (f row) ≡ stats_user row)
    → has_stats user (update_by stats_user k f rows) ≡ has_stats user rows
any-update_by user k f [] keeps = refl
any-update_by user k f (row ∷ rows) keeps = elim (Bool-cases (row.user_id == k)) [
  | inl t ↦ rw (t, keeps row, any-update_by user k f rows keeps) refl
  | inr t ↦ rw (t, any-update_by user k f rows keeps) refl
]

-- Every user of the results has statistics.
unfoldable pub HaveStats : List UserResult → List PlayerStats → Type 0
HaveStats results rows = All (λ r. has_stats r.user_id rows ≡ true) results

created-keeps :
    (zero_position user : ℕ) (results : List UserResult) (rows : List PlayerStats)
    → has_stats user rows ≡ true
    → has_stats user (create_missing_player_stats zero_position results rows) ≡ true
unfolding create_missing_player_stats
created-keeps zero_position user [] rows h = h
created-keeps zero_position user (r ∷ rest) rows h = created-keeps zero_position user rest _ (
    if-holds (λ next. has_stats user next ≡ true) (has_stats r.user_id rows) h
      (any-append (λ s. s.user_id == user) rows _ h))

pub created-HaveStats :
    (zero_position : ℕ) (results : List UserResult) (rows : List PlayerStats)
    → HaveStats results (create_missing_player_stats zero_position results rows)
unfolding create_missing_player_stats HaveStats
created-HaveStats zero_position [] rows = tt
created-HaveStats zero_position (r ∷ rest) rows = (
  created-keeps zero_position r.user_id rest _ (elim (Bool-cases (has_stats r.user_id rows)) [
    | inl t ↦ rw t t
    | inr t ↦ rw t (any-last (λ s. s.user_id == r.user_id) rows (==_refl r.user_id))
  ]),
  created-HaveStats zero_position rest _,
)

pub created-same :
    (zero_position : ℕ) (results : List UserResult) (rows : List PlayerStats)
    → HaveStats results rows
    → create_missing_player_stats zero_position results rows ≡ rows
unfolding create_missing_player_stats HaveStats
created-same zero_position [] rows h = refl
created-same zero_position (r ∷ rest) rows h = rw (h.0) (created-same zero_position rest rows h.1)

module _ {ℓ} {Double : Type ℓ} (doubles : Doubles Double) (room_id : ℕ) where
  -- One step of the loop.
  record_if_found-keeps :
      (user : ℕ) (r : UserResult) (s : Option PlayerStats) (c : Option RatingChange)
      (tables : StatsTables)
      → (has_stats user (record_if_found doubles room_id r s c tables).player_stats
          ≡ has_stats user tables.player_stats)
        × (is_recorded room_id user tables.rating_history ≡ true
            → is_recorded room_id user (record_if_found doubles room_id r s c tables).rating_history
              ≡ true)
  unfolding record_change
  record_if_found-keeps user r none c tables = (refl, λ h. h)
  record_if_found-keeps user r (some s) none tables = (refl, λ h. h)
  record_if_found-keeps user r (some s) (some c) tables =
      elim (Bool-cases (is_recorded room_id r.user_id tables.rating_history)) [
        | inl t ↦ rw t (refl, λ h. h)
        | inr t ↦ rw t (
          any-update_by user r.user_id _ tables.player_stats (λ row. refl),
          λ h. any-append _ tables.rating_history _ h,
        )
      ]

  pub record_changes-keeps :
      (user : ℕ) (current : List PlayerStats) (changes : List RatingChange)
      (results : List UserResult) (tables : StatsTables)
      → (has_stats user (record_changes doubles room_id current changes results tables).player_stats
          ≡ has_stats user tables.player_stats)
        × (is_recorded room_id user tables.rating_history ≡ true
            → is_recorded room_id user
                (record_changes doubles room_id current changes results tables).rating_history
              ≡ true)
  unfolding record_changes
  record_changes-keeps user current changes [] tables = (refl, λ h. h)
  record_changes-keeps user current changes (r ∷ rest) tables =
      let s = find_by stats_user r.user_id current in
      let c = find_by change_user r.user_id changes in
      let step = record_if_found-keeps user r s c tables in
      let more =
        record_changes-keeps user current changes rest
          (record_if_found doubles room_id r s c tables) in
      (more.0 ∙ step.0, λ h. more.1 (step.1 h))

  -- A result with statistics and a change of the rating.
  unfoldable pub Found : List PlayerStats → List RatingChange → UserResult → Type 0
  Found current changes r =
      ((s : PlayerStats) × (find_by stats_user r.user_id current ≡ some s))
      × ((c : RatingChange) × (find_by change_user r.user_id changes ≡ some c))

  -- A result whose change of the rating is in the history.
  unfoldable pub Recorded : StatsTables → UserResult → Type 0
  Recorded tables r = is_recorded room_id r.user_id tables.rating_history ≡ true

  step-Recorded :
      (current : List PlayerStats) (changes : List RatingChange) (r : UserResult)
      (tables : StatsTables)
      → Found current changes r
      → is_recorded room_id r.user_id
          (record_if_found doubles room_id r
            (find_by stats_user r.user_id current)
            (find_by change_user r.user_id changes)
            tables).rating_history
        ≡ true
  unfolding Found record_change
  step-Recorded current changes r tables ((s, e), (c, f)) =
      elim (Bool-cases (is_recorded room_id r.user_id tables.rating_history)) [
        | inl t ↦ rw (e, f, t) t
        | inr t ↦
            rw (e, f, t)
              (any-last _ tables.rating_history (rw (==_refl room_id, ==_refl r.user_id) refl))
      ]

  pub record_changes-Recorded :
      (current : List PlayerStats) (changes : List RatingChange) (results : List UserResult)
      (tables : StatsTables)
      → All (Found current changes) results
      → All (Recorded (record_changes doubles room_id current changes results tables)) results
  unfolding record_changes Recorded
  record_changes-Recorded current changes [] tables h = tt
  record_changes-Recorded current changes (r ∷ rest) tables h =
      let next =
        record_if_found doubles room_id r (find_by stats_user r.user_id current)
          (find_by change_user r.user_id changes) tables in
      (
        (record_changes-keeps r.user_id current changes rest next).1
            (step-Recorded current changes r tables h.0),
        record_changes-Recorded current changes rest next h.1,
      )

  step-same :
      (r : UserResult) (s : Option PlayerStats) (c : Option RatingChange) (tables : StatsTables)
      → Recorded tables r
      → record_if_found doubles room_id r s c tables ≡ tables
  unfolding Recorded record_change
  step-same r none c tables h = refl
  step-same r (some s) none tables h = refl
  step-same r (some s) (some c) tables h = rw h refl

  pub record_changes-same :
      (current : List PlayerStats) (changes : List RatingChange) (results : List UserResult)
      (tables : StatsTables)
      → All (Recorded tables) results
      → record_changes doubles room_id current changes results tables ≡ tables
  unfolding record_changes
  record_changes-same current changes [] tables h = refl
  record_changes-same current changes (r ∷ rest) tables h =
      rw
        (step-same r (find_by stats_user r.user_id current) (find_by change_user r.user_id changes)
          tables h.0)
        (record_changes-same current changes rest tables h.1)

  pub record_changes-none :
      (current : List PlayerStats) (results : List UserResult) (tables : StatsTables)
      → record_changes doubles room_id current [] results tables ≡ tables
  unfolding record_changes
  record_changes-none current [] tables = refl
  record_changes-none current (r ∷ rest) tables =
      elim (Option-cases (find_by stats_user r.user_id current)) [
        | inl e ↦ rw e (record_changes-none current rest tables)
        | inr (s, e) ↦ rw e (record_changes-none current rest tables)
      ]
