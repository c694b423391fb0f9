-- ===== src/Snapshots/Newest.antt =====
-- The snapshot that was written last: src/game/snapshots/game-snapshots.repository.ts.
use livepoly_server.Base.{
  ℕ, ◌≡◌, ◌≢◌, ◌∙◌, refl, sym, Bool, true, false, Option, none, some, List, [], ◌∷◌, ◌++◌, map, any,
  All, ◌&&◌, ◌||◌, ◌==◌, ltb, arith, if-holds, ◌⊎◌, if◌then◌else◌, Bool-cases, inl, inr, ==_refl,
}
use livepoly_server.Types.{GameEngineState}
use livepoly_server.Snapshots.{
  GameSnapshotType, GameSnapshotRecord, is_row_of, with_state, create, find_latest_by_game_id,
  later_of, is_later, snapshot_type_code,
}

module _ (game_id : ℕ) (kind : GameSnapshotType) (turn_number created_at : ℕ) where
  abbrev is_this : GameSnapshotRecord → Bool
  is_this row = is_row_of game_id kind turn_number row

  -- Before the turn, or in the turn and before the time.
  abbrev precedes : GameSnapshotRecord → Bool
  precedes row =
      ltb row.turn_number turn_number
      || ((row.turn_number == turn_number) && ltb row.created_at created_at)

  -- A row of the game with this type and turn was created at the time, any other row of it before.
  pub record Precedes (row : GameSnapshotRecord) : Type 0 where
    pub this_one :
        (row.game_id == game_id) ≡ true → is_this row ≡ true → row.created_at ≡ created_at
    pub others : (row.game_id == game_id) ≡ true → is_this row ≡ false → precedes row ≡ true

  module _ (state : GameEngineState) where
    record IsNew (row : GameSnapshotRecord) : Type 0 where
      same_turn : row.turn_number ≡ turn_number
      same_time : row.created_at ≡ created_at
      same_state : row.state ≡ state

    record Fits (row : GameSnapshotRecord) : Type 0 where
      this_new : (row.game_id == game_id) ≡ true → is_this row ≡ true → IsNew row
      others_before : (row.game_id == game_id) ≡ true → is_this row ≡ false → precedes row ≡ true

    -- The latest of some rows: a new one if there is one, otherwise one that precedes.
    Best : Bool → Option GameSnapshotRecord → Type 0
    Best true latest = (row : GameSnapshotRecord) × (latest ≡ some row) × IsNew row
    Best false none = Unit
    Best false (some row) = precedes row ≡ true

    not_later :
        (best row : GameSnapshotRecord)
        → IsNew row
        → (row_best : IsNew best ⊎ (precedes best ≡ true)) → is_later best row ≡ false
    not_later best row n (inl b) =
        rw (n.same_turn, n.same_time, b.same_turn, b.same_time) (ground arith)
    not_later best row n (inr b) = rw (n.same_turn, n.same_time) (ground arith)

    later :
        (best row : GameSnapshotRecord)
        → IsNew best
        → precedes row ≡ true
        → is_later best row ≡ true
    later best row b p = rw (b.same_turn, b.same_time) (ground arith)

    Best-new :
        (row : GameSnapshotRecord) (b : Bool) (latest : Option GameSnapshotRecord)
        → IsNew row
        → Best b latest
        → Best true (some (later_of row latest))
    unfolding Best
    Best-new row true latest n (best, e, m) = rw (e, not_later best row n (inl m)) (row, refl, n)
    Best-new row false none n h = (row, refl, n)
    Best-new row false (some best) n h = rw (not_later best row n (inr h)) (row, refl, n)

    Best-old :
        (row : GameSnapshotRecord) (b : Bool) (latest : Option GameSnapshotRecord)
        → precedes row ≡ true
        → Best b latest
        → Best b (some (later_of row latest))
    unfolding Best
    Best-old row true latest p (best, e, m) = rw (e, later best row m p) (best, refl, m)
    Best-old row false none p h = p
    Best-old row false (some best) p h = if-holds (λ r. precedes r ≡ true) (is_later best row) h p

    latest-Best :
        (rows : List GameSnapshotRecord)
        → All Fits rows
        → Best (any is_this rows) (find_latest_by_game_id game_id rows)
    unfolding Best find_latest_by_game_id
    latest-Best [] h = tt
    latest-Best (row ∷ rows) h = elim (Bool-cases (row.game_id == game_id)) [
      | inl g ↦ elim (Bool-cases (is_this row)) [
        | inl t ↦
            rw (t, g)
              (Best-new row (any is_this rows) _ ((h.0).this_new g t) (latest-Best rows h.1))
        | inr t ↦
            rw (t, g)
              (Best-old row (any is_this rows) _ ((h.0).others_before g t) (latest-Best rows h.1))
      ]
      | inr g ↦ rw g (latest-Best rows h.1)
    ]

All-append {ℓ κ} :
    {A : Type ℓ} (P : A → Type κ) (xs : List A) {y : A} → All P xs → P y → All P (xs ++ y ∷ [])
All-append P [] h p = (p, tt)
All-append P (x ∷ xs) h p = (h.0, All-append P xs h.1 p)

any-append {ℓ} :
    {A : Type ℓ} (test : A → Bool) (xs : List A) {y : A}
    → test y ≡ true
    → any test (xs ++ y ∷ []) ≡ true
any-append test [] t = rw t refl
any-append test (x ∷ xs) t = ground (arith, any-append test xs t)

true_ne_false : true ≢ false
true_ne_false e = cc

both_false : (a : Bool) {b : Bool} → (a || b) ≡ false → (a ≡ false) × (b ≡ false)
both_false true e = cc
both_false false e = (refl, e)

module _ (game_id : ℕ) (kind : GameSnapshotType) (created_at : ℕ) (state : GameEngineState) where
  own_turn :
      (row : GameSnapshotRecord)
      → is_row_of game_id kind state.turn_number row ≡ true
      → row.turn_number ≡ state.turn_number
  own_turn row t = ground arith

  same_key :
      (row : GameSnapshotRecord) (b : Bool)
      → is_row_of game_id kind state.turn_number (if b then record row { state = state } else row)
        ≡ is_row_of game_id kind state.turn_number row
  same_key row true = refl
  same_key row false = refl

  replaced-Fits :
      (row : GameSnapshotRecord)
      → Precedes game_id kind state.turn_number created_at row
      → Fits game_id kind state.turn_number created_at state (with_state game_id kind state row)
  replaced-Fits row p = replaced (is_row_of game_id kind state.turn_number row) refl
    where
      replaced :
          (b : Bool)
          → is_row_of game_id kind state.turn_number row ≡ b
          → Fits game_id kind state.turn_number created_at state
              (if b then record row { state = state } else row)
      replaced true e = record {
        this_new = λ g t. record {
          same_turn = own_turn row t;
          same_time = p.this_one g t;
          same_state = refl;
        };
        others_before = p.others;
      }
      replaced false e = record {
        this_new = λ g t. absurd (true_ne_false (sym t ∙ e));
        others_before = p.others;
      }

  any-replaced :
      (rows : List GameSnapshotRecord)
      → any (is_row_of game_id kind state.turn_number) (map (with_state game_id kind state) rows)
        ≡ any (is_row_of game_id kind state.turn_number) rows
  any-replaced [] = refl
  any-replaced (row ∷ rows) =
      rw (any-replaced rows, same_key row (is_row_of game_id kind state.turn_number row)) refl

  kept-Fits :
      (rows : List GameSnapshotRecord)
      → any (is_row_of game_id kind state.turn_number) rows ≡ false
      → All (Precedes game_id kind state.turn_number created_at) rows
      → All (Fits game_id kind state.turn_number created_at state) rows
  kept-Fits [] e h = tt
  kept-Fits (row ∷ rows) e h =
      let parts = both_false (is_row_of game_id kind state.turn_number row) e in
      (
        record {
          this_new = λ g t. absurd (true_ne_false (sym t ∙ parts.0));
          others_before = (h.0).others;
        },
        kept-Fits rows parts.1 h.1,
      )

  All-map-to :
      (rows : List GameSnapshotRecord)
      → All (Precedes game_id kind state.turn_number created_at) rows
      → All
          (Fits game_id kind state.turn_number created_at state)
          (map (with_state game_id kind state) rows)
  All-map-to [] h = tt
  All-map-to (row ∷ rows) h = (replaced-Fits row h.0, All-map-to rows h.1)

  abbrev inserted : ℕ → GameSnapshotRecord
  inserted now = record {
    game_id = game_id;
    room_id = state.room_id;
    snapshot_type = kind;
    turn_number = state.turn_number;
    state = state;
    created_at = now;
  }

  own_row : (now : ℕ) → is_row_of game_id kind state.turn_number (inserted now) ≡ true
  own_row now =
      rw (==_refl game_id, ==_refl (snapshot_type_code kind), ==_refl state.turn_number) refl

  inserted-Fits :
      (now : ℕ)
      → now ≡ created_at
      → Fits game_id kind state.turn_number created_at state (inserted now)
  inserted-Fits now e = record {
    this_new = λ g t. record { same_turn = refl; same_time = e; same_state = refl };
    others_before = λ g t. absurd (true_ne_false (sym (own_row now) ∙ t));
  }

  found :
      (rows : List GameSnapshotRecord)
      → any (is_row_of game_id kind state.turn_number) rows ≡ true
      → All (Fits game_id kind state.turn_number created_at state) rows
      → (row : GameSnapshotRecord) × (find_latest_by_game_id game_id rows ≡ some row)
        × (row.state ≡ state)
  unfolding Best
  found rows t h =
      let best = rw t at (latest-Best game_id kind state.turn_number created_at state rows h) in
      (best.0, best.1, (best.2).same_state)

  pub find_latest-create :
      (now : ℕ) (rows : List GameSnapshotRecord)
      → All (Precedes game_id kind state.turn_number created_at) rows
      → (any (is_row_of game_id kind state.turn_number) rows ≡ false → now ≡ created_at)
      → (row : GameSnapshotRecord) × (find_latest_by_game_id game_id
            (create now game_id kind state rows)
          ≡ some row)
        × (row.state ≡ state)
  unfolding create
  find_latest-create now rows h first =
      elim (Bool-cases (any (is_row_of game_id kind state.turn_number) rows)) [
        | inl t ↦ rw t (
            found (map (with_state game_id kind state) rows) (any-replaced rows ∙ t)
              (All-map-to rows h))
        | inr t ↦ rw t (
            found (rows ++ inserted now ∷ [])
              (any-append (is_row_of game_id kind state.turn_number) rows (own_row now))
              (All-append (Fits game_id kind state.turn_number created_at state) rows
                (kept-Fits rows t h) (inserted-Fits now (first t))))
      ]
