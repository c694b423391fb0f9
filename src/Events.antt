-- ===== src/Events.antt =====
-- src/game/events/: the log of the events of one game, its numbering and its pages. A row keeps its
-- sequence number and its event, and a list holds the rows of one game; the query's condition on the
-- game, row ids and time stamps are left out.
pub mod Slices
mod Numbered
pub mod Paged
use livepoly_server.Base.{
  ℕ, zero, suc, ◌+◌, Bool, false, Option, none, some, List, [], ◌∷◌, ◌++◌, map, max, ltb, leb, ◌==◌,
  not, filter, length, sort_by, if◌then◌else◌,
}
use livepoly_server.Types.{GameEngineEvent}
use livepoly_server.Outcomes.{Outcome, failed, done, after, fail_if, or_fail, bad_request}

-- A row of the table of events of one game: its sequence number and the event.
pub record GameEventRow : Type 0 where
  pub sequence : ℕ
  pub event : GameEngineEvent

-- `max(sequence) ?? 0`
abbrev pub last_sequence : List GameEventRow → ℕ
last_sequence [] = 0
last_sequence (row ∷ rows) = max row.sequence (last_sequence rows)

-- The rows of `appendEventsWithExecutor`, from a sequence number on.
unfoldable pub numbered_from : ℕ → List GameEngineEvent → List GameEventRow
numbered_from sequence [] = []
numbered_from sequence (event ∷ events) =
    record { sequence = sequence; event = event } ∷ numbered_from (suc sequence) events

unfoldable pub append_events : List GameEngineEvent → List GameEventRow → List GameEventRow
unfolding numbered_from
append_events events rows = rows ++ numbered_from (last_sequence rows + 1) events

-- `limit`, and the end of `slice`.
unfoldable pub take {ℓ} : {A : Type ℓ} → ℕ → List A → List A
take zero xs = []
take (suc n) [] = []
take (suc n) (x ∷ xs) = x ∷ take n xs

-- `array.reverse`
unfoldable pub reverse {ℓ} : {A : Type ℓ} → List A → List A
reverse [] = []
reverse (x ∷ xs) = reverse xs ++ x ∷ []

-- `orderBy(sequence)` and `orderBy(desc(sequence))`
abbrev pub is_in_order : GameEventRow → GameEventRow → Bool
is_in_order left right = leb left.sequence right.sequence

abbrev pub is_in_reverse : GameEventRow → GameEventRow → Bool
is_in_reverse left right = leb right.sequence left.sequence

unfoldable pub list_events_after : ℕ → ℕ → List GameEventRow → List GameEventRow
list_events_after sequence limit rows =
    take limit (sort_by is_in_order (filter (λ row. ltb sequence row.sequence) rows))

unfoldable pub list_latest_events : ℕ → List GameEventRow → List GameEventRow
list_latest_events limit rows = reverse (take limit (sort_by is_in_reverse rows))

abbrev pub game_event_recovery_limit : ℕ
game_event_recovery_limit = 100

-- What `typeof decoded.sequence` and its sign tell apart; a fraction is not represented.
pub data DecodedSequence : Type 0 where
  natural : (value : ℕ) → DecodedSequence
  negative not_a_number : DecodedSequence

pub record DecodedCursor : Type 0 where
  pub v : Option ℕ
  pub sequence : DecodedSequence

pub record GameEventRecoveryItem : Type 0 where
  pub sequence : ℕ
  pub payload : GameEngineEvent

pub record GameEventRecoveryResponse : Type 0 where
  pub items : List GameEventRecoveryItem
  pub next_cursor : Option ℕ
  pub has_more : Bool

abbrev pub map_event : GameEventRow → GameEventRecoveryItem
map_event row = record { sequence = row.sequence; payload = row.event }

-- `items[items.length - 1].sequence`, of a list that is not empty.
abbrev pub last_item : GameEventRow → List GameEventRow → ℕ
last_item row [] = row.sequence
last_item row (next ∷ rows) = last_item next rows

abbrev pub is_version_1 : Option ℕ → Bool
is_version_1 none = false
is_version_1 (some v) = v == 1

abbrev pub decoded_sequence : DecodedSequence → Outcome ℕ
decoded_sequence (natural value) = done value
decoded_sequence negative = failed bad_request
decoded_sequence not_a_number = failed bad_request

-- `JSON.stringify` and `JSON.parse`, with the base64url text of a cursor, are arguments: a text that
-- cannot be decoded is `none`. A cursor that is missing, or empty, is `none`.
module _ (encode : DecodedCursor → ℕ) (decode : ℕ → Option DecodedCursor) where
  abbrev pub encode_cursor : ℕ → ℕ
  encode_cursor sequence = encode (record { v = some 1; sequence = natural sequence })

  unfoldable pub decode_cursor : Option ℕ → Outcome (Option ℕ)
  decode_cursor none = done none
  decode_cursor (some text) = after (or_fail (decode text) bad_request) λ decoded.
      after (fail_if (not (is_version_1 decoded.v)) bad_request)
        λ _. after (decoded_sequence decoded.sequence) λ sequence. done (some sequence)

  abbrev pub next_cursor_of : List GameEventRow → Option ℕ
  next_cursor_of [] = none
  next_cursor_of (row ∷ rows) = some (encode_cursor (last_item row rows))

  abbrev pub rows_for : Option ℕ → List GameEventRow → List GameEventRow
  rows_for none rows = list_latest_events (game_event_recovery_limit + 1) rows
  rows_for (some sequence) rows = list_events_after sequence (game_event_recovery_limit + 1) rows

  -- The answer of `listEvents` for the rows that were read.
  abbrev pub response_of : List GameEventRow → GameEventRecoveryResponse
  response_of rows =
      let items = take game_event_recovery_limit rows in
      record {
        items = map map_event items;
        next_cursor = next_cursor_of items;
        has_more = ltb game_event_recovery_limit (length rows);
      }

  unfoldable pub list_events : Option ℕ → List GameEventRow → Outcome GameEventRecoveryResponse
  unfolding after
  list_events cursor rows =
      after (decode_cursor cursor) λ sequence. done (response_of (rows_for sequence rows))
