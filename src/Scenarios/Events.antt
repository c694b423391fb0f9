-- ===== src/Scenarios/Events.antt =====
-- The log of src/game/events/ read page by page in small games.
use livepoly_server.Base.{
  true, ℕ, zero, suc, ◌≡◌, refl, none, some, Option, List, [], ◌∷◌, map, arith,
}
use livepoly_server.Types.{GameEngineEvent, jail_fine_paid}
use livepoly_server.Outcomes.{after, done, failed, bad_request}
use livepoly_server.Events.{
  GameEventRecoveryResponse, list_events, take, DecodedCursor, DecodedSequence, natural, negative,
  not_a_number, numbered_from, append_events, map_event, encode_cursor, decode_cursor,
}
use livepoly_server.Events.Slices.{drop}
use livepoly_server.Events.Paged.{follow, follow-append_events, follow-latest}

-- A cursor written as its number.
abbrev number_in : DecodedSequence → ℕ
number_in (natural value) = value
number_in negative = 0
number_in not_a_number = 0

abbrev cursor_text : DecodedCursor → ℕ
cursor_text cursor = number_in cursor.sequence

abbrev cursor_of : ℕ → Option DecodedCursor
cursor_of text = some (record { v = some 1; sequence = natural text })

abbrev fine_paid : GameEngineEvent
fine_paid = jail_fine_paid 1 50

abbrev fines : ℕ → List GameEngineEvent
fines zero = []
fines (suc n) = fine_paid ∷ fines n

follow-append_events_example :
    follow cursor_text cursor_of 2
      (some (encode_cursor cursor_text cursor_of 3))
      (append_events (fines 150) (numbered_from 1 (fines 3)))
    ≡ done (map map_event (numbered_from 4 (fines 150)))
follow-append_events_example =
    follow-append_events cursor_text cursor_of (λ s. refl) 2 (fines 3) (fines 150) (omega arith)

follow-latest_example :
    (response : GameEventRecoveryResponse) × (list_events cursor_text cursor_of none
        (numbered_from 1 (fines 120))
      ≡ done response)
    × (response.items ≡ map map_event (take 100 (drop 19 (numbered_from 1 (fines 120)))))
    × (response.has_more ≡ true)
    × (follow cursor_text cursor_of 2 none (numbered_from 1 (fines 120))
        ≡ done (map map_event (drop 19 (numbered_from 1 (fines 120)))))
follow-latest_example = follow-latest cursor_text cursor_of (λ s. refl) (fines 120)

-- A cursor of another version or of a negative number is a bad request.
old_version :
    decode_cursor cursor_text
      (λ text. some (record { v = some 2; sequence = natural text }))
      (some 3)
    ≡ failed bad_request
unfolding decode_cursor after
old_version = refl
