-- ===== src/Events/Paged.antt =====
-- The numbering and the pages of the log of events.
use livepoly_server.Base.{
  ℕ, zero, suc, ◌+◌, ◌-◌, ◌*◌, ◌<◌, ◌≤◌, ◌≡◌, ◌∙◌, refl, sym, ap, true, Option, none, some, List,
  [], ◌∷◌, ◌++◌, map, ltb, length, arith, if◌then◌else◌, Bool-cases, inl, inr,
}
use livepoly_server.Types.{GameEngineEvent}
use livepoly_server.Events.Slices.{
  drop, drop-all, drop-drop, take-drop, take-take, take-all, has_more-take, map-append, length-drop,
  length-append, drop-append,
}
use livepoly_server.Events.Numbered.{
  length-numbered_from, numbered_from-empty, drop-numbered_from, filter-numbered_from,
  sort_by-numbered_from, latest-numbered_from, append_events-numbered_from,
}
use livepoly_server.Outcomes.{Outcome, done, after}
use livepoly_server.Events.{
  GameEventRow, numbered_from, append_events, take, list_events_after, DecodedCursor, natural,
  GameEventRecoveryItem, decode_cursor, GameEventRecoveryResponse, map_event, last_item,
  encode_cursor, list_events, next_cursor_of, game_event_recovery_limit, response_of,
}

last_item-numbered_from :
    (m n : ℕ) (event : GameEngineEvent) (events : List GameEngineEvent)
    → m ≤ length events
    → last_item (record { sequence = n; event = event }) (take m (numbered_from (suc n) events))
      ≡ n + m
unfolding take numbered_from
last_item-numbered_from zero n event events h = omega arith
last_item-numbered_from (suc m) n event [] h = absurd (omega (arith, h))
last_item-numbered_from (suc m) n event (next ∷ events) h =
    let rest = last_item-numbered_from m (suc n) next events (omega (arith, h)) in
    omega (arith, rest)

module _ (encode : DecodedCursor → ℕ) (decode : ℕ → Option DecodedCursor) where
  next_cursor_of-numbered_from :
      (m s : ℕ) (events : List GameEngineEvent)
      → m < length events
      → next_cursor_of encode decode (take (suc m) (numbered_from (suc s) events))
        ≡ some (encode_cursor encode decode (s + suc m))
  unfolding take numbered_from
  next_cursor_of-numbered_from m s [] h = absurd (omega (arith, h))
  next_cursor_of-numbered_from m s (event ∷ events) h =
      let last = last_item-numbered_from m (suc s) event events (omega (arith, h)) in
      ap (λ i. some (encode_cursor encode decode i)) (omega (arith, last))

  -- The items of a page, and those of the pages after it, if there are more.
  abbrev continued :
      GameEventRecoveryResponse
      → Outcome (List GameEventRecoveryItem)
      → Outcome (List GameEventRecoveryItem)
  continued response rest =
      if response.has_more
      then after rest (λ items. done (response.items ++ items))
      else done response.items

  -- A client that asks for pages while there are more, each time with the cursor that it was given.
  abbrev pub follow : ℕ → Option ℕ → List GameEventRow → Outcome (List GameEventRecoveryItem)
  follow zero cursor rows = done []
  follow (suc pages) cursor rows =
      after (list_events encode decode cursor rows)
        λ response. continued response (follow pages response.next_cursor rows)

  module _
      (round_trip : (s : ℕ)
        → decode (encode_cursor encode decode s)
          ≡ some (record { v = some 1; sequence = natural s })) where
    decode_cursor-encode_cursor :
        (s : ℕ) → decode_cursor encode decode (some (encode_cursor encode decode s)) ≡ done (some s)
    unfolding decode_cursor after
    decode_cursor-encode_cursor s = rw (round_trip s) refl

    -- A page is read of the events after the cursor's.
    list_events-numbered_from :
        (s : ℕ) (events : List GameEngineEvent)
        → list_events encode decode (some (encode_cursor encode decode s)) (numbered_from 1 events)
          ≡ done (
              response_of encode decode
                (take (suc game_event_recovery_limit) (numbered_from (suc s) (drop s events))))
    unfolding list_events list_events_after after
    list_events-numbered_from s events =
        rw
          (
            decode_cursor-encode_cursor s,
            filter-numbered_from s 0 s events (omega arith),
            drop-numbered_from 1 s (suc s) events (omega arith),
            sort_by-numbered_from (suc s) (drop s events),
          )
          refl

    -- What a page and the pages after it give together.
    continued-numbered_from :
        (s : ℕ) (events : List GameEngineEvent) (rest : Outcome (List GameEventRecoveryItem))
        → (ltb game_event_recovery_limit (length events) ≡ true
            → rest
              ≡ done
                  (map map_event (drop game_event_recovery_limit (numbered_from (suc s) events))))
        → continued
            (response_of encode decode
              (take (suc game_event_recovery_limit) (numbered_from (suc s) events)))
            rest
          ≡ done (map map_event (numbered_from (suc s) events))
    unfolding after
    continued-numbered_from s events rest h =
        let rows = numbered_from (suc s) events in
        let count = length-numbered_from (suc s) events in
        rw
          (
            has_more-take game_event_recovery_limit rows,
            take-take game_event_recovery_limit rows,
            length-numbered_from (suc s) events,
          )
          (elim (Bool-cases (ltb game_event_recovery_limit (length events))) [
            | inl t ↦
                rw (t, h t)
                  (ap done (
                    map-append map_event (take game_event_recovery_limit rows) _
                    ∙ ap (map map_event) (take-drop game_event_recovery_limit rows)))
            | inr t ↦ rw t (
                ap (λ l. done (map map_event l))
                  (take-all game_event_recovery_limit rows (ground (arith, count, t))))
          ])

    follow-numbered_from :
        (pages s : ℕ) (events : List GameEngineEvent)
        → length events ≤ s + pages * game_event_recovery_limit
        → follow pages (some (encode_cursor encode decode s)) (numbered_from 1 events)
          ≡ done (map map_event (numbered_from (suc s) (drop s events)))
    unfolding after
    follow-numbered_from zero s events h =
        rw (drop-all s events (omega (arith, h)))
          (ap (λ rows. done (map map_event rows)) (sym (numbered_from-empty (suc s))))
    follow-numbered_from (suc pages) s events h = rw (list_events-numbered_from s events) (
        continued-numbered_from s (drop s events) _ λ more.
          rw
            (
              take-take game_event_recovery_limit (numbered_from (suc s) (drop s events)),
              next_cursor_of-numbered_from 99 s (drop s events) (ground (arith, more)),
              follow-numbered_from pages (s + 100) events (omega (arith, h)),
              drop-numbered_from (suc s) 100 (suc (s + 100)) (drop s events) (omega arith),
              drop-drop s 100 (s + 100) events refl,
            )
            refl)

    follow-drop :
        (pages s : ℕ) (events : List GameEngineEvent)
        → length events ≤ s + pages * game_event_recovery_limit
        → follow pages (some (encode_cursor encode decode s)) (numbered_from 1 events)
          ≡ done (map map_event (drop s (numbered_from 1 events)))
    follow-drop pages s events h =
        follow-numbered_from pages s events h
        ∙ ap (λ rows. done (map map_event rows))
            (sym (drop-numbered_from 1 s (suc s) events (omega arith)))

    -- Where the cursor that was encoded is decoded and the log is numbered from 1 on, a client
    -- that has seen all of it, and then asks for pages enough, gets exactly the events that were
    -- appended, once each, in order and numbered on, whatever their number.
    pub follow-append_events :
        (pages : ℕ) (events more : List GameEngineEvent)
        → length more ≤ pages * game_event_recovery_limit
        → follow pages
            (some (encode_cursor encode decode (length events)))
            (append_events more (numbered_from 1 events))
          ≡ done (map map_event (numbered_from (suc (length events)) more))
    follow-append_events pages events more h = rw (append_events-numbered_from events more) (
        follow-numbered_from pages (length events) (events ++ more)
          (omega (arith, h, length-append events more))
        ∙ ap (λ l. done (map map_event (numbered_from (suc (length events)) l)))
            (drop-append events more))

    -- Without a cursor, the page is the one after the cursor of the event before the last 101.
    list_events-latest :
        (events : List GameEngineEvent)
        → list_events encode decode none (numbered_from 1 events)
          ≡ list_events encode decode
              (some (encode_cursor encode decode (length events - 101)))
              (numbered_from 1 events)
    unfolding list_events decode_cursor after
    list_events-latest events =
        let skipped = length events - 101 in
        let count = length-numbered_from (suc skipped) (drop skipped events) in
        let left = length-drop skipped events in
        let page = list_events-numbered_from skipped events in
        ap (λ rows. done (response_of encode decode rows))
          (latest-numbered_from 1 101 skipped events refl
            ∙ drop-numbered_from 1 skipped (suc skipped) events (omega arith)
            ∙ sym (take-all 101 _ (omega (arith, count, left))))
        ∙ sym page

    -- The page without a cursor, of the last 101 events.
    first_page :
        (events : List GameEngineEvent)
        → list_events encode decode none (numbered_from 1 events)
          ≡ done (
              response_of encode decode
                (take 101 (drop (length events - 101) (numbered_from 1 events))))
    first_page events =
        let skipped = length events - 101 in
        list_events-latest events
        ∙ list_events-numbered_from skipped events
        ∙ ap (λ rows. done (response_of encode decode (take 101 rows)))
            (sym (drop-numbered_from 1 skipped (suc skipped) events (omega arith)))

    first_page-has_more :
        (events : List GameEngineEvent)
        → ltb 100 (length (take 101 (drop (length events - 101) (numbered_from 1 events))))
          ≡ ltb 100 (length events)
    first_page-has_more events =
        let count = length-numbered_from 1 events in
        let left = length-drop (length events - 101) (numbered_from 1 events) in
        has_more-take 100 (drop (length events - 101) (numbered_from 1 events))
        ∙ ground (arith, count, left)

    -- Where the cursor that was encoded is decoded and the log is numbered from 1 on, a client without
    -- a cursor gets the first 100 of the last 101 events, so that the newest one is missing exactly
    -- where there are more than 100 events; then the page says that there are more, and with the page
    -- of its cursor the client has the last 101 events, once each and in order.
    pub follow-latest :
        (events : List GameEngineEvent)
        → (response : GameEventRecoveryResponse) × (list_events encode decode none
              (numbered_from 1 events)
            ≡ done response)
          × (response.items
              ≡ map map_event (take 100 (drop (length events - 101) (numbered_from 1 events))))
          × (response.has_more ≡ ltb 100 (length events))
          × (follow 2 none (numbered_from 1 events)
              ≡ done (map map_event (drop (length events - 101) (numbered_from 1 events))))
    follow-latest events = (
      _,
      first_page events,
      ap (map map_event) (take-take 100 (drop (length events - 101) (numbered_from 1 events))),
      first_page-has_more events,
      ap
            (λ page. after page λ response.
              continued response (follow 1 response.next_cursor (numbered_from 1 events)))
            (list_events-latest events)
          ∙ follow-drop 2 (length events - 101) events (omega arith),
    )
