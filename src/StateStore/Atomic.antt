-- ===== src/StateStore/Atomic.antt =====
-- The updates of a state against writes of other clients: src/game/state/game-state.service.ts.
use livepoly_server.Base.{
  ℕ, suc, zero, ◌≡◌, refl, false, Bool-cases, inl, inr, Option, none, some, ◌==◌, ==→eq, ==_refl,
  subst,
}
use livepoly_server.Outcomes.{
  Outcome, Gives, gives, gives_none, Gives-done, ServiceError, done, failed, after, or_fail,
  not_found, conflict, internal_server_error,
}
use livepoly_server.StateStore.{compare_and_set, Interference, update, write, conclude, attempt_on}

module _ {ℓ κ} {State : Type ℓ} {Next : Type κ} (stringify : Next → ℕ)
    (parse : ℕ → Option State) where
  -- An update as one indivisible step on the stored value, with its result.
  pub data Atomically (updater : State → Outcome Next)
      : Option ℕ → Outcome Next × Option ℕ → Type (ℓ ⊔ κ) where
    commits :
        {text : ℕ} (state : State) (next : Next)
        → parse text ≡ some state
        → updater state ≡ done next
        → Atomically updater (some text) (done next, some (stringify next))
    finds_nothing : Atomically updater none (failed not_found, none)

  -- A run with some attempts left. In each attempt the other clients' writes of that attempt happen,
  -- in order; in the last one the update takes effect at one instant, or fails and writes nothing.
  pub data Linearized (updater : ℕ → State → Outcome Next) (others : ℕ → Interference)
      : ℕ → Option ℕ → Outcome Next × Option ℕ → Type (ℓ ⊔ κ) where
    misses :
        {attempt : ℕ} {value : Option ℕ}
        → (others attempt).before_read value ≡ none
        → Linearized updater others (suc attempt) value (failed not_found, none)
    takes_effect :
        {attempt text : ℕ} {value : Option ℕ} {result : Outcome Next × Option ℕ}
        → (others attempt).before_read value ≡ some text
        → Atomically (updater attempt) ((others attempt).before_write (some text)) result
        → Linearized updater others (suc attempt) value result
    -- Another attempt, only after another client has changed the text that was read.
    tries_again :
        {attempt text current : ℕ} {value : Option ℕ} {result : Outcome Next × Option ℕ}
        → (others attempt).before_read value ≡ some text
        → (others attempt).before_write (some text) ≡ some current
        → (current == text) ≡ false
        → Linearized updater others attempt (some current) result
        → Linearized updater others (suc attempt) value result
    -- The updater refused the state that was read, or the text that was read is no state.
    refuses :
        {attempt text : ℕ} {value : Option ℕ} (state : State) (error : ServiceError)
        → (others attempt).before_read value ≡ some text
        → parse text ≡ some state
        → updater attempt state ≡ failed error
        → Linearized updater others
            (suc attempt)
            value
            (failed error, (others attempt).before_write (some text))
    is_corrupted :
        {attempt text : ℕ} {value : Option ℕ}
        → (others attempt).before_read value ≡ some text
        → parse text ≡ none
        → Linearized updater others
            (suc attempt)
            value
            (failed internal_server_error, (others attempt).before_write (some text))
    runs_out : {value : Option ℕ} → Linearized updater others 0 value (failed conflict, value)

  module _ (updater : ℕ → State → Outcome Next) (others : ℕ → Interference) where
    concluded :
        (attempt text : ℕ) (value : Option ℕ) (state : State) (next : Next)
        (retry : Option ℕ → Outcome Next × Option ℕ) (at_write : Option ℕ)
        → (others attempt).before_read value ≡ some text
        → (others attempt).before_write (some text) ≡ at_write
        → parse text ≡ some state
        → updater attempt state ≡ done next
        → ((v : Option ℕ) → Linearized updater others attempt v (retry v))
        → Linearized updater others
            (suc attempt)
            value
            (conclude stringify parse next retry (compare_and_set at_write text (stringify next)))
    unfolding compare_and_set
    concluded attempt text value state next retry none r w p u h =
        takes_effect r (rw w finds_nothing)
    concluded attempt text value state next retry (some current) r w p u h =
        elim (Bool-cases (current == text)) [
          | inl t ↦
              let same : current ≡ text = ==→eq current text t in
              rw t (takes_effect r (rw (w, same) (commits state next p u)))
          | inr t ↦ rw t (tries_again r w t (h (some current)))
        ]

    attempted :
        (attempt : ℕ) (value : Option ℕ) (retry : Option ℕ → Outcome Next × Option ℕ)
        (seen : Option ℕ)
        → (others attempt).before_read value ≡ seen
        → ((v : Option ℕ) → Linearized updater others attempt v (retry v))
        → Linearized updater others
            (suc attempt)
            value
            (attempt_on stringify parse (updater attempt) (others attempt).before_write retry seen)
    unfolding after
    attempted attempt value retry none r h = misses r
    attempted attempt value retry (some text) r h = read (parse text) refl
      where
        decided :
            (state : State) (outcome : Outcome Next)
            → parse text ≡ some state
            → updater attempt state ≡ outcome
            → Linearized updater others
                (suc attempt)
                value
                (write stringify parse (others attempt).before_write text (some text) retry outcome)
        decided state (failed error) p u = refuses state error r p u
        decided state (done next) p u =
            concluded attempt text value state next retry
              ((others attempt).before_write (some text)) r refl p u h

        read :
            (parsed : Option State)
            → parse text ≡ parsed
            → Linearized updater others (suc attempt) value (
                write stringify parse
                  (others attempt).before_write
                  text
                  (some text)
                  retry
                  (after (or_fail parsed internal_server_error) (updater attempt)))
        read none p = is_corrupted r p
        read (some state) p = decided state (updater attempt state) p refl

    -- Whatever other clients write before and during the attempts, a run of the update is the other
    -- clients' writes, in their order, and one indivisible step of its own: a state that it returns
    -- replaced, at one instant, the stored text of the state that it was computed from; it tries
    -- again only after another client has changed the text that it read; in every failure it has
    -- written nothing.
    pub update-Linearized :
        (attempts : ℕ) (value : Option ℕ)
        → Linearized updater others attempts value
            (update stringify parse attempts updater others value)
    unfolding update
    update-Linearized zero value = runs_out
    update-Linearized (suc attempts) value =
        attempted attempts value (update stringify parse attempts updater others)
          ((others attempts).before_read value) refl (update-Linearized attempts)

  -- What every write of the other clients keeps of the stored value, and the updater gives of what it
  -- returns and of its text, holds of the result and of the value that is stored at the end.
  module _ {μ ν} (R : Next → Type μ) (P : Option ℕ → Type ν) (updater : ℕ → State → Outcome Next)
      (others : ℕ → Interference)
      (read : (attempt : ℕ) (value : Option ℕ) → P value → P ((others attempt).before_read value))
      (written_between : (attempt : ℕ) (value : Option ℕ)
        → P value
        → P ((others attempt).before_write value))
      (updated : (attempt text : ℕ) (state : State)
        → P (some text)
        → parse text ≡ some state
        → Gives (λ next. R next × P (some (stringify next))) (updater attempt state)) where
    step-Keeps :
        (attempt : ℕ) (value : Option ℕ) (result : Outcome Next × Option ℕ)
        → P value
        → Atomically (updater attempt) value result
        → Gives R result.0 × P result.1
    step-Keeps attempt value result p (commits {text} state next parsed u) =
        let both = Gives-done (updated attempt text state p parsed) u in (gives both.0, both.1)
    step-Keeps attempt value result p finds_nothing = (gives_none, p)

    Linearized-Keeps :
        {attempts : ℕ} {value : Option ℕ} {result : Outcome Next × Option ℕ}
        → P value
        → Linearized updater others attempts value result
        → Gives R result.0 × P result.1
    Linearized-Keeps p (misses {attempt} {value} r) = (gives_none, subst P r (read attempt value p))
    Linearized-Keeps p (takes_effect {attempt} {text} {value} {result} r step) =
        step-Keeps attempt _ result
          (written_between attempt (some text) (subst P r (read attempt value p))) step
    Linearized-Keeps p (tries_again {attempt} {text} {current} {value} r w c run) =
        Linearized-Keeps
          (subst P w (written_between attempt (some text) (subst P r (read attempt value p)))) run
    Linearized-Keeps p (refuses {attempt} {text} {value} state error r parsed u) =
        (gives_none, written_between attempt (some text) (subst P r (read attempt value p)))
    Linearized-Keeps p (is_corrupted {attempt} {text} {value} r parsed) =
        (gives_none, written_between attempt (some text) (subst P r (read attempt value p)))
    Linearized-Keeps p runs_out = (gives_none, p)

    pub update-Keeps :
        (attempts : ℕ) (value : Option ℕ)
        → P value
        → Gives R (update stringify parse attempts updater others value).0
          × P (update stringify parse attempts updater others value).1
    update-Keeps attempts value p =
        Linearized-Keeps p (update-Linearized updater others attempts value)

  abbrev written : ℕ → Outcome Next → Outcome Next × Option ℕ
  written text (failed error) = (failed error, some text)
  written text (done next) = (done next, some (stringify next))

  -- An update with nobody else at work: one read, one call of the updater and one write.
  abbrev pub update_alone : (State → Outcome Next) → Option ℕ → Outcome Next × Option ℕ
  update_alone updater none = (failed not_found, none)
  update_alone updater (some text) =
      written text (after (or_fail (parse text) internal_server_error) updater)

-- Nobody else writes.
abbrev pub quiet : ℕ → Interference
quiet attempt = record { before_read = λ value. value; before_write = λ value. value }

module _ {ℓ κ} {State : Type ℓ} {Next : Type κ} (stringify : Next → ℕ)
    (parse : ℕ → Option State) where
  wrote :
      (text : ℕ) (retry : Option ℕ → Outcome Next × Option ℕ) (outcome : Outcome Next)
      → write stringify parse (λ value. value) text (some text) retry outcome
        ≡ written stringify parse text outcome
  unfolding compare_and_set
  wrote text retry (failed error) = refl
  wrote text retry (done next) = rw (==_refl text) refl

  -- While nobody else writes, the first attempt decides: an update is one read, one call of the
  -- updater and one write, and there is no conflict.
  pub update-alone :
      (attempts : ℕ) (updater : ℕ → State → Outcome Next) (value : Option ℕ)
      → update stringify parse (suc attempts) updater quiet value
        ≡ update_alone stringify parse (updater attempts) value
  unfolding update
  update-alone attempts updater none = refl
  update-alone attempts updater (some text) =
      wrote text (update stringify parse attempts updater quiet)
        (after (or_fail (parse text) internal_server_error) (updater attempts))
