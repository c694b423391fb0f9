-- ===== src/RateLimit/Window.antt =====
-- The sliding window of src/rate-limit/rate-limit.service.ts over a sequence of requests.
use livepoly_server.Base.{
  ℕ, ◌+◌, ◌≤◌, ◌≡◌, ◌∙◌, refl, sym, Bool, false, true, Option, none, some, List, [], ◌∷◌, All,
  filter, length, ltb, leb, ◌&&◌, arith, if◌then◌else◌, Bool-cases, inl, inr,
}
use livepoly_server.RateLimit.{Expiring, read, or_else, is_recent, keep_until}

module _ (window_ms : ℕ) where
  -- How many of some times lie in the window that ends at a time.
  abbrev pub recent_count : ℕ → List ℕ → ℕ
  recent_count now scores = length (filter (is_recent window_ms now) scores)

  recent_count-filter :
      (now time : ℕ) (scores : List ℕ)
      → now ≤ time
      → recent_count time (filter (is_recent window_ms now) scores) ≡ recent_count time scores
  recent_count-filter now time [] h = refl
  recent_count-filter now time (score ∷ scores) h =
      let rest = recent_count-filter now time scores h in ground (arith, rest, h)

  recent_count-past :
      (time : ℕ) (scores : List ℕ)
      → All (λ score. score + window_ms ≤ time) scores
      → recent_count time scores ≡ 0
  recent_count-past time [] h = refl
  recent_count-past time (score ∷ scores) h =
      let rest = recent_count-past time scores h.1 in ground (arith, rest, h.0)

  abbrev pub scores_of : Option (Expiring (List ℕ)) → List ℕ
  scores_of none = []
  scores_of (some key) = key.value

  abbrev pub expiry_of : Option (Expiring (List ℕ)) → ℕ
  expiry_of none = 0
  expiry_of (some key) = key.expires_at

  -- The sorted set counts, from a time on, what has been used of every window.
  pub record Tracks (last : ℕ) (used : ℕ → ℕ) (sliding : Option (Expiring (List ℕ))) : Type 0 where
    pub before : All (λ score. score ≤ last) (scores_of sliding)
    pub expires : All (λ score. score + window_ms ≤ expiry_of sliding) (scores_of sliding)
    pub counts : (time : ℕ) → last ≤ time → recent_count time (scores_of sliding) ≡ used time

  pub All-weaken {ℓ κ μ} :
      {A : Type ℓ} (P : A → Type κ) (Q : A → Type μ) (xs : List A)
      → ((x : A) → P x → Q x)
      → All P xs
      → All Q xs
  All-weaken P Q [] f h = tt
  All-weaken P Q (x ∷ xs) f h = (f x h.0, All-weaken P Q xs f h.1)

  pub record Seen (now : ℕ) (used : ℕ → ℕ) (scores : List ℕ) : Type 0 where
    pub seen_before : All (λ score. score ≤ now) scores
    pub seen_counts : (time : ℕ) → now ≤ time → recent_count time scores ≡ used time

  All-kept {ℓ κ} :
      {A : Type ℓ} (P : A → Type κ) (test : A → Bool) (xs : List A)
      → All P xs
      → All P (filter test xs)
  All-kept P test [] h = tt
  All-kept P test (x ∷ xs) h = kept (test x) (All-kept P test xs h.1)
    where
      kept :
          (b : Bool)
          → All P (filter test xs)
          → All P (if b then x ∷ filter test xs else filter test xs)
      kept true rest = (h.0, rest)
      kept false rest = rest

  -- What the script reads, whether or not the key has expired.
  pub read-Seen :
      (last now : ℕ) (used : ℕ → ℕ) (sliding : Option (Expiring (List ℕ)))
      → Tracks last used sliding
      → last ≤ now
      → Seen now used (or_else [] (read now sliding))
  read-Seen last now used none t h = record {
    seen_before = tt;
    seen_counts = λ time k. t.counts time (omega (arith, h, k));
  }
  read-Seen last now used (some key) t h = elim (Bool-cases (ltb now key.expires_at)) [
    | inl fresh ↦ rw fresh (record {
      seen_before = All-weaken _ _ key.value (λ score b. omega (arith, b, h)) t.before;
      seen_counts = λ time k. t.counts time (omega (arith, h, k));
    })
    | inr gone ↦ rw gone (record {
      seen_before = tt;
      seen_counts = λ time k.
          sym (
            recent_count-past time key.value
              (All-weaken _ _ key.value (λ score e. ground (arith, e, gone, k)) t.expires))
          ∙ t.counts time (omega (arith, h, k));
    })
  ]

  pub recent-Seen :
      (now : ℕ) (used : ℕ → ℕ) (scores : List ℕ)
      → Seen now used scores
      → Seen now used (filter (is_recent window_ms now) scores)
  recent-Seen now used scores s = record {
    seen_before = All-kept _ _ scores s.seen_before;
    seen_counts = λ time k. recent_count-filter now time scores k ∙ s.seen_counts time k;
  }

  pub keep_until-Tracks :
      (now : ℕ) (used : ℕ → ℕ) (scores : List ℕ)
      → Seen now used scores
      → Tracks now used (keep_until (now + window_ms) scores)
  keep_until-Tracks now used [] s = record { before = tt; expires = tt; counts = s.seen_counts }
  keep_until-Tracks now used (score ∷ scores) s = record {
    before = s.seen_before;
    expires = All-weaken _ _ (score ∷ scores) (λ x b. omega (arith, b)) s.seen_before;
    counts = s.seen_counts;
  }

  -- A request that is admitted at a time is in every window that ends then or later, up to its length.
  abbrev pub with_request : ℕ → (ℕ → ℕ) → ℕ → ℕ
  with_request now used time =
      if leb now time && is_recent window_ms time now then used time + 1 else used time

  pub request-Seen :
      (now : ℕ) (used : ℕ → ℕ) (scores : List ℕ)
      → Seen now used scores
      → Seen now (with_request now used) (now ∷ scores)
  request-Seen now used scores s = record {
    seen_before = (omega arith, s.seen_before);
    seen_counts = λ time k. let c = s.seen_counts time k in ground (arith, c, k);
  }

  -- No window holds more than the limit, and later windows hold no more of what was admitted.
  pub record Limited (limit last : ℕ) (used : ℕ → ℕ) : Type 0 where
    pub within : (time : ℕ) → used time ≤ limit
    pub falls : (time later : ℕ) → last ≤ time → time ≤ later → used later ≤ used time

  pub request-Limited :
      (limit last now : ℕ) (used : ℕ → ℕ)
      → Limited limit last used
      → last ≤ now
      → used now + 1 ≤ limit
      → Limited limit now (with_request now used)
  request-Limited limit last now used l h room = record {
    within = λ time. elim (Bool-cases (leb now time)) [
      | inl k ↦
          let k' : now ≤ time = ground (arith, k) in
          let f = l.falls now time h k' in ground (arith, f, room, l.within time)
      | inr k ↦ ground (arith, k, l.within time)
    ];
    falls = λ time later a b.
        let f = l.falls time later (omega (arith, a, h)) b in ground (arith, f, a, b);
  }

  -- Time that passes without a request.
  pub Tracks-later :
      (last now : ℕ) (used : ℕ → ℕ) (sliding : Option (Expiring (List ℕ)))
      → Tracks last used sliding
      → last ≤ now
      → Tracks now used sliding
  Tracks-later last now used sliding t h = record {
    before = All-weaken _ _ (scores_of sliding) (λ score b. omega (arith, b, h)) t.before;
    expires = t.expires;
    counts = λ time k. t.counts time (omega (arith, h, k));
  }

  pub Limited-later :
      (limit last now : ℕ) (used : ℕ → ℕ)
      → Limited limit last used
      → last ≤ now
      → Limited limit now used
  Limited-later limit last now used l h = record {
    within = l.within;
    falls = λ time later a b. l.falls time later (omega (arith, a, h)) b;
  }
