-- ===== src/Venue/History.antt =====
-- internal/venue/state.go: what the flags say of the readings so far.
use funding_carry.Prelude.{
  List, [], ◌∷◌, map, true, false, if◌then◌else◌, ◌≡◌, ◌↔◌, arith, ◌≢◌, refl, ap, sym, ◌∙◌, ◌++◌,
}
use funding_carry.Prelude.Int.{◌≤ℤ◌}
use funding_carry.Clock.{Time, Duration, time_sub}
use funding_carry.Venue.{
  Freshness, feed_ok, trade_ok, freshness, Row, Answer, failed, read, take_answer, State, Rows,
  Answers, staleness, new, refresh, run,
}

-- An independent account of one source: the timestamp of the newest row by a list of its answers, the
-- oldest answer first; a failed reading tells nothing.
abbrev pub last_seen : {R : Type 0} → Row R → Time → List (Answer R) → Time
last_seen kind t [] = t
last_seen kind t (failed ∷ later) = last_seen kind t later
last_seen kind t (read row ok ∷ later) = last_seen kind (if ok then kind.ts row else 0) later

-- A row was seen, and it is no older than the limit.
abbrev pub IsRecent : Time → Time → Duration → Type 0
IsRecent seen now limit = (seen ≢ 0) × (time_sub now seen ≤ℤ limit)

freshness-IsRecent :
    (at now : Time) (limit : Duration)
    → ((freshness at now limit).stale ≡ false) ↔ IsRecent at now limit
unfolding freshness
freshness-IsRecent at now limit = ground arith

module _ {R : Type 0} (kind : Row R) where
  ts-take_answer :
      (last : R) (a : Answer R)
      → kind.ts (take_answer kind last a) ≡ last_seen kind (kind.ts last) (a ∷ [])
  ts-take_answer last failed = refl
  ts-take_answer last (read row true) = refl
  ts-take_answer last (read row false) = kind.ts-none

  last_seen-cons :
      (t : Time) (a : Answer R) (later : List (Answer R))
      → last_seen kind t (a ∷ later) ≡ last_seen kind (last_seen kind t (a ∷ [])) later
  last_seen-cons t failed later = refl
  last_seen-cons t (read row ok) later = refl

  seen_later :
      (last : R) (a : Answer R) (later : List (Answer R)) (t : Time)
      → t ≡ last_seen kind (kind.ts (take_answer kind last a)) later
      → t ≡ last_seen kind (kind.ts last) (a ∷ later)
  seen_later last a later t e =
      e
      ∙ ap (λ u. last_seen kind u later) (ts-take_answer last a)
      ∙ sym (last_seen-cons (kind.ts last) a later)

module _ {V A B P : Type 0} (rows : Rows V A B P) (limit : Duration) where
  -- The timestamps of the four rows.
  abbrev pub IsSeen : State V A B P → State V A B P → List (Answers V A B P) → Type 0
  IsSeen s s' h =
      (rows.venue.ts s'.perp ≡ last_seen rows.venue (rows.venue.ts s.perp) (map (λ a. a.perp) h))
      × (rows.venue.ts s'.spot ≡ last_seen rows.venue (rows.venue.ts s.spot) (map (λ a. a.spot) h))
      × (rows.account.ts s'.account
          ≡ last_seen rows.account (rows.account.ts s.account) (map (λ a. a.account) h))
      × (rows.base.ts s'.wallet
          ≡ last_seen rows.base (rows.base.ts s.wallet) (map (λ a. a.wallet) h))

  run-IsSeen : (s : State V A B P) (h : List (Answers V A B P)) → IsSeen s (run rows limit s h) h
  unfolding run refresh
  run-IsSeen s [] = (refl, refl, refl, refl)
  run-IsSeen s (a ∷ h) =
      let rest = run-IsSeen (refresh rows limit s a).0 h in
      (
        seen_later rows.venue s.perp a.perp _ _ rest.0,
        seen_later rows.venue s.spot a.spot _ _ rest.1,
        seen_later rows.account s.account a.account _ _ rest.2,
        seen_later rows.base s.wallet a.wallet _ _ rest.3,
      )

  -- The flags of a refresh are computed from the rows that it leaves and from its clock.
  run-staleness :
      (s : State V A B P) (h : List (Answers V A B P)) (a : Answers V A B P)
      → (run rows limit s (h ++ a ∷ [])).staleness
        ≡ staleness rows (run rows limit s (h ++ a ∷ [])) a.now limit
  unfolding run refresh staleness
  run-staleness s [] a = refl
  run-staleness s (b ∷ h) a = run-staleness (refresh rows limit s b).0 h a

  module _ (h : List (Answers V A B P)) (a : Answers V A B P) where
    abbrev pub state : State V A B P
    state = run rows limit (new rows limit) (h ++ a ∷ [])

    abbrev perps : List (Answer V)
    perps = map (λ b. b.perp) (h ++ a ∷ [])

    abbrev spots : List (Answer V)
    spots = map (λ b. b.spot) (h ++ a ∷ [])

    abbrev accounts : List (Answer A)
    accounts = map (λ b. b.account) (h ++ a ∷ [])

    abbrev wallets : List (Answer B)
    wallets = map (λ b. b.wallet) (h ++ a ∷ [])

    -- Per source, from the answers alone: a row was seen and is recent at the last refresh.
    abbrev pub SeesMarket : Type 0
    SeesMarket =
        IsRecent (last_seen rows.venue 0 perps) a.now limit
        × IsRecent (last_seen rows.venue 0 spots) a.now limit

    abbrev pub SeesHoldings : Type 0
    SeesHoldings =
        IsRecent (last_seen rows.account 0 accounts) a.now limit
        × IsRecent (last_seen rows.base 0 wallets) a.now limit

    IsFlag : Freshness → Time → Type 0
    IsFlag f seen = (f.stale ≡ false) ↔ IsRecent seen a.now limit

    flag : (f : Freshness) (t seen : Time) → f ≡ freshness t a.now limit → t ≡ seen → IsFlag f seen
    unfolding IsFlag
    flag f t seen e q = rw e (rw q (freshness-IsRecent seen a.now limit))

    newest :
        {R : Type 0} (kind : Row R) (t : Time) (answers : List (Answer R))
        → t ≡ last_seen kind (kind.ts kind.none) answers
        → t ≡ last_seen kind 0 answers
    newest kind t answers e = e ∙ ap (λ u. last_seen kind u answers) kind.ts-none

    flags :
        IsFlag state.staleness.perp (last_seen rows.venue 0 perps)
        × IsFlag state.staleness.spot (last_seen rows.venue 0 spots)
        × IsFlag state.staleness.account (last_seen rows.account 0 accounts)
        × IsFlag state.staleness.wallet (last_seen rows.base 0 wallets)
    unfolding new staleness
    flags =
        let seen = run-IsSeen (new rows limit) (h ++ a ∷ []) in
        let e = run-staleness (new rows limit) h a in
        (
          flag _ _ _ (ap (λ s. s.perp) e) (newest rows.venue _ perps seen.0),
          flag _ _ _ (ap (λ s. s.spot) e) (newest rows.venue _ spots seen.1),
          flag _ _ _ (ap (λ s. s.account) e) (newest rows.account _ accounts seen.2),
          flag _ _ _ (ap (λ s. s.wallet) e) (newest rows.base _ wallets seen.3),
        )

    -- FeedOK after any history of refreshes of a new cache, the last of them `a`: it is true just
    -- if for the perp and for the spot product the newest row that a reading has shown is there and
    -- no older than the limit; a failed reading shows nothing, and takes nothing back.
    pub feed_ok-run : (feed_ok state.staleness ≡ true) ↔ SeesMarket
    unfolding feed_ok IsFlag
    feed_ok-run = (
      λ e. (flags.0.0 (ground arith), flags.1.0 (ground arith)),
      λ m. let p = flags.0.1 m.0 in let q = flags.1.1 m.1 in ground arith,
    )

    -- TradeOK after any history of refreshes: it is true just if the newest rows of all four sources
    -- are there and no older than the limit.
    pub trade_ok-run : (trade_ok state.staleness ≡ true) ↔ SeesMarket × SeesHoldings
    unfolding trade_ok feed_ok IsFlag
    trade_ok-run = (
      λ e. (
        (flags.0.0 (ground arith), flags.1.0 (ground arith)),
        (flags.2.0 (ground arith), flags.3.0 (ground arith)),
      ),
      λ m.
          let p = flags.0.1 m.0.0 in
          let q = flags.1.1 m.0.1 in
          let r = flags.2.1 m.1.0 in let t = flags.3.1 m.1.1 in ground arith,
    )
