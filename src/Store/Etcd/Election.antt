-- ===== src/Store/Etcd/Election.antt =====
-- `EtcdStore.RunLeaderElection` (internal/store/store.go), a turn of its loop for each unit of fuel. `on_leader`
-- is the function that it is given; the goroutine that cancels that function's context is part of it.
use ha.Base.{
  ◌-◌, String, ◌<>◌, ℕ, zero, suc, ◌≤◌, ◌<◌, ◌≡◌, refl, Option, none, some, Option-cases, inl, inr,
  arith,
}
use ha.Exec.{Result, ok, err}
use ha.Exec.Ends.{Ends}
use ha.Store.Etcd.{Session, EtcdStore}

module _ {W : Type 0} (s : EtcdStore W) (on_leader : W → W) (id : String) where
  abbrev election_key : String
  election_key = s.prefix <> "/leader"

  -- What `ctx.Err()` makes of the rest: the text with which the function returns, or the rest.
  unfoldable pub unless_over : Option String → W → Option String × W → Option String × W
  unless_over (some e) w rest = (some e, w)
  unless_over none w rest = rest

  -- After an error.
  unfoldable pub retry : W → Option String × W
  unfolding unless_over
  retry w = unless_over (s.client.ctx_err w) w (none, s.client.sleep w)

  unfoldable pub campaigned : Session → Result (Unit {0}) → W → Option String × W
  unfolding retry
  campaigned session (err e) w = retry (s.client.close_session session w)
  campaigned session (ok done) w =
      (none, s.client.close_session session (s.client.resign session election_key (on_leader w)))

  unfoldable pub with_session : Result Session → W → Option String × W
  unfolding retry campaigned
  with_session (err e) w = retry w
  with_session (ok session) w =
      let (r, w') = s.client.campaign session election_key id w in campaigned session r w'

  -- The body of the loop, whose session lives for 10 seconds.
  unfoldable pub election_turn : W → Option String × W
  unfolding with_session
  election_turn w = let (r, w') = s.client.new_session 10 w in with_session r w'

  -- What comes after a turn, where `again` is the rest of the loop.
  unfoldable pub turned : (W → Option String × W) → Option String → W → Option String × W
  turned again (some e) w = (some e, w)
  turned again none w = again w

  -- The text of the error with which the function returns, or `none` where the fuel runs out.
  unfoldable pub run_leader_election : ℕ → W → Option String × W
  unfolding election_turn turned unless_over
  run_leader_election zero w = (none, w)
  run_leader_election (suc fuel) w =
      let rest = run_leader_election fuel in
      let (r, w') = election_turn w in unless_over (s.client.ctx_err w) w (turned rest r w')

  -- What a process holds: nothing, a session, or with it the leadership, which alone lets `on_leader` run.
  -- `left` counts the time until the context ends, in units that are no longer than the shortest round trip to
  -- etcd in which a session is opened, nor than the sleep after an error; the other calls may take no time.
  pub record Terms : Type 1 where
    pub Idle : W → Type 0
    pub Open : Session → W → Type 0
    pub Elected : Session → W → Type 0
    pub left : W → ℕ
    pub expired : (w : W) → s.client.ctx_err w ≡ none → 0 < left w
    pub new_session :
        (w : W) → Idle w → Ends (λ session. Open session) Idle (s.client.new_session 10 w)
    pub campaign :
        (session : Session) (w : W)
        → Open session w
        → Ends
            (λ _. Elected session)
            (Open session)
            (s.client.campaign session (s.prefix <> "/leader") id w)
    pub lead : (session : Session) (w : W) → Elected session w → Elected session (on_leader w)
    pub resign :
        (session : Session) (w : W)
        → Elected session w
        → Open session (s.client.resign session (s.prefix <> "/leader") w)
    pub close :
        (session : Session) (w : W) → Open session w → Idle (s.client.close_session session w)
    pub sleep : (w : W) → Idle w → Idle (s.client.sleep w)
    pub time_new : (w : W) → left (s.client.new_session 10 w).1 ≤ left w
    pub time_opened :
        (session : Session) (w : W)
        → (s.client.new_session 10 w).0 ≡ ok session
        → left (s.client.new_session 10 w).1 ≤ left w - 1
    pub time_campaign :
        (session : Session) (w : W)
        → left (s.client.campaign session (s.prefix <> "/leader") id w).1 ≤ left w
    pub time_lead : (w : W) → left (on_leader w) ≤ left w
    pub time_resign :
        (session : Session) (w : W)
        → left (s.client.resign session (s.prefix <> "/leader") w) ≤ left w
    pub time_close : (session : Session) (w : W) → left (s.client.close_session session w) ≤ left w
    pub time_sleep : (w : W) → left (s.client.sleep w) ≤ left w - 1

  module _ (t : Terms) where
    -- A turn that ends idle and returns only with the error of the context; one that goes on has taken time.
    abbrev Round : ℕ → Option String → W → Type 0
    Round n (some e) w = (s.client.ctx_err w ≡ some e) × t.Idle w
    Round n none w = t.Idle w × (t.left w < n)

    retry-Round :
        (n : ℕ) (w : W) → 0 < n → t.Idle w → t.left w ≤ n → Round n (retry w).0 (retry w).1
    unfolding retry unless_over
    retry-Round n w positive idle most = elim (Option-cases (s.client.ctx_err w)) [
      | inl going ↦
          rw going (t.sleep w idle, omega (arith, t.time_sleep w, t.expired w going, most))
      | inr (e, over) ↦ rw over (over, idle)
    ]

    campaigned-Round :
        (n : ℕ) (session : Session) (r : Result (Unit {0})) (w : W)
        → Ends (λ _. t.Elected session) (t.Open session) (r, w)
        → t.left w < n
        → Round n (campaigned session r w).0 (campaigned session r w).1
    unfolding campaigned
    campaigned-Round n session (err e) w h most =
        retry-Round n _ (omega (arith, most)) (t.close session w h.how)
          (omega (arith, t.time_close session w, most))
    campaigned-Round n session (ok done) w h most = (
      t.close session _ (t.resign session _ (t.lead session w h.how)),
      omega (
        arith,
        t.time_close session (s.client.resign session election_key (on_leader w)),
        t.time_resign session (on_leader w),
        t.time_lead w,
        most,
      ),
    )

    with_session-Round :
        (n : ℕ) (r : Result Session) (w : W)
        → 0 < n
        → Ends (λ session. t.Open session) t.Idle (r, w)
        → t.left w ≤ n
        → ((session : Session) → r ≡ ok session → t.left w < n)
        → Round n (with_session r w).0 (with_session r w).1
    unfolding with_session
    with_session-Round n (err e) w positive h most opened = retry-Round n w positive h.how most
    with_session-Round n (ok session) w positive h most opened =
        campaigned-Round n session _ _ (t.campaign session w h.how)
          (omega (arith, t.time_campaign session w, opened session refl))

    -- The function has returned with the error of the context, and holds nothing.
    unfoldable pub Returned : Option String × W → Type 0
    Returned (r, w) = (e : String) × (r ≡ some e) × (s.client.ctx_err w ≡ some e) × t.Idle w

    turned-Returned :
        (n : ℕ) (again : W → Option String × W) (r : Option String) (w : W)
        → ((v : W) → t.Idle v → t.left v < n → Returned (again v))
        → Round n r w
        → Returned (turned again r w)
    unfolding turned Returned
    turned-Returned n again (some e) w go (over, idle) = (e, refl, over, idle)
    turned-Returned n again none w go (idle, less) = go w idle less

    -- Where the context ends after a bounded time, of which each session that is opened and each sleep after an error
    -- take at least one unit, there is more fuel than units, and what the process holds goes the way that etcd
    -- documents of sessions and elections: `RunLeaderElection` returns with the error of the context and holds
    -- neither a session nor the leadership, also where the function that leads returns at once.
    pub run_leader_election-Returned :
        (fuel : ℕ) (w : W) → t.Idle w → t.left w < fuel → Returned (run_leader_election fuel w)
    unfolding run_leader_election election_turn unless_over Returned
    run_leader_election-Returned zero w idle enough = absurd (omega (arith, enough))
    run_leader_election-Returned (suc fuel) w idle enough =
        elim (Option-cases (s.client.ctx_err w)) [
          | inr (e, over) ↦ rw over (e, refl, over, idle)
          | inl going ↦ rw going (
              turned-Returned fuel (run_leader_election fuel) _ _
                (λ v i less. run_leader_election-Returned fuel v i less)
                (with_session-Round fuel _ _ (omega (arith, t.expired w going, enough))
                  (t.new_session w idle) (omega (arith, t.time_new w, enough))
                  (λ session e.
                    omega (arith, t.time_opened session w e, t.expired w going, enough))))
        ]
