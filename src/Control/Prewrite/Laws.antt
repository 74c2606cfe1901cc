-- ===== src/Control/Prewrite/Laws.antt =====
-- internal/control/execution.go (writeOnce) and skip.go (prepareSkip): the guard of a command that is
-- handed to the connection, and the state that it relies on.
use heos_control.Prelude.{
  ℕ, ◌+◌, ◌*◌, ◌≤◌, ◌≡◌, inl, inr, refl, Bool, true, false, ◌&&◌, not, Option, none, some, arith,
  if_known, option_cases, is_empty, Time, second, ◌==◌,
}
use heos_control.Heos.Values.{MutationKind, mutation_kind_eq}
use heos_control.Heos.Snapshot.{Token, Snapshot}
use heos_control.Heos.Mutations.{Mutation}
use heos_control.Control.Errors.{Err}
use heos_control.Control.Membership.{owned_changes}
use heos_control.Control.Queue.{queue_extension}
use heos_control.Control.Queue.Complete.{complete_queue}
use heos_control.Control.Safety.{PlayerConfig}
use heos_control.Control.Skip.{skip_admissible}
use heos_control.Control.Attribution.{Attribution}
use heos_control.Control.Attribution.Expect.{expect}
use heos_control.Control.Write.{Execution}
use heos_control.Control.Prewrite.{
  Plan, Surroundings, Prewrite, refused, guarded, crashed, append_limited, playback_limited,
  time_left, guard_time, arm, journalled, removable, outdated, own_state,
}

abbrev pub Sending : Type 1
Sending = Mutation → Token → ℕ → Snapshot → Execution → Type 0

-- A statement about the command that is sent, if one is.
abbrev pub WhenSent : Sending → Prewrite → Type 0
WhenSent P (refused e r) = true ≡ true
WhenSent P (guarded m t d fresh r) = P m t d fresh r
WhenSent P crashed = true ≡ true

pub WhenSent-map :
    (P Q : Sending)
    → ((m : Mutation) (t : Token) (d : ℕ) (fresh : Snapshot) (r : Execution)
        → P m t d fresh r
        → Q m t d fresh r)
    → (x : Prewrite) → WhenSent P x
    → WhenSent Q x
WhenSent-map P Q f (refused e r) w = refl
WhenSent-map P Q f (guarded m t d fresh r) w = f m t d fresh r w
WhenSent-map P Q f crashed w = refl

-- What was registered, and the guard.
pub record IsArmed (s : Surroundings) (p : Plan) (m : Mutation) (fresh : Snapshot) (sent : Mutation)
    (t : Token) (d : ℕ) (shown : Snapshot) (r : Execution) : Type 0 where
  pub same : shown ≡ fresh
  pub addressed : sent ≡ record m { player = fresh.player.id }
  pub token : t ≡ fresh.token
  pub inflight : r.link.inflight ≡ true
  pub short : d ≤ 5 * second
  pub in_append : append_limited p m ≡ true → s.append_guarded + d ≤ p.append_until
  pub later : Execution
  pub in_playback : playback_limited p later m ≡ true → s.playback_guarded + d ≤ p.playback_deadline
  pub registered :
      (l : Attribution) × (expect m later.link ≡ some l) × (r.link ≡ record l { inflight = true })

time_left-bounded :
    (limited : Bool) (end now : Time) (d d' : ℕ)
    → time_left limited end now d ≡ some d'
    → (d' ≤ d) × (limited ≡ true → now + d' ≤ end)
unfolding time_left
time_left-bounded limited end now d d' h = (ground arith, λ l. ground (arith, l))

guard_time-bounded :
    (s : Surroundings) (p : Plan) (r : Execution) (m : Mutation) (d : ℕ)
    → guard_time s p r m ≡ some d
    → (d ≤ 5 * second)
      × ((append_limited p m ≡ true → s.append_guarded + d ≤ p.append_until)
          × (playback_limited p r m ≡ true → s.playback_guarded + d ≤ p.playback_deadline))
unfolding guard_time
guard_time-bounded s p r m d h =
    let first = time_left (append_limited p m) p.append_until s.append_guarded (5 * second) in
    elim (option_cases first) [
      | inl e ↦ ground (arith, h, e)
      | inr (d1, e) ↦
          let a =
            time_left-bounded (append_limited p m) p.append_until s.append_guarded (5 * second) d1
              e in
          let b =
            time_left-bounded (playback_limited p r m) p.playback_deadline s.playback_guarded d1 d
              (ground (arith, h, e)) in
          (omega (arith, a.0, b.0), (λ l. omega (arith, a.1 l, b.0), b.1))
    ]

arm-IsArmed :
    (s : Surroundings) (p : Plan) (m : Mutation) (fresh : Snapshot) (r : Execution)
    → WhenSent (IsArmed s p m fresh) (arm m fresh r (guard_time s p r m))
unfolding arm
arm-IsArmed s p m fresh r = elim (option_cases (guard_time s p r m)) [
  | inl e ↦ rw e refl
  | inr (d, e) ↦ elim (option_cases (expect m r.link)) [
    | inl n ↦ rw (e, n) refl
    | inr (l, n) ↦
        let b = guard_time-bounded s p r m d e in
        rw (e, n)
          (record {
            same = refl;
            addressed = refl;
            token = refl;
            inflight = refl;
            short = b.0;
            in_append = b.1.0;
            later = r;
            in_playback = b.1.1;
            registered = (l, n, refl);
          })
  ]
]

journalled-IsArmed :
    (s : Surroundings) (p : Plan) (m : Mutation) (fresh : Snapshot) (r : Execution) (j : Option Err)
    → WhenSent
        (λ sent t d shown after. (j ≡ none) × IsArmed s p m fresh sent t d shown after)
        (journalled s p m fresh r j)
unfolding journalled
journalled-IsArmed s p m fresh r (some e) = refl
journalled-IsArmed s p m fresh r none =
    WhenSent-map (IsArmed s p m fresh) _ (λ sent t d shown after a. (refl, a)) _
      (arm-IsArmed s p m fresh _)

-- What was checked of the observation that the command relies on, against the state `prior` that
-- the operation owned.
pub record IsOwned (s : Surroundings) (p : Plan) (owned : Bool) (m : Mutation)
    (prior fresh : Snapshot) (sent : Mutation) (t : Token) (d : ℕ) (shown : Snapshot)
    (r : Execution) : Type 0 where
  pub armed : IsArmed s p m fresh sent t d shown r
  pub recorded : s.journal ≡ none
  pub unchanged : is_empty (owned_changes owned prior fresh) ≡ true
  pub catalog : outdated p m fresh ≡ false
  pub removal : (m.kind == MutationKind.remove) ≡ true → removable p.buffered fresh m ≡ true

pub own_state-IsOwned :
    (s : Surroundings) (p : Plan) (m : Mutation) (prior fresh : Snapshot) (r : Execution)
    → WhenSent (IsOwned s p r.link.queue_owned m prior fresh) (own_state s p m prior fresh r)
unfolding own_state
own_state-IsOwned s p m prior fresh r =
    let P = WhenSent (IsOwned s p r.link.queue_owned m prior fresh) in
    let changes = owned_changes r.link.queue_owned prior fresh in
    let is_removal = m.kind == MutationKind.remove in
    if_known P (outdated p m fresh) _ _ (λ h. refl)
      (λ catalog.
        if_known P (not (is_empty changes)) _ _ (λ h. refl)
          (λ unchanged.
            if_known P (is_removal && not (removable p.buffered fresh m)) _ _ (λ h. refl)
              (λ removal.
                WhenSent-map _ (IsOwned s p r.link.queue_owned m prior fresh)
                  (λ sent t d shown after a. record {
                    armed = a.1;
                    recorded = a.0;
                    unchanged = ground (arith, unchanged);
                    catalog = catalog;
                    removal = λ h. ground (arith, h, removal);
                  })
                  _ (journalled-IsArmed s p m fresh _ s.journal))))

-- The observation of a skip is completed by the pages of the queue.
pub data IsPrepared (config : PlayerConfig) (s : Surroundings) (m : Mutation)
    (prior seen : Snapshot) : Snapshot → Snapshot → Type 0 where
  as_seen : (m.kind == MutationKind.skip) ≡ false → IsPrepared config s m prior seen prior seen
  completed :
      (full : Snapshot)
      → (m.kind == MutationKind.skip) ≡ true
      → complete_queue s.pages s.connected s.current seen ≡ some full
      → skip_admissible config.volume_ceiling m.direction full ≡ none
      → IsPrepared config s m prior seen prior full
  extended :
      (full : Snapshot)
      → (m.kind == MutationKind.skip) ≡ true
      → complete_queue s.pages s.connected s.current seen ≡ some full
      → skip_admissible config.volume_ceiling m.direction full ≡ none
      → queue_extension prior.queue full.queue ≡ true
      → IsPrepared config s m prior seen (record prior { queue = full.queue }) full
