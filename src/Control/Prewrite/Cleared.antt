-- ===== src/Control/Prewrite/Cleared.antt =====
-- internal/control/execution.go (writeOnce) and skip.go (prepareSkip): what was checked of a command
-- that is handed to the connection.
use heos_control.Prelude.{
  ℕ, ◌<◌, ◌≡◌, refl, subst, sym, Bool, true, false, ◌&&◌, not, Option, none, some, arith, if_both,
  if_known, is_empty, Time, if◌then◌else◌, ◌==◌, leb,
}
use heos_control.Heos.Values.{MutationKind, is_writable, mutation_kind_eq}
use heos_control.Heos.Snapshot.{Token, Snapshot}
use heos_control.Heos.Mutations.{Mutation}
use heos_control.Control.Errors.{Err}
use heos_control.Control.Membership.{owned_changes}
use heos_control.Control.Queue.{queue_extension}
use heos_control.Control.Queue.Complete.{complete_queue}
use heos_control.Control.Safety.{PlayerConfig, IsControllable, mutation_safety, mutation_safety_lem}
use heos_control.Control.Skip.{skip_admissible}
use heos_control.Control.Attribution.{Attribution}
use heos_control.Control.Write.{Execution, Observed, read, broken}
use heos_control.Control.Prewrite.{
  Plan, Surroundings, Gate, passed, held, guarded, append_limited, playback_limited, early_problem,
  own_state, refuse_skip, prepared, prepare_skip, checked, gate_passed, observed, start, prewrite,
  is_buffered, linked,
}
use heos_control.Control.Prewrite.Laws.{
  Sending, WhenSent, WhenSent-map, IsPrepared, IsOwned, own_state-IsOwned,
}

-- A command that is sent after an observation `seen` that passed the checks, by an operation that
-- expected `expected`.
pub record IsChecked (config : PlayerConfig) (s : Surroundings) (p : Plan) (m : Mutation)
    (expected seen : Snapshot) (owned : Bool) (sent : Mutation) (t : Token) (d : ℕ)
    (shown : Snapshot) (r : Execution) : Type 0 where
  pub prior : Snapshot
  pub preparation : IsPrepared config s m expected seen prior shown
  pub ownership : IsOwned s p owned m prior shown sent t d shown r

abbrev Checked :
    PlayerConfig → Surroundings → Plan → Mutation → Snapshot → Snapshot → Execution → Sending
Checked config s p m expected seen r = IsChecked config s p m expected seen r.link.queue_owned

module _ (config : PlayerConfig) (s : Surroundings) (p : Plan) (m : Mutation)
    (expected seen : Snapshot) (r : Execution) where
  own_state-IsChecked :
      (prior fresh : Snapshot)
      → IsPrepared config s m expected seen prior fresh
      → WhenSent (Checked config s p m expected seen r) (own_state s p m prior fresh r)
  own_state-IsChecked prior fresh i =
      WhenSent-map (IsOwned s p r.link.queue_owned m prior fresh)
        (Checked config s p m expected seen r)
        (λ sent t d shown after o. record {
          prior = prior;
          preparation = subst (IsPrepared config s m expected seen prior) (sym o.armed.same) i;
          ownership =
              subst (λ x. IsOwned s p r.link.queue_owned m prior x sent t d shown after)
                (sym o.armed.same) o;
        })
        _ (own_state-IsOwned s p m prior fresh r)

  refuse_skip-IsChecked :
      (e : Err) (before : Snapshot)
      → WhenSent (Checked config s p m expected seen r) (refuse_skip p e before seen r)
  unfolding refuse_skip
  refuse_skip-IsChecked Err.not_skippable before =
      let P = WhenSent (Checked config s p m expected seen r) in
      if_both P (not (is_buffered p.buffered)) _ _ refl
        (if_both P (is_empty (owned_changes r.link.queue_owned before seen)) _ _ refl refl)
  refuse_skip-IsChecked _ before = refl

  prepared-IsChecked :
      (full : Snapshot) (e : Option Err)
      → (m.kind == MutationKind.skip) ≡ true
      → complete_queue s.pages s.connected s.current seen ≡ some full
      → skip_admissible config.volume_ceiling m.direction full ≡ e
      → WhenSent
          (Checked config s p m expected seen r)
          (prepared config s p m expected seen full r e)
  unfolding prepared
  prepared-IsChecked full (some e) k h a = refuse_skip-IsChecked e expected
  prepared-IsChecked full none k h a =
      if_known
        (λ known. WhenSent (Checked config s p m expected seen r) (own_state s p m known full r))
        (queue_extension expected.queue full.queue) _ _
        (λ x. own_state-IsChecked _ full (IsPrepared.extended full k h a x))
        (λ x. own_state-IsChecked expected full (IsPrepared.completed full k h a))

  prepare_skip-IsChecked :
      (full : Option Snapshot)
      → (m.kind == MutationKind.skip) ≡ true
      → complete_queue s.pages s.connected s.current seen ≡ full
      → WhenSent
          (Checked config s p m expected seen r)
          (prepare_skip config s p m expected seen r full)
  unfolding prepare_skip
  prepare_skip-IsChecked none k h = refuse_skip-IsChecked s.page_error expected
  prepare_skip-IsChecked (some full) k h = prepared-IsChecked full _ k h refl

  checked-IsChecked :
      (e : Option Err)
      → WhenSent
          (λ sent t d shown after.
            (e ≡ none) × Checked config s p m expected seen r sent t d shown after)
          (checked config s p m expected seen r e)
  unfolding checked
  checked-IsChecked (some e) = refl
  checked-IsChecked none =
      WhenSent-map (Checked config s p m expected seen r) _ (λ sent t d shown after c. (refl, c)) _
        (if_known (WhenSent (Checked config s p m expected seen r)) (m.kind == MutationKind.skip) _
          _ (λ k. prepare_skip-IsChecked _ k refl)
          (λ k. own_state-IsChecked expected seen (IsPrepared.as_seen k)))

three_pass :
    (a b c : Bool) (x y z : Err) (e : Option Err)
    → (if a then some x else if b then some y else if c then some z else e) ≡ none
    → (a ≡ false) × ((b ≡ false) × ((c ≡ false) × (e ≡ none)))
three_pass a b c x y z e h = ground arith

pub early_problem-none :
    (config : PlayerConfig) (s : Surroundings) (p : Plan) (r : Execution) (m : Mutation)
    (fresh : Snapshot) (waited : Bool)
    → early_problem config s p r m fresh waited ≡ none
    → ((waited && m.kind == MutationKind.volume) ≡ false)
      × (((append_limited p m && leb p.append_until s.append_checked) ≡ false)
          × (((playback_limited p r m && leb p.playback_deadline s.playback_checked) ≡ false)
              × (mutation_safety config fresh (m.kind == MutationKind.skip) ≡ none)))
unfolding early_problem
early_problem-none config s p r m fresh waited h = three_pass _ _ _ _ _ _ _ h

in_time :
    (limited : Bool) (end now : Time)
    → limited ≡ true
    → (limited && leb end now) ≡ false
    → now < end
in_time limited end now l h = ground arith

-- A command that is handed to the connection, with all that was checked of it.
pub record IsCleared (config : PlayerConfig) (s : Surroundings) (p : Plan) (m : Mutation)
    (r : Execution) (sent : Mutation) (t : Token) (d : ℕ) (shown : Snapshot) (after : Execution)
    : Type 0 where
  pub active : s.cause ≡ none
  pub first : Snapshot
  pub met : Attribution
  pub seen : Snapshot
  pub waited : Bool
  pub resumed : Attribution
  pub read_first : s.reading r ≡ (read first, met)
  pub gated : s.gate met.expected first (linked r met) ≡ (passed seen waited, resumed)
  pub volume_at_once : (waited && m.kind == MutationKind.volume) ≡ false
  pub before_fade : append_limited p m ≡ true → s.append_checked < p.append_until
  pub before_end :
      playback_limited p (linked r resumed) m ≡ true → s.playback_checked < p.playback_deadline
  pub safe : IsControllable config seen × (is_writable seen.state ≡ true)
  pub fit : Checked config s p m met.expected seen (linked r resumed) sent t d shown after

module _ (config : PlayerConfig) (s : Surroundings) (p : Plan) (m : Mutation) (r : Execution)
    (active : s.cause ≡ none) where
  gate_passed-IsCleared :
      (first : Snapshot) (met : Attribution) (g : Gate × Attribution)
      → s.reading r ≡ (read first, met)
      → s.gate met.expected first (linked r met) ≡ g
      → WhenSent (IsCleared config s p m r) (gate_passed config s p m met.expected (linked r met) g)
  unfolding gate_passed
  gate_passed-IsCleared first met (held e, l) q h = refl
  gate_passed-IsCleared first met (passed seen waited, l) q h =
      WhenSent-map _ (IsCleared config s p m r)
        (λ sent t d shown after c.
          let pass = early_problem-none config s p (linked r l) m seen waited c.0 in
          record {
            active = active;
            first = first;
            met = met;
            seen = seen;
            waited = waited;
            resumed = l;
            read_first = q;
            gated = h;
            volume_at_once = pass.0;
            before_fade = λ x. in_time _ _ _ x pass.1.0;
            before_end = λ x. in_time _ _ _ x pass.1.1.0;
            safe = mutation_safety_lem config seen (m.kind == MutationKind.skip) pass.1.1.1;
            fit = c.1;
          })
        _ (checked-IsChecked config s p m met.expected seen (linked r l) _)

  observed-IsCleared :
      (o : Observed × Attribution)
      → s.reading r ≡ o
      → WhenSent (IsCleared config s p m r) (observed config s p m r o)
  unfolding observed
  observed-IsCleared (broken e, met) q = refl
  observed-IsCleared (read first, met) q = gate_passed-IsCleared first met _ q refl

start-IsCleared :
    (config : PlayerConfig) (s : Surroundings) (p : Plan) (m : Mutation) (r : Execution)
    (cause : Option Err)
    → s.cause ≡ cause
    → WhenSent (IsCleared config s p m r) (start config s p m r cause)
unfolding start
start-IsCleared config s p m r (some e) q = refl
start-IsCleared config s p m r none q = observed-IsCleared config s p m r q _ refl

-- A command is handed to the connection only if the operation was not cancelled, its observation
-- shows a controllable device in a state that can be written, no control differs from what the
-- operation expected (after a skip's queue was read completely, up to that queue), the catalog of a
-- buffered plan is the current one, a removal keeps its entries, the journal has recorded it, and
-- the expectations are registered; it is addressed to the observed player and guarded by the token
-- of the observation, for at most five seconds and never past the start of the fade of an append or
-- a removal, nor past the end of the envelope of a fade step or a buffered skip.
pub prewrite-IsCleared :
    (config : PlayerConfig) (s : Surroundings) (p : Plan) (m : Mutation) (r : Execution)
    (sent : Mutation) (t : Token) (d : ℕ) (shown : Snapshot) (after : Execution)
    → prewrite config s p m r ≡ guarded sent t d shown after
    → IsCleared config s p m r sent t d shown after
unfolding prewrite
prewrite-IsCleared config s p m r sent t d shown after h =
    subst (WhenSent (IsCleared config s p m r)) h (start-IsCleared config s p m r _ refl)
