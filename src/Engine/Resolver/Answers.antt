-- ===== src/Engine/Resolver/Answers.antt =====
-- One question has one answer within a plan (internal/engine/plan.go, `usersFor`).
use tokayops.Prelude.{
  ℕ, ◌≡◌, refl, subst, inl, inr, Bool-cases, Option-cases, Option, none, some, List, [], ◌∷◌, Bytes,
  bytes_eq, bytes_eq_refl, bytes_eq→eq, Result, ok, err,
}
use tokayops.Engine.Types.{
  User, OnCall, TeamOnCallResult, ProjectionError, failure_reason_of, put, StoreError, PlanError,
  Services, Reading,
}
use tokayops.Engine.Roster.{unasked, fetched, learn, resolved, people}
use tokayops.Engine.Resolver.{
  on_duty, as_plan_error, hydrate_ids, hydrate, answered, ask_schedule, keep_team, keep_schedule,
  team_users_for, schedule_users_for, users_of_team, users_for,
}

-- What was answered in `s` is answered in `t`.
pub record Remembers {World : Type 0} (s t : Reading World) : Type 0 where
  pub of_team :
      (answer : Result PlanError (List User))
      → s.team_users ≡ some answer
      → t.team_users ≡ some answer
  pub of_schedule :
      (id : Bytes) (answer : Result PlanError (List User))
      → s.by_id id ≡ some answer
      → t.by_id id ≡ some answer

pub Remembers-refl : {World : Type 0} (s : Reading World) → Remembers s s
Remembers-refl s = record { of_team = λ a h. h; of_schedule = λ id a h. h }

pub Remembers-trans :
    {World : Type 0} (s t u : Reading World) → Remembers s t → Remembers t u → Remembers s u
Remembers-trans s t u h k = record {
  of_team = λ a e. k.of_team a (h.of_team a e);
  of_schedule = λ id a e. k.of_schedule id a (h.of_schedule id a e);
}

-- Learning about people leaves the schedules' answers alone.
abbrev pub KeepsAnswers : {World : Type 0} → Reading World → Reading World → Type 0
KeepsAnswers s t = (t.team_users ≡ s.team_users) × (t.by_id ≡ s.by_id)

module _ {World : Type 0} (services : Services World) where
  fetched-KeepsAnswers :
      (s : Reading World) (ask : List Bytes) (r : World × Result StoreError (List User))
      → KeepsAnswers s (fetched services s ask r).0
  fetched-KeepsAnswers s ask (w, err e) = (refl, refl)
  fetched-KeepsAnswers s ask (w, ok found) = (refl, refl)

  learn-KeepsAnswers :
      (s : Reading World) (ask : List Bytes) → KeepsAnswers s (learn services s ask).0
  learn-KeepsAnswers s [] = (refl, refl)
  learn-KeepsAnswers s (id ∷ ids) = fetched-KeepsAnswers s (id ∷ ids) _

  resolved-KeepsAnswers :
      (ids : List Bytes) (s : Reading World) (r : Reading World × Result StoreError (Unit {0}))
      → KeepsAnswers s r.0
      → KeepsAnswers s (resolved services ids r).0
  resolved-KeepsAnswers ids s (t, err e) h = h
  resolved-KeepsAnswers ids s (t, ok done) h = h

  pub people-KeepsAnswers :
      (ids : List Bytes) (s : Reading World) → KeepsAnswers s (people services ids s).0
  unfolding people
  people-KeepsAnswers ids s =
      resolved-KeepsAnswers ids s (learn services s (unasked s.known ids))
        (learn-KeepsAnswers s (unasked s.known ids))

  as_plan_error-KeepsAnswers :
      (s : Reading World) (r : Reading World × Result StoreError (List User))
      → KeepsAnswers s r.0
      → KeepsAnswers s (as_plan_error r).0
  as_plan_error-KeepsAnswers s (t, ok us) h = h
  as_plan_error-KeepsAnswers s (t, err e) h = h

  hydrate_ids-KeepsAnswers :
      (ids : List Bytes) (s : Reading World) → KeepsAnswers s (hydrate_ids services ids s).0
  hydrate_ids-KeepsAnswers [] s = (refl, refl)
  hydrate_ids-KeepsAnswers (id ∷ ids) s =
      as_plan_error-KeepsAnswers s (people services (id ∷ ids) s) (people-KeepsAnswers (id ∷ ids) s)

  pub hydrate-KeepsAnswers :
      (on_call : OnCall) (s : Reading World) → KeepsAnswers s (hydrate services on_call s).0
  unfolding hydrate
  hydrate-KeepsAnswers on_call s = hydrate_ids-KeepsAnswers (on_duty on_call.l1) s

  pub answered-KeepsAnswers :
      (s : Reading World) (r : Result ProjectionError OnCall)
      → KeepsAnswers s (answered services s r).0
  unfolding failure_reason_of
  answered-KeepsAnswers s (ok on_call) = hydrate-KeepsAnswers on_call s
  answered-KeepsAnswers s (err ProjectionError.snapshot_decode) = (refl, refl)
  answered-KeepsAnswers s (err ProjectionError.revision_metadata_decode) = (refl, refl)
  answered-KeepsAnswers s (err ProjectionError.revision_gap) = (refl, refl)
  answered-KeepsAnswers s (err ProjectionError.revision_overlap) = (refl, refl)
  answered-KeepsAnswers s (err ProjectionError.override_collision) = (refl, refl)
  answered-KeepsAnswers s (err ProjectionError.rotation) = (refl, refl)
  answered-KeepsAnswers s (err (ProjectionError.unread text)) = (refl, refl)

  -- An answer was there before it was asked for, or is kept.
  pub record Settles (asked : Reading World → Reading World × Result PlanError (List User))
      (s : Reading World) : Type 0 where
    pub remembers : Remembers s (asked s).0
    pub again : (t : Reading World) → Remembers (asked s).0 t → asked t ≡ (t, (asked s).1)

  settled :
      (asked : Reading World → Reading World × Result PlanError (List User)) (s : Reading World)
      (r : Reading World × Result PlanError (List User))
      → asked s ≡ r
      → Remembers s r.0
      → ((t : Reading World) → Remembers r.0 t → asked t ≡ (t, r.1))
      → Settles asked s
  settled asked s r e remembers again = record {
    remembers = rw e remembers;
    again = λ t h. rw e (
        again t
          (subst (λ (q : Reading World × Result PlanError (List User)). Remembers q.0 t) e h));
  }

  pub team_answered :
      (on_call : OnCall) (t : Reading World) {a : Result PlanError (List User)}
      → t.team_users ≡ some a
      → team_users_for services on_call t ≡ (t, a)
  team_answered on_call t h = rw h refl

  pub first_asked :
      (on_call : OnCall) (s : Reading World)
      → s.team_users ≡ none
      → team_users_for services on_call s ≡ keep_team services (hydrate services on_call s)
  first_asked on_call s unasked = rw unasked refl

  pub schedule_first_asked :
      (b : ℕ) (id : Bytes) (s : Reading World)
      → s.by_id (b ∷ id) ≡ none
      → schedule_users_for services (b ∷ id) s
        ≡ keep_schedule services (b ∷ id) (ask_schedule services (b ∷ id) s)
  schedule_first_asked b id s unasked = rw unasked refl

  team_users_for-Settles :
      (on_call : OnCall) (s : Reading World) → Settles (team_users_for services on_call) s
  team_users_for-Settles on_call s = elim (Option-cases s.team_users) [
    | inl unasked ↦
        let (team, by_id) = hydrate-KeepsAnswers on_call s in
        settled (team_users_for services on_call) s
          (keep_team services (hydrate services on_call s)) (first_asked on_call s unasked)
          (record { of_team = λ a h. cc; of_schedule = λ id a h. rw by_id h })
          (λ t h. team_answered on_call t (h.of_team (hydrate services on_call s).1 refl))
    | inr (a, known) ↦
        settled (team_users_for services on_call) s (s, a) (team_answered on_call s known)
          (Remembers-refl s) (λ t h. team_answered on_call t (h.of_team a known))
  ]

  pub schedule_answered :
      (b : ℕ) (id : Bytes) (t : Reading World) {a : Result PlanError (List User)}
      → t.by_id (b ∷ id) ≡ some a
      → schedule_users_for services (b ∷ id) t ≡ (t, a)
  schedule_answered b id t h = rw h refl

  put_self :
      {A : Type 0} (key : Bytes) (a : A) (table : Bytes → Option A) → put key a table key ≡ some a
  put_self key a table = rw (bytes_eq_refl key) refl

  put_other :
      {A : Type 0} (key other : Bytes) (a : A) (table : Bytes → Option A) {held : A}
      → table key ≡ none
      → table other ≡ some held
      → put key a table other ≡ some held
  put_other key other a table absent h = elim (Bool-cases (bytes_eq other key)) [
    | inl one ↦ let e = bytes_eq→eq other key one in cc
    | inr apart ↦ rw apart h
  ]

  keep_schedule-Remembers :
      (id : Bytes) (s : Reading World) (r : Reading World × Result PlanError (List User))
      → KeepsAnswers s r.0
      → s.by_id id ≡ none
      → Remembers s (keep_schedule services id r).0
  keep_schedule-Remembers id s (t, a) (team, by_id) absent = record {
    of_team = λ answer h. rw team h;
    of_schedule = λ other answer h. rw by_id (put_other id other a s.by_id absent h);
  }

  schedule_users_for-Settles :
      (id : Bytes) (s : Reading World) → Settles (schedule_users_for services id) s
  schedule_users_for-Settles [] s = record { remembers = Remembers-refl s; again = λ t h. refl }
  schedule_users_for-Settles (b ∷ id) s = elim (Option-cases (s.by_id (b ∷ id))) [
    | inl unasked ↦
        let r = ask_schedule services (b ∷ id) s in
        settled (schedule_users_for services (b ∷ id)) s (keep_schedule services (b ∷ id) r)
          (schedule_first_asked b id s unasked)
          (keep_schedule-Remembers (b ∷ id) s r (answered-KeepsAnswers _ _) unasked)
          (λ t h.
            schedule_answered b id t (h.of_schedule (b ∷ id) r.1 (put_self (b ∷ id) r.1 r.0.by_id)))
    | inr (a, known) ↦
        settled (schedule_users_for services (b ∷ id)) s (s, a) (schedule_answered b id s known)
          (Remembers-refl s) (λ t h. schedule_answered b id t (h.of_schedule (b ∷ id) a known))
  ]

  users_of_team-Settles :
      (on_call : OnCall) (schedule_id id : Bytes) (s : Reading World)
      → Settles (users_of_team services on_call schedule_id id) s
  users_of_team-Settles on_call [] id s = schedule_users_for-Settles id s
  users_of_team-Settles on_call (b ∷ schedule_id) id s = team_users_for-Settles on_call s

  -- One question has one answer: who is on duty for a step, asked again later in the plan, is who was
  -- named before, whatever the services would say by then; and asking again changes nothing.
  pub users_for-Settles :
      (team : TeamOnCallResult) (id : Bytes) (s : Reading World)
      → Settles (users_for services team id) s
  unfolding users_for
  users_for-Settles (err e) id s = record { remembers = Remembers-refl s; again = λ t h. refl }
  users_for-Settles (ok team) id s = users_of_team-Settles team.on_call team.schedule_id id s
