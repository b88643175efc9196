-- ===== src/Engine/Plan/Growth.antt =====
-- What the roster and the team's answer keep of one another (internal/engine/plan.go, `usersFor`).
use tokayops.Prelude.{
  ◌≡◌, refl, sym, ap, ◌∙◌, subst, inl, inr, Option-cases, some, List, [], ◌∷◌, Bytes, Result, ok,
  err, arith,
}
use tokayops.Engine.Types.{
  User, OnCall, ProjectionError, failure_reason_of, StoreError, PlanError, Services, Reading,
}
use tokayops.Engine.Roster.{people}
use tokayops.Engine.Roster.Memory.{AnswersAsked, Extends, people-Extends, people_settle}
use tokayops.Engine.Resolver.{
  on_duty, as_plan_error, hydrate_ids, hydrate, answered, ask_schedule, team_users_for,
  schedule_users_for, users_of_team,
}
use tokayops.Engine.Resolver.Answers.{people-KeepsAnswers, team_answered, first_asked}
use tokayops.Engine.Steps.Loop.{ok_value}

module _ {World : Type 0} (services : Services World) (asked : AnswersAsked services)
    (on_call : OnCall) where
  -- The team's answer is what the roster said of its ids, and is known still.
  abbrev pub Faithful : Reading World → Type 0
  Faithful t =
      (us : List User)
      → t.team_users ≡ some (ok us)
      → (s : Reading World) × ((people services (on_duty on_call.l1) s).1 ≡ ok us)
        × Extends (people services (on_duty on_call.l1) s).0 t

  pub record Grows (s t : Reading World) : Type 0 where
    pub extends : Extends s t
    pub faithful : Faithful s → Faithful t

  pub Grows-trans : (s t u : Reading World) → Grows s t → Grows t u → Grows s u
  Grows-trans s t u h k = record {
    extends = λ id held e. k.extends id held (h.extends id held e);
    faithful = λ f. k.faithful (h.faithful f);
  }

  grown : (s t : Reading World) → Extends s t → t.team_users ≡ s.team_users → Grows s t
  grown s t more same = record {
    extends = more;
    faithful = λ f us e.
        let (at, told, known) = f us (sym same ∙ e) in
        (at, told, λ id held h. more id held (known id held h));
  }

  pub Grows-refl : (s : Reading World) → Grows s s
  Grows-refl s = grown s s (λ id held h. h) refl

  as_plan_error-state :
      (r : Reading World × Result StoreError (List User)) → (as_plan_error r).0 ≡ r.0
  as_plan_error-state (s, ok us) = refl
  as_plan_error-state (s, err e) = refl

  as_plan_error-ok :
      (r : Reading World × Result StoreError (List User)) {us : List User}
      → (as_plan_error r).1 ≡ ok us
      → r.1 ≡ ok us
  as_plan_error-ok (s, ok us) h = ground arith
  as_plan_error-ok (s, err e) h = ground arith

  hydrate_ids-Grows :
      (ids : List Bytes) (s : Reading World) → Grows s (hydrate_ids services ids s).0
  hydrate_ids-Grows [] s = Grows-refl s
  hydrate_ids-Grows (id ∷ ids) s = rw as_plan_error-state (
      grown s (people services (id ∷ ids) s).0 (people-Extends services asked (id ∷ ids) s)
        (people-KeepsAnswers services (id ∷ ids) s).0)

  hydrate-Grows : (oc : OnCall) (s : Reading World) → Grows s (hydrate services oc s).0
  unfolding hydrate
  hydrate-Grows oc s = hydrate_ids-Grows (on_duty oc.l1) s

  hydrate_ids-ok :
      (ids : List Bytes) (s : Reading World) {us : List User}
      → (hydrate_ids services ids s).1 ≡ ok us
      → ((people services ids s).1 ≡ ok us)
        × ((people services ids s).0 ≡ (hydrate_ids services ids s).0)
  unfolding people
  hydrate_ids-ok [] s h = (cc (ok_value h), refl)
  hydrate_ids-ok (id ∷ ids) s h = (as_plan_error-ok _ h, sym (as_plan_error-state _))

  answered-Grows :
      (s : Reading World) (r : Result ProjectionError OnCall) → Grows s (answered services s r).0
  unfolding failure_reason_of
  answered-Grows s (ok oc) = hydrate-Grows oc s
  answered-Grows s (err ProjectionError.snapshot_decode) = Grows-refl s
  answered-Grows s (err ProjectionError.revision_metadata_decode) = Grows-refl s
  answered-Grows s (err ProjectionError.revision_gap) = Grows-refl s
  answered-Grows s (err ProjectionError.revision_overlap) = Grows-refl s
  answered-Grows s (err ProjectionError.override_collision) = Grows-refl s
  answered-Grows s (err ProjectionError.rotation) = Grows-refl s
  answered-Grows s (err (ProjectionError.unread text)) = Grows-refl s

  ask_schedule-Grows : (id : Bytes) (s : Reading World) → Grows s (ask_schedule services id s).0
  ask_schedule-Grows id s =
      let r = services.current_on_call s.world id in
      let read = record s { world = r.0 } in
      Grows-trans s read _ (grown s read (λ i held h. h) refl) (answered-Grows read r.1)

  team_users_for-Grows : (s : Reading World) → Grows s (team_users_for services on_call s).0
  unfolding hydrate
  team_users_for-Grows s = elim (Option-cases s.team_users) [
    | inl unasked ↦
        let grows = hydrate_ids-Grows (on_duty on_call.l1) s in
        subst (λ (q : Reading World × Result PlanError (List User)). Grows s q.0)
          (sym (first_asked services on_call s unasked))
          (record {
            extends = grows.extends;
            faithful = λ f us e.
                let (told, state) = hydrate_ids-ok (on_duty on_call.l1) s (cc e) in
                (
                  s,
                  told,
                  λ id held h. subst (λ (u : Reading World). u.known id ≡ some held) state h,
                );
          })
    | inr (a, known) ↦
        subst (λ (q : Reading World × Result PlanError (List User)). Grows s q.0)
          (sym (team_answered services on_call s known)) (Grows-refl s)
  ]

  schedule_users_for-Grows :
      (id : Bytes) (s : Reading World) → Grows s (schedule_users_for services id s).0
  schedule_users_for-Grows [] s = Grows-refl s
  schedule_users_for-Grows (b ∷ id) s = elim (Option-cases (s.by_id (b ∷ id))) [
    | inl unasked ↦
        let r = ask_schedule services (b ∷ id) s in
        rw unasked
          (Grows-trans s r.0 _ (ask_schedule-Grows (b ∷ id) s) (grown r.0 _ (λ i held h. h) refl))
    | inr (a, known) ↦ rw known (Grows-refl s)
  ]

  pub users_of_team-Grows :
      (schedule_id id : Bytes) (s : Reading World)
      → Grows s (users_of_team services on_call schedule_id id s).0
  users_of_team-Grows [] id s = schedule_users_for-Grows id s
  users_of_team-Grows (b ∷ schedule_id) id s = team_users_for-Grows s

  -- The roster, asked for the team's ids now, says what the team's answer was.
  pub team_answer-people :
      (t : Reading World) {us : List User}
      → Faithful t
      → (team_users_for services on_call t).1 ≡ ok us
      → (people services (on_duty on_call.l1) t).1 ≡ ok us
  unfolding hydrate
  team_answer-people t {us} f h = elim (Option-cases t.team_users) [
    | inl unasked ↦
        (hydrate_ids-ok (on_duty on_call.l1) t (
          ap (λ (q : Reading World × Result PlanError (List User)). q.1)
            (sym (first_asked services on_call t unasked))
          ∙ h)).0
    | inr (a, known) ↦
        let said : t.team_users ≡ some (ok us) =
          known ∙ ap (λ (x : Result PlanError (List User)). some x) (rw known at h) in
        let (s, told, later) = f us said in
        ap (λ (r : Reading World × Result StoreError (List User)). r.1)
          (people_settle services (on_duty on_call.l1) s t told later)
  ]
