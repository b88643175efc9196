-- ===== src/Engine/Roster/Memory.antt =====
-- What a plan learned about a person it does not unlearn (internal/engine/plan.go, `roster.people`).
use tokayops.Prelude.{
  true, false, ◌≡◌, refl, ap, ◌∙◌, ◌⊎◌, inl, inr, Bool-cases, Option-cases, Option, none, some,
  List, [], ◌∷◌, any, All, Bytes, bytes_eq, bytes_eq_refl, bytes_eq→eq, Result, ok, err, arith,
}
use tokayops.Engine.Types.{User, Table, put, StoreError, Services, Reading}
use tokayops.Engine.Roster.{
  unasked, with_person, remember_absent, remember_found, present, fetched, learn, resolved, people,
}

-- `GetUsersByIDs` selects by the ids that it is given: it returns nobody else.
abbrev pub AnswersAsked : {World : Type 0} → Services World → Type 0
AnswersAsked {World} services =
    (w : World) (ask : List Bytes) (found : List User)
    → (services.get_users w ask).1 ≡ ok found
    → All (λ u. any (bytes_eq u.id) ask ≡ true) found

-- What is known in `s` is known in `t`.
abbrev pub Extends : {World : Type 0} → Reading World → Reading World → Type 0
Extends s t = (id : Bytes) (held : Option User) → s.known id ≡ some held → t.known id ≡ some held

put_other :
    (key id : Bytes) (v : Option User) (known : Table (Option User))
    → bytes_eq id key ≡ false
    → put key v known id ≡ known id
put_other key id v known apart = rw apart refl

remember_absent-other :
    (ask : List Bytes) (known : Table (Option User)) (id : Bytes)
    → any (bytes_eq id) ask ≡ false
    → remember_absent known ask id ≡ known id
remember_absent-other [] known id apart = refl
remember_absent-other (key ∷ ask) known id apart =
    remember_absent-other ask (put key none known) id (ground arith)
    ∙ put_other key id none known (ground arith)

remember_found-other :
    (found : List User) (ask : List Bytes) (known : Table (Option User)) (id : Bytes)
    → All (λ u. any (bytes_eq u.id) ask ≡ true) found
    → any (bytes_eq id) ask ≡ false
    → remember_found known found id ≡ known id
remember_found-other [] ask known id asked apart = refl
remember_found-other (u ∷ us) ask known id asked apart =
    remember_found-other us ask (put u.id (some u) known) id asked.1 apart
    ∙ elim (Bool-cases (bytes_eq id u.id)) [
      | inl one ↦ let e = bytes_eq→eq id u.id one in cc
      | inr other ↦ put_other u.id id (some u) known other
    ]

unasked-unknown :
    (known : Table (Option User)) (ids : List Bytes) (id : Bytes)
    → any (bytes_eq id) (unasked known ids) ≡ true
    → known id ≡ none
unasked-unknown known [] id h = cc
unasked-unknown known (key ∷ ids) id h = elim (Option-cases (known key)) [
  | inl unknown ↦ elim (Bool-cases (bytes_eq id key)) [
    | inl one ↦ rw (bytes_eq→eq id key one) unknown
    | inr other ↦
        let rest : any (bytes_eq id) (unasked known ids) ≡ true = rw (unknown, other) at h in
        unasked-unknown known ids id rest
  ]
  | inr (held, already) ↦ unasked-unknown known ids id (rw already at h)
]

-- An id that somebody was asked about, or that was known, is known.
abbrev IsKnown : Table (Option User) → Bytes → Type 0
IsKnown known id = (held : Option User) × (known id ≡ some held)

put-IsKnown :
    (known : Table (Option User)) (key id : Bytes) (v : Option User)
    → IsKnown known id
    → IsKnown (put key v known) id
put-IsKnown known key id v (held, h) = elim (Bool-cases (bytes_eq id key)) [
  | inl one ↦ (v, rw one refl)
  | inr other ↦ (held, put_other key id v known other ∙ h)
]

remember_absent-IsKnown :
    (ask : List Bytes) (known : Table (Option User)) (id : Bytes)
    → IsKnown known id ⊎ (any (bytes_eq id) ask ≡ true)
    → IsKnown (remember_absent known ask) id
remember_absent-IsKnown [] known id (inl h) = h
remember_absent-IsKnown [] known id (inr h) = cc
remember_absent-IsKnown (key ∷ ask) known id (inl h) =
    remember_absent-IsKnown ask (put key none known) id (inl (put-IsKnown known key id none h))
remember_absent-IsKnown (key ∷ ask) known id (inr h) = elim (Bool-cases (bytes_eq id key)) [
  | inl one ↦ remember_absent-IsKnown ask (put key none known) id (inl (none, rw one refl))
  | inr other ↦ remember_absent-IsKnown ask (put key none known) id (inr (rw other at h))
]

remember_found-IsKnown :
    (found : List User) (known : Table (Option User)) (id : Bytes)
    → IsKnown known id
    → IsKnown (remember_found known found) id
remember_found-IsKnown [] known id h = h
remember_found-IsKnown (u ∷ us) known id h =
    remember_found-IsKnown us (put u.id (some u) known) id (put-IsKnown known u.id id (some u) h)

held_or_pending :
    (known : Table (Option User)) (ids : List Bytes) (id : Bytes)
    → any (bytes_eq id) ids ≡ true
    → IsKnown known id ⊎ (any (bytes_eq id) (unasked known ids) ≡ true)
held_or_pending known [] id h = cc
held_or_pending known (key ∷ ids) id h = elim (Option-cases (known key)) [
  | inl unknown ↦ elim (Bool-cases (bytes_eq id key)) [
    | inl one ↦ inr (rw (unknown, one) refl)
    | inr other ↦ elim (held_or_pending known ids id (rw other at h)) [
      | inl there ↦ inl there
      | inr asked ↦ inr (rw (unknown, other) asked)
    ]
  ]
  | inr (held, already) ↦ elim (Bool-cases (bytes_eq id key)) [
    | inl one ↦ inl (held, rw (bytes_eq→eq id key one) already)
    | inr other ↦ elim (held_or_pending known ids id (rw other at h)) [
      | inl there ↦ inl there
      | inr asked ↦ inr (rw already asked)
    ]
  ]
]

nobody_left :
    (known : Table (Option User)) (ids : List Bytes)
    → ((id : Bytes) → any (bytes_eq id) ids ≡ true → IsKnown known id)
    → unasked known ids ≡ []
nobody_left known [] h = refl
nobody_left known (key ∷ ids) h =
    let (held, there) = h key (rw (bytes_eq_refl key) refl) in
    rw there (nobody_left known ids (λ id m. h id (ground (arith, m))))

Resolved-Extends :
    {World : Type 0} (s t : Reading World) (ids : List Bytes)
    → Extends s t
    → unasked s.known ids ≡ []
    → (unasked t.known ids ≡ []) × (present t.known ids ≡ present s.known ids)
Resolved-Extends s t [] more h = (refl, refl)
Resolved-Extends s t (id ∷ ids) more h = elim (Option-cases (s.known id)) [
  | inl unknown ↦ let not_empty : (id ∷ unasked s.known ids) ≡ [] = rw unknown at h in cc
  | inr (held, there) ↦
      let (left, same) = Resolved-Extends s t ids more (rw there at h) in
      let still = more id held there in
      (rw still left, rw (still, there) (ap (with_person (some held)) same))
]

module _ {World : Type 0} (services : Services World) where
  fetched-Extends :
      (s : Reading World) (ids : List Bytes) (r : World × Result StoreError (List User))
      → ((found : List User)
          → r.1 ≡ ok found
          → All (λ u. any (bytes_eq u.id) (unasked s.known ids) ≡ true) found)
      → Extends s (fetched services s (unasked s.known ids) r).0
  fetched-Extends s ids (w, err e) asked id held h = h
  fetched-Extends s ids (w, ok found) asked id held h =
      elim (Bool-cases (any (bytes_eq id) (unasked s.known ids))) [
        | inl was ↦ let unknown = unasked-unknown s.known ids id was in cc
        | inr apart ↦
            remember_found-other found (unasked s.known ids)
              (remember_absent s.known (unasked s.known ids)) id (asked found refl) apart
            ∙ (remember_absent-other (unasked s.known ids) s.known id apart ∙ h)
      ]

  -- What is left to ask is asked in one question; none, when nothing is left.
  learn-fetched :
      (s : Reading World) (ask : List Bytes)
      → (learn services s ask ≡ (s, ok tt)) × (ask ≡ [])
        ⊎ (learn services s ask ≡ fetched services s ask (services.get_users s.world ask))
  learn-fetched s [] = inl (refl, refl)
  learn-fetched s (id ∷ ids) = inr refl

  learn-Extends :
      AnswersAsked services
      → (s : Reading World) (ids : List Bytes)
      → Extends s (learn services s (unasked s.known ids)).0
  learn-Extends asked s ids = elim (learn-fetched s (unasked s.known ids)) [
    | inl (e, _) ↦ rw e (λ id held h. h)
    | inr e ↦
        rw e (fetched-Extends s ids _ (λ found h. asked s.world (unasked s.known ids) found h))
  ]

  fetched-covers :
      (s : Reading World) (ids : List Bytes) (r : World × Result StoreError (List User))
      → (fetched services s (unasked s.known ids) r).1 ≡ ok tt
      → unasked (fetched services s (unasked s.known ids) r).0.known ids ≡ []
  fetched-covers s ids (w, err e) h = ground arith
  fetched-covers s ids (w, ok found) h = nobody_left _ ids (λ id m.
      remember_found-IsKnown found (remember_absent s.known (unasked s.known ids)) id (
        remember_absent-IsKnown (unasked s.known ids) s.known id
          (held_or_pending s.known ids id m)))

  learn-covers :
      (s : Reading World) (ids : List Bytes)
      → (learn services s (unasked s.known ids)).1 ≡ ok tt
      → unasked (learn services s (unasked s.known ids)).0.known ids ≡ []
  learn-covers s ids h = elim (learn-fetched s (unasked s.known ids)) [
    | inl (e, nothing) ↦ rw e nothing
    | inr e ↦ rw e (fetched-covers s ids _ (rw e at h))
  ]

  resolved-state :
      (ids : List Bytes) (r : Reading World × Result StoreError (Unit {0}))
      → (resolved services ids r).0 ≡ r.0
  resolved-state ids (s, ok done) = refl
  resolved-state ids (s, err e) = refl

  resolved-ok :
      (ids : List Bytes) (r : Reading World × Result StoreError (Unit {0})) {us : List User}
      → (resolved services ids r).1 ≡ ok us
      → (r.1 ≡ ok tt) × (present r.0.known ids ≡ us)
  resolved-ok ids (s, ok tt) h = (refl, cc h)
  resolved-ok ids (s, err e) h = ground arith

  pub people-Extends :
      AnswersAsked services
      → (ids : List Bytes) (s : Reading World) → Extends s (people services ids s).0
  unfolding people
  people-Extends asked ids s = rw resolved-state (learn-Extends asked s ids)

  -- Once they are told, they are told the same people by whatever is known later.
  pub people_settle :
      (ids : List Bytes) (s t : Reading World) {us : List User}
      → (people services ids s).1 ≡ ok us
      → Extends (people services ids s).0 t
      → people services ids t ≡ (t, ok us)
  unfolding people
  people_settle ids s t h later =
      let r = learn services s (unasked s.known ids) in
      let (done, are) = resolved-ok ids r h in
      let (left, same) =
        Resolved-Extends r.0 t ids (rw (resolved-state ids r) at later) (learn-covers s ids done) in
      rw left (ap (λ (us : List User). (t, ok us)) (same ∙ are))
